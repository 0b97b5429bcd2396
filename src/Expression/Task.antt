-- ===== src/Expression/Task.antt =====
-- backend/internal/entity/task.go: one operation of the task graph. The three timestamps, which
-- no code reads back, are left out. An id is the number of its 128 bits.
use golang_service_architect.Common.{ℕ, Bool, String, Option, ◌==◌}
use golang_service_architect.Expression.Ast.{Op}

pub data TaskStatus : Type 0 where
  pending ready running done failed : TaskStatus

abbrev pub Uuid : Type 0
Uuid = ℕ

pub record Task (F : Type 0) : Type 0 where
  pub id : Uuid
  pub expression_id : Uuid
  pub op : Op
  pub arg1_value : Option F
  pub arg1_task_id : Option Uuid
  pub arg2_value : Option F
  pub arg2_task_id : Option Uuid
  pub unmet_deps : ℕ
  pub status : TaskStatus
  pub result : Option F
  pub attempt : ℕ
  pub worker_id : String
  pub is_root : Bool

-- `Ready`
abbrev pub is_ready : {F : Type 0} → Task F → Bool
is_ready t = t.unmet_deps == 0
