-- ===== src/Messages.antt =====
-- backend/internal/usecase/messages/messages.go and the entities that it names. Ids stand for their
-- text, and the time of an event is left out: nothing reads it back.
use golang_service_architect.Common.{ℕ, String, Option, List}
use golang_service_architect.Text.{Text}
use golang_service_architect.Apperrors.{Code}
use golang_service_architect.Expression.Ast.{Op}
use golang_service_architect.Expression.Task.{TaskStatus, Uuid}

pub data ExpressionStatus : Type 0 where
  pending in_progress done failed : ExpressionStatus

-- The strings of the statuses.
abbrev pub expression_status : ExpressionStatus → String
expression_status ExpressionStatus.pending = "pending"
expression_status ExpressionStatus.in_progress = "in_progress"
expression_status ExpressionStatus.done = "done"
expression_status ExpressionStatus.failed = "failed"

abbrev pub task_status : TaskStatus → String
task_status TaskStatus.pending = "pending"
task_status TaskStatus.ready = "ready"
task_status TaskStatus.running = "running"
task_status TaskStatus.done = "done"
task_status TaskStatus.failed = "failed"

pub record TaskMessage (F : Type 0) : Type 0 where
  pub task_id : Uuid
  pub expression_id : Uuid
  pub op : Op
  pub arg1 : F
  pub arg2 : F
  pub attempt : ℕ

-- A kind is a string in the source: the three that it names, or another one.
pub data ResultKind : Type 0 where
  started ok error : ResultKind
  other : String → ResultKind

pub record ResultMessage (F : Type 0) : Type 0 where
  pub kind : ResultKind
  pub task_id : Uuid
  pub expression_id : Uuid
  pub result : F
  pub error : Text
  pub error_code : Option Code
  pub worker_id : String
  pub attempt : ℕ
  pub compute_ms : ℕ

pub record Event (F : Type 0) : Type 0 where
  pub kind : String
  pub expression_id : Uuid
  pub task_id : Option Uuid
  pub status : String
  pub result : Option F
  pub error : Text
  pub worker_id : String

pub data AuditEventType : Type 0 where
  expression_submitted expression_done expression_failed : AuditEventType
  task_ready task_started task_done task_failed task_retried task_dead_lettered : AuditEventType
  pool_scaled api_access : AuditEventType

-- A value of the payload's `map[string]any`.
pub data Field (F : Type 0) : Type 0 where
  float : F → Field F
  text : Text → Field F
  name : String → Field F
  int : ℕ → Field F

pub record AuditMessage (F : Type 0) : Type 0 where
  pub id : Uuid
  pub occurred_at : ℕ
  pub type : AuditEventType
  pub service : String
  pub entity_type : String
  pub entity_id : Uuid
  pub trace_id : String
  pub actor : String
  pub payload : List (String × Field F)

-- `NewAudit`; `id` is what `uuid.New` returns there, and `now` the time.
abbrev pub new_audit :
    {F : Type 0}
    → Uuid
    → ℕ
    → AuditEventType
    → String
    → String
    → Uuid
    → String
    → List (String × Field F)
    → AuditMessage F
new_audit id now type service entity_type entity_id trace_id payload = record {
  id = id;
  occurred_at = now;
  type = type;
  service = service;
  entity_type = entity_type;
  entity_id = entity_id;
  trace_id = trace_id;
  actor = "";
  payload = payload;
}
