-- ===== src/Persistent/Tables.antt =====
-- The tables of the main database and the queries on them (backend/internal/repo/persistent/sqlcgen).
-- A table is a list of rows. The timestamp columns are left out, but for whether an outbox row is
-- published: no query of these tests one otherwise, apart from the age in `PruneOutbox`.
use golang_service_architect.Common.{
  ℕ, ◌+◌, String, Bool, true, false, not, ◌&&◌, ◌||◌, Option, none, some, List, [], ◌∷◌, ◌++◌, ◌==◌,
  take, if◌then◌else◌,
}
use golang_service_architect.Common.Int.{ℤ, pred_ℤ}
use golang_service_architect.Text.{Text}
use golang_service_architect.Expression.Ast.{Op}
use golang_service_architect.Expression.Task.{TaskStatus, Uuid}
use golang_service_architect.Messages.{ExpressionStatus, TaskMessage, AuditMessage}

pub record ExpressionRow (F : Type 0) : Type 0 where
  pub id : Uuid
  pub raw : Text
  pub status : ExpressionStatus
  pub result : Option F
  pub error : Option Text
  pub trace_id : String

pub record TaskRow (F : Type 0) : Type 0 where
  pub id : Uuid
  pub expression_id : Uuid
  pub op : Op
  pub arg1_value : Option F
  pub arg1_task_id : Option Uuid
  pub arg2_value : Option F
  pub arg2_task_id : Option Uuid
  pub unmet_deps : ℤ
  pub status : TaskStatus
  pub result : Option F
  pub attempt : ℕ
  pub worker_id : String
  pub is_root : Bool

-- The payload is the value whose JSON the column holds; `Kind` is its column too.
pub data Payload (F : Type 0) : Type 0 where
  task : TaskMessage F → String → Payload F
  audit : AuditMessage F → Payload F
  unknown : String → Payload F

pub record OutboxRow (F : Type 0) : Type 0 where
  pub id : ℕ
  pub payload : Payload F
  pub published : Bool

pub record Db (F : Type 0) : Type 0 where
  pub expressions : List (ExpressionRow F)
  pub tasks : List (TaskRow F)
  pub outbox : List (OutboxRow F)
  pub next_outbox : ℕ  -- the identity column

-- `UPDATE … SET change WHERE test`.
unfoldable pub update {ℓ} : {R : Type ℓ} → (R → Bool) → (R → R) → List R → List R
update test change [] = []
update test change (r ∷ rows) = (if test r then change r else r) ∷ update test change rows

-- The rows that an update returns, as they are behind it.
unfoldable pub updated {ℓ} : {R : Type ℓ} → (R → Bool) → (R → R) → List R → List R
updated test change [] = []
updated test change (r ∷ rows) =
    let rest = updated test change rows in if test r then change r ∷ rest else rest

-- `WHERE` in a query that reads.
unfoldable pub select {ℓ} : {R : Type ℓ} → (R → Bool) → List R → List R
select test [] = []
select test (r ∷ rows) = let rest = select test rows in if test r then r ∷ rest else rest

abbrev pub names : Option Uuid → Uuid → Bool
names none id = false
names (some j) id = j == id

abbrev pub is_among : ℕ → List ℕ → Bool
is_among id [] = false
is_among id (j ∷ ids) = id == j || is_among id ids

abbrev pub is_open : TaskStatus → Bool
is_open TaskStatus.done = false
is_open TaskStatus.failed = false
is_open _ = true

abbrev pub is_pending : TaskStatus → Bool
is_pending TaskStatus.pending = true
is_pending _ = false

abbrev pub is_ready_or_running : TaskStatus → Bool
is_ready_or_running TaskStatus.ready = true
is_ready_or_running TaskStatus.running = true
is_ready_or_running _ = false

abbrev pub is_unfinished : ExpressionStatus → Bool
is_unfinished ExpressionStatus.pending = true
is_unfinished ExpressionStatus.in_progress = true
is_unfinished _ = false

abbrev pub is_waiting : ExpressionStatus → Bool
is_waiting ExpressionStatus.pending = true
is_waiting _ = false

module _ {F : Type 0} where
  -- The primary keys.
  abbrev pub has_expression : Uuid → List (ExpressionRow F) → Bool
  has_expression id [] = false
  has_expression id (e ∷ es) = e.id == id || has_expression id es

  abbrev pub has_task : Uuid → List (TaskRow F) → Bool
  has_task id [] = false
  has_task id (t ∷ ts) = t.id == id || has_task id ts

  -- CompleteTask
  abbrev pub completes : Uuid → TaskRow F → Bool
  completes id t = t.id == id && is_open t.status

  abbrev pub complete : F → TaskRow F → TaskRow F
  complete v t = record t { status = TaskStatus.done; result = some v }

  abbrev pub complete_task : Uuid → F → Db F → List (TaskRow F) × Db F
  complete_task id v db = (
    updated (completes id) (complete v) db.tasks,
    record db { tasks = update (completes id) (complete v) db.tasks },
  )

  -- FailTask
  abbrev pub fail : TaskRow F → TaskRow F
  fail t = record t { status = TaskStatus.failed }

  abbrev pub fail_task : Uuid → Db F → List (TaskRow F) × Db F
  fail_task id db = (
    updated (completes id) fail db.tasks,
    record db { tasks = update (completes id) fail db.tasks },
  )

  -- MarkTaskReady
  abbrev pub mark_task_ready : Uuid → Db F → Db F
  mark_task_ready id db = record db {
    tasks =
        update (λ t. t.id == id && is_pending t.status)
          (λ t. record t { status = TaskStatus.ready }) db.tasks;
  }

  -- MarkTaskRunning
  abbrev pub mark_task_running : Uuid → String → ℕ → Db F → Db F
  mark_task_running id worker attempt db = record db {
    tasks =
        update (λ t. t.id == id && is_ready_or_running t.status)
          (λ t. record t { status = TaskStatus.running; worker_id = worker; attempt = attempt })
          db.tasks;
  }

  -- FillArg1FromResult and FillArg2FromResult
  abbrev pub takes_arg1 : Uuid → TaskRow F → Bool
  takes_arg1 id t = names t.arg1_task_id id && is_pending t.status

  abbrev pub fill_arg1 : F → TaskRow F → TaskRow F
  fill_arg1 v t = record t { arg1_value = some v; unmet_deps = pred_ℤ t.unmet_deps }

  abbrev pub takes_arg2 : Uuid → TaskRow F → Bool
  takes_arg2 id t = names t.arg2_task_id id && is_pending t.status

  abbrev pub fill_arg2 : F → TaskRow F → TaskRow F
  fill_arg2 v t = record t { arg2_value = some v; unmet_deps = pred_ℤ t.unmet_deps }

  abbrev pub fill_arg1_from_result : Uuid → F → Db F → List (TaskRow F) × Db F
  fill_arg1_from_result id v db = (
    updated (takes_arg1 id) (fill_arg1 v) db.tasks,
    record db { tasks = update (takes_arg1 id) (fill_arg1 v) db.tasks },
  )

  abbrev pub fill_arg2_from_result : Uuid → F → Db F → List (TaskRow F) × Db F
  fill_arg2_from_result id v db = (
    updated (takes_arg2 id) (fill_arg2 v) db.tasks,
    record db { tasks = update (takes_arg2 id) (fill_arg2 v) db.tasks },
  )

  -- MarkExpressionInProgress
  abbrev pub mark_expression_in_progress : Uuid → Db F → Db F
  mark_expression_in_progress id db = record db {
    expressions =
        update (λ e. e.id == id && is_waiting e.status)
          (λ e. record e { status = ExpressionStatus.in_progress }) db.expressions;
  }

  -- FinalizeExpressionDone and FinalizeExpressionFailed
  abbrev pub finalize_expression_done : Uuid → F → Db F → Db F
  finalize_expression_done id v db = record db {
    expressions =
        update (λ e. e.id == id && is_unfinished e.status)
          (λ e. record e { status = ExpressionStatus.done; result = some v }) db.expressions;
  }

  abbrev pub finalize_expression_failed : Uuid → Text → Db F → Db F
  finalize_expression_failed id message db = record db {
    expressions =
        update (λ e. e.id == id && is_unfinished e.status)
          (λ e. record e { status = ExpressionStatus.failed; error = some message }) db.expressions;
  }

  -- InsertOutbox
  abbrev pub insert_outbox : Payload F → Db F → Db F
  insert_outbox payload db = record db {
    outbox = db.outbox ++ record { id = db.next_outbox; payload = payload; published = false } ∷ [];
    next_outbox = db.next_outbox + 1;
  }

  -- SelectOutboxBatch; the rows are in the order of their ids.
  abbrev pub select_outbox_batch : ℕ → Db F → List (OutboxRow F)
  select_outbox_batch limit db = take limit (select (λ r. not r.published) db.outbox)

  -- MarkOutboxPublished
  abbrev pub mark_outbox_published : List ℕ → Db F → Db F
  mark_outbox_published ids db = record db {
    outbox = update (λ r. is_among r.id ids) (λ r. record r { published = true }) db.outbox;
  }
