-- ===== src/Persistent/Enqueue.antt =====
-- repo.go: the transactions of the main database, and what they insert and enqueue. A transaction is a function from the tables to an
-- error or to a result with new tables; `in_tx` keeps the old tables on an error. A query that
-- fails with its connection is such an error too, and is left out.
use Prim.Native.Nat.{min}
use golang_service_architect.Common.{
  ℕ, String, Bool, true, ◌&&◌, Option, none, some, List, [], ◌∷◌, ◌++◌, Result, ok, err, ◌>>=◌,
  if◌then◌else◌,
}
use golang_service_architect.Common.Int.{pos}
use golang_service_architect.Apperrors.{Error, plain, annotated}
use golang_service_architect.Float64.{Float64}
use golang_service_architect.Expression.Ast.{Op}
use golang_service_architect.Expression.Task.{Task, TaskStatus, Uuid, is_ready}
use golang_service_architect.Text.{Text}
use golang_service_architect.Messages.{ExpressionStatus, Field, AuditMessage}
use golang_service_architect.Persistent.Tables.{
  has_expression, has_task, TaskRow, Payload, Db, mark_task_ready, insert_outbox,
}

abbrev pub in_tx : {F A : Type 0} → (Db F → Result Error (A × Db F)) → Db F → Result Error A × Db F
in_tx f db = elim (f db) [ ok (a, db') ↦ (ok a, db') | err e ↦ (err e, db) ]

-- `fmt.Errorf("…: %w", err)` on the way out.
abbrev pub within {ℓ} : {S : Type ℓ} → String → Result Error S → Result Error S
within place (ok s) = ok s
within place (err e) = err (annotated place e)

-- What a call reads from outside: the traceparent of its context, the id that `uuid.New` returns
-- for an audit message, and the time.
pub record Outside : Type 0 where
  pub traceparent : String
  pub audit_id : Uuid
  pub now : ℕ

abbrev pub duplicate_key : Error
duplicate_key = plain "duplicate key value violates unique constraint"

abbrev pub no_parent : Error
no_parent = plain "insert or update on table tasks violates foreign key constraint"

abbrev pub unsupported_value : Error
unsupported_value = plain "json: unsupported value"

abbrev pub unresolved_args : Error
unresolved_args = plain "task enqueued with unresolved args"

module _ {F : Type 0} where
  -- InsertExpression
  unfoldable pub insert_expression : Uuid → Text → String → Db F → Result Error (Db F)
  insert_expression id raw trace db =
      if has_expression id db.expressions
      then err duplicate_key
      else ok (record db {
        expressions =
            db.expressions
            ++ record {
              id = id;
              raw = raw;
              status = ExpressionStatus.pending;
              result = none;
              error = none;
              trace_id = trace;
            }
              ∷ [];
      })

  -- The parameters that `CreateExpression` hands to InsertTask.
  abbrev pub task_row : Task F → TaskRow F
  task_row t = record {
    id = t.id;
    expression_id = t.expression_id;
    op = t.op;
    arg1_value = t.arg1_value;
    arg1_task_id = t.arg1_task_id;
    arg2_value = t.arg2_value;
    arg2_task_id = t.arg2_task_id;
    unmet_deps = pos (min t.unmet_deps 2);
    status = TaskStatus.pending;
    result = none;
    attempt = 0;
    worker_id = "";
    is_root = t.is_root;
  }

  -- InsertTask
  unfoldable pub insert_task : Task F → Db F → Result Error (Db F)
  insert_task t db =
      if has_task t.id db.tasks
      then err duplicate_key
      else if has_expression t.expression_id db.expressions
      then ok (record db { tasks = db.tasks ++ task_row t ∷ [] })
      else err no_parent

  unfoldable pub insert_tasks : List (Task F) → Db F → Result Error (Db F)
  unfolding insert_task
  insert_tasks [] db = ok db
  insert_tasks (t ∷ ts) db = within "insert task" (insert_task t db) >>= insert_tasks ts

module _ (fl : Float64) where
  open fl use {F, is_finite}

  -- `enqueueTask`, given the columns of the task that it reads.
  unfoldable pub enqueue_task :
      String → Uuid → Uuid → Op → Option F → Option F → Db F → Result Error (Db F)
  enqueue_task trace id expr_id op (some a) (some b) db =
      if is_finite a && is_finite b
      then ok (
          insert_outbox
            (Payload.task
              (record {
                task_id = id;
                expression_id = expr_id;
                op = op;
                arg1 = a;
                arg2 = b;
                attempt = 0;
              })
              trace)
            db)
      else err unsupported_value
  enqueue_task trace id expr_id op _ _ db = err unresolved_args

  abbrev pub is_encodable : List (String × Field F) → Bool
  is_encodable [] = true
  is_encodable ((k, Field.float v) ∷ fields) = is_finite v && is_encodable fields
  is_encodable ((k, _) ∷ fields) = is_encodable fields

  -- `enqueueAudit`
  unfoldable pub enqueue_audit : List (AuditMessage F) → Db F → Result Error (Db F)
  enqueue_audit [] db = ok db
  enqueue_audit (a ∷ audit) db =
      let rest = enqueue_audit audit (insert_outbox (Payload.audit a) db) in
      if is_encodable a.payload then rest else err unsupported_value

  -- The second loop of `CreateExpression`: tasks without dependencies are enqueued.
  unfoldable pub enqueue_ready : String → List (Task F) → Db F → Result Error (Db F)
  unfolding enqueue_task
  enqueue_ready trace [] db = ok db
  enqueue_ready trace (t ∷ ts) db =
      let enqueued =
        enqueue_task trace t.id t.expression_id t.op t.arg1_value t.arg2_value db >>= λ db'.
        enqueue_ready trace ts (mark_task_ready t.id db') in
      let skipped = enqueue_ready trace ts db in if is_ready t then enqueued else skipped
