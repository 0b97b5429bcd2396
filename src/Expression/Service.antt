-- ===== src/Expression/Service.antt =====
-- backend/internal/usecase/expression/service.go: submission, over the validator, the parser, the
-- planner and the store of repo.go. The notifier's calls are the list of events.
pub mod Reads
pub mod Submission
pub mod Stored
pub mod Outcome
pub mod Progress
pub mod Completion
mod Tests
use golang_service_architect.Common.{
  ℕ, suc, ◌+◌, ◌*◌, ◌-◌, String, Bool, true, false, ◌||◌, Option, none, some, List, [], ◌∷◌, length,
  Result, ok, err, ltb, ◌==◌, if◌then◌else◌, ◌≡◌, refl, sym, ap, ◌∙◌, Result-cases, Option-cases,
  inl, inr,
}
use golang_service_architect.Apperrors.{Error}
use golang_service_architect.Float64.{Float64}
use golang_service_architect.Text.{Text}
use golang_service_architect.Validator.{validate_expression}
use golang_service_architect.Expression.Ast.{Node}
use golang_service_architect.Expression.Scanner.{parse}
use golang_service_architect.Expression.Task.{Task, Uuid}
use golang_service_architect.Expression.Planner.{plan}
use golang_service_architect.Messages.{
  ExpressionStatus, Event, AuditEventType, Field, AuditMessage, new_audit,
}
use golang_service_architect.Persistent.Tables.{Db, ExpressionRow}
use golang_service_architect.Persistent.Enqueue.{Outside}
use golang_service_architect.Persistent.Repo.{
  create_expression, finalize_immediate, expression_event,
}

-- What `Submit` reads from outside: its context's traceparent and trace id, the ids of `uuid.New`
-- from the number `next` on, and the time.
pub record Request : Type 0 where
  pub traceparent : String
  pub trace_id : String
  pub new_uuid : ℕ → Uuid
  pub next : ℕ
  pub now : ℕ

module _ (fl : Float64) where
  open fl use {F}

  -- `entity.Expression`, with the columns of its row.
  abbrev pub pending_expression : Request → Text → ExpressionRow F
  pending_expression req raw = record {
    id = req.new_uuid req.next;
    raw = raw;
    status = ExpressionStatus.pending;
    result = none;
    error = none;
    trace_id = req.trace_id;
  }

  abbrev pub submitted_audit : Request → Text → ℕ → AuditMessage F
  submitted_audit req raw tasks =
      new_audit (req.new_uuid (req.next + 1 + tasks)) req.now AuditEventType.expression_submitted
        "orchestrator" "expression" (req.new_uuid req.next) req.trace_id
        (("raw", Field.text raw) ∷ ("tasks", Field.int tasks) ∷ [])

  abbrev pub immediate_audit : Request → F → AuditMessage F
  immediate_audit req v =
      new_audit (req.new_uuid (req.next + 2)) req.now AuditEventType.expression_done "orchestrator"
        "expression" (req.new_uuid req.next) req.trace_id (("result", Field.float v) ∷ [])

  -- The end of `Submit`: the answer of the store, what to return and the event to notify.
  abbrev pub answered_by :
      Result Error (Unit {0}) × Db F
      → ExpressionRow F
      → Event F
      → Result Error (ExpressionRow F) × List (Event F) × Db F
  answered_by (err e, db) expr event = (err e, [], db)
  answered_by (ok done, db) expr event = (ok expr, event ∷ [], db)

  -- `Submit` with the plan: a taskless expression has its value at once.
  unfoldable pub persist :
      Request
      → Text
      → List (Task F)
      → Option F
      → Db F
      → Result Error (ExpressionRow F) × List (Event F) × Db F
  unfolding create_expression finalize_immediate
  persist req raw tasks (some v) db =
      let id = req.new_uuid req.next in
      answered_by
        (finalize_immediate fl id raw req.trace_id v
          (submitted_audit req raw (length tasks) ∷ immediate_audit req v ∷ []) db)
        (record (pending_expression req raw) { status = ExpressionStatus.done; result = some v })
        (expression_event fl id ExpressionStatus.done (some v) [])
  persist req raw tasks none db =
      let id = req.new_uuid req.next in
      answered_by
        (create_expression fl
          (record { traceparent = req.traceparent; audit_id = id; now = req.now }) id raw
          req.trace_id tasks (submitted_audit req raw (length tasks) ∷ []) db)
        (pending_expression req raw) (expression_event fl id ExpressionStatus.pending none [])

  -- `Submit`
  unfoldable pub submit :
      Request → Text → Db F → Result Error (ExpressionRow F) × List (Event F) × Db F
  unfolding validate_expression parse persist
  submit req raw db = elim (validate_expression raw) [
    | some e ↦ (err e, [], db)
    | none ↦ elim (parse fl raw) [
      | err e ↦ (err e, [], db)
      | ok ast ↦ elim (plan req.new_uuid (req.new_uuid req.next) (req.next + 1) ast) [
        | err e ↦ (err e, [], db)
        | ok (tasks, immediate) ↦ persist req raw tasks immediate db
      ]
    ]
  ]

-- `List`: the page size and the offset that it asks the store for. A page is not negative here.
abbrev pub max_page_size : ℕ
max_page_size = 200

abbrev pub page_bounds : ℕ → ℕ → ℕ × ℕ
page_bounds page_size page =
    let size = if page_size == 0 || ltb max_page_size page_size then 20 else page_size in
    (size, page * size)
