-- ===== src/Expression/Service/Stored.antt =====
-- service.go and repo.go: what a submission that succeeds has stored.
pub mod Tasks
pub mod Operations
use golang_service_architect.Common.{
  ℕ, ◌+◌, ◌≡◌, refl, sym, ap, ◌∙◌, subst, String, Bool, true, false, ◌&&◌, Option, none, some, List,
  [], ◌∷◌, ◌++◌, map, append-nil, append_assoc, length, Result, ok, err, ◌>>=◌, Result-cases,
  Bool-cases, inl, inr, ◌==◌, ==_iff,
}
use golang_service_architect.Apperrors.{Error}
use golang_service_architect.Float64.{Float64}
use golang_service_architect.Text.{Text}
use golang_service_architect.Validator.{validate_expression}
use golang_service_architect.Expression.Ast.{Op, Node, leaf, bin}
use golang_service_architect.Expression.Scanner.{parse}
use golang_service_architect.Expression.Task.{Task, TaskStatus, Uuid, is_ready}
use golang_service_architect.Expression.Planner.{plan}
use golang_service_architect.Expression.Planner.Layout.{plan-tasks_of}
use golang_service_architect.Messages.{Event, ExpressionStatus, AuditMessage}
use golang_service_architect.Persistent.Tables.{
  ExpressionRow, TaskRow, Payload, Db, update, has_expression, has_task, is_unfinished,
  mark_task_ready, finalize_expression_done, insert_outbox,
}
use golang_service_architect.Persistent.Enqueue.{
  Outside, in_tx, within, task_row, is_encodable, insert_expression, insert_task, insert_tasks,
  enqueue_task, enqueue_ready, enqueue_audit,
}
use golang_service_architect.Persistent.Repo.{
  create_expression, create_expression_tx, finalize_immediate, finalize_immediate_tx,
  expression_event,
}
use golang_service_architect.Persistent.Values.Transactions.{OkAll, OkAll-bind, OkAll-within}
use golang_service_architect.Expression.Service.{
  Request, pending_expression, answered_by, persist, submit, submitted_audit, immediate_audit,
}
use golang_service_architect.Expression.Service.Submission.{submit-cases}
use golang_service_architect.Expression.Service.Stored.Tasks.{
  unstarted, IsStored, IsStored-same, map-update, mark_ready-IsStored, AddsTasks,
  insert_tasks-appends, finalize-new, in_tx-ok,
}
use golang_service_architect.Expression.Service.Stored.Operations.{
  enqueue_audit-IsStored, enqueue_task-IsStored, enqueue_ready-IsStored, audited-IsStored, new_row,
  AddsExpression, insert_expression-appends, create_expression-IsStored,
  finalize_immediate-IsStored,
}

module _ (fl : Float64) where
  open fl use {F}

  -- A plan with a value has no tasks.
  immediate-tasks :
      (new_uuid : ℕ → Uuid) (id : Uuid) (k : ℕ) (n : Node F) (tasks : List (Task F)) (v : F)
      → plan new_uuid id k n ≡ ok (tasks, some v)
      → [] ≡ tasks
  unfolding plan
  immediate-tasks new_uuid id k (leaf w) tasks v h =
      ap (λ r. elim r [ ok (ts, x) ↦ ts | err e ↦ tasks ]) h
  immediate-tasks new_uuid id k (bin o l r) tasks v h =
      elim (plan-tasks_of new_uuid id k (bin o l r)) [
        | inl (few, planned) ↦ let q = sym planned ∙ h in absurd cc
        | inr (many, refused) ↦ let q = sym refused ∙ h in absurd cc
      ]

  -- What `Submit` returns: a pending expression, or a finished one where the plan has its value.
  abbrev pub submitted_row : Request → Text → Option F → ExpressionRow F
  submitted_row req raw none = pending_expression fl req raw
  submitted_row req raw (some v) = record (pending_expression fl req raw) {
    status = ExpressionStatus.done;
    result = some v;
  }

  answered-ok :
      (Holds : Db F → Type 0) (answer : Result Error (Unit {0}) × Db F) (row expr : ExpressionRow F)
      (event : Event F)
      → (answered_by fl answer row event).0 ≡ ok expr
      → (answer.0 ≡ ok tt → Holds answer.1)
      → (expr ≡ row) × Holds (answered_by fl answer row event).2
  answered-ok Holds (ok done, db) row expr event h holds =
      (ap (λ r. elim r [ ok x ↦ x | err e ↦ row ]) (sym h), holds refl)
  answered-ok Holds (err e, db) row expr event h holds = absurd cc

  persist-IsStored :
      (req : Request) (raw : Text) (n : Node F) (tasks : List (Task F)) (immediate : Option F)
      (db : Db F) (expr : ExpressionRow F)
      → plan req.new_uuid (req.new_uuid req.next) (req.next + 1) n ≡ ok (tasks, immediate)
      → (persist fl req raw tasks immediate db).0 ≡ ok expr
      → (expr ≡ submitted_row req raw immediate)
        × IsStored db
            (submitted_row req raw immediate)
            tasks
            (persist fl req raw tasks immediate db).2
  unfolding persist
  persist-IsStored req raw n tasks (some v) db expr planned h =
      let id = req.new_uuid req.next in
      let audit = submitted_audit fl req raw (length tasks) ∷ immediate_audit fl req v ∷ [] in
      answered-ok (IsStored db (submitted_row req raw (some v)) tasks)
        (finalize_immediate fl id raw req.trace_id v audit db) (submitted_row req raw (some v)) expr
        (expression_event fl id ExpressionStatus.done (some v) []) h
        (λ fine.
          subst
            (λ ts.
              IsStored db (submitted_row req raw (some v)) ts
                (finalize_immediate fl id raw req.trace_id v audit db).1)
            (immediate-tasks req.new_uuid id (req.next + 1) n tasks v planned)
            (finalize_immediate-IsStored fl id raw req.trace_id v audit db fine))
  persist-IsStored req raw n tasks none db expr planned h =
      let id = req.new_uuid req.next in
      let out : Outside = record { traceparent = req.traceparent; audit_id = id; now = req.now } in
      let audit = submitted_audit fl req raw (length tasks) ∷ [] in
      answered-ok (IsStored db (submitted_row req raw none) tasks)
        (create_expression fl out id raw req.trace_id tasks audit db) (submitted_row req raw none)
        expr (expression_event fl id ExpressionStatus.pending none []) h
        (create_expression-IsStored fl out id raw req.trace_id tasks audit db)

  -- A submission that returns an expression was accepted by the validator, the parser and the
  -- planner. The expression is pending, or finished with its value where the text is a number; and
  -- the database holds what it held before, then this expression, then a row for each task of the
  -- plan of the text's tree, with the columns of the task, and no other expression or task. Of the
  -- rows of tasks the statuses are left open.
  pub submit-IsStored :
      (req : Request) (raw : Text) (db : Db F) (expr : ExpressionRow F)
      → (submit fl req raw db).0 ≡ ok expr
      → (n : Node F) × (tasks : List (Task F)) × (immediate : Option F) × (validate_expression raw
          ≡ none)
        × (parse fl raw ≡ ok n)
        × (plan req.new_uuid (req.new_uuid req.next) (req.next + 1) n ≡ ok (tasks, immediate))
        × (expr ≡ submitted_row req raw immediate)
        × IsStored db expr tasks (submit fl req raw db).2
  submit-IsStored req raw db expr h = elim (submit-cases fl req raw db) [
    | inl (x, q) ↦ absurd (let clash = sym (ap (λ r. r.0) q) ∙ h in cc)
    | inr (n, tasks, immediate, v, p, planned, q) ↦
        let (same, stored) =
          persist-IsStored req raw n tasks immediate db expr planned (sym (ap (λ r. r.0) q) ∙ h) in
        (
          n,
          tasks,
          immediate,
          v,
          p,
          planned,
          same,
          subst
              (λ (r : Result Error (ExpressionRow F) × List (Event F) × Db F).
                IsStored db expr tasks r.2)
              (sym q)
              (subst (λ e. IsStored db e tasks (persist fl req raw tasks immediate db).2) (sym same)
                stored),
        )
  ]
