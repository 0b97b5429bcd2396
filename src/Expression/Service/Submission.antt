-- ===== src/Expression/Service/Submission.antt =====
-- service.go: what a submission leaves behind.
use golang_service_architect.Common.{
  ◌+◌, ◌≡◌, refl, sym, ap, ◌∙◌, Option, none, some, List, [], ◌∷◌, length, Result, ok, err,
  Result-cases, Option-cases, inl, inr, ◌⊎◌, String,
}
use golang_service_architect.Apperrors.{Error}
use golang_service_architect.Float64.{Float64}
use golang_service_architect.Text.{Text}
use golang_service_architect.Validator.{validate_expression}
use golang_service_architect.Expression.Ast.{Node}
use golang_service_architect.Expression.Scanner.{parse}
use golang_service_architect.Expression.Task.{Task, Uuid}
use golang_service_architect.Expression.Planner.{plan}
use golang_service_architect.Messages.{Event, AuditMessage}
use golang_service_architect.Persistent.Tables.{Db, ExpressionRow}
use golang_service_architect.Persistent.Enqueue.{in_tx, Outside}
use golang_service_architect.Persistent.Repo.{
  create_expression, create_expression_tx, finalize_immediate, finalize_immediate_tx,
}
use golang_service_architect.Expression.Service.{
  Request, answered_by, persist, submit, submitted_audit, immediate_audit,
}

-- A transaction that fails keeps the tables.
in_tx-rollback :
    {F A : Type 0} (f : Db F → Result Error (A × Db F)) (db : Db F) (e : Error)
    → (in_tx f db).0 ≡ err e
    → (in_tx f db).1 ≡ db
in_tx-rollback f db e h = elim (Result-cases (f db)) [
  | inl (s, q) ↦
      let ran : in_tx f db ≡ (ok s.0, s.1) = rw (in_tx, q) refl in
      absurd (let clash = sym (ap (λ r. r.0) ran) ∙ h in cc)
  | inr (x, q) ↦ rw (in_tx, q) refl
]

abbrev error_of : {A : Type 0} → Error → Result Error A → Error
error_of other (err e) = e
error_of other (ok a) = other

module _ (fl : Float64) where
  open fl use {F}

  answered-error :
      (answer : Result Error (Unit {0}) × Db F) (expr : ExpressionRow F) (event : Event F)
      (e : Error)
      → (answered_by fl answer expr event).0 ≡ err e
      → (answer.0 ≡ err e) × (answered_by fl answer expr event ≡ (err e, [], answer.1))
  answered-error (ok done, db) expr event e h = absurd (cc)
  answered-error (err x, db) expr event e h =
      let same : x ≡ e = ap (error_of e) h in (ap err same, ap (λ y. (err y, [], db)) same)

  create_expression-rollback :
      (out : Outside) (id : Uuid) (raw : Text) (trace : String) (tasks : List (Task F))
      (audit : List (AuditMessage F)) (db : Db F) (e : Error)
      → (create_expression fl out id raw trace tasks audit db).0 ≡ err e
      → (create_expression fl out id raw trace tasks audit db).1 ≡ db
  unfolding create_expression
  create_expression-rollback out id raw trace tasks audit db e =
      in_tx-rollback (create_expression_tx fl out id raw trace tasks audit) db e

  finalize_immediate-rollback :
      (id : Uuid) (raw : Text) (trace : String) (v : F) (audit : List (AuditMessage F)) (db : Db F)
      (e : Error)
      → (finalize_immediate fl id raw trace v audit db).0 ≡ err e
      → (finalize_immediate fl id raw trace v audit db).1 ≡ db
  unfolding finalize_immediate
  finalize_immediate-rollback id raw trace v audit db e =
      in_tx-rollback (finalize_immediate_tx fl id raw trace v audit) db e

  persist-error :
      (req : Request) (raw : Text) (tasks : List (Task F)) (immediate : Option F) (db : Db F)
      (e : Error)
      → (persist fl req raw tasks immediate db).0 ≡ err e
      → persist fl req raw tasks immediate db ≡ (err e, [], db)
  unfolding persist
  persist-error req raw tasks (some v) db e h =
      let (failed, all) = answered-error _ _ _ e h in
      all
      ∙ ap (λ d. (err e, [], d))
          (finalize_immediate-rollback (req.new_uuid req.next) raw req.trace_id v
            (submitted_audit fl req raw (length tasks) ∷ immediate_audit fl req v ∷ []) db e failed)
  persist-error req raw tasks none db e h =
      let (failed, all) = answered-error _ _ _ e h in
      all
      ∙ ap (λ d. (err e, [], d))
          (create_expression-rollback
            (record {
              traceparent = req.traceparent;
              audit_id = req.new_uuid req.next;
              now = req.now;
            })
            (req.new_uuid req.next) raw req.trace_id tasks
            (submitted_audit fl req raw (length tasks) ∷ []) db e failed)

  -- How far a submission comes.
  abbrev pub IsPlanned : Request → Text → Db F → Type 0
  IsPlanned req raw db =
      (ast : Node F) × (tasks : List (Task F)) × (immediate : Option F) × (validate_expression raw
        ≡ none)
      × (parse fl raw ≡ ok ast)
      × (plan req.new_uuid (req.new_uuid req.next) (req.next + 1) ast ≡ ok (tasks, immediate))
      × (submit fl req raw db ≡ persist fl req raw tasks immediate db)

  submit-persists :
      (req : Request) (raw : Text) (db : Db F) (ast : Node F) (tasks : List (Task F))
      (immediate : Option F)
      → validate_expression raw ≡ none
      → parse fl raw ≡ ok ast
      → plan req.new_uuid (req.new_uuid req.next) (req.next + 1) ast ≡ ok (tasks, immediate)
      → submit fl req raw db ≡ persist fl req raw tasks immediate db
  unfolding submit
  submit-persists req raw db ast tasks immediate v p q = rw (submit, v, p, q) refl

  pub submit-cases :
      (req : Request) (raw : Text) (db : Db F)
      → ((e : Error) × (submit fl req raw db ≡ (err e, [], db))) ⊎ IsPlanned req raw db
  unfolding submit
  submit-cases req raw db = elim (Option-cases (validate_expression raw)) [
    | inr (e, q) ↦ inl (e, rw (submit, q) refl)
    | inl v ↦ elim (Result-cases (parse fl raw)) [
      | inr (e, q) ↦ inl (e, rw (submit, v, q) refl)
      | inl (ast, p) ↦
          elim (Result-cases (plan req.new_uuid (req.new_uuid req.next) (req.next + 1) ast)) [
            | inr (e, q) ↦ inl (e, rw (submit, v, p, q) refl)
            | inl ((tasks, immediate), q) ↦ inr (
              ast,
              tasks,
              immediate,
              v,
              p,
              q,
              submit-persists req raw db ast tasks immediate v p q,
            )
          ]
    ]
  ]

  -- A submission that returns an error notifies of nothing and leaves the database as it was.
  pub submit-rollback :
      (req : Request) (raw : Text) (db : Db F) (e : Error)
      → (submit fl req raw db).0 ≡ err e
      → submit fl req raw db ≡ (err e, [], db)
  submit-rollback req raw db e h = elim (submit-cases req raw db) [
    | inl (x, q) ↦ q ∙ ap (λ y. (err y, [], db)) (ap (error_of e) (sym (ap (λ r. r.0) q) ∙ h))
    | inr (ast, tasks, immediate, v, p, planned, q) ↦
        q ∙ persist-error req raw tasks immediate db e (sym (ap (λ r. r.0) q) ∙ h)
  ]
