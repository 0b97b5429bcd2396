-- ===== src/Persistent/Values/Transactions.antt =====
-- repo.go: every transaction keeps the tables right.
use golang_service_architect.Common.{
  ◌≡◌, ap, ◌∙◌, ◌&&◌, Option, none, some, List, [], ◌∷◌, Result, Result-cases, ok, err, ◌>>=◌, All,
  Bool-cases, inl, inr, String,
}
use golang_service_architect.Common.Int.{is_zero_ℤ}
use golang_service_architect.Apperrors.{Error}
use golang_service_architect.Float64.{Float64}
use golang_service_architect.Worker.{apply}
use golang_service_architect.Expression.Task.{Uuid, TaskStatus}
use golang_service_architect.Messages.{AuditMessage}
use golang_service_architect.Persistent.Tables.{
  TaskRow, Payload, Db, mark_task_ready, insert_outbox,
}
use golang_service_architect.Persistent.Enqueue.{
  in_tx, within, enqueue_task, is_encodable, enqueue_audit,
}
use golang_service_architect.Persistent.Repo.{unlock_ready_dependents}
use golang_service_architect.Persistent.Values.{Meaning, IsValueOf, IsRight, AreRight}
use golang_service_architect.Persistent.Values.Rows.{
  status-IsRight, tasks-AreRight, insert_outbox-AreRight,
}

-- What holds of the state of a result, if it is none of an error.
abbrev pub OkAll : {S : Type 0} → (S → Type 0) → Result Error S → Type 0
OkAll Holds (ok s) = Holds s
OkAll Holds (err e) = Unit

module _ {S T : Type 0} (Holds : S → Type 0) (Also : T → Type 0) where
  pub OkAll-bind :
      (first : Result Error S) (next : S → Result Error T)
      → OkAll Holds first
      → ((s : S) → Holds s → OkAll Also (next s))
      → OkAll Also (first >>= next)
  OkAll-bind (ok s) next h k = k s h
  OkAll-bind (err e) next h k = tt

pub OkAll-within :
    {S : Type 0} (Holds : S → Type 0) (place : String) (r : Result Error S)
    → OkAll Holds r
    → OkAll Holds (within place r)
OkAll-within Holds place (ok s) h = h
OkAll-within Holds place (err e) h = tt

module _ (fl : Float64) (meaning : Meaning fl.F) where
  open fl use {F, is_finite}
  open meaning use {task_value, expression_of, expression_value}

  abbrev pub Right : Db F → Type 0
  Right db = AreRight fl meaning db

  pub in_tx-AreRight :
      {A : Type 0} (f : Db F → Result Error (A × Db F)) (db : Db F)
      → Right db
      → OkAll (λ s. Right s.1) (f db)
      → Right (in_tx f db).1
  in_tx-AreRight f db r h = elim (Result-cases (f db)) [
    | inl (s, done) ↦ rw (in_tx, done) (rw done at h)
    | inr (e, failed) ↦ rw (in_tx, failed) r
  ]

  pub enqueue_audit-AreRight :
      (audit : List (AuditMessage F)) (db : Db F)
      → Right db
      → OkAll Right (enqueue_audit fl audit db)
  unfolding enqueue_audit
  enqueue_audit-AreRight [] db r = r
  enqueue_audit-AreRight (a ∷ audit) db r = elim (Bool-cases (is_encodable fl a.payload)) [
    | inl h ↦
        rw (enqueue_audit, h)
          (enqueue_audit-AreRight audit (insert_outbox (Payload.audit a) db)
            (insert_outbox-AreRight fl meaning (Payload.audit a) db tt r))
    | inr h ↦ rw (enqueue_audit, h) tt
  ]

  pub audited-AreRight :
      {A : Type 0} (a : A) (audit : List (AuditMessage F)) (db : Db F)
      → Right db
      → OkAll (λ (s : A × Db F). Right s.1) (enqueue_audit fl audit db >>= λ db'. ok (a, db'))
  audited-AreRight a audit db r =
      OkAll-bind Right (λ (s : _ × Db F). Right s.1) (enqueue_audit fl audit db) _
        (enqueue_audit-AreRight audit db r) (λ db' h. h)

  -- A row is enqueued as a message that asks for its value.
  pub enqueue_task-AreRight :
      (trace : String) (t : TaskRow F) (expr : Uuid) (db : Db F)
      → IsRight fl meaning t
      → expr ≡ expression_of t.id
      → Right db
      → OkAll Right (enqueue_task fl trace t.id expr t.op t.arg1_value t.arg2_value db)
  unfolding enqueue_task
  enqueue_task-AreRight trace t expr db r same right = go t.arg1_value t.arg2_value r.arg1 r.arg2
    where
      go :
          (a b : Option F)
          → IsValueOf r.left a
          → IsValueOf r.right b
          → OkAll Right (enqueue_task fl trace t.id expr t.op a b db)
      go none b x y = tt
      go (some a) none x y = tt
      go (some a) (some b) x y = elim (Bool-cases (is_finite a && is_finite b)) [
        | inr h ↦ rw h tt
        | inl h ↦ rw h (
            insert_outbox-AreRight fl meaning _ db
              (
                r.value
                    ∙ ap (λ l. l >>= λ a. r.right >>= λ b. apply fl t.op a b) x
                    ∙ ap (λ l. l >>= λ b. apply fl t.op a b) y,
                same,
              )
              right)
      ]

  pub mark_ready-AreRight : (id : Uuid) (db : Db F) → Right db → Right (mark_task_ready id db)
  mark_ready-AreRight id db r =
      tasks-AreRight fl meaning _ _ db (λ t h k. status-IsRight fl meaning TaskStatus.ready t k) r

  -- Rows that a result fills are of its expression.
  abbrev pub AreUnlocked : Uuid → List (TaskRow F) → Type 0
  AreUnlocked expr = All (λ d. IsRight fl meaning d × (expr ≡ expression_of d.id))

  pub unlock-AreRight :
      (trace : String) (expr : Uuid) (deps : List (TaskRow F)) (db : Db F)
      → AreUnlocked expr deps
      → Right db
      → OkAll (λ s. Right s.1) (unlock_ready_dependents fl trace expr deps db)
  unfolding unlock_ready_dependents
  unlock-AreRight trace expr [] db h r = r
  unlock-AreRight trace expr (d ∷ deps) db ((right, same), h) r =
      elim (Bool-cases (is_zero_ℤ d.unmet_deps)) [
        | inr blocked ↦ rw blocked (unlock-AreRight trace expr deps db h r)
        | inl free ↦ rw free (
            OkAll-bind Right (λ s. Right s.1)
              (enqueue_task fl trace d.id expr d.op d.arg1_value d.arg2_value db) _
              (enqueue_task-AreRight trace d expr db right same r)
              (λ db₁ r₁.
                OkAll-bind (λ s. Right s.1) (λ s. Right s.1) _ _
                  (unlock-AreRight trace expr deps (mark_task_ready d.id db₁) h
                    (mark_ready-AreRight d.id db₁ r₁))
                  (λ s r₂. r₂)))
      ]
