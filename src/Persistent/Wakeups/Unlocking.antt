-- ===== src/Persistent/Wakeups/Unlocking.antt =====
-- repo.go: a task that is enqueued and marked ready has its message, and the others keep waiting.
use golang_service_architect.Common.{
  ◌≡◌, refl, String, true, false, ◌&&◌, Option, none, some, List, [], ◌∷◌, ◌==◌, ==_iff, inl, inr,
  Bool-cases, arith,
}
use golang_service_architect.Common.Int.{is_zero_ℤ}
use golang_service_architect.Float64.{Float64}
use golang_service_architect.Expression.Ast.{Op}
use golang_service_architect.Expression.Task.{Uuid}
use golang_service_architect.Messages.{AuditMessage}
use golang_service_architect.Persistent.Tables.{
  TaskRow, Payload, Db, mark_task_ready, insert_outbox,
}
use golang_service_architect.Persistent.Enqueue.{enqueue_task, enqueue_audit, is_encodable}
use golang_service_architect.Persistent.Repo.{unlock_ready_dependents}
use golang_service_architect.Persistent.Settled.{and-false}
use golang_service_architect.Persistent.Values.Transactions.{OkAll, OkAll-bind}
use golang_service_architect.Persistent.Wakeups.{has_message, MissesOne, MissesOrListed, AreAwake}
use golang_service_architect.Persistent.Wakeups.Marking.{
  has_message-append, has_message-last, AreAwake-weaken, mark_task_ready-AreAwake,
}

module _ (fl : Float64) where
  open fl use {F, is_finite}

  -- Another message in the outbox.
  pub insert_outbox-AreAwake :
      (Wakes : TaskRow F → Type 0) (payload : Payload F) (db : Db F)
      → AreAwake Wakes db
      → AreAwake Wakes (insert_outbox payload db)
  insert_outbox-AreAwake Wakes payload db a =
      AreAwake-weaken Wakes Wakes db (insert_outbox payload db) refl
        (λ id h. has_message-append id db.outbox _ h) (λ t w. w) a

  pub enqueue_audit-AreAwake :
      (Wakes : TaskRow F → Type 0) (audit : List (AuditMessage F)) (db : Db F)
      → AreAwake Wakes db
      → OkAll (AreAwake Wakes) (enqueue_audit fl audit db)
  unfolding enqueue_audit
  enqueue_audit-AreAwake Wakes [] db a = a
  enqueue_audit-AreAwake Wakes (m ∷ audit) db a = elim (Bool-cases (is_encodable fl m.payload)) [
    | inl h ↦
        rw (enqueue_audit, h)
          (enqueue_audit-AreAwake Wakes audit (insert_outbox (Payload.audit m) db)
            (insert_outbox-AreAwake Wakes (Payload.audit m) db a))
    | inr h ↦ rw (enqueue_audit, h) tt
  ]

  -- A task that is enqueued has its message.
  pub enqueue_task-AreAwake :
      (Wakes : TaskRow F → Type 0) (trace : String) (id expr : Uuid) (op : Op) (x y : Option F)
      (db : Db F)
      → AreAwake Wakes db
      → OkAll
          (λ db'. AreAwake Wakes db' × (has_message id db'.outbox ≡ true))
          (enqueue_task fl trace id expr op x y db)
  unfolding enqueue_task
  enqueue_task-AreAwake Wakes trace id expr op none y db a = tt
  enqueue_task-AreAwake Wakes trace id expr op (some x) none db a = tt
  enqueue_task-AreAwake Wakes trace id expr op (some x) (some y) db a =
      elim (Bool-cases (is_finite x && is_finite y)) [
        | inr h ↦ rw h tt
        | inl h ↦ rw h (
          insert_outbox-AreAwake Wakes _ db a,
          has_message-last id db.outbox _ ((==_iff id id).1 refl),
        )
      ]

  -- Every listed row with nothing left to wait for is enqueued.
  pub unlock-AreAwake :
      (trace : String) (expr : Uuid) (deps : List (TaskRow F)) (db : Db F)
      → AreAwake (MissesOrListed deps) db
      → OkAll (λ s. AreAwake MissesOne s.1) (unlock_ready_dependents fl trace expr deps db)
  unfolding unlock_ready_dependents
  unlock-AreAwake trace expr [] db a =
      AreAwake-weaken (MissesOrListed []) MissesOne db db refl (λ id h. h)
        (λ t w. elim w [ inl m ↦ m | inr l ↦ absurd cc ]) a
  unlock-AreAwake trace expr (d ∷ deps) db a = elim (Bool-cases (is_zero_ℤ d.unmet_deps)) [
    | inl e ↦ rw e (
        OkAll-bind
          (λ db'. AreAwake (MissesOrListed (d ∷ deps)) db' × (has_message d.id db'.outbox ≡ true)) _
          (enqueue_task fl trace d.id expr d.op d.arg1_value d.arg2_value db) _
          (enqueue_task-AreAwake (MissesOrListed (d ∷ deps)) trace d.id expr d.op d.arg1_value
            d.arg2_value db a)
          (λ db' (awake, has).
            OkAll-bind (λ s. AreAwake MissesOne s.1) _
              (unlock_ready_dependents fl trace expr deps (mark_task_ready d.id db')) _
              (unlock-AreAwake trace expr deps (mark_task_ready d.id db') (
                mark_task_ready-AreAwake (MissesOrListed (d ∷ deps)) (MissesOrListed deps) d.id db'
                  has
                  (λ t other w. elim w [
                    | inl m ↦ inl m
                    | inr l ↦ inr (
                        let apart : (d.id == t.id) ≡ false = ground (arith, other) in rw apart at l)
                  ])
                  awake))
              (λ s h. h)))
    | inr e ↦ rw e (
        unlock-AreAwake trace expr deps db (
          AreAwake-weaken (MissesOrListed (d ∷ deps)) (MissesOrListed deps) db db refl (λ id h. h)
            (λ t w. elim w [ inl m ↦ inl m | inr l ↦ inr (rw (e, and-false) at l) ]) a))
  ]
