-- ===== src/Persistent/Wakeups/Results.antt =====
-- repo.go: the reports of the agents and the relay keep every row awake.
use golang_service_architect.Common.{
  ◌≡◌, refl, sym, ap, ◌∙◌, Bool, true, false, some, List, [], ◌∷◌, ◌++◌, Result, ok, ◌>>=◌,
  Result-cases, ◌==◌, inl, inr, Bool-cases, if◌then◌else◌,
}
use golang_service_architect.Float64.{Float64}
use golang_service_architect.Expression.Task.{TaskStatus, Uuid}
use golang_service_architect.Messages.{ResultMessage, Event, AuditMessage}
use golang_service_architect.Persistent.Tables.{
  TaskRow, Db, update, updated, completes, complete, takes_arg1, takes_arg2, fill_arg1, fill_arg2,
  complete_task, mark_expression_in_progress, finalize_expression_done, fill_arg1_from_result,
  fill_arg2_from_result,
}
use golang_service_architect.Persistent.Evolution.{has_no_open}
use golang_service_architect.Persistent.Enqueue.{Outside, in_tx, enqueue_audit}
use golang_service_architect.Persistent.Repo.{
  unlock_ready_dependents, finish_result, fan_in, on_completed, apply_result_tx, apply_result,
  done_audit, task_event,
}
use golang_service_architect.Persistent.Settled.{has-update, ignores_result}
use golang_service_architect.Persistent.Values.Transactions.{OkAll, OkAll-bind}
use golang_service_architect.Persistent.Wakeups.{
  has_open, IsAwake, MissesOne, MissesOrListed, AreAwake,
}
use golang_service_architect.Persistent.Wakeups.Changes.{update-each, has_open-complete}
use golang_service_architect.Persistent.Wakeups.Unlocking.{enqueue_audit-AreAwake, unlock-AreAwake}
use golang_service_architect.Persistent.Wakeups.Filling.{filled-IsAwake}
use golang_service_architect.Persistent.Wakeups.Marking.{AreAwake-weaken, has_open-update}

module _ {F : Type 0} where
  pub none_open :
      (x : Uuid) (ts : List (TaskRow F)) → has_open x ts ≡ false → has_no_open x ts ≡ true
  none_open x [] h = refl
  none_open x (t ∷ ts) h = elim (Bool-cases (completes x t)) [
    | inl e ↦ absurd (let clash = rw e at h in cc)
    | inr e ↦ rw e (none_open x ts (rw e at h))
  ]

  pub completes-returns :
      (x : Uuid) (v : F) (ts : List (TaskRow F))
      → has_open x ts ≡ true
      → (t : TaskRow F) × (rows : List (TaskRow F)) × (updated (completes x) (complete v) ts
          ≡ t ∷ rows)
  unfolding updated
  completes-returns x v [] h = absurd cc
  completes-returns x v (t ∷ ts) h = elim (Bool-cases (completes x t)) [
    | inl e ↦ (complete v t, updated (completes x) (complete v) ts, rw e refl)
    | inr e ↦ let (u, rows, found) = completes-returns x v ts (rw e at h) in (u, rows, rw e found)
  ]

  pub in_tx-AreAwake :
      {A : Type 0} (f : Db F → Result _ (A × Db F)) (db : Db F)
      → AreAwake MissesOne db
      → OkAll (λ s. AreAwake MissesOne s.1) (f db)
      → AreAwake MissesOne (in_tx f db).1
  in_tx-AreAwake f db a h = elim (Result-cases (f db)) [
    | inl (s, done) ↦ rw (in_tx, done) (rw done at h)
    | inr (e, failed) ↦ rw (in_tx, failed) a
  ]

module _ (fl : Float64) where
  open fl use {F}

  -- A table of expressions does not matter.
  audited-AreAwake :
      (events : List (Event F)) (audit : List (AuditMessage F)) (db db' : Db F)
      → db'.tasks ≡ db.tasks
      → db'.outbox ≡ db.outbox
      → AreAwake MissesOne db
      → OkAll
          (λ (s : List (Event F) × Db F). AreAwake MissesOne s.1)
          (enqueue_audit fl audit db' >>= λ db''. ok (events, db''))
  audited-AreAwake events audit db db' tasks outbox a =
      OkAll-bind (AreAwake MissesOne) (λ (s : List (Event F) × Db F). AreAwake MissesOne s.1)
        (enqueue_audit fl audit db') _
        (enqueue_audit-AreAwake fl MissesOne audit db'
          (AreAwake-weaken MissesOne MissesOne db db' tasks (λ id h. rw outbox h) (λ t w. w) a))
        (λ db'' h. h)

  finish_result-AreAwake :
      (out : Outside) (res : ResultMessage F) (is_root : Bool) (events : List (Event F))
      (audit : List (AuditMessage F)) (db : Db F)
      → AreAwake MissesOne db
      → OkAll (λ s. AreAwake MissesOne s.1) (finish_result fl out res is_root events audit db)
  unfolding finish_result
  finish_result-AreAwake out res true events audit db a =
      audited-AreAwake _ (audit ++ done_audit fl out res ∷ []) db
        (finalize_expression_done res.expression_id res.result db) refl refl a
  finish_result-AreAwake out res false events audit db a =
      audited-AreAwake events audit db db refl refl a

  -- The rows behind the two fills.
  abbrev filled : Uuid → F → List (TaskRow F) → List (TaskRow F)
  filled x v ts = update (takes_arg2 x) (fill_arg2 v) (update (takes_arg1 x) (fill_arg1 v) ts)

  has_open-filled :
      (x d : Uuid) (v : F) (ts : List (TaskRow F)) → has_open d (filled x v ts) ≡ has_open d ts
  has_open-filled x d v ts =
      has_open-update d (takes_arg2 x) (fill_arg2 v) (λ t e. refl)
        (update (takes_arg1 x) (fill_arg1 v) ts)
      ∙ has_open-update d (takes_arg1 x) (fill_arg1 v) (λ t e. refl) ts

  fan_in-AreAwake :
      (out : Outside) (res : ResultMessage F) (audit : List (AuditMessage F)) (is_root : Bool)
      (db : Db F)
      → has_open res.task_id db.tasks ≡ true
      → AreAwake MissesOne db
      → OkAll
          (λ s. AreAwake MissesOne s.1)
          (fan_in fl out res audit is_root (complete_task res.task_id res.result db).1)
  unfolding fan_in
  fan_in-AreAwake out res audit is_root db was_open a =
      let x = res.task_id in
      let v = res.result in
      let after : Uuid → Bool = λ d. if x == d then false else a.open_ d in
      let ts = update (completes x) (complete v) db.tasks in
      let us = update (takes_arg1 x) (fill_arg1 v) ts in
      let deps =
        updated (takes_arg1 x) (fill_arg1 v) ts ++ updated (takes_arg2 x) (fill_arg2 v) us in
      let db₀ = (complete_task x v db).1 in
      let db₂ =
        (fill_arg2_from_result x v
          (fill_arg1_from_result x v (mark_expression_in_progress res.expression_id db₀)).1).1 in
      let completed =
        update-each (IsAwake a.order a.open_ a.open_ MissesOne db.outbox)
          (IsAwake a.order a.open_ a.open_ MissesOne db.outbox) (completes x) (complete v)
          (λ t e k. tt) (λ t e k. k) db.tasks a.rows in
      let awake : AreAwake (MissesOrListed deps) db₂ = record {
        order = a.order;
        knows = λ d.
            has-update d (takes_arg2 x) (fill_arg2 v) (λ t. refl) us
            ∙ has-update d (takes_arg1 x) (fill_arg1 v) (λ t. refl) ts
            ∙ has-update d (completes x) (complete v) (λ t. refl) db.tasks
            ∙ a.knows d;
        open_ = after;
        opens = λ d.
            has_open-filled x d v ts
            ∙ has_open-complete x d v db.tasks
            ∙ ap (λ b. if x == d then false else b) (a.opens d);
        rows =
            filled-IsAwake x v a.open_ after (λ d. refl) a.order (sym (a.opens x) ∙ was_open)
              db.outbox ts completed;
      } in
      OkAll-bind (λ s. AreAwake MissesOne s.1) _
        (unlock_ready_dependents fl out.traceparent res.expression_id deps db₂) _
        (unlock-AreAwake fl out.traceparent res.expression_id deps db₂ awake)
        (λ (events, db₃) h.
          finish_result-AreAwake out res is_root
            (task_event fl res TaskStatus.done (some v) [] ∷ events) audit db₃ h)

  pub apply_result-AreAwake :
      (out : Outside) (res : ResultMessage F) (audit : List (AuditMessage F)) (db : Db F)
      → AreAwake MissesOne db
      → AreAwake MissesOne (apply_result fl out res audit db).1
  unfolding apply_result apply_result_tx on_completed
  apply_result-AreAwake out res audit db a = elim (Bool-cases (has_open res.task_id db.tasks)) [
    | inr closed ↦ rw (ignores_result fl out res audit db (none_open res.task_id db.tasks closed)) a
    | inl was_open ↦
        let (t, rows, found) = completes-returns res.task_id res.result db.tasks was_open in
        in_tx-AreAwake (apply_result_tx fl out res audit) db a
          (rw found (fan_in-AreAwake out res audit t.is_root db was_open a))
  ]
