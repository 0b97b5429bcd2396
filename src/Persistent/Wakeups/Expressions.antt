-- ===== src/Persistent/Wakeups/Expressions.antt =====
-- repo.go: `CreateExpression` inserts the tasks of a plan and enqueues those that wait for nothing.
use golang_service_architect.Common.{
  ◌≡◌, refl, String, true, false, List, [], ◌∷◌, ◌==◌, inl, inr, Bool-cases, arith,
}
use golang_service_architect.Float64.{Float64}
use golang_service_architect.Text.{Text}
use golang_service_architect.Expression.Task.{Task, Uuid, is_ready}
use golang_service_architect.Expression.Planner.Order.{IsOrdered}
use golang_service_architect.Messages.{AuditMessage}
use golang_service_architect.Persistent.Tables.{
  Db, has_expression, mark_task_ready, finalize_expression_done,
}
use golang_service_architect.Persistent.Enqueue.{
  Outside, within, insert_expression, insert_tasks, enqueue_task, enqueue_ready, enqueue_audit,
}
use golang_service_architect.Persistent.Repo.{
  create_expression, create_expression_tx, finalize_immediate, finalize_immediate_tx,
}
use golang_service_architect.Persistent.Values.Transactions.{OkAll, OkAll-bind, OkAll-within}
use golang_service_architect.Persistent.Settled.{and-false}
use golang_service_architect.Persistent.Wakeups.{has_message, MissesOne, MissesOrReady, AreAwake}
use golang_service_architect.Persistent.Wakeups.Results.{in_tx-AreAwake}
use golang_service_architect.Persistent.Wakeups.Unlocking.{
  enqueue_audit-AreAwake, enqueue_task-AreAwake,
}
use golang_service_architect.Persistent.Wakeups.Inserts.{All-IsListed, insert_tasks-AreAwake}
use golang_service_architect.Persistent.Wakeups.Marking.{AreAwake-weaken, mark_task_ready-AreAwake}

module _ (fl : Float64) where
  open fl use {F}

  enqueue_ready-AreAwake :
      (trace : String) (ts : List (Task F)) (db : Db F)
      → AreAwake (MissesOrReady ts) db
      → OkAll (AreAwake MissesOne) (enqueue_ready fl trace ts db)
  unfolding enqueue_ready
  enqueue_ready-AreAwake trace [] db a =
      AreAwake-weaken (MissesOrReady []) MissesOne db db refl (λ id h. h)
        (λ t w. elim w [ inl m ↦ m | inr l ↦ absurd cc ]) a
  enqueue_ready-AreAwake trace (u ∷ ts) db a = elim (Bool-cases (is_ready u)) [
    | inl e ↦ rw e (
        OkAll-bind
          (λ db'. AreAwake (MissesOrReady (u ∷ ts)) db' × (has_message u.id db'.outbox ≡ true))
          (AreAwake MissesOne)
          (enqueue_task fl trace u.id u.expression_id u.op u.arg1_value u.arg2_value db) _
          (enqueue_task-AreAwake fl (MissesOrReady (u ∷ ts)) trace u.id u.expression_id u.op
            u.arg1_value u.arg2_value db a)
          (λ db' (awake, has). enqueue_ready-AreAwake trace ts (mark_task_ready u.id db') (
            mark_task_ready-AreAwake (MissesOrReady (u ∷ ts)) (MissesOrReady ts) u.id db' has
              (λ t other w. elim w [
                | inl m ↦ inl m
                | inr l ↦
                    inr
                      (let apart : (u.id == t.id) ≡ false = ground (arith, other) in rw apart at l)
              ])
              awake)))
    | inr e ↦ rw e (
        enqueue_ready-AreAwake trace ts db (
          AreAwake-weaken (MissesOrReady (u ∷ ts)) (MissesOrReady ts) db db refl (λ id h. h)
            (λ t w. elim w [ inl m ↦ inl m | inr l ↦ inr (rw (e, and-false) at l) ]) a))
  ]

  insert_expression-AreAwake :
      (id : Uuid) (raw : Text) (trace : String) (db : Db F)
      → AreAwake MissesOne db
      → OkAll (AreAwake MissesOne) (insert_expression id raw trace db)
  unfolding insert_expression
  insert_expression-AreAwake id raw trace db a =
      elim (Bool-cases (has_expression id db.expressions)) [
        | inl h ↦ rw h tt
        | inr h ↦ rw h (AreAwake-weaken MissesOne MissesOne db _ refl (λ id h. h) (λ t w. w) a)
      ]

  -- A plan is created awake.
  pub create_expression-AreAwake :
      (out : Outside) (id : Uuid) (raw : Text) (trace : String) (tasks : List (Task F))
      (audit : List (AuditMessage F)) (db : Db F)
      → IsOrdered [] tasks
      → AreAwake MissesOne db
      → AreAwake MissesOne (create_expression fl out id raw trace tasks audit db).1
  unfolding create_expression create_expression_tx
  create_expression-AreAwake out id raw trace tasks audit db ordered a =
      in_tx-AreAwake (create_expression_tx fl out id raw trace tasks audit) db a (
        OkAll-bind (AreAwake MissesOne) _
          (within "insert expression" (insert_expression id raw trace db)) _
          (OkAll-within (AreAwake MissesOne) "insert expression" _
            (insert_expression-AreAwake id raw trace db a))
          (λ db₁ a₁.
            OkAll-bind (AreAwake (MissesOrReady tasks)) _ (insert_tasks tasks db₁) _
              (insert_tasks-AreAwake tasks [] tasks db₁ ordered (All-IsListed tasks)
                (λ d e. absurd e)
                (AreAwake-weaken MissesOne (MissesOrReady tasks) db₁ db₁ refl (λ id h. h)
                  (λ t w. inl w) a₁))
              (λ db₂ a₂.
                OkAll-bind (AreAwake MissesOne) _ (enqueue_ready fl out.traceparent tasks db₂) _
                  (enqueue_ready-AreAwake out.traceparent tasks db₂ a₂)
                  (λ db₃ a₃.
                    OkAll-bind (AreAwake MissesOne) _ (enqueue_audit fl audit db₃) _
                      (enqueue_audit-AreAwake fl MissesOne audit db₃ a₃) (λ db₄ a₄. a₄)))))

  -- An expression without tasks adds none.
  pub finalize_immediate-AreAwake :
      (id : Uuid) (raw : Text) (trace : String) (v : F) (audit : List (AuditMessage F)) (db : Db F)
      → AreAwake MissesOne db
      → AreAwake MissesOne (finalize_immediate fl id raw trace v audit db).1
  unfolding finalize_immediate finalize_immediate_tx
  finalize_immediate-AreAwake id raw trace v audit db a =
      in_tx-AreAwake (finalize_immediate_tx fl id raw trace v audit) db a (
        OkAll-bind (AreAwake MissesOne) _ (insert_expression id raw trace db) _
          (insert_expression-AreAwake id raw trace db a)
          (λ db₁ a₁.
            OkAll-bind (AreAwake MissesOne) _
              (enqueue_audit fl audit (finalize_expression_done id v db₁)) _
              (enqueue_audit-AreAwake fl MissesOne audit _ (
                AreAwake-weaken MissesOne MissesOne db₁ (finalize_expression_done id v db₁) refl
                  (λ id h. h) (λ t w. w) a₁))
              (λ db₂ a₂. a₂)))
