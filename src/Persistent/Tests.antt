-- ===== src/Persistent/Tests.antt =====
-- The store at a concrete expression, 2 + 3 * 4, over natural numbers in place of floats.
use golang_service_architect.Common.{Option, map, ℕ, ◌≡◌, refl, some, List, [], ◌∷◌, ok}
use golang_service_architect.Samples.{naturals, outside, submitted, reply, answered, root_reply}
use golang_service_architect.Expression.Task.{TaskStatus}
use golang_service_architect.Messages.{Event, ExpressionStatus}
use golang_service_architect.Persistent.Tables.{ExpressionRow, update, updated}
use golang_service_architect.Persistent.Enqueue.{
  insert_expression, insert_task, insert_tasks, enqueue_task, enqueue_ready, enqueue_audit,
}
use golang_service_architect.Persistent.Repo.{
  create_expression, create_expression_tx, apply_started, apply_result, apply_result_tx,
  on_completed, fan_in, unlock_ready_dependents, finish_result, apply_failure, task_event,
  ready_event,
}
use golang_service_architect.Persistent.Evolution.{Evolves}
use golang_service_architect.Persistent.History.{done, next, started, result, Reach-Evolves}
use golang_service_architect.Persistent.Settled.{apply_result-once}

-- The second result finishes the expression.
finishes :
    map {B = ExpressionStatus × Option ℕ}
      (λ (e : ExpressionRow ℕ). (e.status, e.result))
      (apply_result naturals outside root_reply [] answered).1.expressions
    ≡ (ExpressionStatus.done, some 14) ∷ []
unfolding create_expression create_expression_tx insert_expression insert_tasks insert_task
    enqueue_ready enqueue_task enqueue_audit apply_result apply_result_tx on_completed fan_in
    unlock_ready_dependents finish_result update updated
finishes = refl

Reach-Evolves_example : Evolves submitted (apply_started 1 "w2" 1 answered)
Reach-Evolves_example =
    Reach-Evolves naturals (next (result outside reply []) (next (started 1 "w2" 1) done))

abbrev reply_events : List (Event ℕ)
reply_events =
    task_event naturals reply TaskStatus.done (some 12) [] ∷ ready_event naturals 7 1 ∷ []

answers : (apply_result naturals outside reply [] submitted).0 ≡ ok reply_events
unfolding create_expression create_expression_tx insert_expression insert_tasks insert_task
    enqueue_ready enqueue_task enqueue_audit apply_result apply_result_tx on_completed fan_in
    unlock_ready_dependents finish_result update updated
answers = refl

apply_result-once_example :
    (apply_result naturals outside (record reply { result = 99 }) [] answered ≡ (ok [], answered))
    × (apply_failure naturals (record reply { result = 99 }) [] answered ≡ (ok [], answered))
apply_result-once_example =
    apply_result-once naturals outside reply [] submitted
      (task_event naturals reply TaskStatus.done (some 12) []) (ready_event naturals 7 1 ∷ [])
      answers done (record reply { result = 99 }) refl outside []
