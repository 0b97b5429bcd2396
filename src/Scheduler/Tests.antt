-- ===== src/Scheduler/Tests.antt =====
-- The scheduler at the expression of Samples.
use golang_service_architect.Common.{ℕ, ◌≡◌, refl, none, some, [], ◌∷◌, ◌+◌, ok, arith}
use golang_service_architect.Samples.{naturals, submitted, reply, empty}
use golang_service_architect.Apperrors.{Code, new}
use golang_service_architect.Expression.Ast.{Op}
use golang_service_architect.Expression.Task.{TaskStatus}
use golang_service_architect.Messages.{ResultKind}
use golang_service_architect.Persistent.Tables.{Db, Payload, update, updated, select, insert_outbox}
use golang_service_architect.Persistent.Enqueue.{
  insert_expression, insert_task, insert_tasks, enqueue_task, enqueue_ready, enqueue_audit,
}
use golang_service_architect.Persistent.Repo.{
  create_expression, create_expression_tx, apply_result, apply_result_tx, on_completed, fan_in,
  unlock_ready_dependents, finish_result, task_event, ready_event,
}
use golang_service_architect.Persistent.History.{done}
use golang_service_architect.Scheduler.{
  Surroundings, Publisher, handle_result, dispatch, running_event, drain, publish,
}
use golang_service_architect.Scheduler.FanIn.{handle_result-once}
use golang_service_architect.Scheduler.Refusal.{drain-spins}
use golang_service_architect.Scheduler.Relay.{pending, recorder, deliveries, drain-delivers}

abbrev surroundings : Surroundings
surroundings = record { traceparent = "00-1-1-01"; trace_id = "1"; new_uuid = λ n. 90 + n; now = 5 }

abbrev handled : Db ℕ
handled = (handle_result naturals surroundings (ok reply) submitted).1

handles :
    (handle_result naturals surroundings (ok reply) submitted).0
    ≡ ok (task_event naturals reply TaskStatus.done (some 12) [] ∷ ready_event naturals 7 1 ∷ [])
unfolding create_expression create_expression_tx insert_expression insert_tasks insert_task
    enqueue_ready enqueue_task enqueue_audit apply_result apply_result_tx on_completed fan_in
    unlock_ready_dependents finish_result update updated handle_result dispatch
handles = refl

-- A late `started` of the task that is done.
handle_result-once_example :
    handle_result naturals surroundings (ok (record reply { kind = ResultKind.started })) handled
    ≡ (ok (running_event reply ∷ []), handled)
handle_result-once_example =
    handle_result-once naturals surroundings reply submitted
      (task_event naturals reply TaskStatus.done (some 12) []) (ready_event naturals 7 1 ∷ [])
      (λ e. cc) handles done surroundings (record reply { kind = ResultKind.started }) refl

-- Two rows wait, one of a kind that nobody knows.
abbrev waiting : Db ℕ
waiting =
    insert_outbox
      (Payload.task
        (record { task_id = 0; expression_id = 7; op = Op.mul; arg1 = 3; arg2 = 4; attempt = 0 })
        "t")
      (insert_outbox (Payload.unknown "mail") empty)

drain-delivers_example :
    (db' : Db ℕ) × (drain recorder 3 1 waiting [] ≡ some (db', deliveries (pending waiting.outbox)))
    × (pending db'.outbox ≡ [])
unfolding select
drain-delivers_example =
    drain-delivers 3 1 1 waiting [] (omega arith) (omega arith) (omega arith, (omega arith, tt))
      (omega arith)

abbrev refusing : Publisher ℕ (Unit {0})
refusing = record {
  publish_task = λ msg trace w. (some (new Code.unavailable "broker down"), w);
  publish_audit = λ msg trace w. (some (new Code.unavailable "broker down"), w);
}

abbrev stuck : Db ℕ
stuck =
    insert_outbox
      (Payload.task
        (record { task_id = 0; expression_id = 7; op = Op.mul; arg1 = 3; arg2 = 4; attempt = 0 })
        "t")
      empty

drain-spins_example : drain refusing 1000 1 stuck tt ≡ none
unfolding select publish
drain-spins_example =
    drain-spins refusing 1000 1 stuck tt (omega arith) (omega arith) ((λ w. (_, refl)), tt)
