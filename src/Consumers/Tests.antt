-- ===== src/Consumers/Tests.antt =====
-- The consumers and the guarded publisher over the broker of Samples, with numbers as bodies.
use golang_service_architect.Common.{
  ℕ, ◌+◌, ◌≡◌, refl, false, Option, none, List, [], ◌∷◌, ◌⊎◌, inr, ok, All,
}
use golang_service_architect.Samples.{naturals, Broker, library, IsIn, confirm_in, empty}
use golang_service_architect.Apperrors.{Error, Code, new}
use golang_service_architect.Text.{codes}
use golang_service_architect.Expression.Ast.{Op}
use golang_service_architect.Messages.{TaskMessage, AuditMessage}
use golang_service_architect.Persistent.Tables.{
  Db, Payload, insert_outbox, select_outbox_batch, mark_outbox_published,
}
use golang_service_architect.Scheduler.{relay_once}
use golang_service_architect.Scheduler.Stores.{IsOutId}
use golang_service_architect.RabbitMq.{Message}
use golang_service_architect.RabbitMq.Publisher.{plain_publishing}
use golang_service_architect.RabbitMq.Dispatch.{Verdict, Port, Policy, dispatch}
use golang_service_architect.RabbitMq.Journey.{IsCopy}
use golang_service_architect.RabbitMq.Confirms.{IsHeld}
use golang_service_architect.CircuitBreaker.{new_breaker}
use golang_service_architect.Retry.{returned}
use golang_service_architect.Retry.Answers.{IsReliable}
use golang_service_architect.Consumers.{Codec, Computer, Computing, tasks_flow, handle}
use golang_service_architect.Consumers.Agent.{IsAnswered, agent_port, dispatch-handle}
use golang_service_architect.Consumers.Guarded.{
  Guard, guarded_message, guarded_publish, guarded_port,
}
use golang_service_architect.Consumers.Guarded.Answers.{guarded_publish-answers}
use golang_service_architect.Consumers.Guarded.Durable.{IsDurable}
use golang_service_architect.Consumers.Guarded.Relayed.{faithful, relay_once-guarded}

-- A body is the first argument of a multiplication by two; a result is its own body.
abbrev doubling : TaskMessage ℕ
doubling = record { task_id = 1; expression_id = 7; op = Op.mul; arg1 = 3; arg2 = 2; attempt = 0 }

abbrev json : Codec ℕ ℕ
json = record {
  decode_task = λ body. ok (record doubling { arg1 = body });
  encode_result = λ res. ok res.result;
  id_text = λ id. codes "1";
  error_text = λ e. codes "failed";
}

abbrev computer : Computer
computer = record {
  latencies = record { add = 0; sub = 0; mul = 5; div = 0 };
  worker_id = "agent-1";
}

abbrev in_time : TaskMessage ℕ → Computing
in_time task = record { canceled = false; cause = new Code.unavailable "shutdown"; elapsed_ms = 5 }

abbrev five_times : Policy
five_times = record { max_attempts = 5; backoff = λ n. 500000000 }

abbrev task : Message ℕ
task = record { body = 21; attempt = 0; traceparent = codes "00-1"; event_id = [] }

abbrev port : Port ℕ (Option ℕ × Broker)
port = agent_port naturals library IsIn confirm_in json computer in_time

task_acked : (dispatch port five_times task (none, [])).0 ≡ Verdict.acked
unfolding dispatch handle
task_acked = refl

dispatch-handle_example :
    IsAnswered naturals library IsIn confirm_in json task
      (dispatch port five_times task (none, [])).1.1
    ⊎ ((copy : Message ℕ) × IsHeld library IsIn confirm_in tasks_flow copy
          (dispatch port five_times task (none, [])).1
        × IsCopy task copy)
dispatch-handle_example =
    dispatch-handle naturals library IsIn confirm_in json computer in_time five_times task
      (none, []) task_acked

-- The time is the number of messages that the broker holds.
abbrev clock : Broker → ℕ
clock [] = 0
clock (p ∷ w) = clock w + 1

abbrev guard : Guard ℕ Broker
guard = record {
  breaker =
      new_breaker "amqp" (record { failure_threshold = 5; cooldown = 0; half_open_probes = 2 });
  ch = none;
  broker = [];
}

abbrev in_peace : ℕ → Option Error
in_peace attempt = none

guarded_publish-answers_example :
    (e : Option Error) × ((guarded_publish library clock in_peace tasks_flow 21 (codes "t") guard).0
      ≡ returned e)
    × IsReliable
        (λ (g' : Guard ℕ Broker).
          IsIn
            (plain_publishing tasks_flow.exchange tasks_flow.routing_key
              (guarded_message 21 (codes "t")))
            g'.broker)
        e
        (guarded_publish library clock in_peace tasks_flow 21 (codes "t") guard).1
guarded_publish-answers_example =
    guarded_publish-answers library clock IsIn confirm_in in_peace tasks_flow 21 (codes "t") guard

abbrev durable : IsDurable library IsIn
durable = record {
  channel_keeps = λ p w h. h;
  confirm_keeps = λ p ch w h. h;
  close_keeps = λ p ch w h. h;
  publish_keeps = λ p q ch w h. inr h;
  wait_keeps = λ p conf w h. h;
}

abbrev bytes : TaskMessage ℕ → ℕ
bytes m = m.arg1

abbrev audit_bytes : AuditMessage ℕ → ℕ
audit_bytes m = m.id

-- A task and a row of an unknown kind wait in the outbox.
abbrev waiting : Db ℕ
waiting = insert_outbox (Payload.task doubling "t") (insert_outbox (Payload.unknown "mail") empty)

relay_once-guarded_example :
    (ids : List ℕ) × ((relay_once
        (guarded_port library clock in_peace bytes audit_bytes)
        10
        waiting
        guard).1
      ≡ mark_outbox_published ids waiting)
    × All
        (IsOutId
          (guarded_port library clock in_peace bytes audit_bytes)
          (faithful library clock IsIn confirm_in durable in_peace bytes audit_bytes)
          (select_outbox_batch 10 waiting)
          (relay_once (guarded_port library clock in_peace bytes audit_bytes) 10 waiting guard).2)
        ids
relay_once-guarded_example =
    relay_once-guarded library clock IsIn confirm_in durable in_peace bytes audit_bytes 10 waiting
      guard
