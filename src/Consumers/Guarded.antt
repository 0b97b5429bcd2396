-- ===== src/Consumers/Guarded.antt =====
-- backend/internal/controller/amqp/v1/publisher.go: the publisher of the outbox, through the circuit
-- breaker and with retries.
pub mod Answers
pub mod Durable
pub mod Relayed
use golang_service_architect.Common.{ℕ, String, Option, none, some, []}
use golang_service_architect.Apperrors.{Error}
use golang_service_architect.Text.{Text, codes}
use golang_service_architect.Messages.{TaskMessage, AuditMessage}
use golang_service_architect.Scheduler.{Publisher}
use golang_service_architect.RabbitMq.{Flow, Message}
use golang_service_architect.RabbitMq.Publisher.{Amqp, publish}
use golang_service_architect.CircuitBreaker.{Breaker, Admission, refuse, observe, admit, finish}
use golang_service_architect.Retry.{Config, Outcome, returned, panicked, do_retry}
use golang_service_architect.Consumers.{tasks_flow, audit_flow}

-- `GuardedPublisher`: its breaker, the channel of its publisher, and the broker.
pub record Guard (Ch W : Type 0) : Type 0 where
  pub breaker : Breaker
  pub ch : Option Ch
  pub broker : W

-- The configuration of `NewGuardedPublisher`: three attempts, and the default delays.
abbrev pub guard_retry : Config
guard_retry = record { attempts = 3; base = 0; cap = 0 }

abbrev pub guarded_message : {B : Type 0} → B → Text → Message B
guarded_message body traceparent = record {
  body = body;
  attempt = 0;
  traceparent = traceparent;
  event_id = [];
}

-- What a caller gets of an outcome; the message of a panic is that of `rand.Int64N`.
abbrev pub outcome_error : Outcome → Option Error
outcome_error (returned e) = e
outcome_error panicked = some (Error.plain "invalid argument to Int64N")

module _ {B W Ch Conf : Type 0} (amqp : Amqp B W Ch Conf) (clock : W → ℕ) where
  abbrev pub Guarded : Type 0
  Guarded = Guard Ch W

  -- An admitted call of `breaker.Do` publishes, and its result is recorded at the time behind it.
  unfoldable pub publish_admitted : Flow → Message B → Admission → Guarded → Option Error × Guarded
  unfolding publish
  publish_admitted f m admission g =
      let (e, ch, w) = publish amqp f.exchange f.routing_key m g.ch g.broker in
      let (e', b) = finish (clock w) e admission g.breaker in
      (e', record { breaker = b; ch = ch; broker = w })

  -- A refused call does not.
  unfoldable pub admitted : Flow → Message B → Admission → Guarded → Option Error × Guarded
  unfolding publish_admitted
  admitted f m (refuse e) g = (some e, g)
  admitted f m admission g = publish_admitted f m admission g

  -- One attempt: `breaker.Do` around `pub.Publish`.
  unfoldable pub through_breaker : Flow → Message B → Guarded → Option Error × Guarded
  unfolding admitted
  through_breaker f m g =
      let (state, b₁) = observe (clock g.broker) g.breaker in
      let (admission, b₂) = admit state b₁ in admitted f m admission (record g { breaker = b₂ })

  -- `publish` of `GuardedPublisher`; `ended` says what ends the context in a wait between attempts.
  unfoldable pub guarded_publish :
      (ℕ → Option Error) → Flow → B → Text → Guarded → Outcome × Guarded
  unfolding through_breaker
  guarded_publish ended f body traceparent g =
      do_retry (through_breaker f (guarded_message body traceparent)) ended guard_retry g

  -- `PublishTask` and `PublishAudit`, as the port of the scheduler; the payload's bytes are its
  -- message's.
  abbrev pub guarded_port :
      {F : Type 0}
      → (ℕ → Option Error)
      → (TaskMessage F → B)
      → (AuditMessage F → B)
      → Publisher F Guarded
  guarded_port ended task_body audit_body = record {
    publish_task = λ m trace g.
        let (o, g') = guarded_publish ended tasks_flow (task_body m) (codes trace) g in
        (outcome_error o, g');
    publish_audit = λ m trace g.
        let (o, g') = guarded_publish ended audit_flow (audit_body m) (codes trace) g in
        (outcome_error o, g');
  }
