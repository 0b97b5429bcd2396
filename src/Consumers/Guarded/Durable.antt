-- ===== src/Consumers/Guarded/Durable.antt =====
-- publisher.go: what the broker holds, it holds behind every call of the guarded publisher.
use golang_service_architect.Common.{
  ℕ, String, Bool, Option, none, some, Option-cases, Result, Result-cases, inl, inr, Bool-cases,
}
use golang_service_architect.Apperrors.{Error}
use golang_service_architect.Text.{Text}
use golang_service_architect.RabbitMq.{Flow, Message}
use golang_service_architect.RabbitMq.Publisher.{
  Publishing, Amqp, plain_publishing, confirmed, reopen, ready_channel, send, send_on, publish,
}
use golang_service_architect.CircuitBreaker.{Admission, call, probe, refuse, observe, admit}
use golang_service_architect.Retry.{defaults, do_retry}
use golang_service_architect.Retry.Answers.{loop-keeps}
use golang_service_architect.Consumers.Guarded.{
  Guard, guard_retry, guarded_message, publish_admitted, admitted, through_breaker, guarded_publish,
}

-- What the AMQP library's calls leave to the broker: a message that it holds, it goes on to hold.
pub record IsDurable {B W Ch Conf : Type 0} (amqp : Amqp B W Ch Conf)
    (IsStored : Publishing B → W → Type 0) : Type 0 where
  pub channel_keeps : (p : Publishing B) (w : W) → IsStored p w → IsStored p (amqp.channel w).1
  pub confirm_keeps :
      (p : Publishing B) (ch : Ch) (w : W) → IsStored p w → IsStored p (amqp.confirm ch w).1
  pub close_keeps :
      (p : Publishing B) (ch : Ch) (w : W) → IsStored p w → IsStored p (amqp.close ch w)
  pub publish_keeps :
      (p q : Publishing B) (ch : Ch) (w : W)
      → IsStored p w
      → IsStored p (amqp.publish_deferred ch q w).1
  pub wait_keeps :
      (p : Publishing B) (conf : Conf) (w : W)
      → IsStored p w
      → IsStored p (amqp.wait_confirm conf w).1

module _ {B W Ch Conf : Type 0} (amqp : Amqp B W Ch Conf) (clock : W → ℕ)
    (IsStored : Publishing B → W → Type 0) (d : IsDurable amqp IsStored) where
  open d use {channel_keeps, confirm_keeps, close_keeps, publish_keeps, wait_keeps}

  reopen-keeps : (p : Publishing B) (w : W) → IsStored p w → IsStored p (reopen amqp w).1
  unfolding reopen
  reopen-keeps p w h =
      let h₁ = channel_keeps p w h in
      elim (Result-cases (amqp.channel w).0) [
        | inr (e, failed) ↦ rw (reopen, failed) h₁
        | inl (fresh, opened_) ↦
            let h₂ = confirm_keeps p fresh (amqp.channel w).1 h₁ in
            elim (Option-cases (amqp.confirm fresh (amqp.channel w).1).0) [
              | inl fine ↦ rw (reopen, opened_, fine) h₂
              | inr (e, failed) ↦
                  rw (reopen, opened_, failed)
                    (close_keeps p fresh (amqp.confirm fresh (amqp.channel w).1).1 h₂)
            ]
      ]

  ready-keeps :
      (p : Publishing B) (ch : Option Ch) (w : W)
      → IsStored p w
      → IsStored p (ready_channel amqp ch w).1
  unfolding ready_channel
  ready-keeps p none w h = reopen-keeps p w h
  ready-keeps p (some ch) w h = elim (Bool-cases (amqp.is_closed ch w)) [
    | inl shut ↦ rw shut (reopen-keeps p w h)
    | inr usable ↦ rw usable h
  ]

  send-keeps :
      (place : String) (answer : Result Error Bool → Option Error) (ch : Ch) (p q : Publishing B)
      (w : W)
      → IsStored p w
      → IsStored p (send amqp place answer ch q w).1
  unfolding send
  send-keeps place answer ch p q w h =
      let h₁ = publish_keeps p q ch w h in
      elim (Result-cases (amqp.publish_deferred ch q w).0) [
        | inr (e, failed) ↦ rw (send, failed) h₁
        | inl (conf, sent) ↦ rw (send, sent) (wait_keeps p conf (amqp.publish_deferred ch q w).1 h₁)
      ]

  send_on-keeps :
      (place : String) (answer : Result Error Bool → Option Error) (p q : Publishing B)
      (ch : Option Ch) (w : W)
      → IsStored p w
      → IsStored p (send_on amqp place answer q ch w).2
  unfolding send_on
  send_on-keeps place answer p q ch w h =
      let h₁ = ready-keeps p ch w h in
      elim (Result-cases (ready_channel amqp ch w).0) [
        | inr (e, failed) ↦ rw (send_on, failed) h₁
        | inl (open_ch, ready) ↦
            rw (send_on, ready) (send-keeps place answer open_ch p q (ready_channel amqp ch w).1 h₁)
      ]

  admitted-keeps :
      (p : Publishing B) (f : Flow) (m : Message B) (a : Admission) (g : Guard Ch W)
      → IsStored p g.broker
      → IsStored p (admitted amqp clock f m a g).1.broker
  unfolding admitted publish_admitted publish
  admitted-keeps p f m (refuse e) g h = h
  admitted-keeps p f m call g h =
      send_on-keeps "publish" confirmed p (plain_publishing f.exchange f.routing_key m) g.ch
        g.broker h
  admitted-keeps p f m probe g h =
      send_on-keeps "publish" confirmed p (plain_publishing f.exchange f.routing_key m) g.ch
        g.broker h

  pub guarded_publish-keeps :
      (p : Publishing B) (ended : ℕ → Option Error) (f : Flow) (body : B) (trace : Text)
      (g : Guard Ch W)
      → IsStored p g.broker
      → IsStored p (guarded_publish amqp clock ended f body trace g).1.broker
  unfolding guarded_publish do_retry through_breaker
  guarded_publish-keeps p ended f body trace g h =
      loop-keeps (λ (g' : Guard Ch W). IsStored p g'.broker)
        (through_breaker amqp clock f (guarded_message body trace)) ended
        (λ g' h'.
          let (s, b) = observe (clock g'.broker) g'.breaker in
          admitted-keeps p f (guarded_message body trace) (admit s b).0
            (record g' { breaker = (admit s b).1 }) h')
        (defaults guard_retry) 3 0 none g h
