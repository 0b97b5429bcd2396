-- ===== src/Consumers/Guarded/Answers.antt =====
-- publisher.go: what the guarded publisher's answers mean.
use golang_service_architect.Common.{
  ℕ, zero, suc, ◌+◌, ◌<◌, ◌≡◌, refl, sym, ap, ◌∙◌, true, Option, ok, ◌⊎◌, inl, inr, arith,
  Bool-cases,
}
use golang_service_architect.Common.Int.{pos, min_ℤ, suc_ℤ, leb_ℤ}
use golang_service_architect.Apperrors.{Error, Code, code_of}
use golang_service_architect.Text.{Text}
use golang_service_architect.RabbitMq.{Flow}
use golang_service_architect.RabbitMq.Publisher.{Publishing, Amqp, plain_publishing, publish}
use golang_service_architect.RabbitMq.Confirms.{publish_lem}
use golang_service_architect.CircuitBreaker.{
  State, Breaker, Admission, call, probe, refuse, observe, admit, finish,
}
use golang_service_architect.Retry.{returned, shift, is_drawable, defaults, do_retry}
use golang_service_architect.Retry.Answers.{IsReliable, loop_whole}
use golang_service_architect.Consumers.Guarded.{
  Guard, guard_retry, guarded_message, publish_admitted, admitted, through_breaker, guarded_publish,
}

-- The class of a refusal.
abbrev refusal_code : Admission → Code
refusal_code (refuse e) = code_of e
refusal_code _ = Code.unavailable

admit-code : (s : State) (b : Breaker) → refusal_code (admit s b).0 ≡ Code.unavailable
unfolding admit code_of
admit-code State.closed b = refl
admit-code State.opened b = refl
admit-code State.half_open b =
    elim (Bool-cases (leb_ℤ (suc_ℤ b.probes) (pos b.cfg.half_open_probes))) [
      | inl free ↦ rw free refl
      | inr full ↦ rw full refl
    ]

-- A refusal of the breaker is an error of the class `unavailable`.
admit-refuses :
    (s : State) (b : Breaker) (e : Error) → (admit s b).0 ≡ refuse e → code_of e ≡ Code.unavailable
admit-refuses s b e h = sym (ap refusal_code h) ∙ admit-code s b

-- The delays of three attempts are in range.
guard-draws :
    (j : ℕ)
    → j + 1 < (defaults guard_retry).attempts
    → is_drawable (min_ℤ (shift (defaults guard_retry).base j) (pos (defaults guard_retry).cap))
      ≡ true
unfolding defaults shift
guard-draws zero h = refl
guard-draws (suc zero) h = refl
guard-draws (suc (suc j)) h = absurd (omega (arith, h))

module _ {B W Ch Conf : Type 0} (amqp : Amqp B W Ch Conf) (clock : W → ℕ)
    (IsStored : Publishing B → W → Type 0)
    (confirm_stores : (ch : Ch) (p : Publishing B) (w : W) (conf : Conf)
      → (amqp.publish_deferred ch p w).0 ≡ ok conf
      → (amqp.wait_confirm conf (amqp.publish_deferred ch p w).1).0 ≡ ok true
      → IsStored p (amqp.wait_confirm conf (amqp.publish_deferred ch p w).1).1) where
  -- The message of a call is held by the broker.
  abbrev pub IsHeldIn : Flow → B → Text → Guard Ch W → Type 0
  IsHeldIn f body trace g =
      IsStored (plain_publishing f.exchange f.routing_key (guarded_message body trace)) g.broker

  abbrev IsSure : Flow → B → Text → Option Error → Guard Ch W → Type 0
  IsSure f body trace e g = IsReliable (IsHeldIn f body trace) e g

  finish-answer :
      (now : ℕ) (e : Option Error) (a : Admission) (b : Breaker)
      → ((a ≡ call) ⊎ (a ≡ probe))
      → (finish now e a b).0 ≡ e
  unfolding finish
  finish-answer now e a b (inl h) = rw h refl
  finish-answer now e a b (inr h) = rw h refl

  publish_admitted-answers :
      (f : Flow) (body : B) (trace : Text) (a : Admission) (g : Guard Ch W)
      → ((a ≡ call) ⊎ (a ≡ probe))
      → IsSure f body trace
          (publish_admitted amqp clock f (guarded_message body trace) a g).0
          (publish_admitted amqp clock f (guarded_message body trace) a g).1
  unfolding publish_admitted
  publish_admitted-answers f body trace a g h =
      let m = guarded_message body trace in
      let (e, ch, w) = publish amqp f.exchange f.routing_key m g.ch g.broker in
      rw (finish-answer (clock w) e a g.breaker h)
        (publish_lem amqp IsStored confirm_stores f.exchange f.routing_key m g.ch g.broker)

  admitted-answers :
      (f : Flow) (body : B) (trace : Text) (a : Admission) (g : Guard Ch W)
      → ((e : Error) → a ≡ refuse e → code_of e ≡ Code.unavailable)
      → IsSure f body trace
          (admitted amqp clock f (guarded_message body trace) a g).0
          (admitted amqp clock f (guarded_message body trace) a g).1
  unfolding admitted
  admitted-answers f body trace (refuse e) g h = inr (e, refl, h e refl)
  admitted-answers f body trace call g h = publish_admitted-answers f body trace call g (inl refl)
  admitted-answers f body trace probe g h = publish_admitted-answers f body trace probe g (inr refl)

  -- The guarded publisher always returns, without a panic: with no error only if the broker holds
  -- the message, persistently, and else with an error of the class `unavailable`. The broker holds
  -- what it confirms.
  pub guarded_publish-answers :
      (ended : ℕ → Option Error) (f : Flow) (body : B) (trace : Text) (g : Guard Ch W)
      → (e : Option Error) × ((guarded_publish amqp clock ended f body trace g).0 ≡ returned e)
        × IsReliable
            (λ (g' : Guard Ch W).
              IsStored
                (plain_publishing f.exchange f.routing_key (guarded_message body trace))
                g'.broker)
            e
            (guarded_publish amqp clock ended f body trace g).1
  unfolding guarded_publish do_retry through_breaker
  guarded_publish-answers ended f body trace g =
      loop_whole (IsHeldIn f body trace) (through_breaker amqp clock f (guarded_message body trace))
        ended
        (λ g.
          let (s, b) = observe (clock g.broker) g.breaker in
          admitted-answers f body trace (admit s b).0 (record g { breaker = (admit s b).1 })
            (λ e h. admit-refuses s b e h))
        (defaults guard_retry) guard-draws g (omega arith)
