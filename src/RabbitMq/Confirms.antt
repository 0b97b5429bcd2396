-- ===== src/RabbitMq/Confirms.antt =====
-- rabbitmq.go: what the publisher's answer means, and `dispatch` over the publisher.
use golang_service_architect.Common.{
  ℕ, ◌≡◌, refl, Bool, true, false, Option, none, some, Result, ok, err, String, ◌⊎◌, inl, inr,
  Result-cases,
}
use golang_service_architect.Apperrors.{Error, Code, code_of}
use golang_service_architect.Text.{Text}
use golang_service_architect.RabbitMq.{Flow, dlq_exchange, Message}
use golang_service_architect.RabbitMq.Publisher.{
  Publishing, Amqp, plain_publishing, retry_publishing, ready_channel, confirmed, retry_confirmed,
  send, send_on, publish, publish_retry, publish_dlq,
}
use golang_service_architect.RabbitMq.Dispatch.{Verdict, Port, Policy, dispatch}
use golang_service_architect.RabbitMq.Journey.{IsCopy, dispatch-keeps}

-- The publisher for a flow as `dispatch` calls it; its state is the publisher's channel and the
-- broker's.
abbrev pub flow_port :
    {B W Ch Conf : Type 0}
    → Amqp B W Ch Conf
    → Flow
    → (Message B → Option Ch × W → Option Error × (Option Ch × W))
    → Port B (Option Ch × W)
flow_port amqp f handler = record {
  handler = handler;
  publish_retry =
      λ m backoff s. let (e, ch, w) = publish_retry amqp f m backoff s.0 s.1 in (e, (ch, w));
  publish_dlq = λ m s. let (e, ch, w) = publish_dlq amqp f m s.0 s.1 in (e, (ch, w));
}

module _ {B W Ch Conf : Type 0} (amqp : Amqp B W Ch Conf) (IsStored : Publishing B → W → Type 0)
    (confirm_stores : (ch : Ch) (p : Publishing B) (w : W) (conf : Conf)
      → (amqp.publish_deferred ch p w).0 ≡ ok conf
      → (amqp.wait_confirm conf (amqp.publish_deferred ch p w).1).0 ≡ ok true
      → IsStored p (amqp.wait_confirm conf (amqp.publish_deferred ch p w).1).1) where
  -- An answer for a publishing: no error and it is stored, or an error that is retryable.
  abbrev pub IsAnswer : Publishing B → Option Error → W → Type 0
  IsAnswer p e w =
      ((e ≡ none) × IsStored p w) ⊎ ((f : Error) × (e ≡ some f) × (code_of f ≡ Code.unavailable))

  -- An answer to a wait is honest if it is no error only for a confirmation.
  abbrev IsHonest : (Result Error Bool → Option Error) → Type 0
  IsHonest answer =
      (r : Result Error Bool)
      → ((answer r ≡ none) × (r ≡ ok true))
        ⊎ ((f : Error) × (answer r ≡ some f) × (code_of f ≡ Code.unavailable))

  confirmed-IsHonest : IsHonest confirmed
  unfolding code_of
  confirmed-IsHonest (ok true) = inl (refl, refl)
  confirmed-IsHonest (ok false) = inr (_, refl, refl)
  confirmed-IsHonest (err e) = inr (_, refl, refl)

  retry_confirmed-IsHonest : IsHonest retry_confirmed
  unfolding code_of
  retry_confirmed-IsHonest (ok true) = inl (refl, refl)
  retry_confirmed-IsHonest (ok false) = inr (_, refl, refl)
  retry_confirmed-IsHonest (err e) = inr (_, refl, refl)

  send-answers :
      (place : String) (answer : Result Error Bool → Option Error) (ch : Ch) (p : Publishing B)
      (w : W)
      → IsHonest answer
      → IsAnswer p (send amqp place answer ch p w).0 (send amqp place answer ch p w).1
  unfolding send code_of
  send-answers place answer ch p w honest = elim (Result-cases (amqp.publish_deferred ch p w).0) [
    | inr (e, failed) ↦ rw (send, failed) (inr (_, refl, refl))
    | inl (conf, sent) ↦
        let w₁ = (amqp.publish_deferred ch p w).1 in
        elim (honest (amqp.wait_confirm conf w₁).0) [
          | inl (fine, waited) ↦
              rw (send, sent) (inl (fine, confirm_stores ch p w conf sent waited))
          | inr bad ↦ rw (send, sent) (inr bad)
        ]
  ]

  send_on-answers :
      (place : String) (answer : Result Error Bool → Option Error) (p : Publishing B)
      (ch : Option Ch) (w : W)
      → IsHonest answer
      → IsAnswer p (send_on amqp place answer p ch w).0 (send_on amqp place answer p ch w).2
  unfolding send_on code_of
  send_on-answers place answer p ch w honest = elim (Result-cases (ready_channel amqp ch w).0) [
    | inr (e, failed) ↦ rw (send_on, failed) (inr (_, refl, refl))
    | inl (open_ch, ready) ↦
        rw (send_on, ready) (send-answers place answer open_ch p (ready_channel amqp ch w).1 honest)
  ]

  pub publish_lem :
      (exchange key : Text) (msg : Message B) (ch : Option Ch) (w : W)
      → IsAnswer
          (plain_publishing exchange key msg)
          (publish amqp exchange key msg ch w).0
          (publish amqp exchange key msg ch w).2
  unfolding publish
  publish_lem exchange key msg ch w =
      send_on-answers "publish" confirmed (plain_publishing exchange key msg) ch w
        confirmed-IsHonest

  pub answered :
      (p : Publishing B) (e : Option Error) (w : W) → e ≡ none → IsAnswer p e w → IsStored p w
  answered p e w h (inl (fine, stored)) = stored
  answered p e w h (inr (f, bad, code)) = absurd cc

  -- The broker holds a copy on the way of a flow's retries, or in its dead-letter exchange.
  abbrev pub IsHeld : Flow → Message B → Option Ch × W → Type 0
  IsHeld f m s =
      ((backoff : ℕ) × IsStored (retry_publishing f m backoff) s.1)
      ⊎ IsStored (plain_publishing (dlq_exchange f) f.routing_key m) s.1

  -- A delivery that is acknowledged was handled without an error, or the broker holds a copy of it,
  -- with its body, its traceparent and its event id, for the flow's retry exchange or for its
  -- dead-letter exchange. The broker holds what it confirms.
  pub dispatch-delivers :
      (f : Flow) (handler : Message B → Option Ch × W → Option Error × (Option Ch × W))
      (policy : Policy) (m : Message B) (s : Option Ch × W)
      → (dispatch (flow_port amqp f handler) policy m s).0 ≡ Verdict.acked
      → ((handler m s).0 ≡ none)
        ⊎ ((copy : Message B) × IsHeld f copy (dispatch (flow_port amqp f handler) policy m s).1
            × IsCopy m copy)
  unfolding publish_retry publish_dlq
  dispatch-delivers f handler policy m s h =
      dispatch-keeps (flow_port amqp f handler) (IsHeld f)
        (λ copy backoff s fine. inl (
          backoff,
          answered (retry_publishing f copy backoff) _ _ fine (
              send_on-answers "publish retry" retry_confirmed (retry_publishing f copy backoff) s.0
                s.1 retry_confirmed-IsHonest),
        ))
        (λ copy s fine. inr (
          answered (plain_publishing (dlq_exchange f) f.routing_key copy) _ _ fine
            (publish_lem (dlq_exchange f) f.routing_key copy s.0 s.1)))
        policy m s h

module _ {B W Ch Conf : Type 0} (amqp : Amqp B W Ch Conf) (IsRouted : Publishing B → Type 0)
    (IsStored : Publishing B → W → Type 0)
    (confirm_stores : (ch : Ch) (p : Publishing B) (w : W) (conf : Conf)
      → (amqp.publish_deferred ch p w).0 ≡ ok conf
      → (amqp.wait_confirm conf (amqp.publish_deferred ch p w).1).0 ≡ ok true
      → IsRouted p
      → IsStored p (amqp.wait_confirm conf (amqp.publish_deferred ch p w).1).1) where
  -- Publishing under an exchange and a key that lead to a queue returns no error only if the broker
  -- holds the message, persistently, under that exchange and key and with the headers of the call;
  -- every error is of the class `unavailable`, which is retried. The broker holds what it confirms
  -- and routes to a queue; of what it does not route, which it confirms too, nothing is assumed.
  pub publish-answers :
      (exchange key : Text) (msg : Message B) (ch : Option Ch) (w : W)
      → IsRouted (plain_publishing exchange key msg)
      → (((publish amqp exchange key msg ch w).0 ≡ none)
          × IsStored (plain_publishing exchange key msg) (publish amqp exchange key msg ch w).2)
        ⊎ ((f : Error) × ((publish amqp exchange key msg ch w).0 ≡ some f)
            × (code_of f ≡ Code.unavailable))
  publish-answers exchange key msg ch w routed =
      elim (publish_lem amqp (λ p w'. IsRouted p → IsStored p w')
        (λ ch p w conf sent confirmed r. confirm_stores ch p w conf sent confirmed r) exchange key
        msg ch w) [ inl (fine, stored) ↦ inl (fine, stored routed) | inr bad ↦ inr bad ]
