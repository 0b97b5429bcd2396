-- ===== src/RabbitMq/Journey.antt =====
-- rabbitmq.go: what becomes of a message that is delivered until it is acknowledged.
use Prim.Native.Nat.{min}
use golang_service_architect.Common.{
  ℕ, zero, suc, ◌+◌, ◌^◌, ◌<◌, ◌≤◌, ◌≡◌, refl, ap, ◌∙◌, ◌&&◌, Option, none, some, Option-cases, ltb,
  ◌⊎◌, inl, inr, Bool-cases, arith, ltb→lt,
}
use golang_service_architect.Apperrors.{Error, is_retryable}
use golang_service_architect.RabbitMq.{Message, headers, delivery}
use golang_service_architect.RabbitMq.Headers.{delivery-headers}
use golang_service_architect.RabbitMq.Dispatch.{
  Verdict, Port, Policy, Route, route, verdict, follow, dispatch,
}

-- The message but for its attempt.
pub record IsCopy {B : Type 0} (m copy : Message B) : Type 0 where
  pub body : copy.body ≡ m.body
  pub traceparent : copy.traceparent ≡ m.traceparent
  pub event_id : copy.event_id ≡ m.event_id

IsCopy-refl : {B : Type 0} (m : Message B) → IsCopy m m
IsCopy-refl m = record { body = refl; traceparent = refl; event_id = refl }

failed-verdict : (o : Option Error) → verdict o ≡ Verdict.acked → o ≡ none
failed-verdict none h = refl
failed-verdict (some e) h = cc

-- Where a message ends: handled, or parked in the dead-letter queue.
pub data Fate (B : Type 0) : Type 0 where
  handled : Fate B
  parked : Message B → Fate B

-- What the broker does next, behind a route and its verdict: a copy on the retry queue comes back
-- with its headers, and a delivery that is requeued comes back as it is.
abbrev pub carry :
    {B W : Type 0}
    → (Message B → W → Option (Fate B × W))
    → Message B
    → Route B
    → Verdict
    → W
    → Option (Fate B × W)
carry redeliver m Route.finished Verdict.acked w = some (Fate.handled, w)
carry redeliver m (Route.dead copy) Verdict.acked w = some (Fate.parked copy, w)
carry redeliver m (Route.again copy backoff) Verdict.acked w =
    redeliver (delivery copy.body (headers copy)) w
carry redeliver m route Verdict.requeued w = redeliver m w

module _ {B W : Type 0} (port : Port B W) where
  -- At most so many deliveries of a message, one behind the other.
  unfoldable pub journey : ℕ → Policy → Message B → W → Option (Fate B × W)
  unfolding route follow
  journey zero policy m w = none
  journey (suc left) policy m w =
      let (answer, w₁) = port.handler m w in
      let r = route policy m answer in
      let (v, w₂) = follow port r w₁ in carry (journey left policy) m r v w₂

  -- A fate of the message: what is parked is a copy of it, tried no less often.
  abbrev pub IsFateOf : Message B → Fate B → Type 0
  IsFateOf m Fate.handled = Unit
  IsFateOf m (Fate.parked copy) = IsCopy m copy × (m.attempt ≤ copy.attempt)

  redelivered : (m : Message B) → m.attempt ≤ 2 ^ 30 → delivery m.body (headers m) ≡ m
  redelivered m small =
      let same : min m.attempt (2 ^ 30) ≡ m.attempt = omega (arith, small) in
      delivery-headers m ∙ ap (λ n. record m { attempt = n }) same

  -- One delivery of the message and those behind it, from the answer of the handler on.
  journey-goes :
      (left : ℕ) (policy : Policy) (m : Message B) (answer : Option Error) (w : W)
      → ((copy : Message B) (backoff : ℕ) (w : W) → (port.publish_retry copy backoff w).0 ≡ none)
      → ((copy : Message B) (w : W) → (port.publish_dlq copy w).0 ≡ none)
      → policy.max_attempts ≤ 2 ^ 30
      → policy.max_attempts ≤ m.attempt + suc left
      → ((copy : Message B) (w : W)
          → 0 < left
          → policy.max_attempts ≤ copy.attempt + left
          → (fate : Fate B) × (w' : W) × (journey left policy copy w ≡ some (fate, w'))
            × IsFateOf copy fate)
      → (fate : Fate B) × (w' : W) × (carry
            (journey left policy)
            m
            (route policy m answer)
            (follow port (route policy m answer) w).0
            (follow port (route policy m answer) w).1
          ≡ some (fate, w'))
        × IsFateOf m fate
  unfolding route follow
  journey-goes left policy m none w retries parks small enough onward = (Fate.handled, w, refl, tt)
  journey-goes left policy m (some e) w retries parks small enough onward =
      elim (Bool-cases (is_retryable e)) [
        | inr permanent ↦ (
          Fate.parked m,
          (port.publish_dlq m w).1,
          rw (permanent, parks m w) refl,
          (IsCopy-refl m, omega arith),
        )
        | inl transient ↦ elim (Bool-cases (ltb (m.attempt + 1) policy.max_attempts)) [
          | inr spent ↦ (
            Fate.parked m,
            (port.publish_dlq m w).1,
            rw (transient, spent, parks m w) refl,
            (IsCopy-refl m, omega arith),
          )
          | inl more ↦
              let copy = record m { attempt = m.attempt + 1 } in
              let below = ltb→lt (m.attempt + 1) policy.max_attempts more in
              let w' = (port.publish_retry copy (policy.backoff m.attempt) w).1 in
              let (fate, w'', ran, kept) =
                onward copy w' (omega (arith, below, enough)) (omega (arith, enough)) in
              (
                fate,
                w'',
                rw
                    (
                      transient,
                      more,
                      retries copy (policy.backoff m.attempt) w,
                      redelivered copy (omega (arith, below, small)),
                    )
                    ran,
                later m copy fate (record { body = refl; traceparent = refl; event_id = refl })
                    (omega arith) kept,
              )
        ]
      ]
    where
      later :
          (m copy : Message B) (fate : Fate B)
          → IsCopy m copy
          → m.attempt ≤ copy.attempt
          → IsFateOf copy fate
          → IsFateOf m fate
      later m copy Fate.handled c h k = tt
      later m copy (Fate.parked last) c h (k, n) = (
        record {
          body = k.body ∙ c.body;
          traceparent = k.traceparent ∙ c.traceparent;
          event_id = k.event_id ∙ c.event_id;
        },
        omega (arith, h, n),
      )

  -- Where the publisher confirms, a message is delivered no more often than it has attempts left
  -- (and once at least), and then it is handled, or parked as a copy with its body, traceparent and
  -- event id; at most 2³⁰ attempts are allowed.
  pub journey-ends :
      (deliveries : ℕ) (policy : Policy) (m : Message B) (w : W)
      → ((copy : Message B) (backoff : ℕ) (w : W) → (port.publish_retry copy backoff w).0 ≡ none)
      → ((copy : Message B) (w : W) → (port.publish_dlq copy w).0 ≡ none)
      → policy.max_attempts ≤ 2 ^ 30
      → 0 < deliveries
      → policy.max_attempts ≤ m.attempt + deliveries
      → (fate : Fate B) × (w' : W) × (journey deliveries policy m w ≡ some (fate, w'))
        × IsFateOf m fate
  unfolding journey
  journey-ends zero policy m w retries parks small some_left enough =
      absurd (omega (arith, some_left))
  journey-ends (suc left) policy m w retries parks small some_left enough =
      journey-goes left policy m (port.handler m w).0 (port.handler m w).1 retries parks small
        enough (λ copy w' h k. journey-ends left policy copy w' retries parks small h k)

  module _ (Held : Message B → W → Type 0)
      (retry_holds : (m : Message B) (backoff : ℕ) (w : W)
        → (port.publish_retry m backoff w).0 ≡ none
        → Held m (port.publish_retry m backoff w).1)
      (dlq_holds : (m : Message B) (w : W)
        → (port.publish_dlq m w).0 ≡ none
        → Held m (port.publish_dlq m w).1) where
    follow-held :
        (policy : Policy) (m : Message B) (e : Error) (w : W)
        → (follow port (route policy m (some e)) w).0 ≡ Verdict.acked
        → (copy : Message B) × Held copy (follow port (route policy m (some e)) w).1 × IsCopy m copy
    unfolding follow route
    follow-held policy m e w h =
        elim (Bool-cases (is_retryable e && ltb (m.attempt + 1) policy.max_attempts)) [
          | inl again_ ↦
              let copy = record m { attempt = m.attempt + 1 } in
              let published =
                failed-verdict (port.publish_retry copy (policy.backoff m.attempt) w).0
                  (rw again_ at h) in
              rw again_ (
                copy,
                retry_holds copy (policy.backoff m.attempt) w published,
                record { body = refl; traceparent = refl; event_id = refl },
              )
          | inr dead_ ↦
              let published = failed-verdict (port.publish_dlq m w).0 (rw dead_ at h) in
              rw dead_ (m, dlq_holds m w published, IsCopy-refl m)
        ]

    -- A delivery that is acknowledged was handled without an error, or the broker holds a copy of
    -- it, with its body, its traceparent and its event id; the broker holds what it confirms.
    pub dispatch-keeps :
        (policy : Policy) (m : Message B) (w : W)
        → (dispatch port policy m w).0 ≡ Verdict.acked
        → ((port.handler m w).0 ≡ none)
          ⊎ ((copy : Message B) × Held copy (dispatch port policy m w).1 × IsCopy m copy)
    unfolding dispatch
    dispatch-keeps policy m w h = elim (Option-cases (port.handler m w).0) [
      | inl fine ↦ inl fine
      | inr (e, q) ↦ inr (rw q (follow-held policy m e (port.handler m w).1 (rw q at h)))
    ]
