-- ===== src/RabbitMq/Dispatch.antt =====
-- rabbitmq.go, dispatch: the policy around one delivery.
use golang_service_architect.Common.{ℕ, ◌+◌, ◌&&◌, Option, none, some, ltb, if◌then◌else◌}
use golang_service_architect.Apperrors.{Error, is_retryable}
use golang_service_architect.RabbitMq.{Message}

-- What the broker is told of a delivery in the end: `Ack(false)` or `Nack(false, true)`.
pub data Verdict : Type 0 where
  acked requeued : Verdict

-- The calls of `dispatch`: the handler, and the publisher for the flow of its configuration.
pub record Port (B W : Type 0) : Type 0 where
  pub handler : Message B → W → Option Error × W
  pub publish_retry : Message B → ℕ → W → Option Error × W
  pub publish_dlq : Message B → W → Option Error × W

-- The fields of `ConsumeConfig` that `dispatch` reads.
pub record Policy : Type 0 where
  pub max_attempts : ℕ
  pub backoff : ℕ → ℕ

-- Where a delivery goes behind its handler: nowhere, a copy to the retry queue, or one to the DLQ.
pub data Route (B : Type 0) : Type 0 where
  finished : Route B
  again : Message B → ℕ → Route B
  dead : Message B → Route B

unfoldable pub route : {B : Type 0} → Policy → Message B → Option Error → Route B
route policy m none = Route.finished
route policy m (some e) =
    if is_retryable e && ltb (m.attempt + 1) policy.max_attempts
    then Route.again (record m { attempt = m.attempt + 1 }) (policy.backoff m.attempt)
    else Route.dead m

-- A copy that could not be published leaves the delivery to the broker.
abbrev pub verdict : Option Error → Verdict
verdict none = Verdict.acked
verdict (some e) = Verdict.requeued

module _ {B W : Type 0} (port : Port B W) where
  unfoldable pub follow : Route B → W → Verdict × W
  follow Route.finished w = (Verdict.acked, w)
  follow (Route.again m backoff) w =
      let (failure, w') = port.publish_retry m backoff w in (verdict failure, w')
  follow (Route.dead m) w = let (failure, w') = port.publish_dlq m w in (verdict failure, w')

  -- `dispatch`
  unfoldable pub dispatch : Policy → Message B → W → Verdict × W
  unfolding route follow
  dispatch policy m w = let (answer, w') = port.handler m w in follow (route policy m answer) w'
