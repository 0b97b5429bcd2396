-- ===== src/RabbitMq/Publisher.antt =====
-- rabbitmq.go: the publisher with its confirming channel.
use golang_service_architect.Common.{
  ℕ, ◌/◌, if◌then◌else◌, Bool, true, false, Option, none, some, Result, ok, err, String,
}
use golang_service_architect.Apperrors.{Error, Code, new, wrap}
use golang_service_architect.Text.{Text}
use golang_service_architect.RabbitMq.{Flow, retry_exchange, dlq_exchange, Message, Table, headers}

-- `amqp.Publishing` with the exchange, the key and the `mandatory` flag of the call; the content
-- type, the delivery mode and the timestamp are the same for all. `expiration` is in milliseconds.
pub record Publishing (B : Type 0) : Type 0 where
  pub exchange : Text
  pub key : Text
  pub mandatory : Bool
  pub expiration : Option ℕ
  pub headers : Table
  pub body : B

-- What `Publish` and `PublishRetry` build; the backoff is in nanoseconds.
abbrev pub plain_publishing : {B : Type 0} → Text → Text → Message B → Publishing B
plain_publishing exchange key msg = record {
  exchange = exchange;
  key = key;
  mandatory = true;
  expiration = none;
  headers = headers msg;
  body = msg.body;
}

abbrev pub retry_publishing : {B : Type 0} → Flow → Message B → ℕ → Publishing B
retry_publishing f msg backoff = record {
  exchange = retry_exchange f;
  key = f.routing_key;
  mandatory = false;
  expiration = some (backoff / 1000000);
  headers = headers msg;
  body = msg.body;
}

-- What the code calls of the AMQP library. `W` is the broker's state with the clock of the
-- contexts, `Ch` a channel, `Conf` a deferred confirmation.
pub record Amqp (B W Ch Conf : Type 0) : Type 0 where
  pub channel : W → Result Error Ch × W  -- `Client.Channel`
  pub is_closed : Ch → W → Bool
  pub confirm : Ch → W → Option Error × W
  pub close : Ch → W → W
  pub publish_deferred : Ch → Publishing B → W → Result Error Conf × W
  pub wait_confirm : Conf → W → Result Error Bool × W

-- The answer to a wait for the confirmation, in `Publish` and in `PublishRetry`.
abbrev pub confirmed : Result Error Bool → Option Error
confirmed (err e) = some (wrap Code.unavailable "confirm wait" e)
confirmed (ok false) = some (new Code.unavailable "broker nacked publish")
confirmed (ok true) = none

abbrev pub retry_confirmed : Result Error Bool → Option Error
retry_confirmed (ok true) = none
retry_confirmed _ = some (new Code.unavailable "retry publish not confirmed")

module _ {B W Ch Conf : Type 0} (amqp : Amqp B W Ch Conf) where
  -- `reopen`: the new channel, which becomes the field `ch` of the publisher.
  unfoldable pub reopen : W → Result Error Ch × W
  reopen w =
      let (opened, w₁) = amqp.channel w in
      elim opened [
        | err e ↦ (err e, w₁)
        | ok fresh ↦
            let (failure, w₂) = amqp.confirm fresh w₁ in
            elim failure [ some e ↦ (err e, amqp.close fresh w₂) | none ↦ (ok fresh, w₂) ]
      ]

  -- The first lines of `Publish` and `PublishRetry`: a missing or closed channel is opened again.
  unfoldable pub ready_channel : Option Ch → W → Result Error Ch × W
  unfolding reopen
  ready_channel none w = reopen w
  ready_channel (some ch) w =
      let again = reopen w in if amqp.is_closed ch w then again else (ok ch, w)

  -- The sending of one message over an open channel.
  unfoldable pub send :
      String → (Result Error Bool → Option Error) → Ch → Publishing B → W → Option Error × W
  send place answer ch p w =
      let (deferred, w₁) = amqp.publish_deferred ch p w in
      elim deferred [
        | err e ↦ (some (wrap Code.unavailable place e), w₁)
        | ok conf ↦ let (waited, w₂) = amqp.wait_confirm conf w₁ in (answer waited, w₂)
      ]

  -- The common frame of `Publish` and `PublishRetry`, with the field `ch` before and after.
  unfoldable pub send_on :
      String
      → (Result Error Bool → Option Error)
      → Publishing B
      → Option Ch
      → W
      → Option Error × Option Ch × W
  unfolding ready_channel send
  send_on place answer p ch w =
      let (ready, w₁) = ready_channel ch w in
      elim ready [
        | err e ↦ (some (wrap Code.unavailable "publisher channel" e), ch, w₁)
        | ok open_ch ↦ let (e, w₂) = send place answer open_ch p w₁ in (e, some open_ch, w₂)
      ]

  -- `Publish`, to an exchange and a key.
  unfoldable pub publish : Text → Text → Message B → Option Ch → W → Option Error × Option Ch × W
  unfolding send_on
  publish exchange key msg = send_on "publish" confirmed (plain_publishing exchange key msg)

  -- `PublishRetry`
  unfoldable pub publish_retry : Flow → Message B → ℕ → Option Ch → W → Option Error × Option Ch × W
  unfolding send_on
  publish_retry f msg backoff =
      send_on "publish retry" retry_confirmed (retry_publishing f msg backoff)

  -- `PublishDLQ`
  unfoldable pub publish_dlq : Flow → Message B → Option Ch → W → Option Error × Option Ch × W
  unfolding publish
  publish_dlq f = publish (dlq_exchange f) f.routing_key
