-- ===== src/RabbitMq/DeadLetters.antt =====
-- rabbitmq.go, InspectDLQ and RequeueDLQ: the operator's view of a dead-letter queue.
pub mod Redrive
use golang_service_architect.Common.{
  ℕ, zero, suc, ◌+◌, ◌<◌, ◌≡◌, Bool, Option, none, some, List, [], ◌∷◌, ◌++◌, Result, ok, err, ltb,
  if◌then◌else◌, map,
}
use golang_service_architect.Apperrors.{Error}
use golang_service_architect.RabbitMq.{Message, Table, delivery}

-- A delivery of the library: what a queue holds, with the tag of the channel that got it.
pub record Parcel (B : Type 0) : Type 0 where
  pub body : B
  pub headers : Table

pub record Letter (B : Type 0) : Type 0 where
  pub tag : ℕ
  pub parcel : Parcel B

-- What the two functions call on a channel, and on the publisher for the flow's exchange.
pub record Channel (B W : Type 0) : Type 0 where
  pub get : W → Result Error (Option (Letter B)) × W
  pub publish : Message B → W → Option Error × W
  pub ack : Letter B → W → W
  pub nack : Letter B → W → W  -- with requeue
  pub nack_until : ℕ → W → W  -- all deliveries up to a tag, with requeue

abbrev pub opened : {B : Type 0} → Parcel B → Message B
opened p = delivery p.body p.headers

-- What was got with a fresh attempt counter.
abbrev pub reset : {B : Type 0} → Parcel B → Message B
reset p = record (opened p) { attempt = 0 }

module _ {B W : Type 0} (ch : Channel B W) where
  -- The loop of `RequeueDLQ`, with the count of the moved letters.
  unfoldable pub requeue_from : ℕ → ℕ → W → ℕ × Option Error × W
  requeue_from zero moved w = (moved, none, w)
  requeue_from (suc limit) moved w =
      let (got, w₁) = ch.get w in
      elim got [
        | err e ↦ (moved, some e, w₁)
        | ok none ↦ (moved, none, w₁)
        | ok (some d) ↦
            let (failure, w₂) = ch.publish (reset d.parcel) w₁ in
            let rest = requeue_from limit (moved + 1) (ch.ack d w₂) in
            elim failure [ some e ↦ (moved, some e, ch.nack d w₂) | none ↦ rest ]
      ]

  -- `RequeueDLQ`
  unfoldable pub requeue_dlq : ℕ → W → ℕ × Option Error × W
  unfolding requeue_from
  requeue_dlq limit w = requeue_from limit 0 w

  -- The loop of `InspectDLQ`, with what it has read and the last tag.
  unfoldable pub peek : ℕ → List (Message B) → ℕ → W → Result Error (List (Message B) × ℕ) × W
  peek zero out tag w = (ok (out, tag), w)
  peek (suc limit) out tag w =
      let (got, w₁) = ch.get w in
      elim got [
        | err e ↦ (err e, w₁)
        | ok none ↦ (ok (out, tag), w₁)
        | ok (some d) ↦ peek limit (out ++ opened d.parcel ∷ []) d.tag w₁
      ]

  -- The end of `InspectDLQ`: one nack requeues the whole peek.
  abbrev pub put_back :
      Result Error (List (Message B) × ℕ) → W → Result Error (List (Message B)) × W
  put_back (err e) w = (err e, w)
  put_back (ok (out, tag)) w = (ok out, if ltb 0 tag then ch.nack_until tag w else w)

  unfoldable pub inspect_dlq : ℕ → W → Result Error (List (Message B)) × W
  unfolding peek
  inspect_dlq limit w = let (read, w') = peek limit [] 0 w in put_back read w'

-- What the broker promises of a queue that nobody else reads: `waiting` is what it
-- holds, `unsettled` those that were got and neither acknowledged nor requeued, and `sent` the
-- messages that it took for the flow's exchange, all of which it confirms.
pub record IsQueue {B W : Type 0} (ch : Channel B W) : Type 0 where
  pub waiting : W → List (Parcel B)
  pub unsettled : W → List (Letter B)
  pub sent : W → List (Message B)
  pub get_none : (w : W) → waiting w ≡ [] → ch.get w ≡ (ok none, w)
  pub get_some :
      (w : W) (p : Parcel B) (ps : List (Parcel B))
      → waiting w ≡ p ∷ ps
      → (tag : ℕ) × ((ch.get w).0 ≡ ok (some (record { tag = tag; parcel = p })))
        × (0 < tag)
        × (waiting (ch.get w).1 ≡ ps)
        × (unsettled (ch.get w).1 ≡ unsettled w ++ record { tag = tag; parcel = p } ∷ [])
        × (sent (ch.get w).1 ≡ sent w)
  pub publish_sends :
      (m : Message B) (w : W)
      → ((ch.publish m w).0 ≡ none)
        × (waiting (ch.publish m w).1 ≡ waiting w)
        × (unsettled (ch.publish m w).1 ≡ unsettled w)
        × (sent (ch.publish m w).1 ≡ sent w ++ m ∷ [])
  pub ack_settles :
      (d : Letter B) (w : W) (ds : List (Letter B))
      → unsettled w ≡ ds ++ d ∷ []
      → unsettled (ch.ack d w) ≡ ds
  pub ack_keeps :
      (d : Letter B) (w : W) → (waiting (ch.ack d w) ≡ waiting w) × (sent (ch.ack d w) ≡ sent w)
  pub nack_returns :
      (d : Letter B) (w : W) (ds : List (Letter B))
      → unsettled w ≡ ds ++ d ∷ []
      → waiting (ch.nack_until d.tag w) ≡ map (λ l. l.parcel) (ds ++ d ∷ []) ++ waiting w
