-- ===== src/RabbitMq/DeadLetters/Redrive.antt =====
-- rabbitmq.go: what the operator's two functions do to a queue.
use golang_service_architect.Common.{
  ℕ, zero, suc, ◌+◌, ◌<◌, ◌≡◌, refl, sym, ap, ◌∙◌, none, List, [], ◌∷◌, ◌++◌, map, append-nil,
  append_assoc, length, take, drop, inl, inr, ◌⊎◌, ok, lt→ltb, arith, take-append-drop,
}
use mathlib.Core.List.{map-append}
use golang_service_architect.RabbitMq.DeadLetters.{
  Parcel, Letter, Channel, opened, reset, requeue_from, requeue_dlq, peek, inspect_dlq, IsQueue,
}

module _ {B W : Type 0} (ch : Channel B W) (q : IsQueue ch) where
  open q use {
    waiting, unsettled, sent, get_none, get_some, publish_sends, ack_settles, ack_keeps,
    nack_returns,
  }

  requeue_from-moves :
      (limit moved : ℕ) (w : W) (ps : List (Parcel B))
      → waiting w ≡ ps
      → (w' : W) × (requeue_from ch limit moved w ≡ (moved + length (take limit ps), none, w'))
        × (waiting w' ≡ drop limit ps)
        × (unsettled w' ≡ unsettled w)
        × (sent w' ≡ sent w ++ map reset (take limit ps))
  unfolding requeue_from
  requeue_from-moves zero moved w ds h =
      let same : moved ≡ moved + zero = omega arith in
      (w, ap (λ n. (n, none, w)) same, h, refl, sym (append-nil (sent w)))
  requeue_from-moves (suc limit) moved w [] h =
      let same : moved ≡ moved + zero = omega arith in
      (
        w,
        rw (requeue_from, ap (λ x. x.0) (get_none w h), ap (λ x. x.1) (get_none w h))
            (ap (λ n. (n, none, w)) same),
        h,
        refl,
        sym (append-nil (sent w)),
      )
  requeue_from-moves (suc limit) moved w (p ∷ ps) h =
      let (tag, got, tagged, left, held, told) = get_some w p ps h in
      let d : Letter B = record { tag = tag; parcel = p } in
      let w₁ = (ch.get w).1 in
      let (sends, still, same_held, more) = publish_sends (reset p) w₁ in
      let w₂ = (ch.publish (reset p) w₁).1 in
      let (kept, same_sent) = ack_keeps d w₂ in
      let (w', ran, rest, settled, all) =
        requeue_from-moves limit (moved + 1) (ch.ack d w₂) ps (kept ∙ still ∙ left) in
      let count : moved + 1 + length (take limit ps) ≡ moved + suc (length (take limit ps)) =
        omega arith in
      (
        w',
        rw (requeue_from, got, sends) (ran ∙ ap (λ n. (n, none, w')) count),
        rest,
        settled ∙ ack_settles d w₂ (unsettled w) (same_held ∙ held),
        all
            ∙ ap (λ l. l ++ map reset (take limit ps))
                (same_sent ∙ more ∙ ap (λ l. l ++ reset p ∷ []) told)
            ∙ append_assoc (sent w) (reset p ∷ []) (map reset (take limit ps)),
      )

  -- Where the broker takes and confirms each message, redriving a dead-letter queue moves its first
  -- `limit` messages, in their order and with their attempt counters back at 0, to the flow's
  -- exchange; each is acknowledged, so the channel holds back no letter that it did not hold back
  -- before; the others stay, and the count of the moved ones is returned.
  pub requeue_dlq-moves :
      (limit : ℕ) (w : W)
      → (w' : W) × (requeue_dlq ch limit w ≡ (length (take limit (waiting w)), none, w'))
        × (waiting w' ≡ drop limit (waiting w))
        × (unsettled w' ≡ unsettled w)
        × (sent w' ≡ sent w ++ map reset (take limit (waiting w)))
  unfolding requeue_dlq
  requeue_dlq-moves limit w =
      let (w', ran, rest, settled, told) = requeue_from-moves limit 0 w (waiting w) refl in
      let count : 0 + length (take limit (waiting w)) ≡ length (take limit (waiting w)) =
        omega arith in
      (w', ran ∙ ap (λ n. (n, none, w')) count, rest, settled, told)

  abbrev parcels : List (Letter B) → List (Parcel B)
  parcels = map (λ d. d.parcel)

  -- The tag behind some reads: none yet, or that of the last one.
  abbrev IsLastTag : List (Letter B) → ℕ → Type 0
  IsLastTag read tag =
      ((read ≡ []) × (tag ≡ 0))
      ⊎ ((ds : List (Letter B)) × (d : Letter B) × (read ≡ ds ++ d ∷ [])
          × (tag ≡ d.tag)
          × (0 < d.tag))

  parcels_append :
      (out : List (Letter B)) (d : Letter B)
      → parcels (out ++ d ∷ []) ≡ parcels out ++ d.parcel ∷ []
  parcels_append out d = map-append (λ l. l.parcel) out (d ∷ [])

  peek-reads :
      (limit : ℕ) (out : List (Letter B)) (tag : ℕ) (w : W) (ps : List (Parcel B))
      → waiting w ≡ ps
      → unsettled w ≡ out
      → IsLastTag out tag
      → (w' : W) × (tag' : ℕ) × (read : List (Letter B)) × (peek ch limit
            (map opened (parcels out))
            tag
            w
          ≡ (ok (map opened (parcels read), tag'), w'))
        × (parcels read ≡ parcels out ++ take limit ps)
        × (waiting w' ≡ drop limit ps)
        × (unsettled w' ≡ read)
        × IsLastTag read tag'
  unfolding peek
  peek-reads zero out tag w ps h u last =
      (w, tag, out, refl, sym (append-nil (parcels out)), h, u, last)
  peek-reads (suc limit) out tag w [] h u last = (
    w,
    tag,
    out,
    rw (peek, ap (λ x. x.0) (get_none w h), ap (λ x. x.1) (get_none w h)) refl,
    sym (append-nil (parcels out)),
    h,
    u,
    last,
  )
  peek-reads (suc limit) out tag w (p ∷ ps) h u last =
      let (new_tag, got, tagged, left, held, told) = get_some w p ps h in
      let d : Letter B = record { tag = new_tag; parcel = p } in
      let (w', tag', read, ran, taken, rest, all, last') =
        peek-reads limit (out ++ d ∷ []) new_tag (ch.get w).1 ps left
          (held ∙ ap (λ l. l ++ d ∷ []) u) (inr (out, d, refl, refl, tagged)) in
      let one = ap (map opened) (parcels_append out d) ∙ map-append opened (parcels out) (p ∷ []) in
      (
        w',
        tag',
        read,
        rw (peek, got, sym one) ran,
        taken
            ∙ ap (λ l. l ++ take limit ps) (parcels_append out d)
            ∙ append_assoc (parcels out) (p ∷ []) (take limit ps),
        rest,
        all,
        last',
      )

  -- Inspecting a dead-letter queue, where this channel has nothing of it unsettled, returns its
  -- first `limit` messages, with their decoded headers, and puts them back: the queue holds the same
  -- messages in the same order.
  inspect_dlq-restores :
      (limit : ℕ) (w : W)
      → unsettled w ≡ []
      → ((inspect_dlq ch limit w).0 ≡ ok (map opened (take limit (waiting w))))
        × (waiting (inspect_dlq ch limit w).1 ≡ waiting w)
  unfolding inspect_dlq
  inspect_dlq-restores limit w none_held =
      let (w', tag, read, ran, taken, rest, all, last) =
        peek-reads limit [] 0 w (waiting w) refl none_held (inl (refl, refl)) in
      let whole : parcels read ++ waiting w' ≡ waiting w =
        ap (λ l. l ++ waiting w') taken
        ∙ ap (λ l. take limit (waiting w) ++ l) rest
        ∙ take-append-drop limit (waiting w) in
      rw (inspect_dlq, ran)
        (
          ap (λ l. ok (map opened l)) taken,
          elim last [
            | inl (nothing, zero_tag) ↦
                rw zero_tag (ap (λ l. parcels l ++ waiting w') (sym nothing) ∙ whole)
            | inr (ds, d, all_read, last_tag, positive) ↦
                rw (last_tag, lt→ltb 0 d.tag positive)
                  (nack_returns d w' ds (all ∙ all_read)
                    ∙ ap (λ l. parcels l ++ waiting w') (sym all_read)
                    ∙ whole)
          ],
        )
