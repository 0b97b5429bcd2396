-- ===== src/Batcher/Steps.antt =====
-- batcher.go: whatever the order of the steps, nothing is lost.
use golang_service_architect.Common.{
  ℕ, ◌≤◌, ◌≡◌, refl, sym, ap, ◌∙◌, Bool, true, false, List, [], ◌∷◌, ◌++◌, append-nil, append_assoc,
  length, length-take, take-append-drop, arith,
}
use golang_service_architect.Batcher.{
  Phase, Batcher, Step, add, select_tick, select_kick, select_stop, next_turn, swap, flush_chunk,
  step, in_flight,
}

-- The items that a step adds.
abbrev pub item_of : {A : Type 0} → Step A → List A
item_of (Step.added item) = item ∷ []
item_of _ = []

module _ {A : Type 0} where
  -- The chunks of some steps, one after another, and the state behind them.
  abbrev pub run : List (Step A) → Batcher A → List (List A) × Batcher A
  run [] b = ([], b)
  run (s ∷ steps) b =
      let (chunk, b₁) = step s b in let (chunks, b₂) = run steps b₁ in (chunk ∷ chunks, b₂)

  abbrev pub items : List (Step A) → List A
  items [] = []
  items (s ∷ steps) = item_of s ++ items steps

  abbrev pub joined : List (List A) → List A
  joined [] = []
  joined (chunk ∷ chunks) = chunk ++ joined chunks

  -- What the batcher holds, in the order of its coming.
  abbrev pub held : Batcher A → List A
  held b = in_flight b.phase ++ b.active

  tick-keeps : (phase : Phase A) → in_flight (select_tick phase) ≡ in_flight phase
  tick-keeps Phase.idle = refl
  tick-keeps (Phase.woken last) = refl
  tick-keeps (Phase.flushing last rest) = refl
  tick-keeps Phase.ended = refl

  kick-keeps :
      (kick : Bool) (phase : Phase A) → in_flight (select_kick kick phase).1 ≡ in_flight phase
  kick-keeps true Phase.idle = refl
  kick-keeps true (Phase.woken last) = refl
  kick-keeps true (Phase.flushing last rest) = refl
  kick-keeps true Phase.ended = refl
  kick-keeps false phase = refl

  stop-keeps :
      (stopping : Bool) (phase : Phase A) → in_flight (select_stop stopping phase) ≡ in_flight phase
  stop-keeps true Phase.idle = refl
  stop-keeps true (Phase.woken last) = refl
  stop-keeps true (Phase.flushing last rest) = refl
  stop-keeps true Phase.ended = refl
  stop-keeps false phase = refl

  next_turn-empty : (last : Bool) → in_flight (next_turn {A = A} last) ≡ []
  next_turn-empty true = refl
  next_turn-empty false = refl

  swap-keeps :
      (phase : Phase A) (active : List A)
      → in_flight phase ++ active ≡ in_flight (swap phase active).1 ++ (swap phase active).0
  swap-keeps Phase.idle active = refl
  swap-keeps (Phase.woken last) [] = rw (next_turn-empty last) refl
  swap-keeps (Phase.woken last) (item ∷ rest) = sym (append-nil (item ∷ rest))
  swap-keeps (Phase.flushing last rest) active = refl
  swap-keeps Phase.ended active = refl

  chunk-keeps :
      (size : ℕ) (phase : Phase A)
      → in_flight phase ≡ (flush_chunk size phase).0 ++ in_flight (flush_chunk size phase).1
  chunk-keeps size Phase.idle = refl
  chunk-keeps size (Phase.woken last) = refl
  chunk-keeps size (Phase.flushing last []) = sym (next_turn-empty last)
  chunk-keeps size (Phase.flushing last (item ∷ rest)) = sym (take-append-drop size (item ∷ rest))
  chunk-keeps size Phase.ended = refl

  -- No step loses an item, takes one twice or changes their order.
  step-held : (s : Step A) (b : Batcher A) → held b ++ item_of s ≡ (step s b).0 ++ held (step s b).1
  unfolding step add
  step-held (Step.added item) b = append_assoc (in_flight b.phase) b.active (item ∷ [])
  step-held Step.closed b = append-nil (held b)
  step-held Step.ticked b = append-nil (held b) ∙ ap (λ l. l ++ b.active) (sym (tick-keeps b.phase))
  step-held Step.kicked b =
      append-nil (held b) ∙ ap (λ l. l ++ b.active) (sym (kick-keeps b.kick b.phase))
  step-held Step.stopped b =
      append-nil (held b) ∙ ap (λ l. l ++ b.active) (sym (stop-keeps b.stopping b.phase))
  step-held Step.swapped b = append-nil (held b) ∙ swap-keeps b.phase b.active
  step-held Step.chunked b =
      append-nil (held b)
      ∙ ap (λ l. l ++ b.active) (chunk-keeps b.cfg.max_size b.phase)
      ∙ append_assoc (flush_chunk b.cfg.max_size b.phase).0
          (in_flight (flush_chunk b.cfg.max_size b.phase).1) b.active

  pub run-held :
      (steps : List (Step A)) (b : Batcher A)
      → held b ++ items steps ≡ joined (run steps b).0 ++ held (run steps b).1
  run-held [] b = append-nil (held b)
  run-held (s ∷ steps) b =
      let (chunk, b₁) = step s b in
      sym (append_assoc (held b) (item_of s) (items steps))
      ∙ ap (λ l. l ++ items steps) (step-held s b)
      ∙ append_assoc chunk (held b₁) (items steps)
      ∙ ap (λ l. chunk ++ l) (run-held steps b₁)
      ∙ sym (append_assoc chunk (joined (run steps b₁).0) (held (run steps b₁).1))

  -- The size of a batcher is its own, and positive; a chunk is no larger.
  abbrev IsWithin : ℕ → List A → Type 0
  IsWithin size chunk = length chunk ≤ size

  pub step-small : (s : Step A) (b : Batcher A) → length (step s b).0 ≤ b.cfg.max_size
  unfolding step
  step-small Step.chunked b = small b.phase
    where
      small : (phase : Phase A) → length (flush_chunk b.cfg.max_size phase).0 ≤ b.cfg.max_size
      small (Phase.flushing last (item ∷ rest)) =
          omega (arith, length-take b.cfg.max_size (item ∷ rest))
      small (Phase.flushing last []) = omega arith
      small Phase.idle = omega arith
      small (Phase.woken last) = omega arith
      small Phase.ended = omega arith
  step-small s b = omega arith

  pub step-cfg : (s : Step A) (b : Batcher A) → (step s b).1.cfg ≡ b.cfg
  unfolding step add
  step-cfg (Step.added item) b = refl
  step-cfg Step.closed b = refl
  step-cfg Step.ticked b = refl
  step-cfg Step.kicked b = refl
  step-cfg Step.stopped b = refl
  step-cfg Step.swapped b = refl
  step-cfg Step.chunked b = refl
