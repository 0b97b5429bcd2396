-- ===== src/Batcher/History.antt =====
-- batcher.go: what holds behind any sequence of steps.
use golang_service_architect.Common.{
  ℕ, zero, suc, ◌<◌, ◌≤◌, ◌≡◌, refl, sym, ap, Bool, true, false, ◌||◌, List, [], ◌∷◌, ◌++◌, length,
  leb, ◌⊎◌, inl, inr, arith, subst, All,
}
use golang_service_architect.Batcher.{
  Config, size_or_default, defaults, Phase, Batcher, Step, new_batcher, add, select_tick,
  select_kick, select_stop, swap, flush_chunk, step,
}
use golang_service_architect.Batcher.Steps.{
  run, items, joined, held, run-held, step-small, step-cfg,
}

awake-add : (size n : ℕ) (kick : Bool) → (n < size) ⊎ ((kick || leb size n) ≡ true)
awake-add size n kick = ground arith

defaults-positive : (c : Config) → 0 < (defaults c).max_size
unfolding defaults
defaults-positive c = positive c.max_size
  where
    positive : (n : ℕ) → 0 < size_or_default n
    positive zero = omega arith
    positive (suc n) = omega arith

module _ {A : Type 0} where
  -- The loop is about to swap.
  abbrev pub IsWoken : Phase A → Type 0
  IsWoken phase = (last : Bool) × (phase ≡ Phase.woken last)

  -- A full buffer is not overlooked: the loop is about to swap it, or its wake-up waits.
  abbrev pub IsAwake : Batcher A → Type 0
  IsAwake b = (length b.active < b.cfg.max_size) ⊎ ((b.kick ≡ true) ⊎ IsWoken b.phase)

  IsWoken-tick : (phase : Phase A) → IsWoken phase → IsWoken (select_tick phase)
  IsWoken-tick phase (last, e) = (last, ap select_tick e)

  IsWoken-stop :
      (stopping : Bool) (phase : Phase A) → IsWoken phase → IsWoken (select_stop stopping phase)
  IsWoken-stop true phase (last, e) = (last, ap (select_stop true) e)
  IsWoken-stop false phase h = h

  IsWoken-chunk : (size : ℕ) (phase : Phase A) → IsWoken phase → IsWoken (flush_chunk size phase).1
  IsWoken-chunk size phase (last, e) = (last, ap (λ l. (flush_chunk size l).1) e)

  awake-kick :
      (kick : Bool) (phase : Phase A)
      → (kick ≡ true) ⊎ IsWoken phase
      → ((select_kick kick phase).0 ≡ true) ⊎ IsWoken (select_kick kick phase).1
  awake-kick true Phase.idle h = inr (false, refl)
  awake-kick true (Phase.woken last) h = inl refl
  awake-kick true (Phase.flushing last rest) h = inl refl
  awake-kick true Phase.ended h = inl refl
  awake-kick false phase h = h

  awake-swap :
      (size : ℕ) (kick : Bool) (phase : Phase A) (active : List A)
      → 0 < size
      → (length active < size) ⊎ ((kick ≡ true) ⊎ IsWoken phase)
      → (length (swap phase active).0 < size) ⊎ ((kick ≡ true) ⊎ IsWoken (swap phase active).1)
  awake-swap size kick Phase.idle active some_room h = h
  awake-swap size kick (Phase.woken last) [] some_room h = inl some_room
  awake-swap size kick (Phase.woken last) (item ∷ rest) some_room h = inl some_room
  awake-swap size kick (Phase.flushing last rest) active some_room h = h
  awake-swap size kick Phase.ended active some_room h = h

  step-IsAwake :
      (s : Step A) (b : Batcher A) → 0 < b.cfg.max_size → IsAwake b → IsAwake (step s b).1
  unfolding step add
  step-IsAwake (Step.added item) b some_room h =
      elim (awake-add b.cfg.max_size (length (b.active ++ item ∷ [])) b.kick) [
        | inl room ↦ inl room
        | inr kicked ↦ inr (inl kicked)
      ]
  step-IsAwake Step.closed b some_room h = h
  step-IsAwake Step.ticked b some_room (inl room) = inl room
  step-IsAwake Step.kicked b some_room (inl room) = inl room
  step-IsAwake Step.stopped b some_room (inl room) = inl room
  step-IsAwake Step.chunked b some_room (inl room) = inl room
  step-IsAwake Step.ticked b some_room (inr (inl h)) = inr (inl h)
  step-IsAwake Step.ticked b some_room (inr (inr h)) = inr (inr (IsWoken-tick b.phase h))
  step-IsAwake Step.kicked b some_room (inr h) = inr (awake-kick b.kick b.phase h)
  step-IsAwake Step.stopped b some_room (inr (inl h)) = inr (inl h)
  step-IsAwake Step.stopped b some_room (inr (inr h)) =
      inr (inr (IsWoken-stop b.stopping b.phase h))
  step-IsAwake Step.swapped b some_room h =
      awake-swap b.cfg.max_size b.kick b.phase b.active some_room h
  step-IsAwake Step.chunked b some_room (inr (inl h)) = inr (inl h)
  step-IsAwake Step.chunked b some_room (inr (inr h)) =
      inr (inr (IsWoken-chunk b.cfg.max_size b.phase h))

  run-IsAwake :
      (steps : List (Step A)) (b : Batcher A)
      → 0 < b.cfg.max_size
      → IsAwake b
      → IsAwake (run steps b).1
  run-IsAwake [] b some_room h = h
  run-IsAwake (s ∷ steps) b some_room h =
      run-IsAwake steps (step s b).1 (subst (λ c. 0 < c.max_size) (sym (step-cfg s b)) some_room)
        (step-IsAwake s b some_room h)

  run-small :
      (steps : List (Step A)) (b : Batcher A)
      → All (λ chunk. length chunk ≤ b.cfg.max_size) (run steps b).0
  run-small [] b = tt
  run-small (s ∷ steps) b = (
    step-small s b,
    subst (λ c. All (λ chunk. length chunk ≤ c.max_size) (run steps (step s b).1).0) (step-cfg s b)
        (run-small steps (step s b).1),
  )

  -- Whatever the order of adding, of the loop's turns and of closing: the flushed chunks are what was
  -- added, in order, but for what is swapped out and not flushed yet and what is in the buffer; no
  -- chunk is larger than the configured size; and where the buffer has reached that size, the loop
  -- is about to swap it or its wake-up waits in the channel.
  pub run_lem :
      (c : Config) (steps : List (Step A))
      → (joined (run steps (new_batcher c)).0 ++ held (run steps (new_batcher c)).1 ≡ items steps)
        × All (λ chunk. length chunk ≤ (defaults c).max_size) (run steps (new_batcher c)).0
        × IsAwake (run steps (new_batcher c)).1
  unfolding new_batcher
  run_lem c steps = (
    sym (run-held steps (new_batcher c)),
    run-small steps (new_batcher c),
    run-IsAwake steps (new_batcher c) (defaults-positive c) (inl (defaults-positive c)),
  )
