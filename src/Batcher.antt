-- ===== src/Batcher.antt =====
-- backend/pkg/batcher/batcher.go: the buffer and its loop. What runs under the mutex is one step, and
-- so is the flush of one chunk; the steps of producers run in between.
pub mod Steps
pub mod History
mod Tests
use golang_service_architect.Common.{
  ℕ, zero, suc, Bool, true, false, ◌||◌, List, [], ◌∷◌, ◌++◌, length, take, drop, leb,
  if◌then◌else◌,
}

-- `Config`, of which the waiting time only sets when the ticker fires.
pub record Config : Type 0 where
  pub max_size : ℕ

-- `defaults`
abbrev pub size_or_default : ℕ → ℕ
size_or_default zero = 500
size_or_default (suc n) = suc n

unfoldable pub defaults : Config → Config
defaults c = record { max_size = size_or_default c.max_size }

-- Where the loop is: in its select, in front of a swap, in the flush of what is left of a swapped
-- buffer, or behind its return. The flag tells the final round, behind `stop`.
pub data Phase (A : Type 0) : Type 0 where
  idle : Phase A
  woken : Bool → Phase A
  flushing : Bool → List A → Phase A
  ended : Phase A

-- `Batcher`; `kick` says that the channel holds its one element.
pub record Batcher (A : Type 0) : Type 0 where
  pub cfg : Config
  pub active : List A
  pub kick : Bool
  pub stopping : Bool
  pub phase : Phase A

pub data Step (A : Type 0) : Type 0 where
  added : A → Step A
  closed ticked kicked stopped swapped chunked : Step A

module _ {A : Type 0} where
  -- `New`
  unfoldable pub new_batcher : Config → Batcher A
  unfolding defaults
  new_batcher c = record {
    cfg = defaults c;
    active = [];
    kick = false;
    stopping = false;
    phase = Phase.idle;
  }

  -- `Add`
  unfoldable pub add : A → Batcher A → Batcher A
  add item b =
      let active = b.active ++ item ∷ [] in
      record b { active = active; kick = b.kick || leb b.cfg.max_size (length active) }

  -- The cases of the select in `loop`; a case that is not ready does nothing.
  abbrev pub select_tick : Phase A → Phase A
  select_tick Phase.idle = Phase.woken false
  select_tick phase = phase

  abbrev pub select_stop : Bool → Phase A → Phase A
  select_stop true Phase.idle = Phase.woken true
  select_stop stopping phase = phase

  abbrev pub select_kick : Bool → Phase A → Bool × Phase A
  select_kick true Phase.idle = (false, Phase.woken false)
  select_kick kick phase = (kick, phase)

  -- Behind a flush: the next turn of the loop, or its return.
  abbrev pub next_turn : Bool → Phase A
  next_turn true = Phase.ended
  next_turn false = Phase.idle

  -- The locked part of `swapAndFlush`: the new active buffer and what is to be flushed.
  abbrev pub swap : Phase A → List A → List A × Phase A
  swap (Phase.woken last) [] = ([], next_turn last)
  swap (Phase.woken last) (item ∷ items) = ([], Phase.flushing last (item ∷ items))
  swap phase active = (active, phase)

  -- One turn of the `for` in `swapAndFlush`: the chunk that is flushed.
  abbrev pub flush_chunk : ℕ → Phase A → List A × Phase A
  flush_chunk size (Phase.flushing last []) = ([], next_turn last)
  flush_chunk size (Phase.flushing last (item ∷ items)) =
      (take size (item ∷ items), Phase.flushing last (drop size (item ∷ items)))
  flush_chunk size phase = ([], phase)

  -- One step, with the chunk that it flushes.
  unfoldable pub step : Step A → Batcher A → List A × Batcher A
  unfolding add
  step (Step.added item) b = ([], add item b)
  step Step.closed b = ([], record b { stopping = true })
  step Step.ticked b = ([], record b { phase = select_tick b.phase })
  step Step.kicked b =
      let (kick, phase) = select_kick b.kick b.phase in
      ([], record b { kick = kick; phase = phase })
  step Step.stopped b = ([], record b { phase = select_stop b.stopping b.phase })
  step Step.swapped b =
      let (active, phase) = swap b.phase b.active in
      ([], record b { active = active; phase = phase })
  step Step.chunked b =
      let (chunk, phase) = flush_chunk b.cfg.max_size b.phase in (chunk, record b { phase = phase })

  -- What is swapped out and not flushed yet.
  abbrev pub in_flight : Phase A → List A
  in_flight (Phase.flushing last items) = items
  in_flight _ = []

  -- `Len`
  abbrev pub backlog : Batcher A → ℕ
  backlog b = length b.active
