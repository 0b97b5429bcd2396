-- ===== src/Batcher/Tests.antt =====
-- The batcher on a few numbers.
use golang_service_architect.Common.{ℕ, ◌≤◌, ◌≡◌, List, [], ◌∷◌, ◌++◌, length, All}
use golang_service_architect.Batcher.{Config, Step, new_batcher, defaults}
use golang_service_architect.Batcher.Steps.{run, joined, held}
use golang_service_architect.Batcher.History.{IsAwake, run_lem}

-- Chunks of two: three numbers are added, of which the third comes behind the swap.
abbrev busy : List (Step ℕ)
busy =
    Step.added 1
    ∷ Step.added 2
    ∷ Step.kicked
    ∷ Step.swapped
    ∷ Step.added 3
    ∷ Step.chunked
    ∷ Step.chunked
    ∷ Step.closed
    ∷ Step.stopped
    ∷ Step.swapped
    ∷ Step.chunked
    ∷ Step.chunked
    ∷ []

abbrev pairs : Config
pairs = record { max_size = 2 }

run_lem_example :
    (joined (run busy (new_batcher pairs)).0 ++ held (run busy (new_batcher pairs)).1
      ≡ 1 ∷ 2 ∷ 3 ∷ [])
    × All (λ chunk. length chunk ≤ (defaults pairs).max_size) (run busy (new_batcher pairs)).0
    × IsAwake (run busy (new_batcher pairs)).1
run_lem_example = run_lem pairs busy
