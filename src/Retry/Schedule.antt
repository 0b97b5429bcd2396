-- ===== src/Retry/Schedule.antt =====
-- retry.go: the delays.
use Prim.Native.Nat.{min}
use native.Mathlib.Nat.{mul-pos}
use native.Mathlib.Numerals.{unary_clauses}
use golang_service_architect.Common.{
  ℕ, zero, suc, ◌*◌, ◌%◌, ◌^◌, ◌<◌, ◌≤◌, ◌≡◌, refl, ap, ◌∙◌, true, false, not, ◌||◌, inl, inr,
  Bool-cases, arith, if◌then◌else◌, leb, ltb, lt→ltb, leb→le, ◌-◌,
}
use golang_service_architect.Common.Int.{ℤ, pos, negsuc, is_positive_ℤ, leb_ℤ}
use golang_service_architect.Retry.{Config, defaults, int64, shift, backoff, or_else}

or_else-positive : (n other : ℕ) → 0 < other → 0 < or_else n other
or_else-positive zero other h = h
or_else-positive (suc n) other h = omega arith

pub defaults-cap : (cfg : Config) → 0 < (defaults cfg).cap
unfolding defaults
defaults-cap cfg = or_else-positive cfg.cap _ (omega arith)

positive : (n : ℕ) → 0 < n → is_positive_ℤ (pos n) ≡ true
positive zero h = absurd (omega (arith, h))
positive (suc n) h = refl

int64-small : (w : ℕ) → w < 2 ^ 63 → int64 (w % 2 ^ 64) ≡ pos w
int64-small w h = let same : w % 2 ^ 64 ≡ w = omega arith in rw (same, lt→ltb w (2 ^ 63) h) refl

int64-large : (w : ℕ) → 2 ^ 63 ≤ w → w < 2 ^ 64 → int64 (w % 2 ^ 64) ≡ negsuc (2 ^ 64 - 1 - w)
int64-large w h k =
    let same : w % 2 ^ 64 ≡ w = omega arith in
    let not_small : ltb w (2 ^ 63) ≡ false = ground (arith, h) in rw (same, not_small) refl

pow-positive : (n : ℕ) → 0 < 2 ^ n
pow-positive zero = omega arith
pow-positive (suc n) = simp unary_clauses (mul-pos (pow-positive n) (omega arith))

defaults-base : (cfg : Config) → 0 < (defaults cfg).base
unfolding defaults
defaults-base cfg = or_else-positive cfg.base _ (omega arith)

-- A shift that does not reach the sign bit.
pub shift-exact :
    (base attempt : ℕ) → base * 2 ^ attempt < 2 ^ 63 → shift base attempt ≡ pos (base * 2 ^ attempt)
unfolding shift
shift-exact base attempt h = int64-small (base * 2 ^ attempt) h

-- A shift that sets it, and no higher bit, is negative.
pub shift-negative :
    (base attempt : ℕ)
    → 2 ^ 63 ≤ base * 2 ^ attempt
    → base * 2 ^ attempt < 2 ^ 64
    → (n : ℕ) × (shift base attempt ≡ negsuc n)
unfolding shift
shift-negative base attempt h k = (_, int64-large (base * 2 ^ attempt) h k)

abbrev clamp : ℤ → ℕ → ℤ
clamp c cap = if not (leb_ℤ c (pos cap)) || not (is_positive_ℤ c) then pos cap else c

leb_refl : (n : ℕ) → leb n n ≡ true
leb_refl n = ground arith

clamp-bounds :
    (c : ℤ) (cap : ℕ)
    → 0 < cap
    → (is_positive_ℤ (clamp c cap) ≡ true) × (leb_ℤ (clamp c cap) (pos cap) ≡ true)
clamp-bounds c cap h = elim (Bool-cases (leb_ℤ c (pos cap))) [
  | inl small ↦ elim (Bool-cases (is_positive_ℤ c)) [
    | inl p ↦ rw (small, p) (p, small)
    | inr p ↦ rw (small, p) (positive cap h, leb_refl cap)
  ]
  | inr large ↦ rw large (positive cap h, leb_refl cap)
]

clamp-min : (n cap : ℕ) → 0 < n → clamp (pos n) cap ≡ pos (min n cap)
clamp-min n cap h = elim (Bool-cases (leb n cap)) [
  | inl small ↦
      let n_least : min n cap ≡ n = omega (arith, leb→le n cap small) in
      rw (small, positive n h, n_least) refl
  | inr large ↦
      let cap_least : min n cap ≡ cap = ground (arith, large) in rw (large, cap_least) refl
]

-- The backoff of any attempt is positive and at most the cap, however far the shift overflows.
pub backoff_lem :
    (cfg : Config) (attempt : ℕ)
    → (is_positive_ℤ (backoff cfg attempt) ≡ true)
      × (leb_ℤ (backoff cfg attempt) (pos (defaults cfg).cap) ≡ true)
unfolding backoff
backoff_lem cfg attempt =
    clamp-bounds (shift (defaults cfg).base attempt) (defaults cfg).cap (defaults-cap cfg)

-- As long as the shift does not reach the sign bit, the backoff is the smaller one of `base · 2ⁿ`
-- and the cap.
pub backoff-exact :
    (cfg : Config) (attempt : ℕ)
    → (defaults cfg).base * 2 ^ attempt < 2 ^ 63
    → backoff cfg attempt ≡ pos (min ((defaults cfg).base * 2 ^ attempt) (defaults cfg).cap)
unfolding backoff
backoff-exact cfg attempt h =
    ap (λ c. clamp c (defaults cfg).cap) (shift-exact (defaults cfg).base attempt h)
    ∙ clamp-min ((defaults cfg).base * 2 ^ attempt) (defaults cfg).cap
        (mul-pos (defaults-base cfg) (pow-positive attempt))
