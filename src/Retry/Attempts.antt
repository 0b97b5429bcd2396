-- ===== src/Retry/Attempts.antt =====
-- retry.go: how often `Do` calls its function, and what it returns. The function is given as the
-- results of its calls, by their number; its state counts them.
use Prim.Native.Nat.{min}
use golang_service_architect.Common.{
  ℕ, zero, suc, ◌+◌, ◌-◌, ◌*◌, ◌^◌, ◌<◌, ◌≤◌, ◌≡◌, refl, ap, sym, ◌∙◌, true, false, Option, none,
  some, Option-cases, inl, inr, ◌⊎◌, Bool-cases, arith, ◌==◌, leb, ltb, lt→ltb,
}
use golang_service_architect.Common.Int.{pos, min_ℤ}
use golang_service_architect.Apperrors.{Error, is_retryable}
use golang_service_architect.Retry.{
  Config, defaults, shift, is_drawable, wait, loop, do_retry, returned, panicked,
}
use golang_service_architect.Retry.Schedule.{shift-exact, shift-negative}

-- The result of a try that asks for another one.
abbrev pub IsTransient : Option Error → Type 0
IsTransient o = (e : Error) × (o ≡ some e) × (is_retryable e ≡ true)

-- The result of a try that is the last whatever its number: success or a permanent error.
abbrev pub IsFinal : Option Error → Type 0
IsFinal o = (o ≡ none) ⊎ ((e : Error) × (o ≡ some e) × (is_retryable e ≡ false))

-- The delay behind an attempt is drawn: its shift stays below the sign bit, and what is drawn from
-- is not the largest int64.
abbrev pub IsDrawn : Config → ℕ → Type 0
IsDrawn c i = (c.base * 2 ^ i < 2 ^ 63) × (min (c.base * 2 ^ i) c.cap + 1 < 2 ^ 63)

-- The delay cannot be drawn: its shift sets the sign bit and no bit above, or what it would be drawn
-- from is the largest int64.
abbrev pub IsOutOfRange : Config → ℕ → Type 0
IsOutOfRange c i =
    ((2 ^ 63 ≤ c.base * 2 ^ i) × (c.base * 2 ^ i < 2 ^ 64))
    ⊎ ((c.base * 2 ^ i < 2 ^ 63) × (min (c.base * 2 ^ i) c.cap + 1 ≡ 2 ^ 63))

min_ℤ-pos : (m n : ℕ) → min_ℤ (pos m) (pos n) ≡ pos (min m n)
min_ℤ-pos m n = elim (Bool-cases (leb m n)) [
  | inl h ↦ let least : m ≡ min m n = ground (arith, h) in rw h (ap pos least)
  | inr h ↦ let least : n ≡ min m n = ground (arith, h) in rw h (ap pos least)
]

drawable-shift :
    (c : Config) (i : ℕ)
    → c.base * 2 ^ i < 2 ^ 63
    → is_drawable (min_ℤ (shift c.base i) (pos c.cap))
      ≡ ltb (min (c.base * 2 ^ i) c.cap + 1) (2 ^ 63)
drawable-shift c i h =
    rw (shift-exact c.base i h) (ap is_drawable (min_ℤ-pos (c.base * 2 ^ i) c.cap))

drawable-IsDrawn :
    (c : Config) (i : ℕ) → IsDrawn c i → is_drawable (min_ℤ (shift c.base i) (pos c.cap)) ≡ true
drawable-IsDrawn c i (below, room) =
    drawable-shift c i below ∙ lt→ltb (min (c.base * 2 ^ i) c.cap + 1) (2 ^ 63) room

drawable-IsOutOfRange :
    (c : Config) (i : ℕ)
    → IsOutOfRange c i
    → is_drawable (min_ℤ (shift c.base i) (pos c.cap)) ≡ false
drawable-IsOutOfRange c i (inl (low, high)) =
    let (n, negative) = shift-negative c.base i low high in rw negative refl
drawable-IsOutOfRange c i (inr (below, top)) = drawable-shift c i below ∙ rw top refl

module _ (outs : ℕ → Option Error) where
  abbrev pub numbered : ℕ → Option Error × ℕ
  numbered n = (outs n, n + 1)

  not-last : (a n : ℕ) → a + 1 < n → (a == n - 1) ≡ false
  not-last a n h = ground arith

  module _ (c : Config) (quiet : ℕ → Option Error) where
    -- One try that is followed by another.
    loop-retries :
        (left a : ℕ) (last : Option Error)
        → IsTransient (outs a)
        → a + 1 < c.attempts
        → IsDrawn c a
        → quiet a ≡ none
        → loop numbered quiet c (suc left) a last a
          ≡ loop numbered quiet c left (a + 1) (outs a) (a + 1)
    unfolding loop wait
    loop-retries left a last (e, q, r) h fits calm =
        rw (q, r, not-last a c.attempts h, drawable-IsDrawn c a fits, calm)
          (ap (λ o. loop numbered quiet c left (a + 1) o (a + 1)) q)

    -- The last try.
    loop-ends :
        (left a : ℕ) (last : Option Error)
        → IsFinal (outs a) ⊎ (a + 1 ≡ c.attempts)
        → loop numbered quiet c (suc left) a last a ≡ (returned (outs a), a + 1)
    unfolding loop wait
    loop-ends left a last (inl (inl q)) = rw q refl
    loop-ends left a last (inl (inr (e, q, r))) = rw (q, r) refl
    loop-ends left a last (inr h) = elim (Option-cases (outs a)) [
      | inl q ↦ rw q refl
      | inr (e, q) ↦ elim (Bool-cases (is_retryable e)) [
        | inl r ↦
            let last_try : (a == c.attempts - 1) ≡ true = ground (arith, h) in
            rw (q, r, last_try) refl
        | inr r ↦ rw (q, r) refl
      ]
    ]

    -- The tries from `a` on, `n` of them, each followed by another one.
    loop-runs :
        (n left a : ℕ) (last : Option Error)
        → ((j : ℕ)
            → a ≤ j
            → j < a + n
            → IsTransient (outs j) × (j + 1 < c.attempts) × IsDrawn c j × (quiet j ≡ none))
        → (before : Option Error) × (loop numbered quiet c (n + left) a last a
            ≡ loop numbered quiet c left (a + n) before (a + n))
    loop-runs zero left a last h =
        let same : zero + left ≡ left = omega arith in
        let here : a + zero ≡ a = omega arith in (last, rw (same, here) refl)
    loop-runs (suc n) left a last h =
        let now = h a (omega arith) (omega arith) in
        let (before, rest) =
          loop-runs n left (a + 1) (outs a) (λ j k l. h j (omega (arith, k)) (omega (arith, l))) in
        let more : suc n + left ≡ suc (n + left) = omega arith in
        let there : a + suc n ≡ a + 1 + n = omega arith in
        (before, rw (more, there) (loop-retries (n + left) a last now.0 now.1 now.2 now.3 ∙ rest))

-- `Do` calls its function until the first success, the first permanent error or the last attempt,
-- with number `i`, and returns what that call returned, after `i + 1` calls; in this no attempt
-- before `i` ended so, the context does not end, and every delay before `i` can be drawn: its shift
-- stays below the sign bit, and its ceiling is not the largest int64.
pub do_retry-stops :
    (cfg : Config) (outs quiet : ℕ → Option Error) (i : ℕ)
    → i < (defaults cfg).attempts
    → ((j : ℕ) → j < i → IsTransient (outs j) × IsDrawn (defaults cfg) j × (quiet j ≡ none))
    → IsFinal (outs i) ⊎ (i + 1 ≡ (defaults cfg).attempts)
    → do_retry (numbered outs) quiet cfg 0 ≡ (returned (outs i), i + 1)
unfolding do_retry
do_retry-stops cfg outs quiet i bound earlier end =
    let c = defaults cfg in
    let (before, run) =
      loop-runs outs c quiet i (c.attempts - i) 0 none (λ j k l.
        let e = earlier j (omega (arith, l)) in (e.0, omega (arith, l, bound), e.1, e.2)) in
    let all : i + (c.attempts - i) ≡ c.attempts = omega (arith, bound) in
    let some_left : c.attempts - i ≡ suc (c.attempts - i - 1) = omega (arith, bound) in
    let from_zero : 0 + i ≡ i = omega arith in
    ap (λ n. loop (numbered outs) quiet c n 0 none 0) (sym all)
    ∙ run
    ∙ rw (from_zero, some_left) (loop-ends outs c quiet (c.attempts - i - 1) i before end)

-- Where the shift of attempt `i` sets the sign bit and no bit above, or its ceiling is the largest
-- int64, and the attempts up to `i` fail with transient errors and `i` is not the last one, `Do`
-- panics instead of waiting; the context does not end before, and the earlier delays can be drawn.
pub do_retry-panics :
    (cfg : Config) (outs quiet : ℕ → Option Error) (i : ℕ)
    → i + 1 < (defaults cfg).attempts
    → ((j : ℕ) → j < i → IsTransient (outs j) × IsDrawn (defaults cfg) j × (quiet j ≡ none))
    → IsTransient (outs i)
    → IsOutOfRange (defaults cfg) i
    → do_retry (numbered outs) quiet cfg 0 ≡ (panicked, i + 1)
unfolding do_retry loop wait
do_retry-panics cfg outs quiet i bound earlier (e, q, r) over =
    let c = defaults cfg in
    let (before, run) =
      loop-runs outs c quiet i (c.attempts - i) 0 none (λ j k l.
        let e = earlier j (omega (arith, l)) in (e.0, omega (arith, l, bound), e.1, e.2)) in
    let all : i + (c.attempts - i) ≡ c.attempts = omega (arith, bound) in
    let some_left : c.attempts - i ≡ suc (c.attempts - i - 1) = omega (arith, bound) in
    let from_zero : 0 + i ≡ i = omega arith in
    ap (λ n. loop (numbered outs) quiet c n 0 none 0) (sym all)
    ∙ run
    ∙ rw
        (
          from_zero,
          some_left,
          q,
          r,
          not-last outs i c.attempts bound,
          drawable-IsOutOfRange c i over,
        )
        refl
