-- ===== src/RateLimiter/Rate.antt =====
-- ratelimit.go: what a key is granted in a time.
use golang_service_architect.Common.{
  ◌≡◌, refl, ℕ, ◌+◌, ◌-◌, ◌*◌, ◌≤◌, false, List, [], ◌∷◌, inl, inr, Bool-cases, if◌then◌else◌,
  arith,
}
use golang_service_architect.Text.{Text, same_text}
use golang_service_architect.Text.Same.{same_text→eq, same_text_refl}
use golang_service_architect.Samples.{naturals}
use golang_service_architect.RateLimiter.{
  Limiter, defaults, new_limiter, allow_n, evict, sweep, Turn, requests, sweeps,
}
use golang_service_architect.RateLimiter.Isolation.{
  held, other-held, own-held, allow_n-cfg, allow_n-answer,
}
use golang_service_architect.RateLimiter.Level.{
  exact, Settings, level, IsPast, distrib, level-later, Refills, level-evict, IsPast-evict,
  IsPast-later, counted, level-draw, IsPast-draw,
}

abbrev pub Limit : Type 0
Limit = Limiter naturals exact

-- The tokens that a key is granted.
unfoldable pub granted : Text → List (Turn naturals exact) → Limit → ℕ
granted k [] l = 0
granted k (requests key n now ∷ es) l =
    let answer = allow_n naturals exact key n now l in
    let rest = granted k es answer.1 in if same_text key k then counted answer.0 n + rest else rest
granted k (sweeps now ∷ es) l = granted k es (sweep naturals exact now l)

-- Events from one time to another, none earlier than the one before.
abbrev pub AreOrdered : ℕ → ℕ → List (Turn naturals exact) → Type 0
AreOrdered start end [] = start ≤ end
AreOrdered start end (requests key n now ∷ es) = (start ≤ now) × AreOrdered now end es
AreOrdered start end (sweeps now ∷ es) = (start ≤ now) × AreOrdered now end es

-- What a limiter has for a key, at a time and until another.
allowance : Text → ℕ → ℕ → Limit → ℕ
allowance k start end l = level l.cfg start (held naturals exact l k) + (end - start) * l.cfg.rate

-- A limiter at a time.
record IsReady (k : Text) (t : ℕ) (l : Limit) : Type 0 where
  fills : Refills l.cfg
  past : IsPast t (held naturals exact l k)

AreOrdered→le : (s e : ℕ) (es : List (Turn naturals exact)) → AreOrdered s e es → s ≤ e
AreOrdered→le s e [] h = h
AreOrdered→le s e (requests key n now ∷ es) h =
    let later = AreOrdered→le now e es h.1 in omega (arith, h.0, later)
AreOrdered→le s e (sweeps now ∷ es) h =
    let later = AreOrdered→le now e es h.1 in omega (arith, h.0, later)

-- What is left of the allowance at a later time.
allowance-later :
    (k : Text) (t u e : ℕ) (l : Limit)
    → IsReady k t l
    → t ≤ u
    → u ≤ e
    → allowance k u e l ≤ allowance k t e l
unfolding allowance
allowance-later k t u e l ready h g =
    let gain = level-later l.cfg t u (held naturals exact l k) ready.past h in
    let split : e - t ≡ (u - t) + (e - u) = omega (arith, h, g) in
    let parts = distrib (u - t) (e - u) l.cfg.rate in rw (split, parts) omega (arith, gain)

IsReady-later : (k : Text) (t u : ℕ) (l : Limit) → IsReady k t l → t ≤ u → IsReady k u l
IsReady-later k t u l ready h = record {
  fills = ready.fills;
  past = IsPast-later t u (held naturals exact l k) ready.past h;
}

sweep-held :
    (k : Text) (now : ℕ) (l : Limit)
    → held naturals exact (sweep naturals exact now l) k
      ≡ evict naturals exact l.cfg now (held naturals exact l k)
unfolding held sweep
sweep-held k now l = refl

sweep-allowance :
    (k : Text) (now e : ℕ) (l : Limit)
    → IsReady k now l
    → allowance k now e (sweep naturals exact now l) ≤ allowance k now e l
unfolding allowance sweep held
sweep-allowance k now e l ready =
    let less = level-evict l.cfg now (held naturals exact l k) ready.fills in omega (arith, less)

sweep-IsReady :
    (k : Text) (now : ℕ) (l : Limit) → IsReady k now l → IsReady k now (sweep naturals exact now l)
unfolding sweep held
sweep-IsReady k now l ready = record {
  fills = ready.fills;
  past = IsPast-evict l.cfg now (held naturals exact l k) ready.past;
}

own-allowance :
    (k : Text) (n now e : ℕ) (l : Limit)
    → counted (allow_n naturals exact k n now l).0 n
        + allowance k now e (allow_n naturals exact k n now l).1
      ≤ allowance k now e l
unfolding allowance
own-allowance k n now e l =
    let taken = level-draw l.cfg now n (held naturals exact l k) in
    rw
      (
        own-held naturals exact k n now l,
        allow_n-cfg naturals exact k n now l,
        allow_n-answer naturals exact k n now l,
      )
      omega (arith, taken)

own-IsReady :
    (k : Text) (n now : ℕ) (l : Limit)
    → IsReady k now l
    → IsReady k now (allow_n naturals exact k n now l).1
own-IsReady k n now l ready = record {
  fills = rw (allow_n-cfg naturals exact k n now l) ready.fills;
  past = rw (own-held naturals exact k n now l) (IsPast-draw l.cfg now n (held naturals exact l k));
}

other-allowance :
    (key k : Text) (n now e : ℕ) (l : Limit)
    → same_text key k ≡ false
    → allowance k now e (allow_n naturals exact key n now l).1 ≡ allowance k now e l
unfolding allowance
other-allowance key k n now e l h =
    rw (other-held naturals exact key k n now l h, allow_n-cfg naturals exact key n now l) refl

other-IsReady :
    (key k : Text) (n now : ℕ) (l : Limit)
    → same_text key k ≡ false
    → IsReady k now l
    → IsReady k now (allow_n naturals exact key n now l).1
other-IsReady key k n now l h ready = record {
  fills = rw (allow_n-cfg naturals exact key n now l) ready.fills;
  past = rw (other-held naturals exact key k n now l h) ready.past;
}

granted-allowance :
    (k : Text) (s e : ℕ) (es : List (Turn naturals exact)) (l : Limit)
    → IsReady k s l
    → AreOrdered s e es
    → granted k es l ≤ allowance k s e l
unfolding granted
granted-allowance k s e [] l ready h = omega arith
granted-allowance k s e (sweeps now ∷ es) l ready h =
    let due = IsReady-later k s now l ready h.0 in
    let rest =
      granted-allowance k now e es (sweep naturals exact now l) (sweep-IsReady k now l due) h.1 in
    let less = sweep-allowance k now e l due in
    let left = allowance-later k s now e l ready h.0 (AreOrdered→le now e es h.1) in
    omega (arith, rest, less, left)
granted-allowance k s e (requests key n now ∷ es) l ready h =
    let due = IsReady-later k s now l ready h.0 in
    let left = allowance-later k s now e l ready h.0 (AreOrdered→le now e es h.1) in
    elim (Bool-cases (same_text key k)) [
      | inl t ↦
          let same = same_text→eq key k t in
          let rest =
            granted-allowance k now e es (allow_n naturals exact k n now l).1
              (own-IsReady k n now l due) h.1 in
          let taken = own-allowance k n now e l in
          rw (same, same_text_refl k) omega (arith, rest, taken, left)
      | inr f ↦
          let rest =
            granted-allowance k now e es (allow_n naturals exact key n now l).1
              (other-IsReady key k n now l f due) h.1 in
          let kept = other-allowance key k n now e l f in rw (f) omega (arith, rest, kept, left)
    ]

-- In whole numbers, with settings by which a bucket is full again after the TTL, and for requests
-- and turns of the sweep in the order of their times: from one time to another, a new limiter
-- grants a key at most the burst and what the rate adds in that time.
pub granted-within :
    (c : Settings) (k : Text) (start end : ℕ) (es : List (Turn naturals exact))
    → Refills (defaults naturals exact c)
    → AreOrdered start end es
    → granted k es (new_limiter naturals exact c)
      ≤ (defaults naturals exact c).burst + (end - start) * (defaults naturals exact c).rate
unfolding new_limiter allowance level held IsPast
granted-within c k start end es fills h =
    granted-allowance k start end es (new_limiter naturals exact c)
      (record { fills = fills; past = tt }) h
