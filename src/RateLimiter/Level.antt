-- ===== src/RateLimiter/Level.antt =====
-- ratelimit.go in whole numbers: tokens in thousand-millionths, times in nanoseconds, so that a whole
-- rate adds whole tokens and nothing is rounded. What a bucket holds as time goes on.
use golang_service_architect.Common.{
  ◌≡◌, sym, ap, ◌∙◌, ℕ, ◌+◌, ◌-◌, ◌*◌, ◌≤◌, Bool, Option, none, some, inl, inr, Bool-cases,
  if◌then◌else◌, arith, ltb, leb, tests,
}
use golang_service_architect.Samples.{naturals}
use golang_service_architect.RateLimiter.{Gauge, Config, Bucket, capped, draw, evict}

abbrev pub exact : Gauge naturals
exact = record {
  one = 1000000000;
  ten = 10000000000;
  exceeds = λ a b. ltb b a;
  covers = λ a b. leb b a;
  seconds_since = λ last now. now - last;
}

abbrev pub Settings : Type 0
Settings = Config naturals exact

abbrev Meter : Type 0
Meter = Option (Bucket naturals exact)

-- What a bucket would hold at a time.
unfoldable pub level : Settings → ℕ → Meter → ℕ
level c t none = c.burst
level c t (some b) = capped naturals exact c (b.tokens + (t - b.last) * c.rate)

-- No bucket was touched later than a time.
unfoldable pub IsPast : ℕ → Meter → Type 0
IsPast t none = Unit
IsPast t (some b) = b.last ≤ t

pub distrib : (a d r : ℕ) → (a + d) * r ≡ a * r + d * r
distrib a d r = omega arith

mul_mono : (a b r : ℕ) → a ≤ b → a * r ≤ b * r
mul_mono a b r h =
    let split : a + (b - a) ≡ b = omega (arith, h) in
    let parts = distrib a (b - a) r in
    let whole : b * r ≡ a * r + (b - a) * r = ap (λ x. x * r) (sym split) ∙ parts in
    omega (arith, whole)

-- A bucket gains at most the rate.
pub level-later :
    (c : Settings) (t u : ℕ) (b : Meter)
    → IsPast t b
    → t ≤ u
    → level c u b ≤ level c t b + (u - t) * c.rate
unfolding level IsPast
level-later c t u none past h = omega arith
level-later c t u (some b) past h =
    let split : u - b.last ≡ (t - b.last) + (u - t) = omega (arith, past, h) in
    let parts = distrib (t - b.last) (u - t) c.rate in rw (split, parts) ground arith

-- Settings with which a bucket that nothing touched for the TTL is full.
abbrev pub Refills : Settings → Type 0
Refills c = c.burst ≤ c.ttl * c.rate

-- A bucket that goes was full.
pub level-evict :
    (c : Settings) (t : ℕ) (b : Meter)
    → Refills c
    → level c t (evict naturals exact c t b) ≤ level c t b
unfolding level evict
level-evict c t none fills = omega arith
level-evict c t (some b) fills = elim (Bool-cases (ltb (b.last + c.ttl) t)) [
  | inl e ↦
      let idle : c.ttl ≤ t - b.last = omega (tests, e) in
      let full = mul_mono c.ttl (t - b.last) c.rate idle in rw (e) ground arith
  | inr e ↦ rw (e) omega arith
]

pub IsPast-evict :
    (c : Settings) (t : ℕ) (b : Meter) → IsPast t b → IsPast t (evict naturals exact c t b)
unfolding IsPast evict
IsPast-evict c t none past = past
IsPast-evict c t (some b) past = elim (Bool-cases (ltb (b.last + c.ttl) t)) [
  | inl e ↦ rw (e) tt
  | inr e ↦ rw (e) past
]

pub IsPast-later : (t u : ℕ) (b : Meter) → IsPast t b → t ≤ u → IsPast u b
unfolding IsPast
IsPast-later t u none past h = past
IsPast-later t u (some b) past h = omega (arith, past, h)

abbrev pub counted : Bool → ℕ → ℕ
counted granted n = if granted then n else 0

-- A request takes what it is granted out of the bucket.
pub level-draw :
    (c : Settings) (t n : ℕ) (b : Meter)
    → counted (draw naturals exact c t n b).0 n + level c t (some (draw naturals exact c t n b).1)
      ≤ level c t b
unfolding level draw
level-draw c t n none = ground arith
level-draw c t n (some b) = ground arith

pub IsPast-draw :
    (c : Settings) (t n : ℕ) (b : Meter) → IsPast t (some (draw naturals exact c t n b).1)
unfolding IsPast draw
IsPast-draw c t n b = ground arith
