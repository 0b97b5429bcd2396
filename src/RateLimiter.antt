-- ===== src/RateLimiter.antt =====
-- backend/pkg/ratelimit/ratelimit.go. A shard's map is a function of the key, the array of shards
-- one of the index. Times and the TTL are nanoseconds (a TTL of 0 stands for one that is not
-- positive); the arithmetic of `float64` and its comparisons are parameters.
mod Isolation
pub mod Level
mod Rate
mod Tests
use golang_service_architect.Common.{
  ℕ, zero, suc, ◌+◌, ◌*◌, ◌/◌, ◌%◌, ◌^◌, Bool, true, false, Option, none, some, List, [], ◌∷◌, ltb,
  ◌==◌, if◌then◌else◌,
}
use golang_service_architect.Text.{Text, same_text, encode}
use golang_service_architect.Float64.{Float64}

-- What the limiter asks of `float64` besides the four operations.
pub record Gauge (P : Float64) : Type 0 where
  pub one : P.F
  pub ten : P.F
  -- `x > y` and `x >= y`
  pub exceeds : P.F → P.F → Bool
  pub covers : P.F → P.F → Bool
  -- `now.Sub(last).Seconds()`, also where `now` is earlier.
  pub seconds_since : ℕ → ℕ → P.F

abbrev pub shard_count : ℕ
shard_count = 32

-- The exclusive or of two numbers on their lowest bits.
abbrev pub xor : ℕ → ℕ → ℕ → ℕ
xor zero a b = 0
xor (suc bits) a b = 2 * xor bits (a / 2) (b / 2) + (if a % 2 == b % 2 then 0 else 1)

-- `fnv.New32a` over the bytes of a key.
abbrev pub fnv32a : ℕ → Text → ℕ
fnv32a h [] = h
fnv32a h (c ∷ cs) = fnv32a (xor 32 h c * 16777619 % 2 ^ 32) cs

-- `shardFor`
unfoldable pub shard_for : Text → ℕ
shard_for key = fnv32a 2166136261 (encode key) % shard_count

module _ (P : Float64) (G : Gauge P) where
  pub record Config : Type 0 where
    pub rate : P.F
    pub burst : P.F
    pub ttl : ℕ

  abbrev pub default_rate : P.F → P.F
  default_rate rate = if G.covers P.nought rate then G.ten else rate

  unfoldable pub defaults : Config → Config
  defaults c = record {
    rate = default_rate c.rate;
    burst = if G.covers P.nought c.burst then default_rate c.rate else c.burst;
    ttl = if c.ttl == 0 then 600000000000 else c.ttl;
  }

  pub record Bucket : Type 0 where
    pub tokens : P.F
    pub last : ℕ

  abbrev pub Buckets : Type 0
  Buckets = Text → Option Bucket

  pub record Limiter : Type 0 where
    pub cfg : Config
    pub shards : ℕ → Buckets

  unfoldable pub new_limiter : Config → Limiter
  new_limiter c = record { cfg = defaults c; shards = λ i key. none }

  -- The bucket of a key: a full one, where it has none.
  abbrev pub bucket_or_new : Config → ℕ → Option Bucket → Bucket
  bucket_or_new c now none = record { tokens = c.burst; last = now }
  bucket_or_new c now (some b) = b

  abbrev pub capped : Config → P.F → P.F
  capped c tokens = if G.exceeds tokens c.burst then c.burst else tokens

  -- The lazy refill.
  abbrev pub refill : Config → ℕ → Bucket → Bucket
  refill c now b = record {
    tokens = capped c (P.plus b.tokens (P.times (G.seconds_since b.last now) c.rate));
    last = now;
  }

  -- The last test of `AllowN`.
  abbrev pub charge : P.F → Bucket → Bool × Bucket
  charge n b =
      if G.covers b.tokens n then (true, record b { tokens = P.minus b.tokens n }) else (false, b)

  unfoldable pub put_bucket : Text → Bucket → Buckets → Buckets
  put_bucket key b buckets = λ k. if same_text key k then some b else buckets k

  -- The shard of an index, replaced.
  unfoldable pub put_shard : ℕ → Buckets → (ℕ → Buckets) → ℕ → Buckets
  put_shard i buckets shards = λ j. if i == j then buckets else shards j

  -- What a request is answered, by its bucket alone.
  unfoldable pub draw : Config → ℕ → P.F → Option Bucket → Bool × Bucket
  draw c now n found = charge n (refill c now (bucket_or_new c now found))

  -- `AllowN` at a time.
  unfoldable pub allow_n : Text → P.F → ℕ → Limiter → Bool × Limiter
  allow_n key n now l =
      let i = shard_for key in
      let drawn = draw l.cfg now n (l.shards i key) in
      (drawn.0, record l { shards = put_shard i (put_bucket key drawn.1 (l.shards i)) l.shards })

  unfoldable pub allow : Text → ℕ → Limiter → Bool × Limiter
  allow key now l = allow_n key G.one now l

  -- A bucket that no request touched for longer than the TTL goes.
  unfoldable pub evict : Config → ℕ → Option Bucket → Option Bucket
  evict c now none = none
  evict c now (some b) = if ltb (b.last + c.ttl) now then none else some b

  -- A turn of `sweep`.
  unfoldable pub sweep : ℕ → Limiter → Limiter
  sweep now l = record l { shards = λ i key. evict l.cfg now (l.shards i key) }

  -- The requests and the turns of the sweep, in the order in which they get the locks.
  pub data Turn : Type 0 where
    requests : Text → P.F → ℕ → Turn
    sweeps : ℕ → Turn

  -- The answers to the requests of a key.
  unfoldable pub answered : Text → List Turn → Limiter → List Bool
  answered k [] l = []
  answered k (requests key n now ∷ es) l =
      let answer = allow_n key n now l in
      let rest = answered k es answer.1 in if same_text key k then answer.0 ∷ rest else rest
  answered k (sweeps now ∷ es) l = answered k es (sweep now l)

  -- The events without the requests of other keys.
  unfoldable pub concerning : Text → List Turn → List Turn
  concerning k [] = []
  concerning k (requests key n now ∷ es) =
      let rest = concerning k es in if same_text key k then requests key n now ∷ rest else rest
  concerning k (sweeps now ∷ es) = sweeps now ∷ concerning k es
