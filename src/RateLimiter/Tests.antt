-- ===== src/RateLimiter/Tests.antt =====
-- A limiter with a burst of 3 and a rate of 1, which forgets a bucket after 4, for two keys.
use golang_service_architect.Common.{◌≡◌, refl, ◌+◌, ◌*◌, ◌≤◌, true, false, List, [], ◌∷◌, arith}
use golang_service_architect.Text.{Text, codes, encode, same_text}
use golang_service_architect.Samples.{naturals}
use golang_service_architect.RateLimiter.{
  fnv32a, shard_for, defaults, new_limiter, Turn, requests, sweeps, answered, concerning, allow_n,
  draw, put_shard, put_bucket, sweep, evict,
}
use golang_service_architect.RateLimiter.Level.{exact, Settings}
use golang_service_architect.RateLimiter.Isolation.{answered-concerning}
use golang_service_architect.RateLimiter.Rate.{granted, granted-within}

-- The published value of the hash of "a".
a_hash : fnv32a 2166136261 (97 ∷ []) ≡ 3826002220
a_hash = refl

a_shard : shard_for (codes "a") ≡ 12
unfolding shard_for encode
a_shard = refl

abbrev settings : Settings
settings = record { rate = 1; burst = 3; ttl = 4 }

abbrev alice : Text
alice = codes "alice"

abbrev bob : Text
bob = codes "bob"

abbrev events : List (Turn naturals exact)
events =
    requests alice 2 1
    ∷ requests bob 1 1
    ∷ requests alice 2 1
    ∷ requests alice 2 2
    ∷ sweeps 8
    ∷ requests alice 3 9
    ∷ []

alice_answers :
    answered naturals exact alice events (new_limiter naturals exact settings)
    ≡ true ∷ false ∷ true ∷ true ∷ []
unfolding answered new_limiter same_text allow_n draw defaults put_shard shard_for encode put_bucket
    sweep evict
alice_answers = refl

answered-concerning_example :
    answered naturals exact alice events (new_limiter naturals exact settings)
    ≡ answered naturals exact alice
        (concerning naturals exact alice events)
        (new_limiter naturals exact settings)
answered-concerning_example = answered-concerning naturals exact settings alice events

granted-within_example :
    granted alice events (new_limiter naturals exact settings)
    ≤ (defaults naturals exact settings).burst + 8 * (defaults naturals exact settings).rate
unfolding defaults
granted-within_example = granted-within settings alice 1 9 events (omega arith) (
  omega arith,
  (omega arith, (omega arith, (omega arith, (omega arith, (omega arith, omega arith))))),
)
