-- ===== src/RateLimiter/Isolation.antt =====
-- ratelimit.go: the shards and the other keys do not show.
use golang_service_architect.Common.{
  ◌≡◌, refl, sym, ◌∙◌, ℕ, Bool, false, Option, some, List, [], ◌∷◌, ◌==◌, ==_iff, inl, inr,
  Bool-cases, if◌then◌else◌,
}
use golang_service_architect.Text.{Text, same_text}
use golang_service_architect.Text.Same.{same_text_refl, same_text→eq}
use golang_service_architect.Float64.{Float64}
use golang_service_architect.RateLimiter.{
  Gauge, shard_for, Config, Bucket, Limiter, new_limiter, draw, put_bucket, put_shard, allow_n,
  sweep, Turn, requests, sweeps, answered, concerning,
}

module _ (P : Float64) (G : Gauge P) where
  -- The bucket of a key.
  unfoldable pub held : Limiter P G → Text → Option (Bucket P G)
  held l k = l.shards (shard_for k) k

  abbrev and_rest : Bool → Bool → List Bool → List Bool
  and_rest own answer rest = if own then answer ∷ rest else rest

  -- A request of another key leaves the bucket of a key.
  pub other-held :
      (key k : Text) (n : P.F) (now : ℕ) (l : Limiter P G)
      → same_text key k ≡ false
      → held (allow_n P G key n now l).1 k ≡ held l k
  unfolding held allow_n put_bucket put_shard
  other-held key k n now l h = elim (Bool-cases (shard_for key == shard_for k)) [
    | inl e ↦
        let i : shard_for key ≡ shard_for k = (==_iff (shard_for key) (shard_for k)).0 e in
        rw (e, h, i) refl
    | inr e ↦ rw (e) refl
  ]

  -- A request of a key leaves it the bucket that is drawn from.
  pub own-held :
      (k : Text) (n : P.F) (now : ℕ) (l : Limiter P G)
      → held (allow_n P G k n now l).1 k ≡ some (draw P G l.cfg now n (held l k)).1
  unfolding held allow_n put_bucket put_shard
  own-held k n now l = rw ((==_iff (shard_for k) (shard_for k)).1 refl, same_text_refl k) refl

  -- Limiters with one configuration and one bucket for a key.
  record AreAlike (k : Text) (l m : Limiter P G) : Type 0 where
    cfg : l.cfg ≡ m.cfg
    bucket : held l k ≡ held m k

  pub allow_n-cfg :
      (key : Text) (n : P.F) (now : ℕ) (l : Limiter P G) → (allow_n P G key n now l).1.cfg ≡ l.cfg
  unfolding allow_n
  allow_n-cfg key n now l = refl

  pub allow_n-answer :
      (k : Text) (n : P.F) (now : ℕ) (l : Limiter P G)
      → (allow_n P G k n now l).0 ≡ (draw P G l.cfg now n (held l k)).0
  unfolding allow_n held
  allow_n-answer k n now l = refl

  AreAlike-sweep :
      (k : Text) (now : ℕ) (l m : Limiter P G)
      → AreAlike k l m
      → AreAlike k (sweep P G now l) (sweep P G now m)
  unfolding held sweep
  AreAlike-sweep k now l m a = record { cfg = a.cfg; bucket = rw (a.cfg, a.bucket) refl }

  AreAlike-other :
      (key k : Text) (n : P.F) (now : ℕ) (l m : Limiter P G)
      → same_text key k ≡ false
      → AreAlike k l m
      → AreAlike k (allow_n P G key n now l).1 m
  AreAlike-other key k n now l m h a = record {
    cfg = allow_n-cfg key n now l ∙ a.cfg;
    bucket = other-held key k n now l h ∙ a.bucket;
  }

  AreAlike-own :
      (k : Text) (n : P.F) (now : ℕ) (l m : Limiter P G)
      → AreAlike k l m
      → AreAlike k (allow_n P G k n now l).1 (allow_n P G k n now m).1
  AreAlike-own k n now l m a = record {
    cfg = allow_n-cfg k n now l ∙ a.cfg ∙ sym (allow_n-cfg k n now m);
    bucket = rw (own-held k n now l, own-held k n now m, a.bucket, a.cfg) refl;
  }

  AreAlike-answer :
      (k : Text) (n : P.F) (now : ℕ) (l m : Limiter P G)
      → AreAlike k l m
      → (allow_n P G k n now l).0 ≡ (allow_n P G k n now m).0
  AreAlike-answer k n now l m a =
      rw (allow_n-answer k n now l, allow_n-answer k n now m, a.bucket, a.cfg) refl

  answered-alike :
      (k : Text) (es : List (Turn P G)) (l m : Limiter P G)
      → AreAlike k l m
      → answered P G k es l ≡ answered P G k (concerning P G k es) m
  unfolding answered concerning
  answered-alike k [] l m a = refl
  answered-alike k (sweeps now ∷ es) l m a =
      answered-alike k es (sweep P G now l) (sweep P G now m) (AreAlike-sweep k now l m a)
  answered-alike k (requests key n now ∷ es) l m a = elim (Bool-cases (same_text key k)) [
    | inl h ↦
        let same = same_text→eq key k h in
        let here = AreAlike-answer k n now l m a in
        let there =
          answered-alike k es (allow_n P G k n now l).1 (allow_n P G k n now m).1
            (AreAlike-own k n now l m a) in
        rw (same, same_text_refl k, here, there, same_text_refl k) refl
    | inr h ↦
        let there =
          answered-alike k es (allow_n P G key n now l).1 m (AreAlike-other key k n now l m h a) in
        rw (h, there) refl
  ]

-- However requests of all keys and turns of the sweep follow one another, the requests of one key
-- are answered as if there were no other keys: the shards, the hash of the keys and the buckets
-- that share a shard do not show.
pub answered-concerning :
    (P : Float64) (G : Gauge P) (c : Config P G) (k : Text) (es : List (Turn P G))
    → answered P G k es (new_limiter P G c)
      ≡ answered P G k (concerning P G k es) (new_limiter P G c)
answered-concerning P G c k es =
    answered-alike P G k es (new_limiter P G c) (new_limiter P G c)
      (record { cfg = refl; bucket = refl })
