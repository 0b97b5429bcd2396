-- ===== src/Common/Results.antt =====
-- Go's `(value, error)` results: a value or an error, chained the way early returns chain them.
use mathlib.Core.Path.{◌≡◌, refl}
use mathlib.Core.Logic.{◌⊎◌, inl, inr}

pub data Result {ℓ} (E : Type 0) (A : Type ℓ) : Type ℓ where
  ok : A → Result E A
  err : E → Result E A

infixl 5 ◌>>=◌
abbrev pub ◌>>=◌ {ℓ κ} :
    {E : Type 0} {S : Type ℓ} {T : Type κ} → Result E S → (S → Result E T) → Result E T
ok s >>= next = next s
err failure >>= next = err failure

module _ {ℓ} {E : Type 0} {S : Type ℓ} where
  pub >>=-eq-ok {κ} :
      {T : Type κ} (first : Result E S) (next : S → Result E T) {t : T}
      → (first >>= next) ≡ ok t
      → (s : S) × (first ≡ ok s) × (next s ≡ ok t)
  >>=-eq-ok (ok s) next e = (s, refl, e)
  >>=-eq-ok (err failure) next e = cc

  pub Result-cases : (r : Result E S) → ((s : S) × (r ≡ ok s)) ⊎ ((failure : E) × (r ≡ err failure))
  Result-cases (ok s) = inl (s, refl)
  Result-cases (err failure) = inr (failure, refl)

  -- A chain regroups where its second step does.
  pub bind-then {κ μ} :
      {T : Type κ} {U : Type μ} (first : Result E S) (whole : S → Result E U)
      (next : S → Result E T) (last : T → Result E U)
      → ((s : S) → whole s ≡ (next s >>= last))
      → (first >>= whole) ≡ (first >>= next >>= last)
  bind-then (ok s) whole next last h = h s
  bind-then (err failure) whole next last h = refl
