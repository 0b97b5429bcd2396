-- ===== src/Persistent/Sorting.antt =====
-- sqlcgen: what `ORDER BY` gives for ListExpressions.
use mathlib.Core.List.{Perm}
use mathlib.Core.List.Perm
use golang_service_architect.Common.{
  ℕ, ◌≡◌, ◌<◌, ◌≤◌, Bool, true, false, ◌&&◌, ◌||◌, List, [], ◌∷◌, All, All-weaken, Bool-cases, inl,
  inr, ◌⊎◌, ltb, ◌==◌, arith,
}
use golang_service_architect.Expression.Task.{Uuid}
use golang_service_architect.Persistent.Tables.{ExpressionRow}
use golang_service_architect.Persistent.Reads.{place, order_rows, is_newer}

-- A row comes in front of another: it is newer, or of the same time and of no smaller id.
abbrev pub IsInFront : {F : Type 0} → (Uuid → ℕ) → ExpressionRow F → ExpressionRow F → Type 0
IsInFront created e f =
    (created f.id < created e.id) ⊎ ((created e.id ≡ created f.id) × (f.id ≤ e.id))

-- Each row comes in front of all that follow it.
abbrev pub IsNewestFirst : {F : Type 0} → (Uuid → ℕ) → List (ExpressionRow F) → Type 0
IsNewestFirst created [] = Unit
IsNewestFirst created (e ∷ es) = All (λ f. IsInFront created e f) es × IsNewestFirst created es

newer_front :
    (t i u j : ℕ) → (ltb u t || (u == t && ltb j i)) ≡ true → (u < t) ⊎ ((t ≡ u) × (j ≤ i))
newer_front t i u j h = ground arith

older_behind :
    (t i u j : ℕ) → (ltb u t || (u == t && ltb j i)) ≡ false → (t < u) ⊎ ((u ≡ t) × (i ≤ j))
older_behind t i u j h = ground arith

front_trans :
    (t i u j v k : ℕ)
    → (u < t) ⊎ ((t ≡ u) × (j ≤ i))
    → (v < u) ⊎ ((u ≡ v) × (k ≤ j))
    → (v < t) ⊎ ((t ≡ v) × (k ≤ i))
front_trans t i u j v k h h' = ground arith

module _ {R : Type 0} (before : R → R → Bool) where
  place-perm : (r : R) (rows : List R) → Perm (place before r rows) (r ∷ rows)
  place-perm r [] = Perm.refl (r ∷ [])
  place-perm r (s ∷ rows) = elim (Bool-cases (before r s)) [
    | inl here ↦ rw here (Perm.refl (r ∷ s ∷ rows))
    | inr behind ↦ rw behind (Perm.trans (Perm.cons s (place-perm r rows)) (Perm.swap r s rows))
  ]

  pub order_rows-perm : (rows : List R) → Perm (order_rows before rows) rows
  unfolding order_rows
  order_rows-perm [] = Perm.refl []
  order_rows-perm (r ∷ rows) =
      Perm.trans (place-perm r (order_rows before rows)) (Perm.cons r (order_rows-perm rows))

  place-All :
      (Holds : R → Type 0) (r : R) (rows : List R)
      → Holds r
      → All Holds rows
      → All Holds (place before r rows)
  place-All Holds r [] here there = (here, tt)
  place-All Holds r (s ∷ rows) here (h, there) = elim (Bool-cases (before r s)) [
    | inl first ↦ rw first (here, (h, there))
    | inr later ↦ rw later (h, place-All Holds r rows here there)
  ]

module _ {F : Type 0} (created : Uuid → ℕ) where
  place-IsNewestFirst :
      (e : ExpressionRow F) (es : List (ExpressionRow F))
      → IsNewestFirst created es
      → IsNewestFirst created (place (is_newer created) e es)
  place-IsNewestFirst e [] h = (tt, tt)
  place-IsNewestFirst e (f ∷ es) (behind, h) = elim (Bool-cases (is_newer created e f)) [
    | inl newer ↦
        let front = newer_front (created e.id) e.id (created f.id) f.id newer in
        rw newer (
          (
            front,
            All-weaken (λ g. IsInFront created f g) (λ g. IsInFront created e g)
                (λ g. front_trans (created e.id) e.id (created f.id) f.id (created g.id) g.id front)
                es behind,
          ),
          (behind, h),
        )
    | inr older ↦ rw older (
      place-All (is_newer created) (λ g. IsInFront created f g) e es
          (older_behind (created e.id) e.id (created f.id) f.id older) behind,
      place-IsNewestFirst e es h,
    )
  ]

  pub order_rows-IsNewestFirst :
      (es : List (ExpressionRow F)) → IsNewestFirst created (order_rows (is_newer created) es)
  unfolding order_rows
  order_rows-IsNewestFirst [] = tt
  order_rows-IsNewestFirst (e ∷ es) =
      place-IsNewestFirst e (order_rows (is_newer created) es) (order_rows-IsNewestFirst es)
