-- ===== src/Expression/Service/Reads/Pages.antt =====
-- service.go and repo.go: page after page of the expressions.
use Prim.Native.Nat.{min}
use mathlib.Core.List.{Perm}
use golang_service_architect.Common.{
  subst, ℕ, zero, suc, ◌+◌, ◌*◌, ◌^◌, ◌≤◌, ◌≡◌, refl, sym, ap, ◌∙◌, Bool, List, [], ◌∷◌, ◌++◌,
  length, take, drop, take-all, inl, inr, Bool-cases, arith,
}
use golang_service_architect.Expression.Task.{Uuid}
use golang_service_architect.Expression.Service.{page_bounds}
use golang_service_architect.Persistent.Tables.{ExpressionRow, Db}
use golang_service_architect.Persistent.Reads.{place, order_rows, is_newer, list_expressions}
use golang_service_architect.Persistent.Sorting.{
  IsNewestFirst, order_rows-perm, order_rows-IsNewestFirst,
}
use golang_service_architect.Expression.Service.Reads.{list, first_pages}

module _ {ℓ} {A : Type ℓ} where
  take-nil : (n : ℕ) → take {A = A} n [] ≡ []
  take-nil zero = refl
  take-nil (suc n) = refl

  take-add : (m n : ℕ) (xs : List A) → take (m + n) xs ≡ take m xs ++ take n (drop m xs)
  take-add zero n xs = let e : 0 + n ≡ n = omega arith in rw e refl
  take-add (suc m) n [] = take-nil (suc m + n) ∙ sym (take-nil n)
  take-add (suc m) n (x ∷ xs) =
      let e : suc m + n ≡ suc (m + n) = omega arith in rw e (ap (λ l. x ∷ l) (take-add m n xs))

module _ {R : Type 0} (before : R → R → Bool) where
  length-place : (r : R) (rows : List R) → length (place before r rows) ≡ suc (length rows)
  length-place r [] = refl
  length-place r (s ∷ rows) = elim (Bool-cases (before r s)) [
    | inl here ↦ rw here refl
    | inr behind ↦ rw behind (ap suc (length-place r rows))
  ]

  length-order_rows : (rows : List R) → length (order_rows before rows) ≡ length rows
  unfolding order_rows
  length-order_rows [] = refl
  length-order_rows (r ∷ rows) =
      length-place r (order_rows before rows) ∙ ap suc (length-order_rows rows)

size_of : ℕ → ℕ
size_of page_size = (page_bounds page_size 0).0

size-within : (n : ℕ) → size_of n ≤ 200
unfolding size_of
size-within n = ground arith

module _ {F : Type 0} (created : Uuid → ℕ) (page_size : ℕ) (db : Db F) where
  ordered : List (ExpressionRow F)
  ordered = order_rows (is_newer created) db.expressions

  list-bounds :
      (n : ℕ)
      → (list created page_size n db).0
        ≡ take (min (size_of page_size) 1000) (drop (min (n * size_of page_size) (2 ^ 30)) ordered)
  unfolding list list_expressions ordered size_of
  list-bounds n = refl

  list-page :
      (n : ℕ)
      → n * size_of page_size ≤ 2 ^ 30
      → (list created page_size n db).0
        ≡ take (size_of page_size) (drop (n * size_of page_size) ordered)
  list-page n h =
      let small = size-within page_size in
      let limit : min (size_of page_size) 1000 ≡ size_of page_size = omega (arith, small) in
      let offset : min (n * size_of page_size) (2 ^ 30) ≡ n * size_of page_size =
        omega (arith, h) in
      rw (list-bounds n, limit, offset) refl

  first_pages-take :
      (n : ℕ)
      → n * size_of page_size ≤ 2 ^ 30
      → first_pages created page_size n db ≡ take (n * size_of page_size) ordered
  unfolding first_pages
  first_pages-take zero h =
      let none_left : 0 * size_of page_size ≡ 0 = omega arith in rw none_left refl
  first_pages-take (suc n) h =
      let size = size_of page_size in
      let more : suc n * size ≡ n * size + size = omega arith in
      let before : n * size ≤ 2 ^ 30 = omega (arith, h, more) in
      rw (more, first_pages-take n before, list-page n before)
        (sym (take-add (n * size) size ordered))

  first_pages-all :
      (n : ℕ)
      → n * (page_bounds page_size 0).0 ≤ 2 ^ 30
      → (list created page_size 0 db).1 ≤ n * (page_bounds page_size 0).0
      → first_pages created page_size n db ≡ order_rows (is_newer created) db.expressions
  unfolding size_of ordered list list_expressions
  first_pages-all n h enough =
      let total = length-order_rows (is_newer created) db.expressions in
      first_pages-take n h ∙ take-all _ ordered (omega (arith, total, enough))

  -- Whatever size a caller asks for, its first pages one behind the other hold exactly the
  -- expressions of the database, each as often as there, and each is newer than all that follow it,
  -- or of the same time and of no smaller id; where the total that a page tells is at most what the
  -- pages have room for and no offset is past 2 ^ 30.
  pub first_pages-ordered :
      (n : ℕ)
      → n * (page_bounds page_size 0).0 ≤ 2 ^ 30
      → (list created page_size 0 db).1 ≤ n * (page_bounds page_size 0).0
      → Perm (first_pages created page_size n db) db.expressions
        × IsNewestFirst created (first_pages created page_size n db)
  first_pages-ordered n h enough =
      let all = sym (first_pages-all n h enough) in
      (
        subst (λ l. Perm l db.expressions) all (order_rows-perm (is_newer created) db.expressions),
        subst (IsNewestFirst created) all (order_rows-IsNewestFirst created db.expressions),
      )
