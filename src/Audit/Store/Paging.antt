-- ===== src/Audit/Store/Paging.antt =====
-- auditstore and query.go: page after page, the whole log is read.
use Prim.Native.Nat.{min}
use golang_service_architect.Common.{
  ℕ, zero, suc, ◌<◌, ◌≡◌, refl, sym, ap, subst, ◌∙◌, Bool, true, false, ◌&&◌, ◌||◌, none, some, [],
  ◌∷◌, ◌++◌, append_assoc, length, length-append, take, drop, take-append-drop, ltb, ◌==◌, inl, inr,
  Bool-cases, All, arith,
}
use golang_service_architect.Expression.Service.{max_page_size}
use golang_service_architect.Persistent.Tables.{select}
use golang_service_architect.Audit.{AuditEvent}
use golang_service_architect.Audit.Store.{
  AuditFilter, query_params, set_cursor, Rows, newer, is_within, is_behind, order_by, query_rows,
  page_limit, query_events, last_row, next_filter, pages,
}
use golang_service_architect.Audit.Store.Order.{
  IsDescending, IsKeyed, order_by-IsDescending, order_by-All, select-All, select-chosen,
  select-left, select-order_by, select-select, newer_asym, newer_irrefl, select-IsDescending,
}

limit-positive : (n : ℕ) → 0 < min (page_limit n) 1000
unfolding page_limit
limit-positive n = elim (Bool-cases (n == 0 || ltb max_page_size n)) [
  | inl default ↦ rw default (omega arith)
  | inr given ↦ rw given (positive n given)
]
  where
    positive : (n : ℕ) → (n == 0 || ltb max_page_size n) ≡ false → 0 < min n 1000
    positive n h = ground arith

module _ {P : Type 0} where
  All-at :
      (Holds : AuditEvent P → Type 0) (front : Rows P) (c : AuditEvent P) (back : Rows P)
      → All Holds (front ++ c ∷ back)
      → Holds c
  All-at Holds [] c back (here, there) = here
  All-at Holds (r ∷ front) c back (here, there) = All-at Holds front c back there

  all-chosen :
      (test : AuditEvent P → Bool) (rows : Rows P)
      → All (λ r. test r ≡ true) rows
      → select test rows ≡ rows
  unfolding select
  all-chosen test [] h = refl
  all-chosen test (r ∷ rows) (here, there) =
      select-chosen test r rows here ∙ ap (λ l. r ∷ l) (all-chosen test rows there)

  -- The rows behind a cursor are those that follow its row.
  select-newer :
      (front : Rows P) (c : AuditEvent P) (back : Rows P)
      → IsDescending (front ++ c ∷ back)
      → select (newer c) (front ++ c ∷ back) ≡ back
  select-newer [] c back (behind, h) =
      select-left (newer c) c back (newer_irrefl c) ∙ all-chosen (newer c) back behind
  select-newer (r ∷ front) c back (behind, h) =
      select-left (newer c) r (front ++ c ∷ back)
        (newer_asym r c (All-at (λ s. newer r s ≡ true) front c back behind))
      ∙ select-newer front c back h

  -- The last row of a page.
  last_row-split :
      (r : AuditEvent P) (rows : Rows P)
      → (front : Rows P) × (c : AuditEvent P) × (r ∷ rows ≡ front ++ c ∷ [])
        × (last_row (r ∷ rows) ≡ some c)
  last_row-split r [] = ([], r, refl, refl)
  last_row-split r (s ∷ rows) =
      let (front, c, whole, last) = last_row-split s rows in
      (r ∷ front, c, ap (λ l. r ∷ l) whole, last)

  -- The filtered log, in order.
  abbrev pub listing : AuditFilter → Rows P → Rows P
  listing f rows = select (is_within (query_params f)) (order_by rows)

  abbrev pub HaveTimes : Rows P → Type 0
  HaveTimes rows = All (λ r. 0 < r.occurred_at) rows

  query_rows-listing :
      (f : AuditFilter) (rows : Rows P)
      → IsKeyed rows
      → query_rows (query_params f) rows
        ≡ select (is_behind (query_params f).cursor) (listing f rows)
  query_rows-listing f rows keyed =
      let p = query_params f in
      sym (select-order_by (λ r. is_within p r && is_behind p.cursor r) rows keyed)
      ∙ select-select (is_within p) (is_behind p.cursor) (order_by rows)

  -- The next page's rows are those that follow the last row of this one.
  query_rows-next :
      (f : AuditFilter) (rows front : Rows P) (c : AuditEvent P) (back : Rows P)
      → IsKeyed rows
      → HaveTimes rows
      → listing f rows ≡ front ++ c ∷ back
      → query_rows (query_params (next_filter f c)) rows ≡ back
  query_rows-next f rows front c back keyed times split =
      let timed = subst HaveTimes split (
        select-All (λ r. 0 < r.occurred_at) (is_within (query_params f)) (order_by rows)
          (order_by-All (λ r. 0 < r.occurred_at) rows times)) in
      let ordered = subst IsDescending split (
        select-IsDescending (is_within (query_params f)) (order_by rows)
          (order_by-IsDescending rows keyed)) in
      query_rows-listing (next_filter f c) rows keyed
      ∙ ap (λ cursor. select (is_behind cursor) (listing f rows))
          (cursor_at c.occurred_at (All-at (λ r. 0 < r.occurred_at) front c back timed))
      ∙ ap (select (newer c)) split
      ∙ select-newer front c back ordered
    where
      cursor_at : (t : ℕ) → 0 < t → set_cursor t c.id ≡ some (t, c.id)
      cursor_at t h = let set : (t == 0) ≡ false = ground (arith, h) in rw set refl

  page-split :
      (k : ℕ) (r : AuditEvent P) (rows : Rows P)
      → 0 < k
      → (front : Rows P) × (c : AuditEvent P) × (take k (r ∷ rows) ≡ front ++ c ∷ [])
        × (last_row (take k (r ∷ rows)) ≡ some c)
  page-split zero r rows h = absurd (omega (arith, h))
  page-split (suc k) r rows h = last_row-split r (take k rows)

  -- One request of the caller: an empty page ends the reading, another one is followed by the rest.
  pages-page :
      (n : ℕ) (f : AuditFilter) (rows page : Rows P)
      → query_events f rows ≡ page
      → pages (suc n) f rows
        ≡ elim (last_row page) [ none ↦ page | some r ↦ page ++ pages n (next_filter f r) rows ]
  unfolding pages
  pages-page n f rows page e =
      ap (λ p. elim (last_row p) [ none ↦ p | some r ↦ p ++ pages n (next_filter f r) rows ]) e

  take-none : (k : ℕ) → take {A = AuditEvent P} k [] ≡ []
  take-none zero = refl
  take-none (suc k) = refl

  pages-from :
      (n : ℕ) (f : AuditFilter) (rows front back : Rows P)
      → IsKeyed rows
      → HaveTimes rows
      → listing f rows ≡ front ++ back
      → query_rows (query_params f) rows ≡ back
      → length back < n
      → pages n f rows ≡ back
  unfolding query_events
  pages-from zero f rows front back keyed times split now enough = absurd (omega (arith, enough))
  pages-from (suc n) f rows front [] keyed times split now enough =
      let k = min (page_limit f.limit) 1000 in
      pages-page n f rows [] (ap (take k) now ∙ take-none k)
  pages-from (suc n) f rows front (r ∷ back) keyed times split now enough =
      let k = min (page_limit f.limit) 1000 in
      let rest = drop k (r ∷ back) in
      let (start, c, whole, last) = page-split k r back (limit-positive f.limit) in
      let parts : r ∷ back ≡ (start ++ c ∷ []) ++ rest =
        sym (take-append-drop k (r ∷ back)) ∙ ap (λ l. l ++ rest) whole in
      let further : listing f rows ≡ (front ++ start) ++ c ∷ rest =
        split
        ∙ ap (λ l. front ++ l) (parts ∙ append_assoc start (c ∷ []) rest)
        ∙ sym (append_assoc front start (c ∷ rest)) in
      let onward =
        pages-from n (next_filter f c) rows ((front ++ start) ++ c ∷ []) rest keyed times
          (further ∙ sym (append_assoc (front ++ start) (c ∷ []) rest))
          (query_rows-next f rows (front ++ start) c rest keyed times further)
          (omega (
            arith,
            enough,
            ap length parts,
            length-append (start ++ c ∷ []) rest,
            length-append start (c ∷ []),
          )) in
      pages-page n f rows (take k (r ∷ back)) (ap (take k) now)
      ∙ ap
          (λ o. elim o [
            | none ↦ take k (r ∷ back)
            | some c ↦ take k (r ∷ back) ++ pages n (next_filter f c) rows
          ])
          last
      ∙ ap (λ l. take k (r ∷ back) ++ l) onward
      ∙ take-append-drop k (r ∷ back)

  -- Reading page after page from the start, with the cursor of the last one's last row, returns the
  -- whole filtered log, newest first, each row once: in a table whose keys are distinct and whose
  -- times are set, with one request more than rows.
  pub pages-listing :
      (f : AuditFilter) (rows : Rows P) (n : ℕ)
      → IsKeyed rows
      → HaveTimes rows
      → f.cursor_time ≡ 0
      → length (listing f rows) < n
      → (pages n f rows ≡ listing f rows) × IsDescending (listing f rows)
  pages-listing f rows n keyed times start enough = (
    pages-from n f rows [] (listing f rows) keyed times refl
        (query_rows-listing f rows keyed
          ∙ ap (λ cursor. select (is_behind cursor) (listing f rows))
              (no_cursor f.cursor_time start)
          ∙ all_of (listing f rows))
        enough,
    select-IsDescending (is_within (query_params f)) (order_by rows)
        (order_by-IsDescending rows keyed),
  )
    where
      no_cursor : (t : ℕ) → t ≡ 0 → set_cursor t f.cursor_id ≡ none
      no_cursor t h = rw h refl

      every : (l : Rows P) → All (λ r. is_behind none r ≡ true) l
      every [] = tt
      every (r ∷ l) = (refl, every l)

      all_of : (l : Rows P) → select (is_behind none) l ≡ l
      all_of l = all-chosen (is_behind none) l (every l)
