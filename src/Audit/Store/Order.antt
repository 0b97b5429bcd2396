-- ===== src/Audit/Store/Order.antt =====
-- auditstore: the order of a page, and the rows behind a cursor.
use golang_service_architect.Common.{
  ℕ, ◌≡◌, refl, sym, ap, ◌∙◌, Bool, true, false, ◌&&◌, [], ◌∷◌, ◌==◌, inl, inr, Bool-cases, All,
  All-weaken, if◌then◌else◌, arith,
}
use golang_service_architect.Persistent.Tables.{select}
use golang_service_architect.Expression.Task.{Uuid}
use golang_service_architect.Audit.{AuditEvent}
use golang_service_architect.Audit.Store.{Rows, is_before, newer, same_key, insert_row, order_by}

is_before_trans :
    (t : ℕ) (i : Uuid) (u : ℕ) (j : Uuid) (v : ℕ) (k : Uuid)
    → is_before t i u j ≡ true
    → is_before u j v k ≡ true
    → is_before t i v k ≡ true
unfolding is_before
is_before_trans t i u j v k h h' = ground arith

is_before_asym :
    (t : ℕ) (i : Uuid) (u : ℕ) (j : Uuid) → is_before t i u j ≡ true → is_before u j t i ≡ false
unfolding is_before
is_before_asym t i u j h = ground arith

is_before_irrefl : (t : ℕ) (i : Uuid) → is_before t i t i ≡ false
unfolding is_before
is_before_irrefl t i = ground arith

is_before_total :
    (t : ℕ) (i : Uuid) (u : ℕ) (j : Uuid)
    → (t == u && i == j) ≡ false
    → is_before u j t i ≡ false
    → is_before t i u j ≡ true
unfolding is_before
is_before_total t i u j h h' = ground arith

key_sym :
    (t : ℕ) (i : Uuid) (u : ℕ) (j : Uuid) → (t == u && i == j) ≡ false → (u == t && j == i) ≡ false
key_sym t i u j h = ground arith

module _ {P : Type 0} where
  abbrev pub AreBehind : AuditEvent P → Rows P → Type 0
  AreBehind r rows = All (λ s. newer r s ≡ true) rows

  -- Every row stands in front of all that follow it.
  abbrev pub IsDescending : Rows P → Type 0
  IsDescending [] = Unit
  IsDescending (r ∷ rows) = AreBehind r rows × IsDescending rows

  -- No two rows have the same key.
  abbrev pub IsKeyed : Rows P → Type 0
  IsKeyed [] = Unit
  IsKeyed (r ∷ rows) = All (λ s. same_key r s ≡ false) rows × IsKeyed rows

  newer_trans : (r s t : AuditEvent P) → newer r s ≡ true → newer s t ≡ true → newer r t ≡ true
  newer_trans r s t h h' =
      is_before_trans t.occurred_at t.id s.occurred_at s.id r.occurred_at r.id h' h

  behind_trans :
      (r s : AuditEvent P) (rows : Rows P) → newer r s ≡ true → AreBehind s rows → AreBehind r rows
  behind_trans r s rows h there =
      All-weaken (λ t. newer s t ≡ true) (λ t. newer r t ≡ true) (λ t h'. newer_trans r s t h h')
        rows there

  module _ (Holds : AuditEvent P → Type 0) where
    insert_row-All :
        (r : AuditEvent P) (rows : Rows P)
        → Holds r
        → All Holds rows
        → All Holds (insert_row r rows)
    unfolding insert_row
    insert_row-All r [] here there = (here, tt)
    insert_row-All r (s ∷ rows) here (h, there) = elim (Bool-cases (newer r s)) [
      | inl first ↦ rw (insert_row, first) (here, (h, there))
      | inr later ↦ rw (insert_row, later) (h, insert_row-All r rows here there)
    ]

    pub order_by-All : (rows : Rows P) → All Holds rows → All Holds (order_by rows)
    unfolding order_by
    order_by-All [] h = tt
    order_by-All (r ∷ rows) (here, there) =
        insert_row-All r (order_by rows) here (order_by-All rows there)

    pub select-All :
        (test : AuditEvent P → Bool) (rows : Rows P) → All Holds rows → All Holds (select test rows)
    unfolding select
    select-All test [] h = tt
    select-All test (r ∷ rows) (here, there) = elim (Bool-cases (test r)) [
      | inl chosen ↦ rw (select, chosen) (here, select-All test rows there)
      | inr left ↦ rw (select, left) (select-All test rows there)
    ]

  insert_row-IsDescending :
      (r : AuditEvent P) (rows : Rows P)
      → All (λ s. same_key s r ≡ false) rows
      → IsDescending rows
      → IsDescending (insert_row r rows)
  unfolding insert_row
  insert_row-IsDescending r [] other h = (tt, tt)
  insert_row-IsDescending r (s ∷ rows) (differs, others) (behind, h) =
      elim (Bool-cases (newer r s)) [
        | inl first ↦
            rw (insert_row, first) ((first, behind_trans r s rows first behind), (behind, h))
        | inr later ↦
            let front : newer s r ≡ true =
              is_before_total r.occurred_at r.id s.occurred_at s.id (same_key_sym s r differs)
                later in
            rw (insert_row, later)
              (
                insert_row-All (λ t. newer s t ≡ true) r rows front behind,
                insert_row-IsDescending r rows others h,
              )
      ]
    where
      same_key_sym : (s r : AuditEvent P) → same_key s r ≡ false → same_key r s ≡ false
      same_key_sym s r h = key_sym s.occurred_at s.id r.occurred_at r.id h

  pub order_by-IsDescending : (rows : Rows P) → IsKeyed rows → IsDescending (order_by rows)
  unfolding order_by
  order_by-IsDescending [] h = tt
  order_by-IsDescending (r ∷ rows) (here, there) =
      insert_row-IsDescending r (order_by rows)
        (order_by-All (λ s. same_key s r ≡ false) rows
          (All-weaken (λ s. same_key r s ≡ false) (λ s. same_key s r ≡ false)
            (λ s h. key_sym r.occurred_at r.id s.occurred_at s.id h) rows here))
        (order_by-IsDescending rows there)

  insert_row-first :
      (r : AuditEvent P) (rows : Rows P) → AreBehind r rows → insert_row r rows ≡ r ∷ rows
  unfolding insert_row
  insert_row-first r [] h = refl
  insert_row-first r (s ∷ rows) (first, h) = rw (insert_row, first) refl

  insert_row-later :
      (r s : AuditEvent P) (rows : Rows P)
      → newer r s ≡ false
      → insert_row r (s ∷ rows) ≡ s ∷ insert_row r rows
  unfolding insert_row
  insert_row-later r s rows h = rw (insert_row, h) refl

  module _ (test : AuditEvent P → Bool) where
    pub select-chosen :
        (r : AuditEvent P) (rows : Rows P)
        → test r ≡ true
        → select test (r ∷ rows) ≡ r ∷ select test rows
    unfolding select
    select-chosen r rows h = rw (select, h) refl

    pub select-left :
        (r : AuditEvent P) (rows : Rows P)
        → test r ≡ false
        → select test (r ∷ rows) ≡ select test rows
    unfolding select
    select-left r rows h = rw (select, h) refl

    -- Selecting rows keeps their order.
    select-insert_row :
        (r : AuditEvent P) (rows : Rows P)
        → IsDescending rows
        → select test (insert_row r rows)
          ≡ (if test r then insert_row r (select test rows) else select test rows)
    unfolding insert_row select
    select-insert_row r [] h = refl
    select-insert_row r (s ∷ rows) (behind, h) = elim (Bool-cases (newer r s)) [
      | inl first ↦
          let all_behind =
            select-All (λ t. newer r t ≡ true) test (s ∷ rows)
              (first, behind_trans r s rows first behind) in
          elim (Bool-cases (test r)) [
            | inl chosen ↦
                ap (select test)
                  (insert_row-first r (s ∷ rows) (first, behind_trans r s rows first behind))
                ∙ select-chosen r (s ∷ rows) chosen
                ∙ sym (insert_row-first r (select test (s ∷ rows)) all_behind)
                ∙ sym (
                    ap
                      (λ b.
                        if b then insert_row r (select test (s ∷ rows)) else select test (s ∷ rows))
                      chosen)
            | inr left ↦
                ap (select test)
                  (insert_row-first r (s ∷ rows) (first, behind_trans r s rows first behind))
                ∙ select-left r (s ∷ rows) left
                ∙ sym (
                    ap
                      (λ b.
                        if b then insert_row r (select test (s ∷ rows)) else select test (s ∷ rows))
                      left)
          ]
      | inr later ↦
          let inner = select-insert_row r rows h in
          ap (select test) (insert_row-later r s rows later) ∙ elim (Bool-cases (test s)) [
            | inl chosen ↦
                select-chosen s (insert_row r rows) chosen
                ∙ ap (λ l. s ∷ l) inner
                ∙ front (test r) r s (select test rows) later
                ∙ ap (λ l. if test r then insert_row r l else l) (sym (select-chosen s rows chosen))
            | inr left ↦
                select-left s (insert_row r rows) left
                ∙ inner
                ∙ ap (λ l. if test r then insert_row r l else l) (sym (select-left s rows left))
          ]
    ]
      where
        front :
            (b : Bool) (r s : AuditEvent P) (l : Rows P)
            → newer r s ≡ false
            → s ∷ (if b then insert_row r l else l) ≡ (if b then insert_row r (s ∷ l) else s ∷ l)
        front true r s l later = sym (insert_row-later r s l later)
        front false r s l later = refl

    pub select-order_by :
        (rows : Rows P) → IsKeyed rows → select test (order_by rows) ≡ order_by (select test rows)
    unfolding order_by select
    select-order_by [] h = refl
    select-order_by (r ∷ rows) (here, there) =
        select-insert_row r (order_by rows) (order_by-IsDescending rows there)
        ∙ ap (λ l. if test r then insert_row r l else l) (select-order_by rows there)
        ∙ go (test r)
      where
        go :
            (b : Bool)
            → (if b
                then insert_row r (order_by (select test rows))
                else order_by (select test rows))
              ≡ order_by (if b then r ∷ select test rows else select test rows)
        go true = refl
        go false = refl

  pub select-select :
      (test also : AuditEvent P → Bool) (rows : Rows P)
      → select (λ r. test r && also r) rows ≡ select also (select test rows)
  unfolding select
  select-select test also [] = refl
  select-select test also (r ∷ rows) = elim (Bool-cases (test r)) [
    | inl chosen ↦ elim (Bool-cases (also r)) [
      | inl too ↦ rw (select, chosen, too) (ap (λ l. r ∷ l) (select-select test also rows))
      | inr not_too ↦ rw (select, chosen, not_too) (select-select test also rows)
    ]
    | inr left ↦ rw (select, left) (select-select test also rows)
  ]

  pub newer_irrefl : (r : AuditEvent P) → newer r r ≡ false
  newer_irrefl r = is_before_irrefl r.occurred_at r.id

  pub newer_asym : (r s : AuditEvent P) → newer r s ≡ true → newer s r ≡ false
  newer_asym r s h = is_before_asym s.occurred_at s.id r.occurred_at r.id h

  pub select-IsDescending :
      (test : AuditEvent P → Bool) (rows : Rows P)
      → IsDescending rows
      → IsDescending (select test rows)
  unfolding select
  select-IsDescending test [] h = tt
  select-IsDescending test (r ∷ rows) (behind, h) = elim (Bool-cases (test r)) [
    | inl chosen ↦
        rw (select, chosen)
          (select-All (λ s. newer r s ≡ true) test rows behind, select-IsDescending test rows h)
    | inr left ↦ rw (select, left) (select-IsDescending test rows h)
  ]
