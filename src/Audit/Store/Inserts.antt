-- ===== src/Audit/Store/Inserts.antt =====
-- auditstore: the idempotent insert.
use golang_service_architect.Common.{
  ℕ, ◌≡◌, refl, sym, ap, ◌∙◌, Bool, true, false, ◌&&◌, ◌||◌, [], ◌∷◌, ◌++◌, ◌==◌, inl, inr,
  Bool-cases, All, All-append, arith,
}
use golang_service_architect.Expression.Task.{Uuid}
use golang_service_architect.Audit.{AuditEvent}
use golang_service_architect.Audit.Store.{Rows, same_key, has_key, insert_event, insert_events}
use golang_service_architect.Audit.Store.Order.{IsKeyed}

key_refl : (t : ℕ) (i : Uuid) → (t == t && i == i) ≡ true
key_refl t i = ground arith

key_sym :
    (t : ℕ) (i : Uuid) (u : ℕ) (j : Uuid) → (t == u && i == j) ≡ false → (u == t && j == i) ≡ false
key_sym t i u j h = ground arith

or_left : (a b : Bool) → a ≡ true → (a || b) ≡ true
or_left true b h = refl
or_left false b h = cc

or_right : (a b : Bool) → b ≡ true → (a || b) ≡ true
or_right true b h = refl
or_right false b h = h

neither : (a b : Bool) → (a || b) ≡ false → (a ≡ false) × (b ≡ false)
neither true b h = absurd cc
neither false b h = (refl, h)

module _ {P : Type 0} where
  has_key-append :
      (r : AuditEvent P) (rows more : Rows P)
      → has_key r (rows ++ more) ≡ (has_key r rows || has_key r more)
  has_key-append r [] more = refl
  has_key-append r (s ∷ rows) more =
      ap (λ b. same_key r s || b) (has_key-append r rows more)
      ∙ sym (or_assoc (same_key r s) (has_key r rows) (has_key r more))
    where
      or_assoc : (a b c : Bool) → ((a || b) || c) ≡ (a || (b || c))
      or_assoc true b c = refl
      or_assoc false b c = refl

  insert_event-has :
      (ev : AuditEvent P) (rows : Rows P) → has_key ev (insert_event ev rows).1 ≡ true
  insert_event-has ev rows = elim (Bool-cases (has_key ev rows)) [
    | inl taken ↦ rw taken taken
    | inr free ↦ rw free (
        has_key-append ev rows (ev ∷ [])
        ∙ or_right (has_key ev rows) (same_key ev ev || false)
            (or_left (same_key ev ev) false (key_refl ev.occurred_at ev.id)))
  ]

  insert_event-keeps :
      (r ev : AuditEvent P) (rows : Rows P)
      → has_key r rows ≡ true
      → has_key r (insert_event ev rows).1 ≡ true
  insert_event-keeps r ev rows h = elim (Bool-cases (has_key ev rows)) [
    | inl taken ↦ rw taken h
    | inr free ↦
        rw free (has_key-append r rows (ev ∷ []) ∙ or_left (has_key r rows) (has_key r (ev ∷ [])) h)
  ]

  insert_events-keeps :
      (r : AuditEvent P) (evs rows : Rows P)
      → has_key r rows ≡ true
      → has_key r (insert_events evs rows).1 ≡ true
  unfolding insert_events
  insert_events-keeps r [] rows h = h
  insert_events-keeps r (ev ∷ evs) rows h =
      insert_events-keeps r evs (insert_event ev rows).1 (insert_event-keeps r ev rows h)

  abbrev AreTaken : Rows P → Rows P → Type 0
  AreTaken rows evs = All (λ ev. has_key ev rows ≡ true) evs

  insert_events-has : (evs rows : Rows P) → AreTaken (insert_events evs rows).1 evs
  unfolding insert_events
  insert_events-has [] rows = tt
  insert_events-has (ev ∷ evs) rows =
      let rows₁ = (insert_event ev rows).1 in
      (insert_events-keeps ev evs rows₁ (insert_event-has ev rows), insert_events-has evs rows₁)

  insert_events-taken : (evs rows : Rows P) → AreTaken rows evs → insert_events evs rows ≡ (0, rows)
  unfolding insert_events
  insert_events-taken [] rows h = refl
  insert_events-taken (ev ∷ evs) rows (here, there) =
      rw (insert_events, here, insert_events-taken evs rows there) refl

  free_apart :
      (ev : AuditEvent P) (rows : Rows P)
      → has_key ev rows ≡ false
      → All (λ s. same_key ev s ≡ false) rows
  free_apart ev [] h = tt
  free_apart ev (s ∷ rows) h =
      let (here, there) = neither (same_key ev s) (has_key ev rows) h in
      (here, free_apart ev rows there)

  append-IsKeyed :
      (rows : Rows P) (ev : AuditEvent P)
      → IsKeyed rows
      → All (λ s. same_key ev s ≡ false) rows
      → IsKeyed (rows ++ ev ∷ [])
  append-IsKeyed [] ev h apart = (tt, tt)
  append-IsKeyed (r ∷ rows) ev (here, there) (differs, apart) = (
    All-append (λ s. same_key r s ≡ false) rows (ev ∷ []) here
        (key_sym ev.occurred_at ev.id r.occurred_at r.id differs, tt),
    append-IsKeyed rows ev there apart,
  )

  insert_event-IsKeyed :
      (ev : AuditEvent P) (rows : Rows P) → IsKeyed rows → IsKeyed (insert_event ev rows).1
  insert_event-IsKeyed ev rows h = elim (Bool-cases (has_key ev rows)) [
    | inl taken ↦ rw taken h
    | inr free ↦ rw free (append-IsKeyed rows ev h (free_apart ev rows free))
  ]

  insert_events-IsKeyed : (evs rows : Rows P) → IsKeyed rows → IsKeyed (insert_events evs rows).1
  unfolding insert_events
  insert_events-IsKeyed [] rows h = h
  insert_events-IsKeyed (ev ∷ evs) rows h =
      insert_events-IsKeyed evs (insert_event ev rows).1 (insert_event-IsKeyed ev rows h)

  -- A batch that is inserted again adds no row and changes none, whatever keys it repeats; and a
  -- table whose keys are distinct keeps them so.
  pub insert_events-again :
      (evs rows : Rows P)
      → IsKeyed rows
      → (insert_events evs (insert_events evs rows).1 ≡ (0, (insert_events evs rows).1))
        × IsKeyed (insert_events evs rows).1
  insert_events-again evs rows keyed = (
    insert_events-taken evs (insert_events evs rows).1 (insert_events-has evs rows),
    insert_events-IsKeyed evs rows keyed,
  )
