-- ===== src/Persistent/Unfinished/Roots.antt =====
-- repo.go: what updates and inserts do to the roots.
use golang_service_architect.Common.{
  ◌≡◌, refl, sym, ap, ◌∙◌, Bool, true, false, List, [], ◌∷◌, ◌++◌, ◌==◌, ==_iff, if◌then◌else◌, All,
  Bool-cases, inl, inr,
}
use golang_service_architect.Expression.Task.{Uuid}
use golang_service_architect.Persistent.Tables.{
  TaskRow, update, updated, is_open, completes, complete, has_task,
}
use golang_service_architect.Persistent.Values.Rows.{and_left}
use golang_service_architect.Persistent.Wakeups.Marking.{and_right}
use golang_service_architect.Persistent.Unfinished.{is_root_row, is_root_of}

module _ {F : Type 0} where
  -- An update that does not matter to a root.
  pub is_root_of-update :
      (e r : Uuid) (test : TaskRow F → Bool) (change : TaskRow F → TaskRow F)
      → ((t : TaskRow F) → (change t).id ≡ t.id)
      → ((t : TaskRow F)
          → test t ≡ true
          → (t.id == r) ≡ true
          → is_root_row e (change t) ≡ is_root_row e t)
      → (ts : List (TaskRow F)) → is_root_of e r (update test change ts) ≡ is_root_of e r ts
  unfolding update
  is_root_of-update e r test change same keeps [] = refl
  is_root_of-update e r test change same keeps (t ∷ ts) =
      let rest = is_root_of-update e r test change same keeps ts in
      elim (Bool-cases (test t)) [
        | inr h ↦ rw h (ap (λ b. if t.id == r then is_root_row e t else b) rest)
        | inl h ↦ elim (Bool-cases (t.id == r)) [
          | inl k ↦ rw (h, same t, k) (keeps t h k)
          | inr k ↦ rw (h, same t, k) rest
        ]
      ]

  pub is_root_of-append :
      (e r : Uuid) (ts us : List (TaskRow F))
      → is_root_of e r ts ≡ true
      → is_root_of e r (ts ++ us) ≡ true
  is_root_of-append e r [] us h = absurd cc
  is_root_of-append e r (t ∷ ts) us h = elim (Bool-cases (t.id == r)) [
    | inl k ↦ rw k (rw k at h)
    | inr k ↦ rw k (is_root_of-append e r ts us (rw k at h))
  ]

  pub is_root_of-insert :
      (e : Uuid) (row : TaskRow F) (ts : List (TaskRow F))
      → has_task row.id ts ≡ false
      → is_root_row e row ≡ true
      → is_root_of e row.id (ts ++ row ∷ []) ≡ true
  is_root_of-insert e row [] h k =
      let same : (row.id == row.id) ≡ true = (==_iff row.id row.id).1 refl in rw same k
  is_root_of-insert e row (t ∷ ts) h k = elim (Bool-cases (t.id == row.id)) [
    | inl s ↦ absurd (let clash = rw s at h in cc)
    | inr s ↦ rw s (is_root_of-insert e row ts (rw s at h) k)
  ]

  -- Where a root is completed, it is the row that the update returns.
  pub returned_root :
      (e x : Uuid) (v : F) (ts : List (TaskRow F)) (u : TaskRow F) (us : List (TaskRow F))
      → is_root_of e x ts ≡ true
      → updated (completes x) (complete v) ts ≡ u ∷ us
      → u.is_root ≡ true
  unfolding updated
  returned_root e x v [] u us h k = absurd cc
  returned_root e x v (t ∷ ts) u us h k = elim (Bool-cases (t.id == x)) [
    | inr s ↦ returned_root e x v ts u us (rw s at h) (rw s at k)
    | inl s ↦
        let root = rw s at h in
        let opened = and_left (is_open t.status) _ root in
        let first = and_right (is_open t.status) _ root in
        let same : complete v t ≡ u =
          ap (λ rows. elim rows [ [] ↦ u | ◌∷◌ r rest ↦ r ]) (rw (s, opened) at k) in
        sym (ap (λ r. r.is_root) same) ∙ and_left t.is_root _ first
  ]

  pub named_root :
      (e r : Uuid) (given : Uuid) (ts : List (TaskRow F))
      → All (λ (t : TaskRow F). (t.id == r) ≡ true → t.expression_id ≡ given) ts
      → is_root_of e r ts ≡ true
      → e ≡ given
  named_root e r given [] names h = absurd cc
  named_root e r given (t ∷ ts) (here, there) h = elim (Bool-cases (t.id == r)) [
    | inr s ↦ named_root e r given ts there (rw s at h)
    | inl s ↦
        let owned = and_right t.is_root _ (and_right (is_open t.status) _ (rw s at h)) in
        sym ((==_iff t.expression_id e).0 owned) ∙ here s
  ]
