-- ===== src/Persistent/Wakeups/Changes.antt =====
-- repo.go: what completing a task and filling in its result do to the rows that wait.
use golang_service_architect.Common.{
  ℕ, zero, suc, ◌≡◌, refl, sym, ap, ◌∙◌, Bool, true, false, ◌&&◌, ◌||◌, List, [], ◌∷◌, ◌++◌,
  if◌then◌else◌, ◌==◌, ==_iff, inl, inr, Bool-cases, All, All-weaken, arith,
}
use golang_service_architect.Common.Int.{pos, is_zero_ℤ}
use golang_service_architect.Expression.Task.{TaskStatus, Uuid}
use golang_service_architect.Persistent.Tables.{
  TaskRow, OutboxRow, update, updated, is_open, is_pending, completes, complete,
}
use golang_service_architect.Persistent.Values.Rows.{and_left}
use golang_service_architect.Persistent.Wakeups.{
  Order, has_open, has_message, missing_args, IsWaiting, IsAwakeAs, has_free, MissesOrListed,
}

module _ {A : Type 0} (Listed Before After : A → Type 0) (test : A → Bool) (change : A → A) where
  -- An update whose changed rows are listed.
  pub update-listed :
      ((x : A) → test x ≡ true → Listed (change x) → Before x → After (change x))
      → ((x : A) → test x ≡ false → Before x → After x)
      → (xs : List A) → All Listed (updated test change xs)
      → All Before xs
      → All After (update test change xs)
  unfolding update updated
  update-listed taken left [] listed h = tt
  update-listed taken left (x ∷ xs) listed (here, there) = elim (Bool-cases (test x)) [
    | inl e ↦
        let (this, others) = rw e at listed in
        rw e (taken x e this here, update-listed taken left xs others there)
    | inr e ↦ rw e (left x e here, update-listed taken left xs (rw e at listed) there)
  ]

module _ {A : Type 0} (Before After : A → Type 0) (test : A → Bool) (change : A → A) where
  unlisted : (xs : List A) → All (λ x. Unit {0}) xs
  unlisted [] = tt
  unlisted (x ∷ xs) = (tt, unlisted xs)

  pub update-each :
      ((x : A) → test x ≡ true → Before x → After (change x))
      → ((x : A) → test x ≡ false → Before x → After x)
      → (xs : List A) → All Before xs
      → All After (update test change xs)
  update-each taken left xs h =
      update-listed (λ x. Unit {0}) Before After test change (λ x e u. taken x e) left xs
        (unlisted (updated test change xs)) h

pub not_named : (named pending : Bool) → (named && pending) ≡ false → pending ≡ true → named ≡ false
not_named true pending h k = absurd cc
not_named false pending h k = refl

module _ {F : Type 0} where
  pub has_free-left :
      (id : Uuid) (ds es : List (TaskRow F)) → has_free id ds ≡ true → has_free id (ds ++ es) ≡ true
  has_free-left id [] es h = absurd cc
  has_free-left id (d ∷ ds) es h = elim (Bool-cases (d.id == id && is_zero_ℤ d.unmet_deps)) [
    | inl e ↦ rw e refl
    | inr e ↦ rw e (has_free-left id ds es (rw e at h))
  ]

  pub has_free-right :
      (id : Uuid) (ds es : List (TaskRow F)) → has_free id es ≡ true → has_free id (ds ++ es) ≡ true
  has_free-right id [] es h = h
  has_free-right id (d ∷ ds) es h = elim (Bool-cases (d.id == id && is_zero_ℤ d.unmet_deps)) [
    | inl e ↦ rw e refl
    | inr e ↦ rw e (has_free-right id ds es h)
  ]

  -- A row with nothing left to wait for is found among rows.
  abbrev pub IsFound : List (TaskRow F) → TaskRow F → Type 0
  IsFound deps t = is_zero_ℤ t.unmet_deps ≡ true → has_free t.id deps ≡ true

  pub All-IsFound : (ds : List (TaskRow F)) → All (IsFound ds) ds
  All-IsFound [] = tt
  All-IsFound (d ∷ ds) =
      let same : (d.id == d.id) ≡ true = (==_iff d.id d.id).1 refl in
      (
        λ e. rw (same, e) refl,
        All-weaken (IsFound ds) (IsFound (d ∷ ds)) (λ t h e. has_free-right t.id (d ∷ []) ds (h e))
            ds (All-IsFound ds),
      )

  completes-complete :
      (x d : Uuid) (v : F) (t : TaskRow F)
      → completes d (if completes x t then complete v t else t)
        ≡ (if x == d then false else completes d t)
  completes-complete x d v t = elim (Bool-cases (completes x t)) [
    | inl e ↦
        let same : t.id ≡ x = (==_iff t.id x).0 (and_left (t.id == x) (is_open t.status) e) in
        rw e (elim (Bool-cases (t.id == d)) [
          | inl k ↦ rw (← same, k) refl
          | inr k ↦ rw (← same, k) refl
        ])
    | inr e ↦ rw e (elim (Bool-cases (x == d)) [
      | inl at ↦
          let same : completes x t ≡ completes d t = ap (λ y. completes y t) ((==_iff x d).0 at) in
          rw at (sym same ∙ e)
      | inr past ↦ rw past refl
    ])
  ]

  -- The open tasks once one of them is complete.
  pub has_open-complete :
      (x d : Uuid) (v : F) (ts : List (TaskRow F))
      → has_open d (update (completes x) (complete v) ts)
        ≡ (if x == d then false else has_open d ts)
  unfolding update
  has_open-complete x d v [] = elim (Bool-cases (x == d)) [ inl e ↦ rw e refl | inr e ↦ rw e refl ]
  has_open-complete x d v (t ∷ ts) =
      ap (λ b. b || has_open d (update (completes x) (complete v) ts)) (completes-complete x d v t)
      ∙ ap (λ b. (if x == d then false else completes d t) || b) (has_open-complete x d v ts)
      ∙ elim (Bool-cases (x == d)) [ inl e ↦ rw e refl | inr e ↦ rw e refl ]

  -- A row that counts what it misses either misses something or is found with nothing to wait for.
  pub misses_or_listed :
      (deps : List (TaskRow F)) (t : TaskRow F)
      → t.unmet_deps ≡ pos (missing_args t)
      → IsFound deps t
      → MissesOrListed deps t
  misses_or_listed deps t counted found = go (missing_args t) refl
    where
      go : (m : ℕ) → missing_args t ≡ m → MissesOrListed deps t
      go zero e = inr (found (ap is_zero_ℤ (counted ∙ ap pos e)))
      go (suc m) e = inl (omega (arith, e))

  -- A change that keeps the status of a row, and keeps a pending row waiting.
  pub keeps_awake :
      (order order' : Order) (open1 open2 others1 others2 : Uuid → Bool)
      (Wakes Also : TaskRow F → Type 0) (outbox outbox' : List (OutboxRow F)) (s : TaskStatus)
      (t u : TaskRow F)
      → (has_message t.id outbox ≡ true → has_message u.id outbox' ≡ true)
      → (is_pending s ≡ true
          → IsWaiting order open1 open2 Wakes t
          → IsWaiting order' others1 others2 Also u)
      → IsAwakeAs order open1 open2 Wakes outbox s t
      → IsAwakeAs order' others1 others2 Also outbox' s u
  keeps_awake order order' open1 open2 others1 others2 Wakes Also outbox outbox' TaskStatus.pending
        t u same h a =
      h refl a
  keeps_awake order order' open1 open2 others1 others2 Wakes Also outbox outbox' TaskStatus.ready t
        u same h a =
      same a
  keeps_awake order order' open1 open2 others1 others2 Wakes Also outbox outbox' TaskStatus.running
        t u same h a =
      same a
  keeps_awake order order' open1 open2 others1 others2 Wakes Also outbox outbox' TaskStatus.done t u
        same h a =
      tt
  keeps_awake order order' open1 open2 others1 others2 Wakes Also outbox outbox' TaskStatus.failed t
        u same h a =
      tt
