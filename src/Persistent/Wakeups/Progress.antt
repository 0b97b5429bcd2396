-- ===== src/Persistent/Wakeups/Progress.antt =====
-- repo.go: where every row is awake, an open task leads to one that has its message.
use golang_service_architect.Common.{
  ℕ, zero, suc, ◌+◌, ◌<◌, ◌≡◌, refl, sym, ap, ◌∙◌, Bool, true, Option, none, some, List, [], ◌∷◌,
  ◌⊎◌, inl, inr, Bool-cases, All, ◌&&◌, ◌||◌, false, arith, ◌==◌, ==_iff,
}
use golang_service_architect.Expression.Task.{TaskStatus, Uuid}
use golang_service_architect.Persistent.Tables.{TaskRow, OutboxRow, Db, is_open, completes, names}
use golang_service_architect.Persistent.Values.Rows.{and_left}
use golang_service_architect.Persistent.Wakeups.Inserts.{or_last}
use golang_service_architect.Persistent.Wakeups.{
  Order, IsEarlier, IsAwaited, IsWaiting, IsAwakeAs, IsAwake, missing, MissesOne, has_open,
  has_message, AreAwake,
}
use golang_service_architect.Persistent.Wakeups.Marking.{and_right}

module _ {F : Type 0} where
  -- An argument of a row is the result of a task.
  abbrev takes : Uuid → TaskRow F → Bool
  takes d t = names t.arg1_task_id d || names t.arg2_task_id d

  -- An open row of a task takes the result of another.
  abbrev pub waits_on : Uuid → Uuid → List (TaskRow F) → Bool
  waits_on id d [] = false
  waits_on id d (t ∷ ts) = (completes id t && takes d t) || waits_on id d ts

  -- A task waits for another, through any number of arguments.
  pub data WaitsFor (ts : List (TaskRow F)) : Uuid → Uuid → Type 0 where
    itself : {id : Uuid} → WaitsFor ts id id
    through : {id d e : Uuid} → waits_on id d ts ≡ true → WaitsFor ts d e → WaitsFor ts id e

-- What a task waits for comes down to an open task whose message is in the outbox.
abbrev pub HasWoken : {F : Type 0} → Db F → Uuid → Type 0
HasWoken db id =
    (d : Uuid) × WaitsFor db.tasks id d
    × (has_open d db.tasks ≡ true)
    × (has_message d db.outbox ≡ true)

module _ {F : Type 0} where
  open_row :
      (Holds : TaskRow F → Type 0) (id : Uuid) (ts : List (TaskRow F))
      → All Holds ts
      → has_open id ts ≡ true
      → (t : TaskRow F) × (t.id ≡ id)
        × (is_open t.status ≡ true)
        × ((d : Uuid) → takes d t ≡ true → waits_on id d ts ≡ true)
        × Holds t
  open_row Holds id [] h e = absurd cc
  open_row Holds id (t ∷ ts) (here, there) e = elim (Bool-cases (completes id t)) [
    | inl c ↦ (
      t,
      (==_iff t.id id).0 (and_left (t.id == id) (is_open t.status) c),
      and_right (t.id == id) (is_open t.status) c,
      λ d k. rw (c, k) refl,
      here,
    )
    | inr c ↦
        let (u, same, opened, taken, holds) = open_row Holds id ts there (rw c at e) in
        (u, same, opened, λ d k. rw c (taken d k), holds)
  ]

  open_cases :
      (order : Order) (open_ : Uuid → Bool) (outbox : List (OutboxRow F)) (s : TaskStatus)
      (t : TaskRow F)
      → is_open s ≡ true
      → IsAwakeAs order open_ open_ MissesOne outbox s t
      → IsWaiting order open_ open_ MissesOne t ⊎ (has_message t.id outbox ≡ true)
  open_cases order open_ outbox TaskStatus.pending t h a = inl a
  open_cases order open_ outbox TaskStatus.ready t h a = inr a
  open_cases order open_ outbox TaskStatus.running t h a = inr a
  open_cases order open_ outbox TaskStatus.done t h a = absurd cc
  open_cases order open_ outbox TaskStatus.failed t h a = absurd cc

  misses_either : (v w : Option F) → 0 < missing v + missing w → (v ≡ none) ⊎ (w ≡ none)
  misses_either none w h = inl refl
  misses_either (some v) none h = inr refl
  misses_either (some v) (some w) h = absurd (omega (arith, h))

  -- The task that gives a missing argument.
  awaited_task :
      (order : Order) (open_ : Uuid → Bool) (id : Uuid) (v : Option F) (dep : Option Uuid)
      → v ≡ none
      → IsAwaited open_ v dep
      → IsEarlier order id dep
      → (d : Uuid) × (names dep d ≡ true) × (open_ d ≡ true) × (order.rank d < order.rank id)
  awaited_task order open_ id (some v) dep e a earlier = absurd cc
  awaited_task order open_ id none none e a earlier = absurd a
  awaited_task order open_ id none (some d) e a earlier = (d, (==_iff d d).1 refl, a, earlier.0)

  awaited_by :
      (order : Order) (open_ : Uuid → Bool) (t : TaskRow F)
      → IsWaiting order open_ open_ MissesOne t
      → (d : Uuid) × (takes d t ≡ true) × (open_ d ≡ true) × (order.rank d < order.rank t.id)
  awaited_by order open_ t w = elim (misses_either t.arg1_value t.arg2_value w.wakes) [
    | inl e ↦
        let (d, named, opened, before) =
          awaited_task order open_ t.id t.arg1_value t.arg1_task_id e w.first w.earlier1 in
        (d, rw named refl, opened, before)
    | inr e ↦
        let (d, named, opened, before) =
          awaited_task order open_ t.id t.arg2_value t.arg2_task_id e w.second w.earlier2 in
        (d, or_last (names t.arg1_task_id d) (names t.arg2_task_id d) named, opened, before)
  ]

  woken_below :
      (db : Db F) (a : AreAwake MissesOne db) (n : ℕ) (id : Uuid)
      → a.order.rank id < n
      → has_open id db.tasks ≡ true
      → HasWoken db id
  woken_below db a zero id lower h = absurd (omega (arith, lower))
  woken_below db a (suc n) id lower h =
      let (t, same, is_open_, taken, awake) =
        open_row (IsAwake a.order a.open_ a.open_ MissesOne db.outbox) id db.tasks a.rows h in
      elim (open_cases a.order a.open_ db.outbox t.status t is_open_ awake) [
        | inr has ↦ (id, itself, h, ap (λ i. has_message i db.outbox) (sym same) ∙ has)
        | inl waiting ↦
            let (d, takes_it, opened, before) = awaited_by a.order a.open_ t waiting in
            let rank = ap a.order.rank same in
            let (e, waits, there, has) =
              woken_below db a n d (omega (arith, before, rank, lower)) (a.opens d ∙ opened) in
            (e, through (taken d takes_it) waits, there, has)
      ]

  -- No open task waits for ever.
  pub AreAwake-HasWoken :
      (db : Db F) (id : Uuid) → AreAwake MissesOne db → has_open id db.tasks ≡ true → HasWoken db id
  AreAwake-HasWoken db id a h = woken_below db a (suc (a.order.rank id)) id (omega arith) h
