-- ===== src/Persistent/Wakeups/Creation.antt =====
-- repo.go: a planned expression is created with every row awake.
use Prim.Native.Nat.{min}
use golang_service_architect.Common.{
  ℕ, zero, suc, ◌+◌, ◌<◌, ◌≡◌, refl, ap, ◌∙◌, Bool, true, false, ◌||◌, Option, none, some, List, [],
  ◌∷◌, ◌++◌, ◌==◌, ==_iff, inl, inr, Bool-cases, if◌then◌else◌, arith,
}
use golang_service_architect.Common.Int.{pos}
use golang_service_architect.Expression.Task.{Task, Uuid, is_ready}
use golang_service_architect.Expression.Planner.Order.{Elem, IsSource, dep_count, IsPlanned}
use golang_service_architect.Persistent.Tables.{TaskRow, OutboxRow, completes, has_task}
use golang_service_architect.Persistent.Enqueue.{task_row}
use golang_service_architect.Persistent.Wakeups.{
  Order, IsEarlier, IsAwaited, IsWaiting, missing, missing_args, has_open, IsAwake,
}
use golang_service_architect.Persistent.Wakeups.Changes.{keeps_awake}

abbrev rank_of : Order → Option Uuid → ℕ
rank_of order none = 0
rank_of order (some d) = order.rank d

module _ {F : Type 0} where
  pub has_open-append :
      (d : Uuid) (ts : List (TaskRow F)) (row : TaskRow F)
      → has_open d (ts ++ row ∷ []) ≡ (has_open d ts || completes d row)
  has_open-append d [] row = elim (Bool-cases (completes d row)) [
    | inl e ↦ rw e refl
    | inr e ↦ rw e refl
  ]
  has_open-append d (t ∷ ts) row =
      let rest = has_open-append d ts row in
      elim (Bool-cases (completes d t)) [ inl e ↦ rw e refl | inr e ↦ rw e rest ]

  pub has_task-append :
      (d : Uuid) (ts : List (TaskRow F)) (row : TaskRow F)
      → has_task d (ts ++ row ∷ []) ≡ (has_task d ts || (row.id == d))
  has_task-append d [] row = elim (Bool-cases (row.id == d)) [
    | inl e ↦ rw e refl
    | inr e ↦ rw e refl
  ]
  has_task-append d (t ∷ ts) row =
      let rest = has_task-append d ts row in
      elim (Bool-cases (t.id == d)) [ inl e ↦ rw e refl | inr e ↦ rw e rest ]

  pub open_task : (d : Uuid) (ts : List (TaskRow F)) → has_open d ts ≡ true → has_task d ts ≡ true
  open_task d [] h = absurd cc
  open_task d (t ∷ ts) h = elim (Bool-cases (t.id == d)) [
    | inl e ↦ rw e refl
    | inr e ↦ rw e (open_task d ts (rw e at h))
  ]

  -- What an argument counts for.
  source_missing :
      (earlier : List Uuid) (v : Option F) (dep : Option Uuid)
      → IsSource earlier v dep
      → dep_count dep ≡ missing v
  source_missing earlier (some v) none h = refl
  source_missing earlier none (some d) h = refl
  source_missing earlier (some v) (some d) h = absurd h
  source_missing earlier none none h = absurd h

  within_two : (v w : Option F) → min (missing v + missing w) 2 ≡ missing v + missing w
  within_two none none = refl
  within_two none (some w) = refl
  within_two (some v) none = refl
  within_two (some v) (some w) = refl

  -- The order with one more task behind those that it waits for.
  abbrev pub extended : Order → Task F → Order
  extended order t = record {
    rank = λ d.
        if t.id == d
        then suc (rank_of order t.arg1_task_id + rank_of order t.arg2_task_id)
        else order.rank d;
    is_known = λ d. order.is_known d || (t.id == d);
  }

  abbrev pub opened : (Uuid → Bool) → Task F → Uuid → Bool
  opened open_ t d = open_ d || (t.id == d)

  module _ (order : Order) (open_ : Uuid → Bool) (t : Task F)
      (new_id : order.is_known t.id ≡ false) where
    apart : (d : Uuid) → order.is_known d ≡ true → (t.id == d) ≡ false
    apart d h = elim (Bool-cases (t.id == d)) [
      | inl e ↦ let same = ap order.is_known ((==_iff t.id d).0 e) in absurd cc
      | inr e ↦ e
    ]

    IsEarlier-old :
        (id : Uuid) (dep : Option Uuid)
        → order.is_known id ≡ true
        → IsEarlier order id dep
        → IsEarlier (extended order t) id dep
    IsEarlier-old id none known h = tt
    IsEarlier-old id (some d) known h = (rw (apart id known, apart d h.1) h.0, rw (h.1) refl)

    IsAwaited-old :
        (id : Uuid) (v : Option F) (dep : Option Uuid)
        → IsEarlier order id dep
        → IsAwaited open_ v dep
        → IsAwaited (opened open_ t) v dep
    IsAwaited-old id (some v) none h a = a
    IsAwaited-old id none none h a = a
    IsAwaited-old id (some v) (some d) h a = rw (apart d h.1, a) refl
    IsAwaited-old id none (some d) h a = rw (apart d h.1, a) refl

    -- A row in the table is as awake as it was.
    pub old-IsAwake :
        (Wakes : TaskRow F → Type 0) (outbox : List (OutboxRow F)) (row : TaskRow F)
        → order.is_known row.id ≡ true
        → IsAwake order open_ open_ Wakes outbox row
        → IsAwake (extended order t) (opened open_ t) (opened open_ t) Wakes outbox row
    old-IsAwake Wakes outbox row known =
        keeps_awake order (extended order t) open_ open_ (opened open_ t) (opened open_ t) Wakes
          Wakes outbox outbox row.status row row (λ m. m)
          (λ p w. record {
            first = IsAwaited-old row.id row.arg1_value row.arg1_task_id w.earlier1 w.first;
            second = IsAwaited-old row.id row.arg2_value row.arg2_task_id w.earlier2 w.second;
            earlier1 = IsEarlier-old row.id row.arg1_task_id known w.earlier1;
            earlier2 = IsEarlier-old row.id row.arg2_task_id known w.earlier2;
            counted = w.counted;
            wakes = w.wakes;
          })

    module _ (earlier : List Uuid)
        (pending : (d : Uuid) → Elem d earlier → (open_ d ≡ true) × (order.is_known d ≡ true)) where
      IsAwaited-new :
          (v : Option F) (dep : Option Uuid)
          → IsSource earlier v dep
          → IsAwaited (opened open_ t) v dep
      IsAwaited-new (some v) none h = tt
      IsAwaited-new none (some d) h = rw ((pending d h).0) refl
      IsAwaited-new (some v) (some d) h = absurd h
      IsAwaited-new none none h = absurd h

      IsEarlier-new :
          (v : Option F) (dep : Option Uuid)
          → rank_of order dep < suc (rank_of order t.arg1_task_id + rank_of order t.arg2_task_id)
          → IsSource earlier v dep
          → IsEarlier (extended order t) t.id dep
      IsEarlier-new (some v) none lower h = tt
      IsEarlier-new none (some d) lower h =
          let known = (pending d h).1 in
          let same : (t.id == t.id) ≡ true = (==_iff t.id t.id).1 refl in
          (rw (apart d known, same) lower, rw known refl)
      IsEarlier-new (some v) (some d) lower h = absurd h
      IsEarlier-new none none lower h = absurd h

      -- The row of a planned task waits.
      pub new-IsWaiting :
          (Wakes : TaskRow F → Type 0)
          → IsPlanned earlier t
          → (missing_args (task_row t) ≡ 0 → is_ready t ≡ true → Wakes (task_row t))
          → (0 < missing_args (task_row t) → Wakes (task_row t))
          → IsWaiting (extended order t) (opened open_ t) (opened open_ t) Wakes (task_row t)
      new-IsWaiting Wakes p free misses =
          let first = source_missing earlier t.arg1_value t.arg1_task_id p.first in
          let second = source_missing earlier t.arg2_value t.arg2_task_id p.second in
          let unmet : t.unmet_deps ≡ missing_args (task_row t) =
            omega (arith, p.counted, first, second) in
          record {
            first = IsAwaited-new t.arg1_value t.arg1_task_id p.first;
            second = IsAwaited-new t.arg2_value t.arg2_task_id p.second;
            earlier1 = IsEarlier-new t.arg1_value t.arg1_task_id (omega arith) p.first;
            earlier2 = IsEarlier-new t.arg2_value t.arg2_task_id (omega arith) p.second;
            counted = ap (λ m. pos (min m 2)) unmet ∙ ap pos (within_two t.arg1_value t.arg2_value);
            wakes = go (missing_args (task_row t)) refl unmet;
          }
        where
          go :
              (m : ℕ)
              → missing_args (task_row t) ≡ m
              → t.unmet_deps ≡ missing_args (task_row t)
              → Wakes (task_row t)
          go zero e unmet = free e (rw (unmet ∙ e) refl)
          go (suc m) e unmet = misses (omega (arith, e))
