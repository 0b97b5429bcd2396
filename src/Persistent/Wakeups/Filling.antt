-- ===== src/Persistent/Wakeups/Filling.antt =====
-- repo.go: a result that is filled in leaves no waiting row behind.
use golang_service_architect.Common.{
  suc, ◌+◌, ◌≡◌, refl, sym, ap, ◌∙◌, Bool, true, false, Option, none, some, List, ◌++◌,
  if◌then◌else◌, ◌==◌, ==_iff, inl, inr, All, arith,
}
use golang_service_architect.Common.Int.{pos, pred_ℤ}
use golang_service_architect.Expression.Task.{Uuid}
use golang_service_architect.Persistent.Tables.{
  TaskRow, OutboxRow, update, updated, names, is_pending, takes_arg1, fill_arg1, takes_arg2,
  fill_arg2,
}
use golang_service_architect.Persistent.Values.Rows.{and_left}
use golang_service_architect.Persistent.Wakeups.{
  Order, missing, missing_args, IsAwaited, IsWaiting, IsAwake, MissesOne, MissesOrListed,
}
use golang_service_architect.Persistent.Wakeups.Changes.{
  update-listed, not_named, keeps_awake, has_free-left, has_free-right, IsFound, All-IsFound,
  misses_or_listed,
}

module _ {F : Type 0} (x : Uuid) (r : F) (before after : Uuid → Bool)
    (changes : (d : Uuid) → after d ≡ (if x == d then false else before d)) where
  apart : (d : Uuid) → (d == x) ≡ false → (x == d) ≡ false
  apart d h = ground (arith, h)

  IsAwaited-other :
      (v : Option F) (dep : Option Uuid)
      → names dep x ≡ false
      → IsAwaited before v dep
      → IsAwaited after v dep
  IsAwaited-other (some v) none h a = tt
  IsAwaited-other none none h a = a
  IsAwaited-other (some v) (some d) h a = changes d ∙ rw (apart d h) a
  IsAwaited-other none (some d) h a = changes d ∙ rw (apart d h) a

  IsAwaited-taken :
      (v : Option F) (dep : Option Uuid)
      → names dep x ≡ true
      → before x ≡ true
      → IsAwaited before v dep
      → (v ≡ none) × IsAwaited after (some r) dep
  IsAwaited-taken v none h open_ a = absurd cc
  IsAwaited-taken (some v) (some d) h open_ a = let same = ap before ((==_iff d x).0 h) in absurd cc
  IsAwaited-taken none (some d) h open_ a = (
    refl,
    changes d
        ∙ let same : (x == d) ≡ true = (==_iff x d).1 (sym ((==_iff d x).0 h)) in rw same refl,
  )

  module _ (order : Order) (was_open : before x ≡ true) where
    first_taken :
        (deps : List (TaskRow F)) (t : TaskRow F)
        → names t.arg1_task_id x ≡ true
        → IsFound deps (fill_arg1 r t)
        → IsWaiting order before before MissesOne t
        → IsWaiting order after before (MissesOrListed deps) (fill_arg1 r t)
    first_taken deps t h found w =
        let (unset, filled) = IsAwaited-taken t.arg1_value t.arg1_task_id h was_open w.first in
        let fewer : missing_args t ≡ suc (missing_args (fill_arg1 r t)) =
          ap (λ a. missing a + missing t.arg2_value) unset ∙ omega arith in
        let counted = ap pred_ℤ (w.counted ∙ ap pos fewer) in
        record {
          first = filled;
          second = w.second;
          earlier1 = w.earlier1;
          earlier2 = w.earlier2;
          counted = counted;
          wakes = misses_or_listed deps (fill_arg1 r t) counted found;
        }

    first_other :
        (deps : List (TaskRow F)) (t : TaskRow F)
        → names t.arg1_task_id x ≡ false
        → IsWaiting order before before MissesOne t
        → IsWaiting order after before (MissesOrListed deps) t
    first_other deps t h w = record {
      first = IsAwaited-other t.arg1_value t.arg1_task_id h w.first;
      second = w.second;
      earlier1 = w.earlier1;
      earlier2 = w.earlier2;
      counted = w.counted;
      wakes = inl w.wakes;
    }

    second_taken :
        (dep1 dep2 : List (TaskRow F)) (t : TaskRow F)
        → names t.arg2_task_id x ≡ true
        → IsFound dep2 (fill_arg2 r t)
        → IsWaiting order after before (MissesOrListed dep1) t
        → IsWaiting order after after (MissesOrListed (dep1 ++ dep2)) (fill_arg2 r t)
    second_taken dep1 dep2 t h found w =
        let (unset, filled) = IsAwaited-taken t.arg2_value t.arg2_task_id h was_open w.second in
        let fewer : missing_args t ≡ suc (missing_args (fill_arg2 r t)) =
          ap (λ a. missing t.arg1_value + missing a) unset ∙ omega arith in
        let counted = ap pred_ℤ (w.counted ∙ ap pos fewer) in
        record {
          first = w.first;
          second = filled;
          earlier1 = w.earlier1;
          earlier2 = w.earlier2;
          counted = counted;
          wakes =
              misses_or_listed (dep1 ++ dep2) (fill_arg2 r t) counted
                (λ e. has_free-right t.id dep1 dep2 (found e));
        }

    second_other :
        (dep1 dep2 : List (TaskRow F)) (t : TaskRow F)
        → names t.arg2_task_id x ≡ false
        → IsWaiting order after before (MissesOrListed dep1) t
        → IsWaiting order after after (MissesOrListed (dep1 ++ dep2)) t
    second_other dep1 dep2 t h w = record {
      first = w.first;
      second = IsAwaited-other t.arg2_value t.arg2_task_id h w.second;
      earlier1 = w.earlier1;
      earlier2 = w.earlier2;
      counted = w.counted;
      wakes = elim w.wakes [ inl m ↦ inl m | inr l ↦ inr (has_free-left t.id dep1 dep2 l) ];
    }

    -- Once a result is filled in, a row that waits misses an argument or is among those returned.
    pub filled-IsAwake :
        (outbox : List (OutboxRow F)) (ts : List (TaskRow F))
        → All (IsAwake order before before MissesOne outbox) ts
        → let us = update (takes_arg1 x) (fill_arg1 r) ts in
          All
            (IsAwake order after after
              (MissesOrListed (
                updated (takes_arg1 x) (fill_arg1 r) ts ++ updated (takes_arg2 x) (fill_arg2 r) us))
              outbox)
            (update (takes_arg2 x) (fill_arg2 r) us)
    filled-IsAwake outbox ts h =
        let us = update (takes_arg1 x) (fill_arg1 r) ts in
        let dep1 = updated (takes_arg1 x) (fill_arg1 r) ts in
        let dep2 = updated (takes_arg2 x) (fill_arg2 r) us in
        let mid =
          update-listed (IsFound dep1) (IsAwake order before before MissesOne outbox)
            (IsAwake order after before (MissesOrListed dep1) outbox) (takes_arg1 x) (fill_arg1 r)
            (λ t e found.
              keeps_awake order order before before after before _ _ outbox outbox t.status t
                (fill_arg1 r t) (λ m. m)
                (λ p.
                  first_taken dep1 t (and_left (names t.arg1_task_id x) (is_pending t.status) e)
                    found))
            (λ t e.
              keeps_awake order order before before after before _ _ outbox outbox t.status t t
                (λ m. m)
                (λ p.
                  first_other dep1 t
                    (not_named (names t.arg1_task_id x) (is_pending t.status) e p)))
            ts (All-IsFound dep1) h in
        update-listed (IsFound dep2) (IsAwake order after before (MissesOrListed dep1) outbox)
          (IsAwake order after after (MissesOrListed (dep1 ++ dep2)) outbox) (takes_arg2 x)
          (fill_arg2 r)
          (λ t e found.
            keeps_awake order order after before after after _ _ outbox outbox t.status t
              (fill_arg2 r t) (λ m. m)
              (λ p.
                second_taken dep1 dep2 t (and_left (names t.arg2_task_id x) (is_pending t.status) e)
                  found))
          (λ t e.
            keeps_awake order order after before after after _ _ outbox outbox t.status t t (λ m. m)
              (λ p.
                second_other dep1 dep2 t
                  (not_named (names t.arg2_task_id x) (is_pending t.status) e p)))
          us (All-IsFound dep2) mid
