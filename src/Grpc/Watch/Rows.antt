-- ===== src/Grpc/Watch/Rows.antt =====
-- repo.go: what the two reads of a watch give as the database goes on.
use golang_service_architect.Common.{
  ◌≤◌, ◌≡◌, refl, ap, ◌∙◌, subst, Bool, true, false, ◌&&◌, List, [], ◌∷◌, length, Result, ok, ◌==◌,
  Bool-cases, inl, inr, arith,
}
use golang_service_architect.Apperrors.{Error}
use golang_service_architect.Expression.Task.{Uuid, TaskStatus}
use golang_service_architect.Persistent.Tables.{ExpressionRow, TaskRow, Db, select, is_open}
use golang_service_architect.Persistent.Reads.{
  is_done, first_expression, get_expression, get_progress,
}
use golang_service_architect.Persistent.Evolution.{Extends, TaskEvolves, ExpressionEvolves, Evolves}

both-true : (a b : Bool) → (a && b) ≡ true → b ≡ true
both-true true b h = h
both-true false b h = cc

done-closed : (s : TaskStatus) → is_done s ≡ true → is_open s ≡ false
done-closed s h = ground arith

module _ {F : Type 0} where
  counts : Uuid → TaskRow F → Bool
  counts id t = t.expression_id == id && is_done t.status

  count-evolves :
      (id : Uuid) (ts us : List (TaskRow F))
      → Extends TaskEvolves ts us
      → length (select (counts id) ts) ≤ length (select (counts id) us)
  unfolding select counts
  count-evolves id [] us h = omega arith
  count-evolves id (t ∷ ts) [] h = absurd h
  count-evolves id (t ∷ ts) (u ∷ us) (here, there) =
      let rest = count-evolves id ts us there in
      elim (Bool-cases (counts id t)) [
        | inl chosen ↦
            let same : u ≡ t = here.frozen (
              done-closed t.status (both-true (t.expression_id == id) (is_done t.status) chosen)) in
            let too : counts id u ≡ true = ap (counts id) same ∙ chosen in
            rw (chosen, too) (omega (arith, rest))
        | inr left ↦ elim (Bool-cases (counts id u)) [
          | inl new ↦ rw (left, new) (omega (arith, rest))
          | inr old ↦ rw (left, old) rest
        ]
      ]

  same_row :
      {r e : ExpressionRow F} → ◌≡◌ {A = Result Error (ExpressionRow F)} (ok r) (ok e) → r ≡ e
  same_row h = cc

  first-evolves :
      (id : Uuid) (es fs : List (ExpressionRow F)) (e : ExpressionRow F)
      → Extends ExpressionEvolves es fs
      → first_expression (select (λ r. r.id == id) es) ≡ ok e
      → (f : ExpressionRow F) × (first_expression (select (λ r. r.id == id) fs) ≡ ok f)
        × ExpressionEvolves e f
  unfolding select
  first-evolves id [] fs e h found = absurd cc
  first-evolves id (r ∷ es) [] e h found = absurd h
  first-evolves id (r ∷ es) (s ∷ fs) e (here, there) found = elim (Bool-cases (r.id == id)) [
    | inl at ↦
        let too : (s.id == id) ≡ true = ap (λ i. i == id) here.id ∙ at in
        let e_is : ok r ≡ ok e = rw (at) at found in
        rw (too) (s, refl, subst (λ x. ExpressionEvolves x s) (same_row e_is) here)
    | inr past ↦
        let too : (s.id == id) ≡ false = ap (λ i. i == id) here.id ∙ past in
        rw (too) (first-evolves id es fs e there (rw (past) at found))
  ]

  -- An expression that a database has stays in it, and does not change once it is settled; and the
  -- tasks of it that are done do not get fewer.
  pub get_expression-Evolves :
      (id : Uuid) (a b : Db F) (e : ExpressionRow F)
      → Evolves a b
      → get_expression id a ≡ ok e
      → (f : ExpressionRow F) × (get_expression id b ≡ ok f) × ExpressionEvolves e f
  unfolding get_expression
  get_expression-Evolves id a b e ev found =
      first-evolves id a.expressions b.expressions e ev.expressions found

  pub progress-Evolves :
      (id : Uuid) (a b : Db F) → Evolves a b → (get_progress id a).done ≤ (get_progress id b).done
  unfolding get_progress counts
  progress-Evolves id a b ev = count-evolves id a.tasks b.tasks ev.tasks
