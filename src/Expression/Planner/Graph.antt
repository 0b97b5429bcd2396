-- ===== src/Expression/Planner/Graph.antt =====
-- What a plan is: an acyclic graph listed dependencies first, with one root and a bounded size.
use golang_service_architect.Common.{
  ℕ, suc, ◌+◌, ◌≤◌, ◌<◌, ◌≡◌, refl, ap, ◌∙◌, ◌⊎◌, inl, inr, true, false, Bool-cases, leb, leb→le,
  none, List, [], ◌∷◌, ◌++◌, append_assoc, All, All-append, length, ok, err, arith,
}
use golang_service_architect.Expression.Ast.{Op, Node, bin, op_nodes}
use golang_service_architect.Expression.Task.{Task, Uuid}
use golang_service_architect.Expression.Planner.{
  max_tasks_per_expr, new_task, mark_root, too_many, plan,
}
use golang_service_architect.Expression.Planner.Layout.{
  arg_of, tasks_of, length-tasks_of, not_root-tasks_of, mark_root-append, plan-limits,
}
use golang_service_architect.Expression.Planner.Order.{
  IsOrdered, IsOrdered-mark_root, tasks_of-IsOrdered,
}

-- The last task is the root, and no other one is.
abbrev pub HasLastRoot : {F : Type 0} → List (Task F) → Type 0
HasLastRoot [] = ⊥
HasLastRoot (t ∷ []) = t.is_root ≡ true
HasLastRoot (t ∷ ts) = (t.is_root ≡ false) × HasLastRoot ts

module _ {F : Type 0} where
  append-HasLastRoot :
      (ts : List (Task F)) (t : Task F)
      → All (λ (u : Task F). u.is_root ≡ false) ts
      → HasLastRoot (ts ++ record t { is_root = true } ∷ [])
  append-HasLastRoot [] t h = refl
  append-HasLastRoot (u ∷ []) t h = (h.0, refl)
  append-HasLastRoot (u ∷ v ∷ ts) t h = (h.0, append-HasLastRoot (v ∷ ts) t h.1)

  length-mark_root : (ts : List (Task F)) → length (mark_root ts) ≡ length ts
  unfolding mark_root
  length-mark_root [] = refl
  length-mark_root (t ∷ []) = refl
  length-mark_root (t ∷ u ∷ ts) = ap suc (length-mark_root (u ∷ ts))

-- What a plan of an expression with operators is.
pub record IsPlan {F : Type 0} (n : Node F) (ts : List (Task F)) : Type 0 where
  pub ordered : IsOrdered [] ts
  pub rooted : HasLastRoot ts
  pub sized : length ts ≡ op_nodes n
  pub within : length ts ≤ max_tasks_per_expr

module _ {F : Type 0} (new_uuid : ℕ → Uuid) (fresh : (i j : ℕ) → new_uuid i ≡ new_uuid j → i ≡ j)
    (expr_id : Uuid) where
  operator-HasLastRoot :
      (o : Op) (l r : Node F) (k : ℕ)
      → HasLastRoot (mark_root (tasks_of new_uuid expr_id k (bin o l r)))
  unfolding tasks_of
  operator-HasLastRoot o l r k =
      let left = tasks_of new_uuid expr_id (k + 1) l in
      let right = tasks_of new_uuid expr_id (k + 1 + op_nodes l) r in
      let t =
        new_task (new_uuid k) expr_id o (arg_of new_uuid expr_id (k + 1) l)
          (arg_of new_uuid expr_id (k + 1 + op_nodes l) r) in
      rw (← append_assoc, mark_root-append new_uuid expr_id)
        (append-HasLastRoot (left ++ right) t (
          All-append _ left right (not_root-tasks_of new_uuid expr_id l (k + 1))
            (not_root-tasks_of new_uuid expr_id r (k + 1 + op_nodes l))))

  operator-IsPlan :
      (o : Op) (l r : Node F) (k : ℕ)
      → op_nodes (bin o l r) ≤ max_tasks_per_expr
      → IsPlan (bin o l r) (mark_root (tasks_of new_uuid expr_id k (bin o l r)))
  operator-IsPlan o l r k h =
      let ts = tasks_of new_uuid expr_id k (bin o l r) in
      let size = length-mark_root ts ∙ length-tasks_of new_uuid expr_id k (bin o l r) in
      record {
        ordered =
            IsOrdered-mark_root [] ts
              (tasks_of-IsOrdered new_uuid fresh expr_id (bin o l r) k [] (λ j a b e. e)).0;
        rooted = operator-HasLastRoot o l r k;
        sized = size;
        within = omega (arith, size);
      }

  -- Where ids are fresh, an expression with operators either is planned as a graph in which each
  -- task is pending, has its own id, depends on earlier tasks alone and counts them, the last one
  -- being the only root, with one task for each operator and at most 256; or it is refused.
  pub plan-IsPlan :
      (k : ℕ) (o : Op) (l r : Node F)
      → ((ts : List (Task F)) × (plan new_uuid expr_id k (bin o l r) ≡ ok (ts, none))
          × IsPlan (bin o l r) ts)
        ⊎ ((plan new_uuid expr_id k (bin o l r) ≡ err too_many)
            × (max_tasks_per_expr < op_nodes (bin o l r)))
  plan-IsPlan k o l r = elim (Bool-cases (leb (op_nodes (bin o l r)) max_tasks_per_expr)) [
    | inl fits ↦
        let h = leb→le _ _ fits in
        inl (
          mark_root (tasks_of new_uuid expr_id k (bin o l r)),
          (plan-limits new_uuid expr_id k (bin o l r)).0 h,
          operator-IsPlan o l r k h,
        )
    | inr over ↦
        let h : max_tasks_per_expr < op_nodes (bin o l r) = ground arith in
        inr ((plan-limits new_uuid expr_id k (bin o l r)).1 h, h)
  ]
