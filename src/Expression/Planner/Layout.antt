-- ===== src/Expression/Planner/Layout.antt =====
-- The task list of a tree in closed form, and that the planner builds it.
use golang_service_architect.Common.{
  ℕ, ◌+◌, ◌≤◌, ◌<◌, ◌≡◌, refl, sym, ◌⊎◌, ◌∙◌, true, false, Option, none, some, List, [], ◌∷◌, ◌++◌,
  All, All-append, append-nil, append_assoc, length, length-append, ok, err, arith, Bool-cases, inl,
  inr, leb, leb→le,
}
use golang_service_architect.Expression.Ast.{Op, Node, leaf, bin, op_nodes}
use golang_service_architect.Expression.Task.{Task, Uuid}
use golang_service_architect.Expression.Planner.{
  max_tasks_per_expr, PlanState, Argument, value, result_of, new_task, argument, too_many,
  append_task, mark_root, build, plan,
}

-- The value of an expression that is one literal.
abbrev pub literal_of : {F : Type 0} → Node F → Option F
literal_of (leaf v) = some v
literal_of (bin o l r) = none

module _ {F : Type 0} (new_uuid : ℕ → Uuid) (expr_id : Uuid) where
  -- The argument that the tree `n` gives to its parent, its ids counted from `k`.
  abbrev pub arg_of : ℕ → Node F → Argument F
  arg_of k (leaf v) = value v
  arg_of k (bin o l r) = result_of (new_uuid k)

  -- A node takes an id before its children, and stands behind them in the list.
  unfoldable pub tasks_of : ℕ → Node F → List (Task F)
  unfolding op_nodes
  tasks_of k (leaf v) = []
  tasks_of k (bin o l r) =
      tasks_of (k + 1) l
      ++ (tasks_of (k + 1 + op_nodes l) r
          ++ new_task (new_uuid k) expr_id o (arg_of (k + 1) l) (arg_of (k + 1 + op_nodes l) r)
            ∷ [])

  pub length-tasks_of : (k : ℕ) (n : Node F) → length (tasks_of k n) ≡ op_nodes n
  unfolding tasks_of op_nodes
  length-tasks_of k (leaf v) = refl
  length-tasks_of k (bin o l r) =
      omega (
        arith,
        length-append {0},
        length-tasks_of (k + 1) l,
        length-tasks_of (k + 1 + op_nodes l) r,
      )

  pub not_root-tasks_of :
      (n : Node F) (k : ℕ) → All (λ (u : Task F). u.is_root ≡ false) (tasks_of k n)
  unfolding tasks_of
  not_root-tasks_of (leaf v) k = tt
  not_root-tasks_of (bin o l r) k =
      All-append _ (tasks_of (k + 1) l) _ (not_root-tasks_of l (k + 1)) (
        All-append _ (tasks_of (k + 1 + op_nodes l) r) _ (not_root-tasks_of r (k + 1 + op_nodes l))
          (refl, tt))

  abbrev state : ℕ → List (Task F) → PlanState F
  state next tasks = record { next = next; tasks = tasks }

  -- The state behind the tree.
  abbrev after : ℕ → List (Task F) → Node F → PlanState F
  after k ts n = state (k + op_nodes n) (ts ++ tasks_of k n)

  abbrev Plans : Node F → Type 0
  Plans n =
      (k : ℕ) (ts : List (Task F))
      → length ts + op_nodes n ≤ max_tasks_per_expr
      → argument n (build new_uuid expr_id n) (state k ts) ≡ ok (arg_of k n, after k ts n)

  abbrev Overflows : Node F → Type 0
  Overflows n =
      (k : ℕ) (ts : List (Task F))
      → length ts ≤ max_tasks_per_expr
      → max_tasks_per_expr < length ts + op_nodes n
      → argument n (build new_uuid expr_id n) (state k ts) ≡ err too_many

  append_task-ok :
      (t : Task F) (k : ℕ) (ts : List (Task F))
      → length ts < max_tasks_per_expr
      → append_task t (state k ts) ≡ ok (t, state k (ts ++ t ∷ []))
  unfolding append_task
  append_task-ok t k ts h = ground (arith, length-append ts (t ∷ []))

  append_task-err :
      (t : Task F) (k : ℕ) (ts : List (Task F))
      → max_tasks_per_expr ≤ length ts
      → append_task t (state k ts) ≡ err too_many
  unfolding append_task
  append_task-err t k ts h = ground (arith, length-append ts (t ∷ []))

  length-of-parts :
      (k : ℕ) (l r : Node F) (ts : List (Task F))
      → (length (ts ++ tasks_of (k + 1) l) ≡ length ts + op_nodes l)
        × (length ((ts ++ tasks_of (k + 1) l) ++ tasks_of (k + 1 + op_nodes l) r)
            ≡ length ts + op_nodes l + op_nodes r)
  length-of-parts k l r ts =
      let a = length-tasks_of (k + 1) l in
      let b = length-tasks_of (k + 1 + op_nodes l) r in
      let c = length-append ts (tasks_of (k + 1) l) in
      let d = length-append (ts ++ tasks_of (k + 1) l) (tasks_of (k + 1 + op_nodes l) r) in
      omega (arith, a, b, c, d)

  build-ok :
      (o : Op) (l r : Node F)
      → Plans l
      → Plans r
      → (k : ℕ) (ts : List (Task F)) → length ts + op_nodes (bin o l r) ≤ max_tasks_per_expr
      → build new_uuid expr_id (bin o l r) (state k ts)
        ≡ ok (
          new_task (new_uuid k) expr_id o (arg_of (k + 1) l) (arg_of (k + 1 + op_nodes l) r),
          after k ts (bin o l r),
        )
  unfolding build op_nodes tasks_of
  build-ok o l r pl pr k ts h =
      let left = tasks_of (k + 1) l in
      let right = tasks_of (k + 1 + op_nodes l) r in
      let t = new_task (new_uuid k) expr_id o (arg_of (k + 1) l) (arg_of (k + 1 + op_nodes l) r) in
      let sizes = length-of-parts k l r ts in
      let next : k + 1 + op_nodes l + op_nodes r ≡ k + (op_nodes l + op_nodes r + 1) =
        omega arith in
      let tasks : ((ts ++ left) ++ right) ++ t ∷ [] ≡ ts ++ (left ++ (right ++ t ∷ [])) =
        append_assoc (ts ++ left) right (t ∷ []) ∙ append_assoc ts left (right ++ t ∷ []) in
      rw (pl (k + 1) ts (omega arith), pr (k + 1 + op_nodes l) (ts ++ left) (omega (arith, sizes)))
        (append_task-ok t (k + 1 + op_nodes l + op_nodes r) ((ts ++ left) ++ right)
            (omega (arith, sizes))
          ∙ (λ i. ok (t, state (next i) (tasks i))))

  build-err :
      (o : Op) (l r : Node F)
      → Plans l
      → Overflows l
      → Plans r
      → Overflows r
      → (k : ℕ) (ts : List (Task F)) → length ts ≤ max_tasks_per_expr
      → max_tasks_per_expr < length ts + op_nodes (bin o l r)
      → build new_uuid expr_id (bin o l r) (state k ts) ≡ err too_many
  unfolding build op_nodes
  build-err o l r pl fl pr fr k ts h m =
      let left = tasks_of (k + 1) l in
      let right = tasks_of (k + 1 + op_nodes l) r in
      let t = new_task (new_uuid k) expr_id o (arg_of (k + 1) l) (arg_of (k + 1 + op_nodes l) r) in
      let sizes = length-of-parts k l r ts in
      elim (Bool-cases (leb (length ts + op_nodes l) max_tasks_per_expr)) [
        | inr over ↦ rw (fl (k + 1) ts h (ground arith))
        | inl fits ↦
            let first = pl (k + 1) ts (leb→le _ _ fits) in
            elim (Bool-cases (leb (length ts + op_nodes l + op_nodes r) max_tasks_per_expr)) [
              | inr over ↦ rw (
                first,
                fr (k + 1 + op_nodes l) (ts ++ left) (ground (arith, sizes))
                    (ground (arith, sizes)),
              )
              | inl fits' ↦
                  rw (first, pr (k + 1 + op_nodes l) (ts ++ left) (ground (arith, sizes)))
                    (append_task-err t (k + 1 + op_nodes l + op_nodes r) ((ts ++ left) ++ right)
                      (omega (arith, sizes)))
            ]
      ]

  Plans-node : (n : Node F) → Plans n
  unfolding argument op_nodes tasks_of
  Plans-node (leaf v) k ts h =
      let next : k ≡ k + 0 = omega arith in
      let tasks : ts ≡ ts ++ [] = sym (append-nil ts) in λ i. ok (value v, state (next i) (tasks i))
  Plans-node (bin o l r) k ts h = rw (build-ok o l r (Plans-node l) (Plans-node r) k ts h)

  Overflows-node : (n : Node F) → Overflows n
  unfolding argument op_nodes
  Overflows-node (leaf v) k ts h m = absurd (omega arith)
  Overflows-node (bin o l r) k ts h m =
      rw (
        build-err o l r (Plans-node l) (Overflows-node l) (Plans-node r) (Overflows-node r) k ts h
          m)

  pub mark_root-append :
      (ts : List (Task F)) (t : Task F)
      → mark_root (ts ++ t ∷ []) ≡ ts ++ record t { is_root = true } ∷ []
  unfolding mark_root
  mark_root-append [] t = refl
  mark_root-append (u ∷ []) t = refl
  mark_root-append (u ∷ v ∷ ts) t = rw (mark_root-append (v ∷ ts) t)

  -- The two outcomes of the planner, by the number of operators.
  pub plan-limits :
      (k : ℕ) (n : Node F)
      → (op_nodes n ≤ max_tasks_per_expr
          → plan new_uuid expr_id k n ≡ ok (mark_root (tasks_of k n), literal_of n))
        × (max_tasks_per_expr < op_nodes n → plan new_uuid expr_id k n ≡ err too_many)
  unfolding plan op_nodes tasks_of mark_root
  plan-limits k (leaf v) = (λ h. refl, λ h. absurd (omega arith))
  plan-limits k (bin o l r) = (
    λ h. rw (build-ok o l r (Plans-node l) (Plans-node r) k [] (omega arith)),
    λ h. rw (
        build-err o l r (Plans-node l) (Overflows-node l) (Plans-node r) (Overflows-node r) k []
          (omega arith) (omega arith)),
  )

  -- An expression with at most 256 operators is planned as its task list with the last task marked
  -- as the root, and one with more is refused; a literal has no task, and its value is given.
  pub plan-tasks_of :
      (k : ℕ) (n : Node F)
      → ((op_nodes n ≤ max_tasks_per_expr)
          × (plan new_uuid expr_id k n ≡ ok (mark_root (tasks_of k n), literal_of n)))
        ⊎ ((max_tasks_per_expr < op_nodes n) × (plan new_uuid expr_id k n ≡ err too_many))
  plan-tasks_of k n = elim (Bool-cases (leb (op_nodes n) max_tasks_per_expr)) [
    | inl h ↦
        let few = leb→le (op_nodes n) max_tasks_per_expr h in inl (few, (plan-limits k n).0 few)
    | inr h ↦
        let many : max_tasks_per_expr < op_nodes n = ground (arith, h) in
        inr (many, (plan-limits k n).1 many)
  ]
