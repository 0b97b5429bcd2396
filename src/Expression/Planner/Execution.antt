-- ===== src/Expression/Planner/Execution.antt =====
-- Executing the planned tasks in their order gives the value of the tree, or its first error.
use golang_service_architect.Common.{
  ℕ, ◌+◌, ◌≤◌, ◌<◌, ◌≡◌, ◌≢◌, refl, ◌∙◌, ◌⊎◌, inl, inr, false, none, some, List, [], ◌∷◌, ◌++◌,
  append_assoc, All, All-append, Result, ok, err, ◌>>=◌, Result-cases, >>=-eq-ok, arith,
}
use golang_service_architect.Apperrors.{Error}
use golang_service_architect.Float64.{Float64}
use golang_service_architect.Worker.{apply}
use golang_service_architect.Expression.Ast.{Op, Node, leaf, bin, op_nodes}
use golang_service_architect.Expression.Evaluation.{
  Memo, get, present, eval, resolve, run_task, run, root_value, outcome,
}
use golang_service_architect.Expression.Task.{Task, Uuid}
use golang_service_architect.Expression.Planner.{
  max_tasks_per_expr, arg_value, arg_task_id, mark_root, plan,
}
use golang_service_architect.Expression.Planner.Layout.{
  arg_of, tasks_of, not_root-tasks_of, plan-limits,
}

module _ (fl : Float64) where
  open fl use {F}

  run-append :
      (ts us : List (Task F)) (m : Memo F) → run fl (ts ++ us) m ≡ (run fl ts m >>= run fl us)
  unfolding run
  run-append [] us m = refl
  run-append (t ∷ ts) us m = elim (Result-cases (run_task fl t m)) [
    | inl (m', e) ↦ simp e (run-append ts us m')
    | inr (x, e) ↦ simp e
  ]

  run-mark_root : (ts : List (Task F)) (m : Memo F) → run fl (mark_root ts) m ≡ run fl ts m
  unfolding run mark_root
  run-mark_root [] m = refl
  run-mark_root (t ∷ []) m = refl
  run-mark_root (t ∷ u ∷ ts) m = elim (Result-cases (run_task fl t m)) [
    | inl (m', e) ↦ simp e (run-mark_root (u ∷ ts) m')
    | inr (x, e) ↦ simp e
  ]

bind-return :
    {A B : Type 0} (m : Result Error A) (f : A → B)
    → (m >>= (λ a. ok (f a)) >>= ok) ≡ (m >>= λ a. ok (f a))
bind-return (ok a) f = refl
bind-return (err e) f = refl

module _ (fl : Float64) (new_uuid : ℕ → Uuid) (fresh : (i j : ℕ) → new_uuid i ≡ new_uuid j → i ≡ j)
    (expr_id : Uuid) where
  open fl use {F}

  -- `m'` agrees with `m` on the ids that are not counted from `k` to `k'`.
  abbrev Keeps : ℕ → ℕ → Memo F → Memo F → Type 0
  Keeps k k' m m' = (j : ℕ) → (j < k) ⊎ (k' ≤ j) → get (new_uuid j) m' ≡ get (new_uuid j) m

  -- What a run of the tasks of a tree leaves, where the tree has a value.
  abbrev Yields : ℕ → Node F → F → Memo F → Type 0
  Yields k n v m =
      (m' : Memo F) × (run fl (tasks_of new_uuid expr_id k n) m ≡ ok m')
      × (resolve fl (arg_value (arg_of new_uuid expr_id k n))
            (arg_task_id (arg_of new_uuid expr_id k n)) m'
          ≡ ok v)
      × Keeps k (k + op_nodes n) m m'

  get_other :
      (i j : ℕ) (v : F) (m : Memo F)
      → i ≢ j
      → get (new_uuid i) ((new_uuid j, v) ∷ m) ≡ get (new_uuid i) m
  unfolding get
  get_other i j v m n = ground (arith, fresh i j)

  get_self : (i : Uuid) (v : F) (m : Memo F) → get i ((i, v) ∷ m) ≡ some v
  unfolding get
  get_self i v m = ground arith

  resolve_self : (i : Uuid) (v : F) (m : Memo F) → resolve fl none (some i) ((i, v) ∷ m) ≡ ok v
  unfolding resolve
  resolve_self i v m = rw (get_self i v m)

  run-left-err :
      (o : Op) (l r : Node F) (k : ℕ) (m : Memo F) (x : Error)
      → run fl (tasks_of new_uuid expr_id (k + 1) l) m ≡ err x
      → run fl (tasks_of new_uuid expr_id k (bin o l r)) m ≡ err x
  unfolding tasks_of
  run-left-err o l r k m x h = rw (run-append, h)

  run-right-err :
      (o : Op) (l r : Node F) (k : ℕ) (m m₁ : Memo F) (x : Error)
      → run fl (tasks_of new_uuid expr_id (k + 1) l) m ≡ ok m₁
      → run fl (tasks_of new_uuid expr_id (k + 1 + op_nodes l) r) m₁ ≡ err x
      → run fl (tasks_of new_uuid expr_id k (bin o l r)) m ≡ err x
  unfolding tasks_of
  run-right-err o l r k m m₁ x h₁ h = rw (run-append, h₁) (rw (run-append, h))

  -- An argument keeps its value while the tasks of the right operand run.
  resolve-Keeps :
      (n : Node F) (k k' : ℕ) (m m' : Memo F)
      → Keeps (k + op_nodes n) k' m m'
      → resolve fl
          (arg_value (arg_of new_uuid expr_id k n))
          (arg_task_id (arg_of new_uuid expr_id k n))
          m'
        ≡ resolve fl
            (arg_value (arg_of new_uuid expr_id k n))
            (arg_task_id (arg_of new_uuid expr_id k n))
            m
  unfolding resolve op_nodes
  resolve-Keeps (leaf v) k k' m m' h = refl
  resolve-Keeps (bin o l r) k k' m m' h = rw (h k (inl (omega arith)))

  -- The task of an operator behind the tasks of its operands.
  run-operator :
      (o : Op) (l r : Node F) (k : ℕ) (m m₁ m₂ : Memo F) (a b : F)
      → run fl (tasks_of new_uuid expr_id (k + 1) l) m ≡ ok m₁
      → run fl (tasks_of new_uuid expr_id (k + 1 + op_nodes l) r) m₁ ≡ ok m₂
      → resolve fl
          (arg_value (arg_of new_uuid expr_id (k + 1) l))
          (arg_task_id (arg_of new_uuid expr_id (k + 1) l))
          m₂
        ≡ ok a
      → resolve fl
          (arg_value (arg_of new_uuid expr_id (k + 1 + op_nodes l) r))
          (arg_task_id (arg_of new_uuid expr_id (k + 1 + op_nodes l) r))
          m₂
        ≡ ok b
      → run fl (tasks_of new_uuid expr_id k (bin o l r)) m
        ≡ (apply fl o a b >>= λ v. ok ((new_uuid k, v) ∷ m₂))
  unfolding tasks_of
  run-operator o l r k m m₁ m₂ a b h₁ h₂ ha hb =
      rw (run-append, h₁)
        (rw (run-append, h₂)
          (unfold run in rw (ha, hb) (bind-return (apply fl o a b) (λ v. (new_uuid k, v) ∷ m₂))))

  run-ok : (n : Node F) (k : ℕ) (m : Memo F) (v : F) → eval fl n ≡ ok v → Yields k n v m
  unfolding eval op_nodes
  run-ok (leaf w) k m v e = (m, unfold run tasks_of in refl, unfold resolve in e, λ j h. refl)
  run-ok (bin o l r) k m v e =
      let (a, el, rest) = >>=-eq-ok (eval fl l) _ e in
      let (b, er, applied) = >>=-eq-ok (eval fl r) _ rest in
      let (m₁, run₁, arg₁, keep₁) = run-ok l (k + 1) m a el in
      let (m₂, run₂, arg₂, keep₂) = run-ok r (k + 1 + op_nodes l) m₁ b er in
      let arg₁' = resolve-Keeps l (k + 1) _ m₁ m₂ keep₂ ∙ arg₁ in
      (
        (new_uuid k, v) ∷ m₂,
        run-operator o l r k m m₁ m₂ a b run₁ run₂ arg₁' arg₂ ∙ rw applied,
        resolve_self (new_uuid k) v m₂,
        λ j h. get_other j k v m₂ (omega arith) ∙ keep₂ j (omega arith) ∙ keep₁ j (omega arith),
      )

  run-err :
      (n : Node F) (k : ℕ) (m : Memo F) (x : Error)
      → eval fl n ≡ err x
      → run fl (tasks_of new_uuid expr_id k n) m ≡ err x
  unfolding eval
  run-err (leaf w) k m x e = absurd (cc)
  run-err (bin o l r) k m x e = elim (Result-cases (eval fl l)) [
    | inr (y, el) ↦
        let e' : ◌≡◌ {A = Result Error F} (err y) (err x) = rw el at e in
        run-left-err o l r k m x (run-err l (k + 1) m x (el ∙ e'))
    | inl (a, el) ↦
        let (m₁, run₁, arg₁, keep₁) = run-ok l (k + 1) m a el in
        elim (Result-cases (eval fl r)) [
          | inr (y, er) ↦
              let e' : ◌≡◌ {A = Result Error F} (err y) (err x) = rw (el, er) at e in
              run-right-err o l r k m m₁ x run₁ (run-err r (k + 1 + op_nodes l) m₁ x (er ∙ e'))
          | inl (b, er) ↦
              let (m₂, run₂, arg₂, keep₂) = run-ok r (k + 1 + op_nodes l) m₁ b er in
              let arg₁' = resolve-Keeps l (k + 1) _ m₁ m₂ keep₂ ∙ arg₁ in
              let e' : apply fl o a b ≡ err x = rw (el, er) at e in
              run-operator o l r k m m₁ m₂ a b run₁ run₂ arg₁' arg₂ ∙ rw e'
        ]
  ]

  root_value-mark_root :
      (ts : List (Task F)) (t : Task F) (m : Memo F)
      → All (λ (u : Task F). u.is_root ≡ false) ts
      → root_value fl (mark_root (ts ++ t ∷ [])) m ≡ present (get t.id m)
  unfolding root_value mark_root
  root_value-mark_root [] t m h = refl
  root_value-mark_root (u ∷ []) t m h = rw h.0
  root_value-mark_root (u ∷ v ∷ ts) t m h = rw h.0 (root_value-mark_root (v ∷ ts) t m h.1)

  root_value-tasks_of :
      (o : Op) (l r : Node F) (k : ℕ) (m : Memo F)
      → root_value fl (mark_root (tasks_of new_uuid expr_id k (bin o l r))) m
        ≡ present (get (new_uuid k) m)
  unfolding tasks_of
  root_value-tasks_of o l r k m =
      let left = tasks_of new_uuid expr_id (k + 1) l in
      let right = tasks_of new_uuid expr_id (k + 1 + op_nodes l) r in
      rw (← append_assoc) (
        root_value-mark_root (left ++ right) _ m (
          All-append _ left right (not_root-tasks_of new_uuid expr_id l (k + 1))
            (not_root-tasks_of new_uuid expr_id r (k + 1 + op_nodes l))))

  run-outcome :
      (o : Op) (l r : Node F) (k : ℕ)
      → outcome fl (mark_root (tasks_of new_uuid expr_id k (bin o l r)), none) ≡ eval fl (bin o l r)
  unfolding outcome
  run-outcome o l r k = elim (Result-cases (eval fl (bin o l r))) [
    | inl (v, e) ↦
        let (m, ran, value_lem, keep) = run-ok (bin o l r) k [] v e in
        rw (run-mark_root, ran, e) (root_value-tasks_of o l r k m ∙ value_lem)
    | inr (x, e) ↦ rw (run-mark_root, run-err (bin o l r) k [] x e, e)
  ]

  -- Where ids are fresh, the tasks of an expression within the limit, executed in their order with the results handed
  -- on by task id, compute in the root task what the tree evaluates to, errors included.
  pub plan-outcome :
      (k : ℕ) (n : Node F)
      → op_nodes n ≤ max_tasks_per_expr
      → (plan new_uuid expr_id k n >>= outcome fl) ≡ eval fl n
  plan-outcome k (leaf v) h =
      rw ((plan-limits new_uuid expr_id k (leaf v)).0 h) (unfold outcome eval in refl)
  plan-outcome k (bin o l r) h =
      rw ((plan-limits new_uuid expr_id k (bin o l r)).0 h) (run-outcome o l r k)
