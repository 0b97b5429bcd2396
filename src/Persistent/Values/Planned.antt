-- ===== src/Persistent/Values/Planned.antt =====
-- planner.go and repo.go: the values of a planned expression, and its evaluation by agents.
use golang_service_architect.Common.{
  ℕ, ◌+◌, ◌<◌, ◌≤◌, ◌≡◌, refl, sym, ap, ◌∙◌, Bool, true, false, List, [], ◌∷◌, ◌++◌, append_assoc,
  Result, ok, All, All-append, ◌==◌, ltb, subst, if◌then◌else◌, arith,
}
use golang_service_architect.Apperrors.{Error}
use golang_service_architect.Float64.{Float64}
use golang_service_architect.Expression.Ast.{Op, Node, leaf, bin, op_nodes}
use golang_service_architect.Expression.Task.{Task, Uuid}
use golang_service_architect.Expression.Evaluation.{eval}
use golang_service_architect.Expression.Planner.{arg_value, arg_task_id, new_task, mark_root}
use golang_service_architect.Expression.Planner.Layout.{arg_of, tasks_of, mark_root-append}
use golang_service_architect.Persistent.Enqueue.{task_row}
use golang_service_architect.Persistent.Values.{Meaning, IsValueOf, IsDependency, IsRootOf, IsRight}

module _ (fl : Float64) where
  open fl use {F}

  -- The value of the subtree that takes the id of number `j`, where the tree's ids count from `k`.
  unfoldable pub value_at : ℕ → Node F → ℕ → Result Error F
  value_at k (leaf v) j = ok v
  value_at k (bin o l r) j =
      let left = value_at (k + 1) l j in
      let right = value_at (k + 1 + op_nodes l) r j in
      if j == k then eval fl (bin o l r) else if ltb j (k + 1 + op_nodes l) then left else right

  -- A numbering gives every subtree's number the value of the subtree.
  abbrev pub Means : (ℕ → Result Error F) → ℕ → Node F → Type 0
  Means values k (leaf v) = Unit
  Means values k (bin o l r) =
      (values k ≡ eval fl (bin o l r))
      × Means values (k + 1) l
      × Means values (k + 1 + op_nodes l) r

  Means-same :
      (values others : ℕ → Result Error F) (n : Node F) (k : ℕ)
      → ((j : ℕ) → k ≤ j → j < k + op_nodes n → values j ≡ others j)
      → Means others k n
      → Means values k n
  unfolding op_nodes
  Means-same values others (leaf v) k same m = tt
  Means-same values others (bin o l r) k same (here, left, right) = (
    same k (omega arith) (omega arith) ∙ here,
    Means-same values others l (k + 1) (λ j a b. same j (omega (arith, a)) (omega (arith, b))) left,
    Means-same values others r (k + 1 + op_nodes l)
        (λ j a b. same j (omega (arith, a)) (omega (arith, b))) right,
  )

  pub value_at-Means : (n : Node F) (k : ℕ) → Means (value_at k n) k n
  unfolding value_at op_nodes
  value_at-Means (leaf v) k = tt
  value_at-Means (bin o l r) k =
      let here : (k == k) ≡ true = ground arith in
      (
        rw here refl,
        Means-same (value_at k (bin o l r)) (value_at (k + 1) l) l (k + 1)
            (λ j a b.
              let past : (j == k) ≡ false = ground (arith, a) in
              let inner : ltb j (k + 1 + op_nodes l) ≡ true = ground (arith, b) in
              rw (value_at, past, inner) refl)
            (value_at-Means l (k + 1)),
        Means-same (value_at k (bin o l r)) (value_at (k + 1 + op_nodes l) r) r (k + 1 + op_nodes l)
            (λ j a b.
              let past : (j == k) ≡ false = ground (arith, a) in
              let outer : ltb j (k + 1 + op_nodes l) ≡ false = ground (arith, a) in
              rw (value_at, past, outer) refl)
            (value_at-Means r (k + 1 + op_nodes l)),
      )

-- The meaning of one expression alone.
abbrev pub alone :
    {F : Type 0} → (Uuid → ℕ) → Uuid → (ℕ → Result Error F) → Result Error F → Meaning F
alone index expr_id values whole = record {
  task_value = λ id. values (index id);
  expression_of = λ id. expr_id;
  expression_value = λ id. whole;
}

module _ (fl : Float64) (new_uuid : ℕ → Uuid) (expr_id : Uuid) where
  open fl use {F}

  module _ (meaning : Meaning F) (values : ℕ → Result Error F) (whole : Result Error F)
      (valued : (j : ℕ) → meaning.task_value (new_uuid j) ≡ values j)
      (owned : (j : ℕ) → meaning.expression_of (new_uuid j) ≡ expr_id)
      (finally : meaning.expression_value expr_id ≡ whole) where
    argument-IsValueOf :
        (n : Node F) (k : ℕ) → IsValueOf (eval fl n) (arg_value (arg_of new_uuid expr_id k n))
    unfolding eval
    argument-IsValueOf (leaf v) k = refl
    argument-IsValueOf (bin o l r) k = tt

    argument-IsDependency :
        (task : ℕ) (n : Node F) (k : ℕ)
        → Means fl values k n
        → IsDependency fl meaning
            (new_uuid task)
            (eval fl n)
            (arg_task_id (arg_of new_uuid expr_id k n))
    argument-IsDependency task (leaf v) k m = tt
    argument-IsDependency task (bin o l r) k (here, left, right) =
        (sym here ∙ sym (valued k), owned task ∙ sym (owned k))

    new_task-IsRight :
        (o : Op) (l r : Node F) (k : ℕ) (root : Bool)
        → Means fl values k (bin o l r)
        → (root ≡ true → values k ≡ whole)
        → IsRight fl meaning (
            task_row
              (record (new_task
                (new_uuid k)
                expr_id
                o
                (arg_of new_uuid expr_id (k + 1) l)
                (arg_of new_uuid expr_id (k + 1 + op_nodes l) r)) { is_root = root }))
    unfolding eval
    new_task-IsRight o l r k root (here, left, right) rooted = record {
      left = eval fl l;
      right = eval fl r;
      value = valued k ∙ here;
      arg1 = argument-IsValueOf l (k + 1);
      dep1 = argument-IsDependency k l (k + 1) left;
      arg2 = argument-IsValueOf r (k + 1 + op_nodes l);
      dep2 = argument-IsDependency k r (k + 1 + op_nodes l) right;
      expression = sym (owned k);
      root = root_of root rooted;
      result = tt;
    }
      where
        root_of : (b : Bool) → (b ≡ true → values k ≡ whole) → IsRootOf fl meaning (new_uuid k) b
        root_of true h =
            valued k ∙ h refl ∙ sym finally ∙ ap meaning.expression_value (sym (owned k))
        root_of false h = tt

    abbrev pub AllRight : List (Task F) → Type 0
    AllRight = All (λ t. IsRight fl meaning (task_row t))

    tasks_of-IsRight :
        (n : Node F) (k : ℕ) → Means fl values k n → AllRight (tasks_of new_uuid expr_id k n)
    unfolding tasks_of
    tasks_of-IsRight (leaf v) k m = tt
    tasks_of-IsRight (bin o l r) k (here, left, right) =
        All-append _ (tasks_of new_uuid expr_id (k + 1) l) _ (tasks_of-IsRight l (k + 1) left) (
          All-append _ (tasks_of new_uuid expr_id (k + 1 + op_nodes l) r) _
            (tasks_of-IsRight r (k + 1 + op_nodes l) right)
            (new_task-IsRight o l r k false (here, left, right) (λ e. absurd cc), tt))

    pub mark_root-IsRight :
        (o : Op) (l r : Node F) (k : ℕ)
        → Means fl values k (bin o l r)
        → values k ≡ whole
        → AllRight (mark_root (tasks_of new_uuid expr_id k (bin o l r)))
    unfolding tasks_of
    mark_root-IsRight o l r k (here, left, right) rooted =
        let first = tasks_of new_uuid expr_id (k + 1) l in
        let second = tasks_of new_uuid expr_id (k + 1 + op_nodes l) r in
        let last =
          new_task (new_uuid k) expr_id o (arg_of new_uuid expr_id (k + 1) l)
            (arg_of new_uuid expr_id (k + 1 + op_nodes l) r) in
        subst AllRight
          (sym (
            ap mark_root (sym (append_assoc first second (last ∷ [])))
            ∙ mark_root-append new_uuid expr_id (first ++ second) last))
          (All-append _ (first ++ second) _
            (All-append _ first second (tasks_of-IsRight l (k + 1) left)
              (tasks_of-IsRight r (k + 1 + op_nodes l) right))
            (new_task-IsRight o l r k true (here, left, right) (λ e. rooted), tt))
