-- ===== src/Expression/Planner/Order.antt =====
-- The planned tasks are listed dependencies first, each with an id of its own.
use golang_service_architect.Common.{
  ℕ, ◌+◌, ◌≤◌, ◌<◌, ◌≡◌, refl, ◌⊎◌, inl, inr, Option, none, some, List, [], ◌∷◌, ◌++◌, arith,
}
use golang_service_architect.Expression.Ast.{Op, Node, leaf, bin, op_nodes}
use golang_service_architect.Expression.Task.{Task, TaskStatus, Uuid}
use golang_service_architect.Expression.Planner.{
  Argument, value, result_of, arg_value, arg_task_id, unmet, new_task, mark_root,
}
use golang_service_architect.Expression.Planner.Layout.{arg_of, tasks_of}

abbrev pub Elem : Uuid → List Uuid → Type 0
Elem a [] = ⊥
Elem a (x ∷ xs) = (a ≡ x) ⊎ Elem a xs

-- An argument is a literal and no dependency, or a dependency on an earlier task and no literal.
abbrev pub IsSource : {F : Type 0} → List Uuid → Option F → Option Uuid → Type 0
IsSource earlier (some v) none = Unit
IsSource earlier none (some id) = Elem id earlier
IsSource earlier _ _ = ⊥

abbrev pub dep_count : Option Uuid → ℕ
dep_count none = 0
dep_count (some id) = 1

-- A pending task behind the tasks with the ids `earlier`.
pub record IsPlanned {F : Type 0} (earlier : List Uuid) (t : Task F) : Type 0 where
  pub first : IsSource earlier t.arg1_value t.arg1_task_id
  pub second : IsSource earlier t.arg2_value t.arg2_task_id
  pub new_id : ¬ Elem t.id earlier
  pub counted : t.unmet_deps ≡ dep_count t.arg1_task_id + dep_count t.arg2_task_id
  pub waits : t.status ≡ TaskStatus.pending

abbrev pub IsOrdered : {F : Type 0} → List Uuid → List (Task F) → Type 0
IsOrdered earlier [] = Unit
IsOrdered earlier (t ∷ ts) = IsPlanned earlier t × IsOrdered (t.id ∷ earlier) ts

module _ {F : Type 0} where
  -- The ids seen once the tasks are passed.
  abbrev pub seen : List Uuid → List (Task F) → List Uuid
  seen earlier [] = earlier
  seen earlier (t ∷ ts) = seen (t.id ∷ earlier) ts

  Elem-seen :
      (a : Uuid) (earlier : List Uuid) (ts : List (Task F))
      → Elem a earlier
      → Elem a (seen earlier ts)
  Elem-seen a earlier [] h = h
  Elem-seen a earlier (t ∷ ts) h = Elem-seen a (t.id ∷ earlier) ts (inr h)

  seen-append :
      (earlier : List Uuid) (ts us : List (Task F))
      → seen earlier (ts ++ us) ≡ seen (seen earlier ts) us
  seen-append earlier [] us = refl
  seen-append earlier (t ∷ ts) us = seen-append (t.id ∷ earlier) ts us

  IsOrdered-append :
      (earlier : List Uuid) (ts us : List (Task F))
      → IsOrdered earlier ts
      → IsOrdered (seen earlier ts) us
      → IsOrdered earlier (ts ++ us)
  IsOrdered-append earlier [] us h k = k
  IsOrdered-append earlier (t ∷ ts) us h k = (h.0, IsOrdered-append (t.id ∷ earlier) ts us h.1 k)

  pub IsOrdered-mark_root :
      (earlier : List Uuid) (ts : List (Task F))
      → IsOrdered earlier ts
      → IsOrdered earlier (mark_root ts)
  unfolding mark_root
  IsOrdered-mark_root earlier [] h = tt
  IsOrdered-mark_root earlier (t ∷ []) h = (
    record {
      first = h.0.first;
      second = h.0.second;
      new_id = h.0.new_id;
      counted = h.0.counted;
      waits = h.0.waits;
    },
    tt,
  )
  IsOrdered-mark_root earlier (t ∷ u ∷ ts) h =
      (h.0, IsOrdered-mark_root (t.id ∷ earlier) (u ∷ ts) h.1)

-- The ids counted from `k` to `k'` are not seen yet.
abbrev pub Unseen : (ℕ → Uuid) → ℕ → ℕ → List Uuid → Type 0
Unseen new_uuid k k' earlier = (j : ℕ) → k ≤ j → j < k' → ¬ Elem (new_uuid j) earlier

-- Only they are seen on top of the earlier ones.
abbrev pub Adds : (ℕ → Uuid) → ℕ → ℕ → List Uuid → List Uuid → Type 0
Adds new_uuid k k' earlier later =
    (i : ℕ) → Elem (new_uuid i) later → Elem (new_uuid i) earlier ⊎ ((k ≤ i) × (i < k'))

IsSource-seen :
    {F : Type 0} (earlier : List Uuid) (ts : List (Task F)) (a : Argument F)
    → IsSource earlier (arg_value a) (arg_task_id a)
    → IsSource (seen earlier ts) (arg_value a) (arg_task_id a)
IsSource-seen earlier ts (value v) h = tt
IsSource-seen earlier ts (result_of id) h = Elem-seen id earlier ts h

unmet-dep_count : {F : Type 0} (a : Argument F) → unmet a ≡ dep_count (arg_task_id a)
unmet-dep_count (value v) = refl
unmet-dep_count (result_of id) = refl

module _ {F : Type 0} (new_uuid : ℕ → Uuid) (fresh : (i j : ℕ) → new_uuid i ≡ new_uuid j → i ≡ j)
    (expr_id : Uuid) where
  abbrev pub plan_of : ℕ → Node F → List (Task F)
  plan_of k n = tasks_of new_uuid expr_id k n

  IsSource-arg_of :
      (k : ℕ) (n : Node F) (earlier : List Uuid)
      → IsSource
          (seen earlier (plan_of k n))
          (arg_value (arg_of new_uuid expr_id k n))
          (arg_task_id (arg_of new_uuid expr_id k n))
  unfolding tasks_of
  IsSource-arg_of k (leaf v) earlier = tt
  IsSource-arg_of k (bin o l r) earlier = rw (seen-append, seen-append) (inl refl)

  -- The task of an operator fits behind those of its operands.
  operator-IsPlanned :
      (o : Op) (l r : Node F) (k : ℕ) (earlier : List Uuid)
      → ¬ Elem
          (new_uuid k)
          (seen (seen earlier (plan_of (k + 1) l)) (plan_of (k + 1 + op_nodes l) r))
      → IsPlanned (seen (seen earlier (plan_of (k + 1) l)) (plan_of (k + 1 + op_nodes l) r)) (
          new_task
            (new_uuid k)
            expr_id
            o
            (arg_of new_uuid expr_id (k + 1) l)
            (arg_of new_uuid expr_id (k + 1 + op_nodes l) r))
  operator-IsPlanned o l r k earlier h =
      let a = arg_of new_uuid expr_id (k + 1) l in
      let b = arg_of new_uuid expr_id (k + 1 + op_nodes l) r in
      record {
        first =
            IsSource-seen (seen earlier (plan_of (k + 1) l)) (plan_of (k + 1 + op_nodes l) r) a
              (IsSource-arg_of (k + 1) l earlier);
        second = IsSource-arg_of (k + 1 + op_nodes l) r (seen earlier (plan_of (k + 1) l));
        new_id = h;
        counted = cc (unmet-dep_count a, unmet-dep_count b);
        waits = refl;
      }

  seen_operator :
      (o : Op) (l r : Node F) (k : ℕ) (earlier : List Uuid) (i : ℕ)
      → Elem (new_uuid i) (seen earlier (plan_of k (bin o l r)))
      → (i ≡ k)
        ⊎ Elem
            (new_uuid i)
            (seen (seen earlier (plan_of (k + 1) l)) (plan_of (k + 1 + op_nodes l) r))
  unfolding tasks_of
  seen_operator o l r k earlier i h = elim (rw (seen-append, seen-append) at h) [
    | inl e ↦ inl (fresh i k e)
    | inr e ↦ inr e
  ]

  pub tasks_of-IsOrdered :
      (n : Node F) (k : ℕ) (earlier : List Uuid)
      → Unseen new_uuid k (k + op_nodes n) earlier
      → IsOrdered earlier (plan_of k n)
        × Adds new_uuid k (k + op_nodes n) earlier (seen earlier (plan_of k n))
  unfolding tasks_of op_nodes
  tasks_of-IsOrdered (leaf v) k earlier h = (tt, λ i e. inl e)
  tasks_of-IsOrdered (bin o l r) k earlier h =
      let (ordered₁, adds₁) =
        tasks_of-IsOrdered l (k + 1) earlier (λ j a b. h j (omega arith) (omega arith)) in
      let earlier₁ = seen earlier (plan_of (k + 1) l) in
      let unseen : Unseen new_uuid (k + 1 + op_nodes l) (k + 1 + op_nodes l + op_nodes r) earlier₁ =
        λ j a b e. elim (adds₁ j e) [
          | inl e' ↦ h j (omega arith) (omega arith) e'
          | inr (c, d) ↦ absurd (omega arith)
        ] in
      let (ordered₂, adds₂) = tasks_of-IsOrdered r (k + 1 + op_nodes l) earlier₁ unseen in
      let earlier₂ = seen earlier₁ (plan_of (k + 1 + op_nodes l) r) in
      let new_id : ¬ Elem (new_uuid k) earlier₂ = λ e. elim (adds₂ k e) [
        | inl e₁ ↦ elim (adds₁ k e₁) [
          | inl e₀ ↦ h k (omega arith) (omega arith) e₀
          | inr (a, b) ↦ absurd (omega arith)
        ]
        | inr (a, b) ↦ absurd (omega arith)
      ] in
      (
        IsOrdered-append earlier (plan_of (k + 1) l) _ ordered₁ (
            IsOrdered-append earlier₁ (plan_of (k + 1 + op_nodes l) r) _ ordered₂
              (operator-IsPlanned o l r k earlier new_id, tt)),
        λ i e. elim (seen_operator o l r k earlier i e) [
          | inl p ↦ inr (omega arith)
          | inr e₂ ↦ elim (adds₂ i e₂) [
            | inr (a, b) ↦ inr (omega arith)
            | inl e₁ ↦ elim (adds₁ i e₁) [ inl e₀ ↦ inl e₀ | inr (a, b) ↦ inr (omega arith) ]
          ]
        ],
      )
