-- ===== src/Persistent/Values/Rows.antt =====
-- repo.go: the queries keep the tables right.
use golang_service_architect.Common.{
  ◌≡◌, refl, ap, ◌∙◌, Bool, true, false, ◌&&◌, Option, none, some, List, [], ◌∷◌, Result, ok, All,
  All-append, ◌==◌, ==_iff, Bool-cases, inl, inr,
}
use golang_service_architect.Apperrors.{Error}
use golang_service_architect.Float64.{Float64}
use golang_service_architect.Expression.Task.{Uuid, TaskStatus}
use golang_service_architect.Persistent.Tables.{
  ExpressionRow, TaskRow, Payload, OutboxRow, Db, update, updated, names, is_open, is_pending,
  is_unfinished, completes, complete, takes_arg1, takes_arg2, fill_arg1, fill_arg2,
  finalize_expression_done, insert_outbox,
}
use golang_service_architect.Persistent.Values.{
  Meaning, IsDependency, IsRight, IsRightPayload, IsRightExpression, AreRight,
}

pub and_left : (a b : Bool) → (a && b) ≡ true → a ≡ true
and_left true b h = refl
and_left false b h = h

module _ {A : Type 0} (Holds Also : A → Type 0) (test : A → Bool) (change : A → A) where
  pub update-All :
      ((x : A) → test x ≡ true → Holds x → Holds (change x))
      → (xs : List A) → All Holds xs
      → All Holds (update test change xs)
  unfolding update
  update-All step [] h = tt
  update-All step (x ∷ xs) (here, there) = elim (Bool-cases (test x)) [
    | inl h ↦ rw (update, h) (step x h here, update-All step xs there)
    | inr h ↦ rw (update, h) (here, update-All step xs there)
  ]

  pub updated-All :
      ((x : A) → test x ≡ true → Holds x → Also (change x))
      → (xs : List A) → All Holds xs
      → All Also (updated test change xs)
  unfolding updated
  updated-All step [] h = tt
  updated-All step (x ∷ xs) (here, there) = elim (Bool-cases (test x)) [
    | inl h ↦ rw (updated, h) (step x h here, updated-All step xs there)
    | inr h ↦ rw (updated, h) (updated-All step xs there)
  ]

module _ (fl : Float64) (meaning : Meaning fl.F) where
  open fl use {F}
  open meaning use {task_value, expression_of, expression_value}

  -- A dependency that is named by an id.
  named :
      (task : Uuid) (x : Result Error F) (dep : Option Uuid) (id : Uuid)
      → names dep id ≡ true
      → IsDependency fl meaning task x dep
      → (x ≡ task_value id) × (expression_of task ≡ expression_of id)
  named task x none id h d = absurd cc
  named task x (some j) id h (value, same) =
      let e : j ≡ id = (==_iff j id).0 h in (value ∙ ap task_value e, same ∙ ap expression_of e)

  pub complete-IsRight :
      (id : Uuid) (v : F) (t : TaskRow F)
      → task_value id ≡ ok v
      → completes id t ≡ true
      → IsRight fl meaning t
      → IsRight fl meaning (complete v t)
  complete-IsRight id v t gives h r =
      let e : t.id ≡ id = (==_iff t.id id).0 (and_left (t.id == id) (is_open t.status) h) in
      record {
        left = r.left;
        right = r.right;
        value = r.value;
        arg1 = r.arg1;
        dep1 = r.dep1;
        arg2 = r.arg2;
        dep2 = r.dep2;
        expression = r.expression;
        root = r.root;
        result = ap task_value e ∙ gives;
      }

  pub fill_arg1-IsRight :
      (id : Uuid) (v : F) (t : TaskRow F)
      → task_value id ≡ ok v
      → takes_arg1 id t ≡ true
      → IsRight fl meaning t
      → IsRight fl meaning (fill_arg1 v t) × (expression_of t.id ≡ expression_of id)
  fill_arg1-IsRight id v t gives h r =
      let (x, same) =
        named t.id r.left t.arg1_task_id id
          (and_left (names t.arg1_task_id id) (is_pending t.status) h) r.dep1 in
      (
        record {
          left = r.left;
          right = r.right;
          value = r.value;
          arg1 = x ∙ gives;
          dep1 = r.dep1;
          arg2 = r.arg2;
          dep2 = r.dep2;
          expression = r.expression;
          root = r.root;
          result = r.result;
        },
        same,
      )

  pub fill_arg2-IsRight :
      (id : Uuid) (v : F) (t : TaskRow F)
      → task_value id ≡ ok v
      → takes_arg2 id t ≡ true
      → IsRight fl meaning t
      → IsRight fl meaning (fill_arg2 v t) × (expression_of t.id ≡ expression_of id)
  fill_arg2-IsRight id v t gives h r =
      let (y, same) =
        named t.id r.right t.arg2_task_id id
          (and_left (names t.arg2_task_id id) (is_pending t.status) h) r.dep2 in
      (
        record {
          left = r.left;
          right = r.right;
          value = r.value;
          arg1 = r.arg1;
          dep1 = r.dep1;
          arg2 = y ∙ gives;
          dep2 = r.dep2;
          expression = r.expression;
          root = r.root;
          result = r.result;
        },
        same,
      )

  -- A change of a row's status, worker and attempt alone.
  pub status-IsRight :
      (status : TaskStatus) (t : TaskRow F)
      → IsRight fl meaning t
      → IsRight fl meaning (record t { status = status })
  status-IsRight status t r = record {
    left = r.left;
    right = r.right;
    value = r.value;
    arg1 = r.arg1;
    dep1 = r.dep1;
    arg2 = r.arg2;
    dep2 = r.dep2;
    expression = r.expression;
    root = r.root;
    result = r.result;
  }

  -- A table whose tasks are updated by a change that keeps them right.
  pub tasks-AreRight :
      (test : TaskRow F → Bool) (change : TaskRow F → TaskRow F) (db : Db F)
      → ((t : TaskRow F) → test t ≡ true → IsRight fl meaning t → IsRight fl meaning (change t))
      → AreRight fl meaning db
      → AreRight fl meaning (record db { tasks = update test change db.tasks })
  tasks-AreRight test change db step r = record {
    tasks = update-All (IsRight fl meaning) (IsRight fl meaning) test change step db.tasks r.tasks;
    outbox = r.outbox;
    expressions = r.expressions;
  }

  pub expressions-AreRight :
      (test : ExpressionRow F → Bool) (change : ExpressionRow F → ExpressionRow F) (db : Db F)
      → ((e : ExpressionRow F)
          → test e ≡ true
          → IsRightExpression fl meaning e
          → IsRightExpression fl meaning (change e))
      → AreRight fl meaning db
      → AreRight fl meaning (record db { expressions = update test change db.expressions })
  expressions-AreRight test change db step r = record {
    tasks = r.tasks;
    outbox = r.outbox;
    expressions =
        update-All (IsRightExpression fl meaning) (IsRightExpression fl meaning) test change step
          db.expressions r.expressions;
  }

  pub insert_outbox-AreRight :
      (payload : Payload F) (db : Db F)
      → IsRightPayload fl meaning payload
      → AreRight fl meaning db
      → AreRight fl meaning (insert_outbox payload db)
  insert_outbox-AreRight payload db h r = record {
    tasks = r.tasks;
    outbox =
        All-append (λ (o : OutboxRow F). IsRightPayload fl meaning o.payload) db.outbox _ r.outbox
          (h, tt);
    expressions = r.expressions;
  }

  pub finalize_done-AreRight :
      (id : Uuid) (v : F) (db : Db F)
      → expression_value id ≡ ok v
      → AreRight fl meaning db
      → AreRight fl meaning (finalize_expression_done id v db)
  finalize_done-AreRight id v db gives r =
      expressions-AreRight _ _ db
        (λ e h k.
          ap expression_value
            ((==_iff e.id id).0 (and_left (e.id == id) (is_unfinished e.status) h))
          ∙ gives)
        r
