-- ===== src/Expression/Service/Stored/Tasks.antt =====
-- repo.go: the rows of tasks that a submission adds.
use golang_service_architect.Common.{
  ◌≡◌, refl, sym, ap, ◌∙◌, Bool, true, false, ◌&&◌, List, [], ◌∷◌, ◌++◌, map, append-nil,
  append_assoc, Result, ok, err, Result-cases, Bool-cases, inl, inr, ◌==◌,
}
use golang_service_architect.Apperrors.{Error}
use golang_service_architect.Expression.Task.{Task, TaskStatus, Uuid}
use golang_service_architect.Persistent.Tables.{
  ExpressionRow, TaskRow, Db, update, has_expression, has_task, is_unfinished, mark_task_ready,
}
use golang_service_architect.Persistent.Enqueue.{in_tx, task_row, insert_task, insert_tasks}
use golang_service_architect.Persistent.Values.Transactions.{OkAll}

module _ {F : Type 0} where
  -- A row of a task but for its status, which is ready as soon as it waits for nothing.
  abbrev pub unstarted : TaskRow F → TaskRow F
  unstarted t = record t { status = TaskStatus.pending }

  -- On top of the rows of a database there are an expression and the rows of tasks, and no others.
  pub record IsStored (db : Db F) (e : ExpressionRow F) (new : List (Task F)) (db' : Db F)
      : Type 0 where
    pub expressions : db'.expressions ≡ db.expressions ++ e ∷ []
    pub tasks : map unstarted db'.tasks ≡ map unstarted (db.tasks ++ map task_row new)

  pub IsStored-same :
      (db : Db F) (e : ExpressionRow F) (tasks : List (Task F)) (a b : Db F)
      → b.expressions ≡ a.expressions
      → map unstarted b.tasks ≡ map unstarted a.tasks
      → IsStored db e tasks a
      → IsStored db e tasks b
  IsStored-same db e tasks a b same rows s = record {
    expressions = same ∙ s.expressions;
    tasks = rows ∙ s.tasks;
  }

  pub map-update :
      (test : TaskRow F → Bool) (change : TaskRow F → TaskRow F)
      → ((t : TaskRow F) → unstarted (change t) ≡ unstarted t)
      → (ts : List (TaskRow F)) → map unstarted (update test change ts) ≡ map unstarted ts
  unfolding update
  map-update test change same [] = refl
  map-update test change same (t ∷ ts) =
      let rest = map-update test change same ts in
      elim (Bool-cases (test t)) [
        | inl h ↦ rw (h, same t) (ap (λ us. unstarted t ∷ us) rest)
        | inr h ↦ rw h (ap (λ us. unstarted t ∷ us) rest)
      ]

  pub mark_ready-IsStored :
      (db : Db F) (e : ExpressionRow F) (tasks : List (Task F)) (id : Uuid) (a : Db F)
      → IsStored db e tasks a
      → IsStored db e tasks (mark_task_ready id a)
  mark_ready-IsStored db e tasks id a =
      IsStored-same db e tasks a (mark_task_ready id a) refl (map-update _ _ (λ t. refl) a.tasks)

  abbrev pub AddsTasks : List (Task F) → Db F → Db F → Type 0
  AddsTasks ts a b = (b.expressions ≡ a.expressions) × (b.tasks ≡ a.tasks ++ map task_row ts)

  -- The inserts one behind the other.
  pub insert_tasks-appends :
      (ts : List (Task F)) (a : Db F) → OkAll (AddsTasks ts a) (insert_tasks ts a)
  unfolding insert_tasks insert_task
  insert_tasks-appends [] a = (refl, sym (append-nil a.tasks))
  insert_tasks-appends (t ∷ ts) a = elim (Bool-cases (has_task t.id a.tasks)) [
    | inl h ↦ rw h tt
    | inr h ↦ elim (Bool-cases (has_expression t.expression_id a.expressions)) [
      | inr k ↦ rw (h, k) tt
      | inl k ↦
          let a' = record a { tasks = a.tasks ++ task_row t ∷ [] } in
          rw (h, k) (go (insert_tasks ts a') (insert_tasks-appends ts a'))
    ]
  ]
    where
      go :
          (r : Result Error (Db F))
          → OkAll
              (λ b.
                (b.expressions ≡ a.expressions)
                × (b.tasks ≡ (a.tasks ++ task_row t ∷ []) ++ map task_row ts))
              r
          → OkAll
              (λ b.
                (b.expressions ≡ a.expressions)
                × (b.tasks ≡ a.tasks ++ task_row t ∷ map task_row ts))
              r
      go (err e) h = tt
      go (ok b) (same, rows) =
          (same, rows ∙ append_assoc a.tasks (task_row t ∷ []) (map task_row ts))

  -- A new expression is finished alone.
  pub finalize-new :
      (id : Uuid) (change : ExpressionRow F → ExpressionRow F) (e : ExpressionRow F)
      (es : List (ExpressionRow F))
      → has_expression id es ≡ false
      → (e.id == id && is_unfinished e.status) ≡ true
      → update (λ r. r.id == id && is_unfinished r.status) change (es ++ e ∷ [])
        ≡ es ++ change e ∷ []
  unfolding update
  finalize-new id change e [] h k = rw k refl
  finalize-new id change e (r ∷ es) h k = elim (Bool-cases (r.id == id)) [
    | inl same ↦ absurd (let clash = rw same at h in cc)
    | inr other ↦ rw other (ap (λ us. r ∷ us) (finalize-new id change e es (rw other at h) k))
  ]

  pub in_tx-ok :
      {A : Type 0} (Holds : Db F → Type 0) (f : Db F → Result Error (A × Db F)) (db : Db F) (a : A)
      → (in_tx f db).0 ≡ ok a
      → OkAll (λ s. Holds s.1) (f db)
      → Holds (in_tx f db).1
  in_tx-ok Holds f db a fine h = elim (Result-cases (f db)) [
    | inl (s, q) ↦ rw (in_tx, q) (rw q at h)
    | inr (x, q) ↦ absurd (let clash = rw (in_tx, q) at fine in cc)
  ]
