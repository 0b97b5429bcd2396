-- ===== src/Persistent/Unfinished/Same.antt =====
-- repo.go: enqueueing and unlocking leave the roots and the expressions as they are.
use golang_service_architect.Common.{
  ◌≡◌, refl, sym, ap, ◌∙◌, String, true, false, ◌&&◌, Option, none, some, List, [], ◌∷◌, ◌++◌, ◌==◌,
  ==_iff, All, All-weaken, Bool-cases, inl, inr, Result, ok, err, ◌>>=◌, subst,
}
use golang_service_architect.Common.Int.{is_zero_ℤ}
use golang_service_architect.Apperrors.{Error}
use golang_service_architect.Float64.{Float64}
use golang_service_architect.Expression.Ast.{Op}
use golang_service_architect.Expression.Task.{Task, Uuid, is_ready}
use golang_service_architect.Expression.Planner.Graph.{HasLastRoot}
use golang_service_architect.Messages.{AuditMessage}
use golang_service_architect.Persistent.Tables.{
  TaskRow, Payload, Db, has_task, has_expression, mark_task_ready, insert_outbox,
}
use golang_service_architect.Persistent.Enqueue.{
  task_row, insert_task, insert_tasks, enqueue_task, enqueue_audit, enqueue_ready, is_encodable,
}
use golang_service_architect.Persistent.Repo.{unlock_ready_dependents}
use golang_service_architect.Persistent.Values.Transactions.{OkAll, OkAll-bind}
use golang_service_architect.Persistent.Wakeups.Marking.{is_marked, set_ready, marked_open}
use golang_service_architect.Persistent.Unfinished.{is_root_of, IsGoing, AreGoing}
use golang_service_architect.Persistent.Unfinished.Roots.{
  is_root_of-update, is_root_of-append, is_root_of-insert,
}

-- No root and no expression is lost or changed.
pub record SameRoots {F : Type 0} (db db' : Db F) : Type 0 where
  pub keeps : (e r : Uuid) → is_root_of e r db.tasks ≡ true → is_root_of e r db'.tasks ≡ true
  pub expressions : db'.expressions ≡ db.expressions

module _ {F : Type 0} where
  pub SameRoots-refl : (db : Db F) → SameRoots db db
  SameRoots-refl db = record { keeps = λ e r h. h; expressions = refl }

  pub SameRoots-trans : (a b c : Db F) → SameRoots a b → SameRoots b c → SameRoots a c
  SameRoots-trans a b c s t = record {
    keeps = λ e r h. t.keeps e r (s.keeps e r h);
    expressions = t.expressions ∙ s.expressions;
  }

  pub SameRoots-AreGoing : (db db' : Db F) → SameRoots db db' → AreGoing db → AreGoing db'
  SameRoots-AreGoing db db' same g = subst (All (IsGoing db'.tasks)) (sym same.expressions) (
      All-weaken (IsGoing db.tasks) (IsGoing db'.tasks)
        (λ e going u. let (r, root) = going u in (r, same.keeps e.id r root)) db.expressions g)

  -- What follows in a transaction.
  pub SameRoots-bind :
      {S T : Type 0} (before : S → Db F) (after : T → Db F) (db : Db F) (first : Result Error S)
      (next : S → Result Error T)
      → OkAll (λ s. SameRoots db (before s)) first
      → ((s : S) → OkAll (λ t. SameRoots (before s) (after t)) (next s))
      → OkAll (λ t. SameRoots db (after t)) (first >>= next)
  SameRoots-bind before after db (err e) next h k = tt
  SameRoots-bind before after db (ok s) next h k = go (next s) (k s)
    where
      go :
          (r : Result Error _)
          → OkAll (λ t. SameRoots (before s) (after t)) r
          → OkAll (λ t. SameRoots db (after t)) r
      go (err e) g = tt
      go (ok t) g = SameRoots-trans db (before s) (after t) h g

  pub SameRoots-from :
      {T : Type 0} (after : T → Db F) (a b : Db F) (r : Result Error T)
      → SameRoots a b
      → OkAll (λ t. SameRoots b (after t)) r
      → OkAll (λ t. SameRoots a (after t)) r
  SameRoots-from after a b (err e) s h = tt
  SameRoots-from after a b (ok t) s h = SameRoots-trans a b (after t) s h

  mark_task_ready-SameRoots : (id : Uuid) (db : Db F) → SameRoots db (mark_task_ready id db)
  mark_task_ready-SameRoots id db = record {
    keeps = λ e r h.
        is_root_of-update e r (is_marked id) set_ready (λ t. refl)
          (λ t m k. ap (λ b. b && (t.is_root && t.expression_id == e)) (sym (marked_open id t m)))
          db.tasks
        ∙ h;
    expressions = refl;
  }

  inserted-SameRoots :
      (t : Task F) (db : Db F) → SameRoots db (record db { tasks = db.tasks ++ task_row t ∷ [] })
  inserted-SameRoots t db = record {
    keeps = λ e r h. is_root_of-append e r db.tasks (task_row t ∷ []) h;
    expressions = refl;
  }

  -- The tasks of a plan bring a root.
  abbrev pub HasRoot : Uuid → Db F → Type 0
  HasRoot id db = (r : Uuid) × (is_root_of id r db.tasks ≡ true)

  abbrev with_row : Task F → Db F → Db F
  with_row t db = record db { tasks = db.tasks ++ task_row t ∷ [] }

  -- One task, and what the others bring.
  insert_task-HasRoot :
      (id : Uuid) (t : Task F) (ts : List (Task F)) (db : Db F)
      → (has_task t.id db.tasks ≡ false
          → OkAll
              (λ db'. SameRoots (with_row t db) db' × HasRoot id db')
              (insert_tasks ts (with_row t db)))
      → OkAll (λ db'. SameRoots db db' × HasRoot id db') (insert_tasks (t ∷ ts) db)
  unfolding insert_tasks insert_task
  insert_task-HasRoot id t ts db behind = elim (Bool-cases (has_task t.id db.tasks)) [
    | inl h ↦ rw h tt
    | inr h ↦ elim (Bool-cases (has_expression t.expression_id db.expressions)) [
      | inr k ↦ rw (h, k) tt
      | inl k ↦ rw (h, k) (go (insert_tasks ts (with_row t db)) (behind h))
    ]
  ]
    where
      go :
          (r : Result Error (Db F))
          → OkAll (λ db'. SameRoots (with_row t db) db' × HasRoot id db') r
          → OkAll (λ db'. SameRoots db db' × HasRoot id db') r
      go (err e) h = tt
      go (ok db') h = (SameRoots-trans db (with_row t db) db' (inserted-SameRoots t db) h.0, h.1)

  pub insert_tasks-HasRoot :
      (id : Uuid) (ts : List (Task F)) (db : Db F)
      → All (λ (t : Task F). t.expression_id ≡ id) ts
      → HasLastRoot ts
      → OkAll (λ db'. SameRoots db db' × HasRoot id db') (insert_tasks ts db)
  unfolding insert_tasks
  insert_tasks-HasRoot id [] db owned rooted = absurd rooted
  insert_tasks-HasRoot id (t ∷ []) db (here, there) rooted =
      insert_task-HasRoot id t [] db (λ fresh. (
        SameRoots-refl (with_row t db),
        (
          t.id,
          is_root_of-insert id (task_row t) db.tasks fresh
              (rw rooted ((==_iff t.expression_id id).1 here)),
        ),
      ))
  insert_tasks-HasRoot id (t ∷ u ∷ ts) db (here, there) rooted =
      insert_task-HasRoot id t (u ∷ ts) db
        (λ fresh. insert_tasks-HasRoot id (u ∷ ts) (with_row t db) there rooted.1)

module _ (fl : Float64) where
  open fl use {F, is_finite}

  pub enqueue_audit-SameRoots :
      (audit : List (AuditMessage F)) (db : Db F)
      → OkAll (λ db'. SameRoots db db') (enqueue_audit fl audit db)
  unfolding enqueue_audit
  enqueue_audit-SameRoots [] db = SameRoots-refl db
  enqueue_audit-SameRoots (m ∷ audit) db = elim (Bool-cases (is_encodable fl m.payload)) [
    | inl h ↦ rw h (
        SameRoots-from (λ d. d) db (insert_outbox (Payload.audit m) db) _
          (record { keeps = λ e r k. k; expressions = refl })
          (enqueue_audit-SameRoots audit (insert_outbox (Payload.audit m) db)))
    | inr h ↦ rw h tt
  ]

  enqueue_task-SameRoots :
      (trace : String) (id expr : Uuid) (op : Op) (x y : Option F) (db : Db F)
      → OkAll (λ db'. SameRoots db db') (enqueue_task fl trace id expr op x y db)
  unfolding enqueue_task
  enqueue_task-SameRoots trace id expr op none y db = tt
  enqueue_task-SameRoots trace id expr op (some x) none db = tt
  enqueue_task-SameRoots trace id expr op (some x) (some y) db =
      elim (Bool-cases (is_finite x && is_finite y)) [
        | inl h ↦ rw h (record { keeps = λ e r k. k; expressions = refl })
        | inr h ↦ rw h tt
      ]

  pub unlock-SameRoots :
      (trace : String) (expr : Uuid) (deps : List (TaskRow F)) (db : Db F)
      → OkAll (λ s. SameRoots db s.1) (unlock_ready_dependents fl trace expr deps db)
  unfolding unlock_ready_dependents
  unlock-SameRoots trace expr [] db = SameRoots-refl db
  unlock-SameRoots trace expr (d ∷ deps) db = elim (Bool-cases (is_zero_ℤ d.unmet_deps)) [
    | inr h ↦ rw h (unlock-SameRoots trace expr deps db)
    | inl h ↦ rw h (
        SameRoots-bind (λ db'. db') (λ s. s.1) db
          (enqueue_task fl trace d.id expr d.op d.arg1_value d.arg2_value db) _
          (enqueue_task-SameRoots trace d.id expr d.op d.arg1_value d.arg2_value db)
          (λ db'.
            SameRoots-from (λ s. s.1) db' (mark_task_ready d.id db') _
              (mark_task_ready-SameRoots d.id db')
              (OkAll-bind (λ s. SameRoots (mark_task_ready d.id db') s.1) _
                (unlock_ready_dependents fl trace expr deps (mark_task_ready d.id db')) _
                (unlock-SameRoots trace expr deps (mark_task_ready d.id db')) (λ s k. k))))
  ]

  pub enqueue_ready-SameRoots :
      (trace : String) (ts : List (Task F)) (db : Db F)
      → OkAll (λ db'. SameRoots db db') (enqueue_ready fl trace ts db)
  unfolding enqueue_ready
  enqueue_ready-SameRoots trace [] db = SameRoots-refl db
  enqueue_ready-SameRoots trace (t ∷ ts) db = elim (Bool-cases (is_ready t)) [
    | inr h ↦ rw h (enqueue_ready-SameRoots trace ts db)
    | inl h ↦ rw h (
        SameRoots-bind (λ db'. db') (λ db'. db') db
          (enqueue_task fl trace t.id t.expression_id t.op t.arg1_value t.arg2_value db) _
          (enqueue_task-SameRoots trace t.id t.expression_id t.op t.arg1_value t.arg2_value db)
          (λ db'.
            SameRoots-from (λ d. d) db' (mark_task_ready t.id db') _
              (mark_task_ready-SameRoots t.id db')
              (enqueue_ready-SameRoots trace ts (mark_task_ready t.id db'))))
  ]
