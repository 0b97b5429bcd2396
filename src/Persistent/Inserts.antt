-- ===== src/Persistent/Inserts.antt =====
-- repo.go: what the inserts and the enqueueing of a transaction do to the tables.
use golang_service_architect.Common.{
  ==_iff, ◌∙◌, not, ◌||◌, ◌≡◌, refl, ap, true, false, inl, inr, Bool-cases, Option, none, some,
  List, [], ◌∷◌, ◌++◌, Result, ok, err, Result-cases, ◌>>=◌, ◌&&◌, ◌==◌, subst, String,
}
use golang_service_architect.Apperrors.{Error}
use golang_service_architect.Float64.{Float64}
use golang_service_architect.Text.{Text}
use golang_service_architect.Expression.Ast.{Op}
use golang_service_architect.Expression.Task.{Task, Uuid, is_ready}
use golang_service_architect.Messages.{AuditMessage}
use golang_service_architect.Persistent.Tables.{
  completes, has_expression, has_task, TaskRow, ExpressionRow, Payload, Db, mark_task_ready,
  insert_outbox,
}
use golang_service_architect.Persistent.Enqueue.{
  task_row, in_tx, within, insert_expression, insert_task, insert_tasks, enqueue_task,
  enqueue_audit, enqueue_ready, is_encodable,
}
use golang_service_architect.Persistent.Evolution.{
  has_no_open, Extends-refl, Extends-append, TaskEvolves, ExpressionEvolves, TaskEvolves-refl,
  ExpressionEvolves-refl, Evolves, Evolves-refl, Evolves-trans,
}
use golang_service_architect.Persistent.Queries.{mark_task_ready-Evolves, outbox-Evolves}

-- The tables that a result holds, if it is no error, evolve from the given ones.
abbrev pub Gives {ℓ} : {F : Type 0} {S : Type ℓ} → (S → Db F) → Db F → Result Error S → Type 0
Gives tables db (ok s) = Evolves db (tables s)
Gives tables db (err e) = Unit

module _ {F : Type 0} where
  pub Gives-bind {ℓ κ} :
      {S : Type ℓ} {T : Type κ} (tables : S → Db F) (after : T → Db F) (db : Db F)
      (first : Result Error S) (next : S → Result Error T)
      → Gives tables db first
      → ((s : S) → Gives after (tables s) (next s))
      → Gives after db (first >>= next)
  Gives-bind tables after db (ok s) next h k = onward (next s) (k s)
    where
      onward : (r : Result Error _) → Gives after (tables s) r → Gives after db r
      onward (ok t) g = Evolves-trans db (tables s) (after t) h g
      onward (err e) g = tt
  Gives-bind tables after db (err e) next h k = tt

  pub Gives-from {ℓ} :
      {S : Type ℓ} (tables : S → Db F) (a b : Db F) (r : Result Error S)
      → Evolves a b
      → Gives tables b r
      → Gives tables a r
  Gives-from tables a b (ok s) h g = Evolves-trans a b (tables s) h g
  Gives-from tables a b (err e) h g = tt

  pub in_tx-Evolves :
      {A : Type 0} (f : Db F → Result Error (A × Db F)) (db : Db F)
      → Gives (λ s. s.1) db (f db)
      → Evolves db (in_tx f db).1
  in_tx-Evolves f db h = elim (Result-cases (f db)) [
    | inl (s, e) ↦ rw (in_tx, e) (subst (Gives (λ s. s.1) db) e h)
    | inr (failure, e) ↦ rw (in_tx, e) (Evolves-refl db)
  ]

  appended_expressions :
      (db : Db F) (rows : List (ExpressionRow F))
      → Evolves db (record db { expressions = db.expressions ++ rows })
  appended_expressions db rows = record {
    tasks = Extends-refl TaskEvolves TaskEvolves-refl db.tasks;
    expressions = Extends-append ExpressionEvolves ExpressionEvolves-refl db.expressions rows;
    settled = λ id h. h;
  }

  -- A row that is not in the table yet is no second row of a settled task.
  settled-insert :
      (row : TaskRow F) (id : Uuid) (ts : List (TaskRow F))
      → (row.id == id) ≡ false
      → (has_task id (ts ++ row ∷ []) ≡ has_task id ts)
        × (has_no_open id (ts ++ row ∷ []) ≡ has_no_open id ts)
  settled-insert row id [] h = rw h (refl, refl)
  settled-insert row id (t ∷ ts) h =
      let (here, there) = settled-insert row id ts h in
      (ap (λ b. (t.id == id) || b) here, ap (λ b. not (completes id t) && b) there)

  pub other_task :
      (i : Uuid) (id : Uuid) (ts : List (TaskRow F))
      → has_task i ts ≡ false
      → has_task id ts ≡ true
      → (i == id) ≡ false
  other_task i id ts h k = elim (Bool-cases (i == id)) [
    | inl e ↦ let same = ap (λ j. has_task j ts) ((==_iff i id).0 e) in cc
    | inr e ↦ e
  ]

  appended_task :
      (db : Db F) (row : TaskRow F)
      → has_task row.id db.tasks ≡ false
      → Evolves db (record db { tasks = db.tasks ++ row ∷ [] })
  appended_task db row h = record {
    tasks = Extends-append TaskEvolves TaskEvolves-refl db.tasks (row ∷ []);
    expressions = Extends-refl ExpressionEvolves ExpressionEvolves-refl db.expressions;
    settled = λ id s.
        let (here, there) = settled-insert row id db.tasks (other_task row.id id db.tasks h s.0) in
        (here ∙ s.0, there ∙ s.1);
  }

  pub within-Evolves :
      (place : String) (db : Db F) (r : Result Error (Db F))
      → Gives (λ d. d) db r
      → Gives (λ d. d) db (within place r)
  within-Evolves place db (ok s) h = h
  within-Evolves place db (err e) h = tt

  pub insert_expression-Evolves :
      (id : Uuid) (raw : Text) (trace : String) (db : Db F)
      → Gives (λ d. d) db (insert_expression id raw trace db)
  unfolding insert_expression
  insert_expression-Evolves id raw trace db = elim (Bool-cases (has_expression id db.expressions)) [
    | inl h ↦ rw h tt
    | inr h ↦ rw h (appended_expressions db _)
  ]

  insert_task-Evolves : (t : Task F) (db : Db F) → Gives (λ d. d) db (insert_task t db)
  unfolding insert_task
  insert_task-Evolves t db = elim (Bool-cases (has_task t.id db.tasks)) [
    | inl h ↦ rw h tt
    | inr h ↦ elim (Bool-cases (has_expression t.expression_id db.expressions)) [
      | inl k ↦ rw (h, k) (appended_task db (task_row t) h)
      | inr k ↦ rw (h, k) tt
    ]
  ]

  pub insert_tasks-Evolves :
      (ts : List (Task F)) (db : Db F) → Gives (λ d. d) db (insert_tasks ts db)
  unfolding insert_tasks
  insert_tasks-Evolves [] db = Evolves-refl db
  insert_tasks-Evolves (t ∷ ts) db =
      Gives-bind (λ d. d) (λ d. d) db (within "insert task" (insert_task t db)) (insert_tasks ts)
        (within-Evolves "insert task" db (insert_task t db) (insert_task-Evolves t db))
        (insert_tasks-Evolves ts)

module _ (fl : Float64) where
  open fl use {F, is_finite}

  pub enqueue_task-Evolves :
      (trace : String) (id expr_id : Uuid) (op : Op) (a b : Option F) (db : Db F)
      → Gives (λ d. d) db (enqueue_task fl trace id expr_id op a b db)
  unfolding enqueue_task
  enqueue_task-Evolves trace id expr_id op (some a) (some b) db =
      elim (Bool-cases (is_finite a && is_finite b)) [
        | inl h ↦ rw h (outbox-Evolves db _ _)
        | inr h ↦ rw h tt
      ]
  enqueue_task-Evolves trace id expr_id op (some a) none db = tt
  enqueue_task-Evolves trace id expr_id op none b db = tt

  pub enqueue_audit-Evolves :
      (audit : List (AuditMessage F)) (db : Db F) → Gives (λ d. d) db (enqueue_audit fl audit db)
  unfolding enqueue_audit
  enqueue_audit-Evolves [] db = Evolves-refl db
  enqueue_audit-Evolves (a ∷ audit) db =
      let db' = insert_outbox (Payload.audit a) db in
      let rest =
        Gives-from (λ d. d) db db' (enqueue_audit fl audit db') (outbox-Evolves db _ _)
          (enqueue_audit-Evolves audit db') in
      elim (Bool-cases (is_encodable fl a.payload)) [ inl h ↦ rw h rest | inr h ↦ rw h tt ]

  pub enqueue_ready-Evolves :
      (trace : String) (ts : List (Task F)) (db : Db F)
      → Gives (λ d. d) db (enqueue_ready fl trace ts db)
  unfolding enqueue_ready
  enqueue_ready-Evolves trace [] db = Evolves-refl db
  enqueue_ready-Evolves trace (t ∷ ts) db =
      let enqueued =
        Gives-bind (λ d. d) (λ d. d) db
          (enqueue_task fl trace t.id t.expression_id t.op t.arg1_value t.arg2_value db) _
          (enqueue_task-Evolves trace t.id t.expression_id t.op t.arg1_value t.arg2_value db)
          (λ db'.
            Gives-from (λ d. d) db' (mark_task_ready t.id db') _ (mark_task_ready-Evolves t.id db')
              (enqueue_ready-Evolves trace ts (mark_task_ready t.id db'))) in
      let skipped = enqueue_ready-Evolves trace ts db in
      elim (Bool-cases (is_ready t)) [ inl h ↦ rw h enqueued | inr h ↦ rw h skipped ]
