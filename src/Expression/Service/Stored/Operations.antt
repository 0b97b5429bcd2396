-- ===== src/Expression/Service/Stored/Operations.antt =====
-- repo.go: what the two operations behind a submission add to the tables.
use golang_service_architect.Common.{
  ◌≡◌, refl, sym, ap, ◌∙◌, subst, String, true, false, ◌&&◌, Option, none, some, List, [], ◌∷◌,
  ◌++◌, map, append-nil, ok, ◌>>=◌, Bool-cases, inl, inr, ◌==◌, ==_iff,
}
use golang_service_architect.Float64.{Float64}
use golang_service_architect.Text.{Text}
use golang_service_architect.Expression.Ast.{Op}
use golang_service_architect.Expression.Task.{Task, Uuid, is_ready}
use golang_service_architect.Messages.{ExpressionStatus, AuditMessage}
use golang_service_architect.Persistent.Tables.{
  ExpressionRow, Payload, Db, has_expression, mark_task_ready, finalize_expression_done,
  insert_outbox,
}
use golang_service_architect.Persistent.Enqueue.{
  Outside, within, task_row, is_encodable, insert_expression, insert_tasks, enqueue_task,
  enqueue_ready, enqueue_audit,
}
use golang_service_architect.Persistent.Repo.{
  create_expression, create_expression_tx, finalize_immediate, finalize_immediate_tx,
}
use golang_service_architect.Persistent.Values.Transactions.{OkAll, OkAll-bind, OkAll-within}
use golang_service_architect.Expression.Service.Stored.Tasks.{
  unstarted, IsStored, IsStored-same, mark_ready-IsStored, AddsTasks, insert_tasks-appends,
  finalize-new, in_tx-ok,
}

module _ (fl : Float64) where
  open fl use {F, is_finite}

  module _ (db : Db F) (e : ExpressionRow F) (tasks : List (Task F)) where
    pub enqueue_audit-IsStored :
        (audit : List (AuditMessage F)) (a : Db F)
        → IsStored db e tasks a
        → OkAll (IsStored db e tasks) (enqueue_audit fl audit a)
    unfolding enqueue_audit
    enqueue_audit-IsStored [] a s = s
    enqueue_audit-IsStored (m ∷ audit) a s = elim (Bool-cases (is_encodable fl m.payload)) [
      | inr h ↦ rw (enqueue_audit, h) tt
      | inl h ↦
          let b = insert_outbox (Payload.audit m) a in
          rw (enqueue_audit, h)
            (enqueue_audit-IsStored audit b (IsStored-same db e tasks a b refl refl s))
    ]

    pub enqueue_task-IsStored :
        (trace : String) (id expr : Uuid) (op : Op) (x y : Option F) (a : Db F)
        → IsStored db e tasks a
        → OkAll (IsStored db e tasks) (enqueue_task fl trace id expr op x y a)
    unfolding enqueue_task
    enqueue_task-IsStored trace id expr op none y a s = tt
    enqueue_task-IsStored trace id expr op (some x) none a s = tt
    enqueue_task-IsStored trace id expr op (some x) (some y) a s =
        elim (Bool-cases (is_finite x && is_finite y)) [
          | inr h ↦ rw h tt
          | inl h ↦ rw h (IsStored-same db e tasks a (insert_outbox _ a) refl refl s)
        ]

    pub enqueue_ready-IsStored :
        (trace : String) (ts : List (Task F)) (a : Db F)
        → IsStored db e tasks a
        → OkAll (IsStored db e tasks) (enqueue_ready fl trace ts a)
    unfolding enqueue_ready
    enqueue_ready-IsStored trace [] a s = s
    enqueue_ready-IsStored trace (t ∷ ts) a s = elim (Bool-cases (is_ready t)) [
      | inr h ↦ rw h (enqueue_ready-IsStored trace ts a s)
      | inl h ↦ rw h (
          OkAll-bind (IsStored db e tasks) (IsStored db e tasks)
            (enqueue_task fl trace t.id t.expression_id t.op t.arg1_value t.arg2_value a) _
            (enqueue_task-IsStored trace t.id t.expression_id t.op t.arg1_value t.arg2_value a s)
            (λ b s'.
              enqueue_ready-IsStored trace ts (mark_task_ready t.id b)
                (mark_ready-IsStored db e tasks t.id b s')))
    ]

    pub audited-IsStored :
        (audit : List (AuditMessage F)) (a : Db F)
        → IsStored db e tasks a
        → OkAll
            (λ (s : Unit {0} × Db F). IsStored db e tasks s.1)
            (enqueue_audit fl audit a >>= λ b. ok (tt, b))
    audited-IsStored audit a s =
        OkAll-bind (IsStored db e tasks) (λ (s : Unit {0} × Db F). IsStored db e tasks s.1)
          (enqueue_audit fl audit a) _ (enqueue_audit-IsStored audit a s) (λ b h. h)

  -- The columns of a new expression.
  abbrev pub new_row : Uuid → Text → String → ExpressionRow F
  new_row id raw trace = record {
    id = id;
    raw = raw;
    status = ExpressionStatus.pending;
    result = none;
    error = none;
    trace_id = trace;
  }

  abbrev pub AddsExpression : Uuid → Text → String → Db F → Db F → Type 0
  AddsExpression id raw trace db a =
      (has_expression id db.expressions ≡ false)
      × (a ≡ record db { expressions = db.expressions ++ new_row id raw trace ∷ [] })

  pub insert_expression-appends :
      (id : Uuid) (raw : Text) (trace : String) (db : Db F)
      → OkAll (AddsExpression id raw trace db) (insert_expression id raw trace db)
  unfolding insert_expression
  insert_expression-appends id raw trace db = elim (Bool-cases (has_expression id db.expressions)) [
    | inl h ↦ rw h tt
    | inr h ↦ rw h (h, refl)
  ]

  pub create_expression-IsStored :
      (out : Outside) (id : Uuid) (raw : Text) (trace : String) (tasks : List (Task F))
      (audit : List (AuditMessage F)) (db : Db F)
      → (create_expression fl out id raw trace tasks audit db).0 ≡ ok tt
      → IsStored db
          (new_row id raw trace)
          tasks
          (create_expression fl out id raw trace tasks audit db).1
  unfolding create_expression create_expression_tx
  create_expression-IsStored out id raw trace tasks audit db fine =
      let e = new_row id raw trace in
      in_tx-ok (IsStored db e tasks) (create_expression_tx fl out id raw trace tasks audit) db tt
        fine
        (OkAll-bind (AddsExpression id raw trace db) _
          (within "insert expression" (insert_expression id raw trace db)) _
          (OkAll-within (AddsExpression id raw trace db) "insert expression" _
            (insert_expression-appends id raw trace db))
          (λ a (fresh, appended).
            OkAll-bind (AddsTasks tasks a) _ (insert_tasks tasks a) _ (insert_tasks-appends tasks a)
              (λ b (same, rows).
                let stored : IsStored db e tasks b = record {
                  expressions = same ∙ ap (λ d. d.expressions) appended;
                  tasks =
                      ap (map unstarted)
                        (rows ∙ ap (λ (d : Db F). d.tasks ++ map task_row tasks) appended);
                } in
                OkAll-bind (IsStored db e tasks) _ (enqueue_ready fl out.traceparent tasks b) _
                  (enqueue_ready-IsStored db e tasks out.traceparent tasks b stored)
                  (λ c s. audited-IsStored db e tasks audit c s))))

  pub finalize_immediate-IsStored :
      (id : Uuid) (raw : Text) (trace : String) (v : F) (audit : List (AuditMessage F)) (db : Db F)
      → (finalize_immediate fl id raw trace v audit db).0 ≡ ok tt
      → IsStored db
          (record (new_row id raw trace) { status = ExpressionStatus.done; result = some v })
          []
          (finalize_immediate fl id raw trace v audit db).1
  unfolding finalize_immediate finalize_immediate_tx
  finalize_immediate-IsStored id raw trace v audit db fine =
      let e = record (new_row id raw trace) { status = ExpressionStatus.done; result = some v } in
      in_tx-ok (IsStored db e []) (finalize_immediate_tx fl id raw trace v audit) db tt fine (
        OkAll-bind (AddsExpression id raw trace db) _ (insert_expression id raw trace db) _
          (insert_expression-appends id raw trace db)
          (λ a (fresh, appended). audited-IsStored db e [] audit (finalize_expression_done id v a) (
            subst (λ d. IsStored db e [] (finalize_expression_done id v d)) (sym appended)
              (record {
                expressions =
                    finalize-new id _ (new_row id raw trace) db.expressions fresh (open_ id);
                tasks = ap (map unstarted) (sym (append-nil db.tasks));
              }))))
    where
      open_ : (i : Uuid) → (i == i && true) ≡ true
      open_ i = let same : (i == i) ≡ true = (==_iff i i).1 refl in rw same refl
