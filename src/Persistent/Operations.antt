-- ===== src/Persistent/Operations.antt =====
-- repo.go: every transaction moves the rows of the tables forward.
use Prim.Native.Nat.{min}
use golang_service_architect.Common.{
  ℕ, Bool, true, false, inl, inr, Bool-cases, none, some, List, [], ◌∷◌, ◌++◌, ok, ◌>>=◌, String,
}
use golang_service_architect.Common.Int.{is_zero_ℤ}
use golang_service_architect.Float64.{Float64}
use golang_service_architect.Text.{Text}
use golang_service_architect.Expression.Task.{Task, TaskStatus, Uuid}
use golang_service_architect.Messages.{ExpressionStatus, ResultMessage, Event, AuditMessage}
use golang_service_architect.Persistent.Tables.{
  TaskRow, OutboxRow, Db, complete_task, fail_task, mark_task_ready, fill_arg1_from_result,
  fill_arg2_from_result, mark_expression_in_progress, finalize_expression_done,
  finalize_expression_failed, select_outbox_batch,
}
use golang_service_architect.Persistent.Enqueue.{
  within, Outside, insert_expression, insert_tasks, enqueue_task, enqueue_audit, enqueue_ready,
}
use golang_service_architect.Persistent.Repo.{
  create_expression_tx, create_expression, finalize_immediate_tx, finalize_immediate, task_event,
  done_audit, on_completed, on_failed, expression_event, unlock_ready_dependents, finish_result,
  fan_in, apply_result_tx, apply_result, apply_failure_tx, apply_failure, relay_rows, relay_outbox,
}
use golang_service_architect.Persistent.Evolution.{Evolves, Evolves-refl}
use golang_service_architect.Persistent.Queries.{
  complete_task-Evolves, fail_task-Evolves, fill_arg1-Evolves, fill_arg2-Evolves,
  mark_task_ready-Evolves, in_progress-Evolves, finalize_done-Evolves, finalize_failed-Evolves,
  outbox-Evolves,
}
use golang_service_architect.Persistent.Inserts.{
  Gives, Gives-bind, Gives-from, in_tx-Evolves, within-Evolves, insert_expression-Evolves,
  insert_tasks-Evolves, enqueue_task-Evolves, enqueue_audit-Evolves, enqueue_ready-Evolves,
}

module _ (fl : Float64) where
  open fl use {F, is_finite}

  audited :
      {A : Type 0} (a : A) (audit : List (AuditMessage F)) (db : Db F)
      → Gives (λ (s : A × Db F). s.1) db (enqueue_audit fl audit db >>= λ db'. ok (a, db'))
  audited a audit db =
      Gives-bind (λ d. d) (λ s. s.1) db (enqueue_audit fl audit db) _
        (enqueue_audit-Evolves fl audit db) Evolves-refl

  create_expression_tx-Evolves :
      (out : Outside) (id : Uuid) (raw : Text) (trace : String) (tasks : List (Task F))
      (audit : List (AuditMessage F)) (db : Db F)
      → Gives (λ s. s.1) db (create_expression_tx fl out id raw trace tasks audit db)
  unfolding create_expression_tx
  create_expression_tx-Evolves out id raw trace tasks audit db =
      Gives-bind (λ d. d) (λ s. s.1) db
        (within "insert expression" (insert_expression id raw trace db)) _
        (within-Evolves "insert expression" db (insert_expression id raw trace db)
          (insert_expression-Evolves id raw trace db))
        λ db₁.
          Gives-bind (λ d. d) (λ s. s.1) db₁ (insert_tasks tasks db₁) _
            (insert_tasks-Evolves tasks db₁)
            λ db₂.
              Gives-bind (λ d. d) (λ s. s.1) db₂ (enqueue_ready fl out.traceparent tasks db₂) _
                (enqueue_ready-Evolves fl out.traceparent tasks db₂) (audited tt audit)

  pub create_expression-Evolves :
      (out : Outside) (id : Uuid) (raw : Text) (trace : String) (tasks : List (Task F))
      (audit : List (AuditMessage F)) (db : Db F)
      → Evolves db (create_expression fl out id raw trace tasks audit db).1
  unfolding create_expression
  create_expression-Evolves out id raw trace tasks audit db =
      in_tx-Evolves (create_expression_tx fl out id raw trace tasks audit) db
        (create_expression_tx-Evolves out id raw trace tasks audit db)

  finalize_immediate_tx-Evolves :
      (id : Uuid) (raw : Text) (trace : String) (v : F) (audit : List (AuditMessage F)) (db : Db F)
      → Gives (λ s. s.1) db (finalize_immediate_tx fl id raw trace v audit db)
  unfolding finalize_immediate_tx
  finalize_immediate_tx-Evolves id raw trace v audit db =
      Gives-bind (λ d. d) (λ s. s.1) db (insert_expression id raw trace db) _
        (insert_expression-Evolves id raw trace db)
        λ db₁.
          Gives-from (λ s. s.1) db₁ (finalize_expression_done id v db₁) _
            (finalize_done-Evolves id v db₁) (audited tt audit (finalize_expression_done id v db₁))

  pub finalize_immediate-Evolves :
      (id : Uuid) (raw : Text) (trace : String) (v : F) (audit : List (AuditMessage F)) (db : Db F)
      → Evolves db (finalize_immediate fl id raw trace v audit db).1
  unfolding finalize_immediate
  finalize_immediate-Evolves id raw trace v audit db =
      in_tx-Evolves (finalize_immediate_tx fl id raw trace v audit) db
        (finalize_immediate_tx-Evolves id raw trace v audit db)

  unlock-Evolves :
      (trace : String) (expr_id : Uuid) (deps : List (TaskRow F)) (db : Db F)
      → Gives (λ s. s.1) db (unlock_ready_dependents fl trace expr_id deps db)
  unfolding unlock_ready_dependents
  unlock-Evolves trace expr_id [] db = Evolves-refl db
  unlock-Evolves trace expr_id (d ∷ deps) db = elim (Bool-cases (is_zero_ℤ d.unmet_deps)) [
    | inl h ↦ rw h (
        Gives-bind (λ d. d) (λ s. s.1) db
          (enqueue_task fl trace d.id expr_id d.op d.arg1_value d.arg2_value db) _
          (enqueue_task-Evolves fl trace d.id expr_id d.op d.arg1_value d.arg2_value db)
          (λ db₁.
            Gives-from (λ s. s.1) db₁ (mark_task_ready d.id db₁) _
              (mark_task_ready-Evolves d.id db₁)
              (Gives-bind (λ s. s.1) (λ s. s.1) (mark_task_ready d.id db₁) _ _
                (unlock-Evolves trace expr_id deps (mark_task_ready d.id db₁))
                (λ s. Evolves-refl s.1))))
    | inr h ↦ rw h (unlock-Evolves trace expr_id deps db)
  ]

  finish_result-Evolves :
      (out : Outside) (res : ResultMessage F) (is_root : Bool) (events : List (Event F))
      (audit : List (AuditMessage F)) (db : Db F)
      → Gives (λ s. s.1) db (finish_result fl out res is_root events audit db)
  unfolding finish_result
  finish_result-Evolves out res true events audit db =
      Gives-from (λ s. s.1) db (finalize_expression_done res.expression_id res.result db) _
        (finalize_done-Evolves res.expression_id res.result db)
        (audited
          (events
            ++ expression_event fl res.expression_id ExpressionStatus.done (some res.result) []
              ∷ [])
          (audit ++ done_audit fl out res ∷ [])
          (finalize_expression_done res.expression_id res.result db))
  finish_result-Evolves out res false events audit db = audited events audit db

  fan_in-Evolves :
      (out : Outside) (res : ResultMessage F) (audit : List (AuditMessage F)) (is_root : Bool)
      (db : Db F)
      → Gives (λ s. s.1) db (fan_in fl out res audit is_root db)
  unfolding fan_in
  fan_in-Evolves out res audit is_root db =
      let a = mark_expression_in_progress res.expression_id db in
      let b = (fill_arg1_from_result res.task_id res.result a).1 in
      let c = (fill_arg2_from_result res.task_id res.result b).1 in
      Gives-from (λ s. s.1) db a _ (in_progress-Evolves res.expression_id db)
        (Gives-from (λ s. s.1) a b _ (fill_arg1-Evolves res.task_id res.result a)
          (Gives-from (λ s. s.1) b c _ (fill_arg2-Evolves res.task_id res.result b)
            (Gives-bind (λ s. s.1) (λ s. s.1) c _ _
              (unlock-Evolves out.traceparent res.expression_id
                ((fill_arg1_from_result res.task_id res.result a).0
                  ++ (fill_arg2_from_result res.task_id res.result b).0)
                c)
              (λ s. finish_result-Evolves out res is_root _ audit s.1))))

  pub on_completed-Evolves :
      (out : Outside) (res : ResultMessage F) (audit : List (AuditMessage F))
      (rows : List (TaskRow F)) (db : Db F)
      → Gives (λ s. s.1) db (on_completed fl out res audit rows db)
  unfolding on_completed
  on_completed-Evolves out res audit [] db = Evolves-refl db
  on_completed-Evolves out res audit (t ∷ rows) db = fan_in-Evolves out res audit t.is_root db

  pub on_failed-Evolves :
      (res : ResultMessage F) (audit : List (AuditMessage F)) (rows : List (TaskRow F)) (db : Db F)
      → Gives (λ s. s.1) db (on_failed fl res audit rows db)
  unfolding on_failed
  on_failed-Evolves res audit [] db = Evolves-refl db
  on_failed-Evolves res audit (t ∷ rows) db =
      Gives-from (λ s. s.1) db (finalize_expression_failed res.expression_id res.error db) _
        (finalize_failed-Evolves res.expression_id res.error db)
        (audited
          (task_event fl res TaskStatus.failed none res.error
            ∷ expression_event fl res.expression_id ExpressionStatus.failed none res.error
            ∷ [])
          audit (finalize_expression_failed res.expression_id res.error db))

  pub apply_result-Evolves :
      (out : Outside) (res : ResultMessage F) (audit : List (AuditMessage F)) (db : Db F)
      → Evolves db (apply_result fl out res audit db).1
  unfolding apply_result apply_result_tx
  apply_result-Evolves out res audit db = in_tx-Evolves (apply_result_tx fl out res audit) db (
      Gives-from (λ s. s.1) db (complete_task res.task_id res.result db).1 _
        (complete_task-Evolves res.task_id res.result db)
        (on_completed-Evolves out res audit (complete_task res.task_id res.result db).0
          (complete_task res.task_id res.result db).1))

  pub apply_failure-Evolves :
      (res : ResultMessage F) (audit : List (AuditMessage F)) (db : Db F)
      → Evolves db (apply_failure fl res audit db).1
  unfolding apply_failure apply_failure_tx
  apply_failure-Evolves res audit db = in_tx-Evolves (apply_failure_tx fl res audit) db (
      Gives-from (λ s. s.1) db (fail_task res.task_id db).1 _ (fail_task-Evolves res.task_id db)
        (on_failed-Evolves res audit (fail_task res.task_id db).0 (fail_task res.task_id db).1))

pub relay_outbox-Evolves :
    {F : Type 0} (limit : ℕ) (publish : List (OutboxRow F) → List ℕ) (db : Db F)
    → Evolves db (relay_outbox limit publish db).1
relay_outbox-Evolves limit publish db = relayed (select_outbox_batch (min limit 4096) db)
  where
    relayed : (rows : List (OutboxRow _)) → Evolves db (relay_rows rows publish db).1
    relayed [] = Evolves-refl db
    relayed (r ∷ rows) = outbox-Evolves db _ _
