-- ===== src/Persistent/Repo.antt =====
-- repo.go: the operations of the two stores, `expression.Store` and `scheduler.Store`.
use Prim.Native.Nat.{min}
use golang_service_architect.Common.{
  ℕ, ◌^◌, String, Bool, true, false, Option, none, some, List, [], ◌∷◌, ◌++◌, length, Result, ok,
  ◌>>=◌, if◌then◌else◌,
}
use golang_service_architect.Common.Int.{is_zero_ℤ}
use golang_service_architect.Apperrors.{Error}
use golang_service_architect.Float64.{Float64}
use golang_service_architect.Expression.Task.{Task, TaskStatus, Uuid}
use golang_service_architect.Text.{Text}
use golang_service_architect.Messages.{
  ExpressionStatus, expression_status, task_status, ResultMessage, Event, AuditEventType, Field,
  AuditMessage, new_audit,
}
use golang_service_architect.Persistent.Tables.{
  TaskRow, OutboxRow, Db, complete_task, fail_task, mark_task_ready, mark_task_running,
  fill_arg1_from_result, fill_arg2_from_result, mark_expression_in_progress,
  finalize_expression_done, finalize_expression_failed, select_outbox_batch, mark_outbox_published,
}
use golang_service_architect.Persistent.Enqueue.{
  in_tx, within, Outside, insert_expression, insert_tasks, enqueue_task, enqueue_audit,
  enqueue_ready,
}

abbrev pub task_updated : String
task_updated = "task.updated"

abbrev pub expression_updated : String
expression_updated = "expression.updated"

module _ (fl : Float64) where
  open fl use {F, is_finite}

  -- `CreateExpression`
  unfoldable pub create_expression_tx :
      Outside
      → Uuid
      → Text
      → String
      → List (Task F)
      → List (AuditMessage F)
      → Db F
      → Result Error (Unit {0} × Db F)
  unfolding insert_expression insert_tasks enqueue_ready enqueue_audit
  create_expression_tx out id raw trace tasks audit db = do
    db₁ ← within "insert expression" (insert_expression id raw trace db)
    db₂ ← insert_tasks tasks db₁
    db₃ ← enqueue_ready fl out.traceparent tasks db₂
    db₄ ← enqueue_audit fl audit db₃
    ok (tt, db₄)

  unfoldable pub create_expression :
      Outside
      → Uuid
      → Text
      → String
      → List (Task F)
      → List (AuditMessage F)
      → Db F
      → Result Error (Unit {0}) × Db F
  unfolding create_expression_tx
  create_expression out id raw trace tasks audit =
      in_tx (create_expression_tx out id raw trace tasks audit)

  -- `FinalizeImmediate`
  unfoldable pub finalize_immediate_tx :
      Uuid → Text → String → F → List (AuditMessage F) → Db F → Result Error (Unit {0} × Db F)
  unfolding insert_expression enqueue_audit
  finalize_immediate_tx id raw trace v audit db = do
    db₁ ← insert_expression id raw trace db
    db₂ ← enqueue_audit fl audit (finalize_expression_done id v db₁)
    ok (tt, db₂)

  unfoldable pub finalize_immediate :
      Uuid → Text → String → F → List (AuditMessage F) → Db F → Result Error (Unit {0}) × Db F
  unfolding finalize_immediate_tx
  finalize_immediate id raw trace v audit = in_tx (finalize_immediate_tx id raw trace v audit)

  abbrev pub task_event : ResultMessage F → TaskStatus → Option F → Text → Event F
  task_event res status v message = record {
    kind = task_updated;
    expression_id = res.expression_id;
    task_id = some res.task_id;
    status = task_status status;
    result = v;
    error = message;
    worker_id = res.worker_id;
  }

  abbrev pub expression_event : Uuid → ExpressionStatus → Option F → Text → Event F
  expression_event id status v message = record {
    kind = expression_updated;
    expression_id = id;
    task_id = none;
    status = expression_status status;
    result = v;
    error = message;
    worker_id = "";
  }

  abbrev pub ready_event : Uuid → Uuid → Event F
  ready_event expr_id id = record {
    kind = task_updated;
    expression_id = expr_id;
    task_id = some id;
    status = task_status TaskStatus.ready;
    result = none;
    error = [];
    worker_id = "";
  }

  -- `unlockReadyDependents`
  unfoldable pub unlock_ready_dependents :
      String → Uuid → List (TaskRow F) → Db F → Result Error (List (Event F) × Db F)
  unfolding enqueue_task
  unlock_ready_dependents trace expr_id [] db = ok ([], db)
  unlock_ready_dependents trace expr_id (d ∷ deps) db =
      let unlocked = enqueue_task fl trace d.id expr_id d.op d.arg1_value d.arg2_value db >>= λ db₁.
      unlock_ready_dependents trace expr_id deps (mark_task_ready d.id db₁) >>= λ (events, db₂).
      ok (ready_event expr_id d.id ∷ events, db₂) in
      let skipped = unlock_ready_dependents trace expr_id deps db in
      if is_zero_ℤ d.unmet_deps then unlocked else skipped

  -- The audit message of a finished expression.
  abbrev pub done_audit : Outside → ResultMessage F → AuditMessage F
  done_audit out res =
      new_audit out.audit_id out.now AuditEventType.expression_done "orchestrator" "expression"
        res.expression_id "" (("result", Field.float res.result) ∷ [])

  -- The end of `ApplyResult` behind the fan-in, for the root and for another task.
  unfoldable pub finish_result :
      Outside
      → ResultMessage F
      → Bool
      → List (Event F)
      → List (AuditMessage F)
      → Db F
      → Result Error (List (Event F) × Db F)
  unfolding enqueue_audit
  finish_result out res true events audit db = do
    db' ←
        enqueue_audit fl (audit ++ done_audit out res ∷ [])
          (finalize_expression_done res.expression_id res.result db)
    ok (
      events ++ expression_event res.expression_id ExpressionStatus.done (some res.result) [] ∷ [],
      db',
    )
  finish_result out res false events audit db = do db' ← enqueue_audit fl audit db; ok (events, db')

  -- `ApplyResult` once `CompleteTask` has returned its row.
  unfoldable pub fan_in :
      Outside
      → ResultMessage F
      → List (AuditMessage F)
      → Bool
      → Db F
      → Result Error (List (Event F) × Db F)
  unfolding unlock_ready_dependents finish_result
  fan_in out res audit is_root db = do
    let (dep1, db₁) =
        fill_arg1_from_result res.task_id res.result
          (mark_expression_in_progress res.expression_id db)
    let (dep2, db₂) = fill_arg2_from_result res.task_id res.result db₁
    (events, db₃) ← unlock_ready_dependents out.traceparent res.expression_id (dep1 ++ dep2) db₂
    finish_result out res is_root (task_event res TaskStatus.done (some res.result) [] ∷ events)
        audit db₃

  -- What follows `CompleteTask`; no row is a duplicate result, a no-op.
  unfoldable pub on_completed :
      Outside
      → ResultMessage F
      → List (AuditMessage F)
      → List (TaskRow F)
      → Db F
      → Result Error (List (Event F) × Db F)
  unfolding fan_in
  on_completed out res audit [] db = ok ([], db)
  on_completed out res audit (t ∷ _) db = fan_in out res audit t.is_root db

  unfoldable pub apply_result_tx :
      Outside
      → ResultMessage F
      → List (AuditMessage F)
      → Db F
      → Result Error (List (Event F) × Db F)
  unfolding on_completed
  apply_result_tx out res audit db =
      let (rows, db') = complete_task res.task_id res.result db in
      on_completed out res audit rows db'

  -- `ApplyResult`
  unfoldable pub apply_result :
      Outside
      → ResultMessage F
      → List (AuditMessage F)
      → Db F
      → Result Error (List (Event F)) × Db F
  unfolding apply_result_tx
  apply_result out res audit = in_tx (apply_result_tx out res audit)

  -- What follows `FailTask`; no row is a task that is already settled.
  unfoldable pub on_failed :
      ResultMessage F
      → List (AuditMessage F)
      → List (TaskRow F)
      → Db F
      → Result Error (List (Event F) × Db F)
  unfolding enqueue_audit
  on_failed res audit [] db = ok ([], db)
  on_failed res audit (_ ∷ _) db = do
    db' ← enqueue_audit fl audit (finalize_expression_failed res.expression_id res.error db)
    ok (
      task_event res TaskStatus.failed none res.error
          ∷ expression_event res.expression_id ExpressionStatus.failed none res.error
          ∷ [],
      db',
    )

  unfoldable pub apply_failure_tx :
      ResultMessage F → List (AuditMessage F) → Db F → Result Error (List (Event F) × Db F)
  unfolding on_failed
  apply_failure_tx res audit db =
      let (rows, db') = fail_task res.task_id db in on_failed res audit rows db'

  -- `ApplyFailure`
  unfoldable pub apply_failure :
      ResultMessage F → List (AuditMessage F) → Db F → Result Error (List (Event F)) × Db F
  unfolding apply_failure_tx
  apply_failure res audit = in_tx (apply_failure_tx res audit)

-- `ApplyStarted`
abbrev pub apply_started : {F : Type 0} → Uuid → String → ℕ → Db F → Db F
apply_started id worker attempt db = mark_task_running id worker (min attempt (2 ^ 20)) db

-- The transaction of `RelayOutbox` with the claimed rows: `publish` returns the ids of those that
-- it got rid of.
abbrev pub relay_rows :
    {F : Type 0} → List (OutboxRow F) → (List (OutboxRow F) → List ℕ) → Db F → ℕ × Db F
relay_rows [] publish db = (0, db)
relay_rows (r ∷ rows) publish db =
    (length (r ∷ rows), mark_outbox_published (publish (r ∷ rows)) db)

-- `RelayOutbox`
abbrev pub relay_outbox : {F : Type 0} → ℕ → (List (OutboxRow F) → List ℕ) → Db F → ℕ × Db F
relay_outbox limit publish db = relay_rows (select_outbox_batch (min limit 4096) db) publish db
