-- ===== src/Scheduler.antt =====
-- backend/internal/usecase/scheduler/scheduler.go: the outbox relay and the result fan-in, over the
-- store of repo.go. The notifier's calls are the list of events that an operation returns.
pub mod FanIn
pub mod Relay
pub mod Refusal
pub mod Stores
mod Tests
use Prim.Native.Nat.{min}
use golang_service_architect.Common.{
  ℕ, zero, suc, String, Option, none, some, List, [], ◌∷◌, Result, ok, err, ltb, if◌then◌else◌,
}
use golang_service_architect.Apperrors.{Error}
use golang_service_architect.Float64.{Float64}
use golang_service_architect.Expression.Task.{TaskStatus, Uuid}
use golang_service_architect.Messages.{
  task_status, TaskMessage, ResultKind, ResultMessage, Event, AuditEventType, Field, AuditMessage,
  new_audit,
}
use golang_service_architect.Persistent.Tables.{Payload, OutboxRow, Db, select_outbox_batch}
use golang_service_architect.Persistent.Enqueue.{Outside}
use golang_service_architect.Persistent.Repo.{
  apply_started, apply_result, apply_failure, relay_outbox, task_updated,
}

-- What `HandleResult` reads from outside: the traceparent and the trace id of its context, the ids
-- that `uuid.New` returns one after another, and the time.
pub record Surroundings : Type 0 where
  pub traceparent : String
  pub trace_id : String
  pub new_uuid : ℕ → Uuid
  pub now : ℕ

abbrev pub service_orchestrator : String
service_orchestrator = "orchestrator"

module _ {F : Type 0} where
  abbrev pub running_event : ResultMessage F → Event F
  running_event res = record {
    kind = task_updated;
    expression_id = res.expression_id;
    task_id = some res.task_id;
    status = task_status TaskStatus.running;
    result = none;
    error = [];
    worker_id = res.worker_id;
  }

  abbrev pub failure_audit : Surroundings → ResultMessage F → List (AuditMessage F)
  failure_audit out res =
      new_audit (out.new_uuid 0) out.now AuditEventType.task_failed service_orchestrator "task"
        res.task_id out.trace_id
        (("error", Field.text res.error) ∷ ("worker", Field.name res.worker_id) ∷ [])
      ∷ new_audit (out.new_uuid 1) out.now AuditEventType.expression_failed service_orchestrator
          "expression" res.expression_id out.trace_id (("error", Field.text res.error) ∷ [])
      ∷ []

  abbrev pub result_audit : Surroundings → ResultMessage F → List (AuditMessage F)
  result_audit out res =
      new_audit (out.new_uuid 0) out.now AuditEventType.task_done service_orchestrator "task"
        res.task_id out.trace_id
        (("result", Field.float res.result)
          ∷ ("worker", Field.name res.worker_id)
          ∷ ("compute_ms", Field.int res.compute_ms)
          ∷ [])
      ∷ []

module _ (fl : Float64) where
  open fl use {F}

  -- The switch of `HandleResult` on the kind of the message.
  unfoldable pub dispatch :
      Surroundings → ResultKind → ResultMessage F → Db F → Result Error (List (Event F)) × Db F
  unfolding apply_result apply_failure
  dispatch out ResultKind.started res db =
      (ok (running_event res ∷ []), apply_started res.task_id res.worker_id res.attempt db)
  dispatch out ResultKind.error res db = apply_failure fl res (failure_audit out res) db
  dispatch out _ res db =
      apply_result fl
        (record { traceparent = out.traceparent; audit_id = out.new_uuid 1; now = out.now }) res
        (result_audit out res) db

  -- `HandleResult`; the body is read by jsonx.
  unfoldable pub handle_result :
      Surroundings → Result Error (ResultMessage F) → Db F → Result Error (List (Event F)) × Db F
  unfolding dispatch
  handle_result out (err e) db = (err e, db)
  handle_result out (ok res) db = dispatch out res.kind res db

-- The broker's port: what it answers to one message, and its state.
pub record Publisher (F W : Type 0) : Type 0 where
  pub publish_task : TaskMessage F → String → W → Option Error × W
  pub publish_audit : AuditMessage F → String → W → Option Error × W

module _ {F W : Type 0} (port : Publisher F W) where
  -- One message; the traceparent is read from the payload, and an audit message has none. An
  -- unknown kind is dropped and counts as published.
  unfoldable pub publish : Payload F → W → Option Error × W
  publish (Payload.task msg trace) w = port.publish_task msg trace w
  publish (Payload.audit msg) w = port.publish_audit msg "" w
  publish (Payload.unknown kind) w = (none, w)

  -- An id is kept where the broker answered without an error.
  abbrev pub kept : ℕ → Option Error → List ℕ → List ℕ
  kept id none ids = id ∷ ids
  kept id (some e) ids = ids

  -- The callback of `relayOnce`: the ids of the rows that it got rid of.
  unfoldable pub publish_all : List (OutboxRow F) → W → List ℕ × W
  publish_all [] w = ([], w)
  publish_all (r ∷ rows) w =
      let (answer, w') = publish r.payload w in
      let (ids, w'') = publish_all rows w' in (kept r.id answer ids, w'')

  -- `relayOnce` with the relay's batch.
  unfoldable pub relay_once : ℕ → Db F → W → ℕ × Db F × W
  unfolding publish_all
  relay_once batch db w =
      let (n, db') = relay_outbox batch (λ rows. (publish_all rows w).0) db in
      (n, db', (publish_all (select_outbox_batch (min batch 4096) db) w).1)

  -- The inner loop of `RunOutboxRelay` on one tick, for at most so many rounds: `none` where it
  -- still runs.
  unfoldable pub drain : ℕ → ℕ → Db F → W → Option (Db F × W)
  unfolding relay_once
  drain zero batch db w = none
  drain (suc rounds) batch db w =
      let (n, db', w') = relay_once batch db w in
      let rest = drain rounds batch db' w' in if ltb n batch then some (db', w') else rest
