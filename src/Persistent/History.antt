-- ===== src/Persistent/History.antt =====
-- The life of the main database: the operations of repo.go in any order and number, from the
-- services that share it.
use golang_service_architect.Common.{ℕ, Bool, List, String}
use golang_service_architect.Float64.{Float64}
use golang_service_architect.Text.{Text}
use golang_service_architect.Expression.Task.{Task, Uuid}
use golang_service_architect.Messages.{ResultMessage, AuditMessage}
use golang_service_architect.Persistent.Tables.{OutboxRow, Db}
use golang_service_architect.Persistent.Enqueue.{Outside}
use golang_service_architect.Persistent.Repo.{
  create_expression, finalize_immediate, apply_started, apply_result, apply_failure, relay_outbox,
}
use golang_service_architect.Persistent.Reads.{prune_outbox}
use golang_service_architect.Persistent.Evolution.{
  Extends-refl, TaskEvolves, TaskEvolves-refl, ExpressionEvolves, ExpressionEvolves-refl, Evolves,
  Evolves-refl, Evolves-trans,
}
use golang_service_architect.Persistent.Queries.{mark_task_running-Evolves}
use golang_service_architect.Persistent.Operations.{
  create_expression-Evolves, finalize_immediate-Evolves, apply_result-Evolves,
  apply_failure-Evolves, relay_outbox-Evolves,
}

prune_outbox-Evolves :
    {F : Type 0} (is_old : OutboxRow F → Bool) (db : Db F) → Evolves db (prune_outbox is_old db).1
unfolding prune_outbox
prune_outbox-Evolves is_old db = record {
  tasks = Extends-refl TaskEvolves TaskEvolves-refl db.tasks;
  expressions = Extends-refl ExpressionEvolves ExpressionEvolves-refl db.expressions;
  settled = λ id h. h;
}

module _ (fl : Float64) where
  open fl use {F}

  -- One operation of the orchestrator on the database.
  pub data Step : Db F → Db F → Type 0 where
    created :
        (out : Outside) (id : Uuid) (raw : Text) (trace : String) (tasks : List (Task F))
        (audit : List (AuditMessage F)) {db : Db F}
        → Step db (create_expression fl out id raw trace tasks audit db).1
    finalized :
        (id : Uuid) (raw : Text) (trace : String) (v : F) (audit : List (AuditMessage F))
        {db : Db F}
        → Step db (finalize_immediate fl id raw trace v audit db).1
    started :
        (id : Uuid) (worker : String) (attempt : ℕ) {db : Db F}
        → Step db (apply_started id worker attempt db)
    result :
        (out : Outside) (res : ResultMessage F) (audit : List (AuditMessage F)) {db : Db F}
        → Step db (apply_result fl out res audit db).1
    failure :
        (res : ResultMessage F) (audit : List (AuditMessage F)) {db : Db F}
        → Step db (apply_failure fl res audit db).1
    relayed :
        (limit : ℕ) (publish : List (OutboxRow F) → List ℕ) {db : Db F}
        → Step db (relay_outbox limit publish db).1
    pruned : (is_old : OutboxRow F → Bool) {db : Db F} → Step db (prune_outbox is_old db).1

  -- Any number of operations, one behind the other: each is one transaction.
  pub data Reach : Db F → Db F → Type 0 where
    done : {db : Db F} → Reach db db
    next : {a b c : Db F} → Step a b → Reach b c → Reach a c

  Step-Evolves : {a b : Db F} → Step a b → Evolves a b
  Step-Evolves (created out id raw trace tasks audit {db}) =
      create_expression-Evolves fl out id raw trace tasks audit db
  Step-Evolves (finalized id raw trace v audit {db}) =
      finalize_immediate-Evolves fl id raw trace v audit db
  Step-Evolves (started id worker attempt {db}) = mark_task_running-Evolves id worker _ db
  Step-Evolves (result out res audit {db}) = apply_result-Evolves fl out res audit db
  Step-Evolves (failure res audit {db}) = apply_failure-Evolves fl res audit db
  Step-Evolves (relayed limit publish {db}) = relay_outbox-Evolves limit publish db
  Step-Evolves (pruned is_old {db}) = prune_outbox-Evolves is_old db

  -- Over any sequence of operations of the store, every row of a task or of an expression stays at
  -- its place with its identity, its status only moves forward, and a row that is done or failed
  -- does not change at all; a task that is settled stays settled, and no second row gets its id.
  pub Reach-Evolves : {a b : Db F} → Reach a b → Evolves a b
  Reach-Evolves (done {db}) = Evolves-refl db
  Reach-Evolves (next {a} {b} {c} s r) = Evolves-trans a b c (Step-Evolves s) (Reach-Evolves r)
