-- ===== src/Persistent/Queries.antt =====
-- sqlcgen: every query that writes moves the rows of the tables forward.
use golang_service_architect.Common.{
  ℕ, ◌≤◌, ◌≡◌, refl, ap, Bool, true, false, List, arith, ◌==◌, ◌&&◌, String,
}
use golang_service_architect.Text.{Text}
use golang_service_architect.Expression.Task.{TaskStatus, Uuid}
use golang_service_architect.Messages.{ExpressionStatus}
use golang_service_architect.Persistent.Tables.{
  ExpressionRow, TaskRow, OutboxRow, Db, is_open, is_unfinished, is_pending, is_ready_or_running,
  is_waiting, completes, complete, fail, takes_arg1, fill_arg1, takes_arg2, fill_arg2,
  mark_task_ready, mark_task_running, mark_expression_in_progress, finalize_expression_done,
  finalize_expression_failed, complete_task, fail_task, fill_arg1_from_result,
  fill_arg2_from_result,
}
use golang_service_architect.Persistent.Evolution.{
  task_rank, expression_rank, TaskEvolves, ExpressionEvolves, Evolves, Evolves-refl, task-Evolves,
  expression-Evolves,
}

right_of : (a b : Bool) → (a && b) ≡ true → b ≡ true
right_of true b h = h
right_of false b h = cc

open-rank : (s : TaskStatus) → is_open s ≡ true → task_rank s ≤ 2
open-rank TaskStatus.pending h = omega arith
open-rank TaskStatus.ready h = omega arith
open-rank TaskStatus.running h = omega arith
open-rank TaskStatus.done h = cc
open-rank TaskStatus.failed h = cc

pending-open : (s : TaskStatus) → is_pending s ≡ true → (s ≡ TaskStatus.pending)
pending-open TaskStatus.pending h = refl
pending-open TaskStatus.ready h = cc
pending-open TaskStatus.running h = cc
pending-open TaskStatus.done h = cc
pending-open TaskStatus.failed h = cc

startable : (s : TaskStatus) → is_ready_or_running s ≡ true → is_open s ≡ true
startable TaskStatus.pending h = refl
startable TaskStatus.ready h = refl
startable TaskStatus.running h = refl
startable TaskStatus.done h = h
startable TaskStatus.failed h = h

unfinished-rank : (s : ExpressionStatus) → is_unfinished s ≡ true → expression_rank s ≤ 1
unfinished-rank ExpressionStatus.pending h = omega arith
unfinished-rank ExpressionStatus.in_progress h = omega arith
unfinished-rank ExpressionStatus.done h = cc
unfinished-rank ExpressionStatus.failed h = cc

waiting : (s : ExpressionStatus) → is_waiting s ≡ true → is_unfinished s ≡ true
waiting ExpressionStatus.pending h = refl
waiting ExpressionStatus.in_progress h = refl
waiting ExpressionStatus.done h = h
waiting ExpressionStatus.failed h = h

module _ {F : Type 0} where
  -- An open task may take any later status.
  reopen :
      (t t' : TaskRow F)
      → is_open t.status ≡ true
      → task_rank t.status ≤ task_rank t'.status
      → t'.id ≡ t.id
      → t'.op ≡ t.op
      → t'.arg1_task_id ≡ t.arg1_task_id
      → t'.arg2_task_id ≡ t.arg2_task_id
      → t'.is_root ≡ t.is_root
      → TaskEvolves t t'
  reopen t t' h r i o a b m = record {
    id = i;
    op = o;
    dep1 = a;
    dep2 = b;
    root = m;
    forward = r;
    frozen = λ f. cc;
  }

  reopen_expression :
      (e e' : ExpressionRow F)
      → is_unfinished e.status ≡ true
      → expression_rank e.status ≤ expression_rank e'.status
      → e'.id ≡ e.id
      → e'.raw ≡ e.raw
      → ExpressionEvolves e e'
  reopen_expression e e' h r i w = record { id = i; raw = w; forward = r; frozen = λ f. cc }

  pub complete_task-Evolves : (id : Uuid) (v : F) (db : Db F) → Evolves db (complete_task id v db).1
  complete_task-Evolves id v db = task-Evolves (completes id) (complete v) db λ t h.
      let o = right_of (t.id == id) (is_open t.status) h in
      let r = open-rank t.status o in
      reopen t (complete v t) o (omega arith) refl refl refl refl refl

  pub fail_task-Evolves : (id : Uuid) (db : Db F) → Evolves db (fail_task id db).1
  fail_task-Evolves id db = task-Evolves (completes id) fail db λ t h.
      let o = right_of (t.id == id) (is_open t.status) h in
      let r = open-rank t.status o in reopen t (fail t) o (omega arith) refl refl refl refl refl

  pub fill_arg1-Evolves :
      (id : Uuid) (v : F) (db : Db F) → Evolves db (fill_arg1_from_result id v db).1
  fill_arg1-Evolves id v db = task-Evolves (takes_arg1 id) (fill_arg1 v) db λ t h.
      let p = pending-open t.status (right_of _ (is_pending t.status) h) in
      reopen t (fill_arg1 v t) (ap is_open p) (omega arith) refl refl refl refl refl

  pub fill_arg2-Evolves :
      (id : Uuid) (v : F) (db : Db F) → Evolves db (fill_arg2_from_result id v db).1
  fill_arg2-Evolves id v db = task-Evolves (takes_arg2 id) (fill_arg2 v) db λ t h.
      let p = pending-open t.status (right_of _ (is_pending t.status) h) in
      reopen t (fill_arg2 v t) (ap is_open p) (omega arith) refl refl refl refl refl

  pub mark_task_ready-Evolves : (id : Uuid) (db : Db F) → Evolves db (mark_task_ready id db)
  mark_task_ready-Evolves id db = task-Evolves _ _ db λ t h.
      let p = pending-open t.status (right_of (t.id == id) (is_pending t.status) h) in
      let r = ap task_rank p in reopen t _ (ap is_open p) (omega arith) refl refl refl refl refl

  pub mark_task_running-Evolves :
      (id : Uuid) (worker : String) (attempt : ℕ) (db : Db F)
      → Evolves db (mark_task_running id worker attempt db)
  mark_task_running-Evolves id worker attempt db = task-Evolves _ _ db λ t h.
      let o = startable t.status (right_of (t.id == id) (is_ready_or_running t.status) h) in
      let r = open-rank t.status o in reopen t _ o (omega arith) refl refl refl refl refl

  pub in_progress-Evolves : (id : Uuid) (db : Db F) → Evolves db (mark_expression_in_progress id db)
  in_progress-Evolves id db = expression-Evolves _ _ db λ e h.
      let o = waiting e.status (right_of (e.id == id) (is_waiting e.status) h) in
      let r = unfinished-rank e.status o in reopen_expression e _ o (omega arith) refl refl

  pub finalize_done-Evolves :
      (id : Uuid) (v : F) (db : Db F) → Evolves db (finalize_expression_done id v db)
  finalize_done-Evolves id v db = expression-Evolves _ _ db λ e h.
      let o = right_of (e.id == id) (is_unfinished e.status) h in
      let r = unfinished-rank e.status o in reopen_expression e _ o (omega arith) refl refl

  pub finalize_failed-Evolves :
      (id : Uuid) (message : Text) (db : Db F)
      → Evolves db (finalize_expression_failed id message db)
  finalize_failed-Evolves id message db = expression-Evolves _ _ db λ e h.
      let o = right_of (e.id == id) (is_unfinished e.status) h in
      let r = unfinished-rank e.status o in reopen_expression e _ o (omega arith) refl refl

  -- The outbox is no part of what evolves.
  pub outbox-Evolves :
      (db : Db F) (outbox : List (OutboxRow F)) (next : ℕ)
      → Evolves db (record db { outbox = outbox; next_outbox = next })
  outbox-Evolves db outbox next =
      let same = Evolves-refl db in
      record { tasks = same.tasks; expressions = same.expressions; settled = same.settled }
