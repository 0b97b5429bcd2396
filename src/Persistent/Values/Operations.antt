-- ===== src/Persistent/Values/Operations.antt =====
-- repo.go: every operation keeps the tables right, if what it is given is.
use golang_service_architect.Common.{
  ◌≡◌, sym, ap, ◌∙◌, Bool, true, false, List, [], ◌∷◌, ◌++◌, ok, All, All-append, ◌==◌, ==_iff,
  subst,
}
use golang_service_architect.Float64.{Float64}
use golang_service_architect.Expression.Task.{Uuid, TaskStatus}
use golang_service_architect.Messages.{ResultMessage, Event, AuditMessage}
use golang_service_architect.Persistent.Tables.{
  TaskRow, Db, is_open, completes, complete, fail, takes_arg1, takes_arg2, fill_arg1, fill_arg2,
  complete_task, fail_task, fill_arg1_from_result, fill_arg2_from_result,
  mark_expression_in_progress, finalize_expression_done, finalize_expression_failed,
}
use golang_service_architect.Persistent.Enqueue.{Outside}
use golang_service_architect.Persistent.Repo.{
  finish_result, fan_in, on_completed, apply_result_tx, apply_result, on_failed, apply_failure_tx,
  apply_failure, done_audit,
}
use golang_service_architect.Persistent.Values.{Meaning, IsRootOf, IsRight}
use golang_service_architect.Persistent.Values.Rows.{
  and_left, updated-All, complete-IsRight, fill_arg1-IsRight, fill_arg2-IsRight, status-IsRight,
  tasks-AreRight, expressions-AreRight, finalize_done-AreRight,
}
use golang_service_architect.Persistent.Values.Transactions.{
  OkAll, OkAll-bind, Right, in_tx-AreRight, audited-AreRight, unlock-AreRight,
}

module _ (fl : Float64) (meaning : Meaning fl.F) where
  open fl use {F, is_finite}
  open meaning use {task_value, expression_of, expression_value}

  -- A reply gives the value of its task, and names the task's expression.
  pub record IsHonest (res : ResultMessage F) : Type 0 where
    pub value : task_value res.task_id ≡ ok res.result
    pub expression : res.expression_id ≡ expression_of res.task_id

  finish_result-AreRight :
      (out : Outside) (res : ResultMessage F) (is_root : Bool) (events : List (Event F))
      (audit : List (AuditMessage F)) (db : Db F)
      → IsHonest res
      → IsRootOf fl meaning res.task_id is_root
      → Right fl meaning db
      → OkAll (λ s. Right fl meaning s.1) (finish_result fl out res is_root events audit db)
  unfolding finish_result
  finish_result-AreRight out res true events audit db honest root r =
      audited-AreRight fl meaning _ (audit ++ done_audit fl out res ∷ [])
        (finalize_expression_done res.expression_id res.result db)
        (finalize_done-AreRight fl meaning res.expression_id res.result db
          (ap expression_value honest.expression ∙ sym root ∙ honest.value) r)
  finish_result-AreRight out res false events audit db honest root r =
      audited-AreRight fl meaning events audit db r

  in_progress-AreRight :
      (id : Uuid) (db : Db F)
      → Right fl meaning db
      → Right fl meaning (mark_expression_in_progress id db)
  in_progress-AreRight id db r = expressions-AreRight fl meaning _ _ db (λ e h k. k) r

  fan_in-AreRight :
      (out : Outside) (res : ResultMessage F) (audit : List (AuditMessage F)) (is_root : Bool)
      (db : Db F)
      → IsHonest res
      → IsRootOf fl meaning res.task_id is_root
      → Right fl meaning db
      → OkAll (λ s. Right fl meaning s.1) (fan_in fl out res audit is_root db)
  unfolding fan_in
  fan_in-AreRight out res audit is_root db honest root r =
      let id = res.task_id in
      let v = res.result in
      let a = mark_expression_in_progress res.expression_id db in
      let ra = in_progress-AreRight res.expression_id db r in
      let b = (fill_arg1_from_result id v a).1 in
      let rb =
        tasks-AreRight fl meaning (takes_arg1 id) (fill_arg1 v) a
          (λ t h k. (fill_arg1-IsRight fl meaning id v t honest.value h k).0) ra in
      let c = (fill_arg2_from_result id v b).1 in
      let rc =
        tasks-AreRight fl meaning (takes_arg2 id) (fill_arg2 v) b
          (λ t h k. (fill_arg2-IsRight fl meaning id v t honest.value h k).0) rb in
      let here : (expression_of id) ≡ res.expression_id = sym honest.expression in
      let filled1 =
        updated-All (IsRight fl meaning)
          (λ d. IsRight fl meaning d × (res.expression_id ≡ expression_of d.id)) (takes_arg1 id)
          (fill_arg1 v)
          (λ t h k.
            let (right, same) = fill_arg1-IsRight fl meaning id v t honest.value h k in
            (right, sym (same ∙ here)))
          a.tasks ra.tasks in
      let filled2 =
        updated-All (IsRight fl meaning)
          (λ d. IsRight fl meaning d × (res.expression_id ≡ expression_of d.id)) (takes_arg2 id)
          (fill_arg2 v)
          (λ t h k.
            let (right, same) = fill_arg2-IsRight fl meaning id v t honest.value h k in
            (right, sym (same ∙ here)))
          b.tasks rb.tasks in
      let deps = (fill_arg1_from_result id v a).0 ++ (fill_arg2_from_result id v b).0 in
      OkAll-bind (λ s. Right fl meaning s.1) (λ s. Right fl meaning s.1) _ _
        (unlock-AreRight fl meaning out.traceparent res.expression_id deps c
          (All-append (λ d. IsRight fl meaning d × (res.expression_id ≡ expression_of d.id))
            (fill_arg1_from_result id v a).0 (fill_arg2_from_result id v b).0 filled1 filled2)
          rc)
        (λ s rs. finish_result-AreRight out res is_root _ audit s.1 honest root rs)

  on_completed-AreRight :
      (out : Outside) (res : ResultMessage F) (audit : List (AuditMessage F))
      (rows : List (TaskRow F)) (db : Db F)
      → IsHonest res
      → All (λ t. IsRootOf fl meaning res.task_id t.is_root) rows
      → Right fl meaning db
      → OkAll (λ s. Right fl meaning s.1) (on_completed fl out res audit rows db)
  unfolding on_completed
  on_completed-AreRight out res audit [] db honest roots r = r
  on_completed-AreRight out res audit (t ∷ rows) db honest (root, roots) r =
      fan_in-AreRight out res audit t.is_root db honest root r

  pub apply_result-AreRight :
      (out : Outside) (res : ResultMessage F) (audit : List (AuditMessage F)) (db : Db F)
      → IsHonest res
      → Right fl meaning db
      → Right fl meaning (apply_result fl out res audit db).1
  unfolding apply_result apply_result_tx
  apply_result-AreRight out res audit db honest r =
      let id = res.task_id in
      in_tx-AreRight fl meaning (apply_result_tx fl out res audit) db r (
        on_completed-AreRight out res audit (complete_task id res.result db).0
          (complete_task id res.result db).1 honest
          (updated-All (IsRight fl meaning) (λ t. IsRootOf fl meaning id t.is_root) (completes id)
            (complete res.result)
            (λ t h k.
              let e : t.id ≡ id = (==_iff t.id id).0 (and_left (t.id == id) (is_open t.status) h) in
              subst (λ j. IsRootOf fl meaning j t.is_root) e k.root)
            db.tasks r.tasks)
          (tasks-AreRight fl meaning (completes id) (complete res.result) db
            (λ t h k. complete-IsRight fl meaning id res.result t honest.value h k) r))

  pub apply_failure-AreRight :
      (res : ResultMessage F) (audit : List (AuditMessage F)) (db : Db F)
      → Right fl meaning db
      → Right fl meaning (apply_failure fl res audit db).1
  unfolding apply_failure apply_failure_tx on_failed
  apply_failure-AreRight res audit db r =
      let failed =
        tasks-AreRight fl meaning (completes res.task_id) fail db
          (λ t h k. status-IsRight fl meaning TaskStatus.failed t k) r in
      in_tx-AreRight fl meaning (apply_failure_tx fl res audit) db r
        (go (fail_task res.task_id db).0 (fail_task res.task_id db).1 failed)
    where
      go :
          (rows : List (TaskRow F)) (d : Db F)
          → Right fl meaning d
          → OkAll (λ s. Right fl meaning s.1) (on_failed fl res audit rows d)
      go [] d k = k
      go (t ∷ rows) d k =
          audited-AreRight fl meaning _ audit
            (finalize_expression_failed res.expression_id res.error d)
            (expressions-AreRight fl meaning _ _ d (λ e h right. right) k)
