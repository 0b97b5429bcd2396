-- ===== src/Persistent/Unfinished/Operations.antt =====
-- repo.go: every operation leaves an unfinished expression with an open root task.
use Prim.Native.Nat.{min}
use golang_service_architect.Common.{
  ℕ, ◌≡◌, refl, sym, ap, ◌∙◌, String, Bool, true, false, ◌&&◌, some, List, [], ◌∷◌, ◌++◌, ◌==◌,
  ==_iff, All, All-weaken, Bool-cases, inl, inr, Result, ok, ◌>>=◌, subst, ◌⊎◌, Result-cases,
}
use golang_service_architect.Apperrors.{Error}
use golang_service_architect.Float64.{Float64}
use golang_service_architect.Expression.Task.{TaskStatus, Uuid}
use golang_service_architect.Messages.{ExpressionStatus, ResultMessage, Event, AuditMessage}
use golang_service_architect.Persistent.Tables.{
  ExpressionRow, TaskRow, OutboxRow, Db, update, updated, is_open, is_unfinished, is_waiting,
  is_ready_or_running, completes, complete, complete_task, takes_arg1, fill_arg1, takes_arg2,
  fill_arg2, fill_arg1_from_result, fill_arg2_from_result, mark_expression_in_progress,
  finalize_expression_done, select_outbox_batch,
}
use golang_service_architect.Persistent.Enqueue.{Outside, in_tx, enqueue_audit}
use golang_service_architect.Persistent.Repo.{
  unlock_ready_dependents, finish_result, fan_in, on_completed, apply_result_tx, apply_result,
  done_audit, task_event, apply_started, relay_outbox, relay_rows,
}
use golang_service_architect.Persistent.Settled.{ignores_result}
use golang_service_architect.Persistent.Values.Rows.{and_left}
use golang_service_architect.Persistent.Values.Transactions.{OkAll, OkAll-bind}
use golang_service_architect.Persistent.Wakeups.{has_open}
use golang_service_architect.Persistent.Wakeups.Changes.{update-each}
use golang_service_architect.Persistent.Wakeups.Marking.{and_right}
use golang_service_architect.Persistent.Wakeups.Results.{none_open, completes-returns}
use golang_service_architect.Persistent.Wakeups.Starts.{running_open}
use golang_service_architect.Persistent.Unfinished.{is_root_of, IsGoing, AreGoing, NamesExpression}
use golang_service_architect.Persistent.Unfinished.Roots.{
  is_root_of-update, returned_root, named_root,
}
use golang_service_architect.Persistent.Unfinished.Same.{
  SameRoots, SameRoots-AreGoing, enqueue_audit-SameRoots, unlock-SameRoots,
}

waiting_unfinished : (s : ExpressionStatus) → is_waiting s ≡ true → is_unfinished s ≡ true
waiting_unfinished ExpressionStatus.pending h = refl
waiting_unfinished ExpressionStatus.in_progress h = absurd cc
waiting_unfinished ExpressionStatus.done h = absurd cc
waiting_unfinished ExpressionStatus.failed h = absurd cc

module _ {F : Type 0} where
  pub apply_started-AreGoing :
      (id : Uuid) (worker : String) (attempt : ℕ) (db : Db F)
      → AreGoing db
      → AreGoing (apply_started id worker attempt db)
  apply_started-AreGoing id worker attempt db =
      SameRoots-AreGoing db (apply_started id worker attempt db) (record {
        keeps = λ e r h.
            is_root_of-update e r _ _ (λ t. refl)
              (λ t m k.
                ap (λ b. b && (t.is_root && t.expression_id == e))
                  (sym (
                    running_open t.status
                      (and_right (t.id == id) (is_ready_or_running t.status) m))))
              db.tasks
            ∙ h;
        expressions = refl;
      })

  pub relay_outbox-AreGoing :
      (limit : ℕ) (publish : List (OutboxRow F) → List ℕ) (db : Db F)
      → AreGoing db
      → AreGoing (relay_outbox limit publish db).1
  relay_outbox-AreGoing limit publish db g = go (select_outbox_batch (min limit 4096) db)
    where
      go : (rows : List (OutboxRow F)) → AreGoing (relay_rows rows publish db).1
      go [] = g
      go (r ∷ rows) = g

  pub in_tx-AreGoing :
      {A : Type 0} (f : Db F → Result Error (A × Db F)) (db : Db F)
      → AreGoing db
      → OkAll (λ s. AreGoing s.1) (f db)
      → AreGoing (in_tx f db).1
  in_tx-AreGoing f db g h = elim (Result-cases (f db)) [
    | inl (s, done) ↦ rw (in_tx, done) (rw done at h)
    | inr (e, failed) ↦ rw (in_tx, failed) g
  ]

  -- An unfinished expression has an open root, or it is the one that a result finishes.
  abbrev pub IsGoingOr : Bool → Uuid → List (TaskRow F) → ExpressionRow F → Type 0
  IsGoingOr is_root given ts e =
      is_unfinished e.status ≡ true
      → ((r : Uuid) × (is_root_of e.id r ts ≡ true)) ⊎ ((is_root ≡ true) × (e.id ≡ given))

  -- What a completed task leaves behind.
  completed-IsGoing :
      (x given : Uuid) (v : F) (ts : List (TaskRow F)) (u : TaskRow F) (us : List (TaskRow F))
      → updated (completes x) (complete v) ts ≡ u ∷ us
      → All (λ (t : TaskRow F). (t.id == x) ≡ true → t.expression_id ≡ given) ts
      → (e : ExpressionRow F) → IsGoing ts e
      → IsGoingOr u.is_root given (update (completes x) (complete v) ts) e
  completed-IsGoing x given v ts u us returned names e going unfinished =
      let (r, root) = going unfinished in
      elim (Bool-cases (r == x)) [
        | inl same ↦
            let root' = subst (λ i. is_root_of e.id i ts ≡ true) ((==_iff r x).0 same) root in
            inr (
              returned_root e.id x v ts u us root' returned,
              named_root e.id x given ts names root',
            )
        | inr other ↦ inl (
          r,
          is_root_of-update e.id r (completes x) (complete v) (λ t. refl)
                (λ t m k.
                  let at = (==_iff t.id x).0 (and_left (t.id == x) (is_open t.status) m) in
                  let clash : (r == x) ≡ true = (==_iff r x).1 (sym ((==_iff t.id r).0 k) ∙ at) in
                  absurd cc)
                ts
              ∙ root,
        )
      ]

  -- The expressions that a result of the root finishes.
  pub finished-IsGoingOr :
      (given : Uuid) (v : F) (ts : List (TaskRow F)) (es : List (ExpressionRow F))
      → All (IsGoingOr true given ts) es
      → All (IsGoing ts) (
          update
            (λ e. e.id == given && is_unfinished e.status)
            (λ e. record e { status = ExpressionStatus.done; result = some v })
            es)
  finished-IsGoingOr given v ts es =
      update-each (IsGoingOr true given ts) (IsGoing ts) _ _ (λ e m g unfinished. absurd cc)
        (λ e m g unfinished. elim (g unfinished) [
          | inl root ↦ root
          | inr (t, same) ↦
              absurd (let clash = rw ((==_iff e.id given).1 same, unfinished) at m in cc)
        ])
        es

  abbrev pub AreGoingOr : Bool → Uuid → Db F → Type 0
  AreGoingOr is_root given db = All (IsGoingOr is_root given db.tasks) db.expressions

  SameRoots-GoingOr :
      (is_root : Bool) (given : Uuid) (db db' : Db F)
      → SameRoots db db'
      → AreGoingOr is_root given db
      → AreGoingOr is_root given db'
  SameRoots-GoingOr is_root given db db' same g =
      subst (All (IsGoingOr is_root given db'.tasks)) (sym same.expressions) (
        All-weaken (IsGoingOr is_root given db.tasks) (IsGoingOr is_root given db'.tasks)
          (λ e going u. elim (going u) [
            | inl (r, root) ↦ inl (r, same.keeps e.id r root)
            | inr last ↦ inr last
          ])
          db.expressions g)

  in_progress-GoingOr :
      (is_root : Bool) (given id : Uuid) (db : Db F)
      → AreGoingOr is_root given db
      → AreGoingOr is_root given (mark_expression_in_progress id db)
  in_progress-GoingOr is_root given id db =
      update-each (IsGoingOr is_root given db.tasks) (IsGoingOr is_root given db.tasks) _ _
        (λ e m g u.
          g (waiting_unfinished e.status (and_right (e.id == id) (is_waiting e.status) m)))
        (λ e m g. g) db.expressions

  filled-SameRoots :
      (x : Uuid) (v : F) (db : Db F)
      → SameRoots db (fill_arg2_from_result x v (fill_arg1_from_result x v db).1).1
  filled-SameRoots x v db = record {
    keeps = λ e r h.
        is_root_of-update e r (takes_arg2 x) (fill_arg2 v) (λ t. refl) (λ t m k. refl)
          (update (takes_arg1 x) (fill_arg1 v) db.tasks)
        ∙ is_root_of-update e r (takes_arg1 x) (fill_arg1 v) (λ t. refl) (λ t m k. refl) db.tasks
        ∙ h;
    expressions = refl;
  }

module _ (fl : Float64) where
  open fl use {F}

  pub audited-AreGoing :
      {A : Type 0} (a : A) (audit : List (AuditMessage F)) (db : Db F)
      → AreGoing db
      → OkAll (λ (s : A × Db F). AreGoing s.1) (enqueue_audit fl audit db >>= λ db'. ok (a, db'))
  audited-AreGoing a audit db g =
      OkAll-bind (SameRoots db) (λ (s : _ × Db F). AreGoing s.1) (enqueue_audit fl audit db) _
        (enqueue_audit-SameRoots fl audit db) (λ db' same. SameRoots-AreGoing db db' same g)

  finish_result-AreGoing :
      (out : Outside) (res : ResultMessage F) (is_root : Bool) (events : List (Event F))
      (audit : List (AuditMessage F)) (db : Db F)
      → AreGoingOr is_root res.expression_id db
      → OkAll (λ s. AreGoing s.1) (finish_result fl out res is_root events audit db)
  unfolding finish_result
  finish_result-AreGoing out res true events audit db g =
      audited-AreGoing _ (audit ++ done_audit fl out res ∷ [])
        (finalize_expression_done res.expression_id res.result db)
        (finished-IsGoingOr res.expression_id res.result db.tasks db.expressions g)
  finish_result-AreGoing out res false events audit db g = audited-AreGoing events audit db (
      All-weaken (IsGoingOr false res.expression_id db.tasks) (IsGoing db.tasks)
        (λ e going u. elim (going u) [
          | inl root ↦ root
          | inr last ↦ absurd (let no = last.0 in cc)
        ])
        db.expressions g)

  fan_in-AreGoing :
      (out : Outside) (res : ResultMessage F) (audit : List (AuditMessage F)) (is_root : Bool)
      (db : Db F)
      → AreGoingOr is_root res.expression_id db
      → OkAll (λ s. AreGoing s.1) (fan_in fl out res audit is_root db)
  unfolding fan_in
  fan_in-AreGoing out res audit is_root db g =
      let given = res.expression_id in
      let db₁ = mark_expression_in_progress given db in
      let (dep1, db₂) = fill_arg1_from_result res.task_id res.result db₁ in
      let (dep2, db₃) = fill_arg2_from_result res.task_id res.result db₂ in
      let going =
        SameRoots-GoingOr is_root given db₁ db₃ (filled-SameRoots res.task_id res.result db₁)
          (in_progress-GoingOr is_root given given db g) in
      OkAll-bind (λ s. SameRoots db₃ s.1) (λ s. AreGoing s.1)
        (unlock_ready_dependents fl out.traceparent given (dep1 ++ dep2) db₃) _
        (unlock-SameRoots fl out.traceparent given (dep1 ++ dep2) db₃)
        (λ (events, db₄) same.
          finish_result-AreGoing out res is_root
            (task_event fl res TaskStatus.done (some res.result) [] ∷ events) audit db₄
            (SameRoots-GoingOr is_root given db₃ db₄ same going))

  pub apply_result-AreGoing :
      (out : Outside) (res : ResultMessage F) (audit : List (AuditMessage F)) (db : Db F)
      → NamesExpression res db
      → AreGoing db
      → AreGoing (apply_result fl out res audit db).1
  unfolding apply_result apply_result_tx on_completed
  apply_result-AreGoing out res audit db names g =
      elim (Bool-cases (has_open res.task_id db.tasks)) [
        | inr closed ↦
            rw (ignores_result fl out res audit db (none_open res.task_id db.tasks closed)) g
        | inl was_open ↦
            let (t, rows, found) = completes-returns res.task_id res.result db.tasks was_open in
            in_tx-AreGoing (apply_result_tx fl out res audit) db g (
              rw found (
                fan_in-AreGoing out res audit t.is_root (complete_task res.task_id res.result db).1
                  (All-weaken (IsGoing db.tasks) _
                    (completed-IsGoing res.task_id res.expression_id res.result db.tasks t rows
                      found names)
                    db.expressions g)))
      ]
