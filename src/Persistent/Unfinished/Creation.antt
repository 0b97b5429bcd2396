-- ===== src/Persistent/Unfinished/Creation.antt =====
-- repo.go: a new expression has an open root task, or is finished at once.
use golang_service_architect.Common.{
  ◌≡◌, refl, sym, ◌∙◌, String, true, none, List, [], ◌∷◌, ◌++◌, All, All-weaken, All-append,
  Bool-cases, inl, inr, subst,
}
use golang_service_architect.Float64.{Float64}
use golang_service_architect.Text.{Text}
use golang_service_architect.Expression.Task.{Task, Uuid}
use golang_service_architect.Expression.Planner.Graph.{HasLastRoot}
use golang_service_architect.Messages.{ExpressionStatus, AuditMessage}
use golang_service_architect.Persistent.Tables.{
  ExpressionRow, Db, has_expression, finalize_expression_done,
}
use golang_service_architect.Persistent.Enqueue.{
  Outside, within, insert_expression, insert_tasks, enqueue_ready,
}
use golang_service_architect.Persistent.Repo.{
  create_expression, create_expression_tx, finalize_immediate, finalize_immediate_tx,
}
use golang_service_architect.Persistent.Values.Transactions.{OkAll, OkAll-bind, OkAll-within}
use golang_service_architect.Persistent.Unfinished.{IsGoing, AreGoing}
use golang_service_architect.Persistent.Unfinished.Same.{
  SameRoots, SameRoots-AreGoing, HasRoot, insert_tasks-HasRoot, enqueue_ready-SameRoots,
}
use golang_service_architect.Persistent.Unfinished.Operations.{
  in_tx-AreGoing, audited-AreGoing, finished-IsGoingOr, IsGoingOr, AreGoingOr,
}

module _ (fl : Float64) where
  open fl use {F}

  -- A new expression whose tasks are on their way in.
  inserted_expression :
      (id : Uuid) (raw : Text) (trace : String) (db : Db F) (Holds : Db F → Type 0)
      → Holds (record db {
        expressions =
            db.expressions
            ++ record {
              id = id;
              raw = raw;
              status = ExpressionStatus.pending;
              result = none;
              error = none;
              trace_id = trace;
            }
              ∷ [];
      })
      → OkAll Holds (insert_expression id raw trace db)
  unfolding insert_expression
  inserted_expression id raw trace db Holds h =
      elim (Bool-cases (has_expression id db.expressions)) [ inl k ↦ rw k tt | inr k ↦ rw k h ]

  -- All but the last expression are going, and the last one is the new one.
  abbrev IsBeginning : Uuid → Db F → Type 0
  IsBeginning id db =
      (es : List (ExpressionRow F)) × (e : ExpressionRow F) × (db.expressions ≡ es ++ e ∷ [])
      × (e.id ≡ id)
      × All (IsGoing db.tasks) es

  begun-AreGoing :
      (id : Uuid) (db db' : Db F)
      → IsBeginning id db
      → SameRoots db db' × HasRoot id db'
      → AreGoing db'
  begun-AreGoing id db db' (es, e, both, named, g) (same, (r, root)) =
      subst (All (IsGoing db'.tasks)) (sym (same.expressions ∙ both)) (
        All-append (IsGoing db'.tasks) es (e ∷ [])
          (All-weaken (IsGoing db.tasks) (IsGoing db'.tasks)
            (λ d going u. let (r, root) = going u in (r, same.keeps d.id r root)) es g)
          (λ u. (r, rw named root), tt))

  pub create_expression-AreGoing :
      (out : Outside) (id : Uuid) (raw : Text) (trace : String) (tasks : List (Task F))
      (audit : List (AuditMessage F)) (db : Db F)
      → All (λ (t : Task F). t.expression_id ≡ id) tasks
      → HasLastRoot tasks
      → AreGoing db
      → AreGoing (create_expression fl out id raw trace tasks audit db).1
  unfolding create_expression create_expression_tx
  create_expression-AreGoing out id raw trace tasks audit db owned rooted g =
      in_tx-AreGoing (create_expression_tx fl out id raw trace tasks audit) db g (
        OkAll-bind (IsBeginning id) _
          (within "insert expression" (insert_expression id raw trace db)) _
          (OkAll-within (IsBeginning id) "insert expression" _ (
            inserted_expression id raw trace db (IsBeginning id)
              (db.expressions, _, refl, refl, g)))
          (λ db₁ begin.
            OkAll-bind (λ db₂. SameRoots db₁ db₂ × HasRoot id db₂) _ (insert_tasks tasks db₁) _
              (insert_tasks-HasRoot id tasks db₁ owned rooted)
              (λ db₂ inserted.
                OkAll-bind (SameRoots db₂) _ (enqueue_ready fl out.traceparent tasks db₂) _
                  (enqueue_ready-SameRoots fl out.traceparent tasks db₂)
                  (λ db₃ same.
                    audited-AreGoing fl tt audit db₃ (
                      SameRoots-AreGoing db₂ db₃ same
                        (begun-AreGoing id db₁ db₂ begin inserted))))))

  pub finalize_immediate-AreGoing :
      (id : Uuid) (raw : Text) (trace : String) (v : F) (audit : List (AuditMessage F)) (db : Db F)
      → AreGoing db
      → AreGoing (finalize_immediate fl id raw trace v audit db).1
  unfolding finalize_immediate finalize_immediate_tx
  finalize_immediate-AreGoing id raw trace v audit db g =
      in_tx-AreGoing (finalize_immediate_tx fl id raw trace v audit) db g (
        OkAll-bind (AreGoingOr true id) _ (insert_expression id raw trace db) _
          (inserted_expression id raw trace db (AreGoingOr true id) (
            All-append (IsGoingOr true id db.tasks) db.expressions _
              (All-weaken (IsGoing db.tasks) (IsGoingOr true id db.tasks)
                (λ e going u. inl (going u)) db.expressions g)
              (λ u. inr (refl, refl), tt)))
          (λ db₁ g₁.
            audited-AreGoing fl tt audit (finalize_expression_done id v db₁)
              (finished-IsGoingOr id v db₁.tasks db₁.expressions g₁)))
