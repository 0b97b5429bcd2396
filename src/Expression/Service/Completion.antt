-- ===== src/Expression/Service/Completion.antt =====
-- service.go and repo.go together: an expression that is not finished can always go on.
use golang_service_architect.Common.{
  ℕ, ◌+◌, ◌≡◌, refl, sym, ◌∙◌, subst, true, Option, none, some, List, [], ◌∷◌, ◌++◌, length, ok,
  inl, inr, All, All-append, Bool-cases, ◌==◌,
}
use golang_service_architect.Float64.{Float64}
use golang_service_architect.Text.{Text}
use golang_service_architect.Expression.Ast.{Node, leaf, bin, op_nodes}
use golang_service_architect.Expression.Task.{Task, Uuid}
use golang_service_architect.Expression.Planner.{plan, mark_root}
use golang_service_architect.Expression.Planner.Graph.{HasLastRoot, plan-IsPlan}
use golang_service_architect.Expression.Planner.Layout.{tasks_of, plan-tasks_of}
use golang_service_architect.Messages.{ExpressionStatus}
use golang_service_architect.Persistent.Tables.{ExpressionRow, TaskRow, Db, is_open, is_unfinished}
use golang_service_architect.Persistent.Enqueue.{Outside}
use golang_service_architect.Persistent.Repo.{
  create_expression, finalize_immediate, expression_event,
}
use golang_service_architect.Persistent.Values.Evaluated.{new_db}
use golang_service_architect.Persistent.Values.Rows.{and_left}
use golang_service_architect.Persistent.Unfinished.{is_root_of, IsGoing, AreGoing, NamesExpression}
use golang_service_architect.Persistent.Unfinished.Operations.{
  apply_started-AreGoing, apply_result-AreGoing, relay_outbox-AreGoing,
}
use golang_service_architect.Persistent.Unfinished.Creation.{
  create_expression-AreGoing, finalize_immediate-AreGoing,
}
use golang_service_architect.Persistent.Wakeups.{has_open}
use golang_service_architect.Persistent.Wakeups.Progress.{HasWoken}
use golang_service_architect.Expression.Service.{
  Request, pending_expression, persist, submitted_audit, immediate_audit,
}
use golang_service_architect.Expression.Service.Outcome.{answered_by-holds}
use golang_service_architect.Expression.Service.Progress.{
  IsFresh, same_tasks, HealthyStep, Healthy, submitted, started, result, relayed, done, next,
  submit-holds, submit-wakes,
}

All-at :
    {A : Type 0} (Holds : A → Type 0) (before behind : List A) (a : A)
    → All Holds (before ++ a ∷ behind)
    → Holds a
All-at Holds [] behind a h = h.0
All-at Holds (b ∷ before) behind a h = All-at Holds before behind a h.1

module _ {F : Type 0} where
  abbrev AreOwned : Uuid → List (Task F) → Type 0
  AreOwned id = All (λ (t : Task F). t.expression_id ≡ id)

  tasks_of-owned :
      (new_uuid : ℕ → Uuid) (id : Uuid) (n : Node F) (k : ℕ)
      → AreOwned id (tasks_of new_uuid id k n)
  unfolding tasks_of
  tasks_of-owned new_uuid id (leaf v) k = tt
  tasks_of-owned new_uuid id (bin o l r) k =
      All-append _ (tasks_of new_uuid id (k + 1) l) _ (tasks_of-owned new_uuid id l (k + 1)) (
        All-append _ (tasks_of new_uuid id (k + 1 + op_nodes l) r) _
          (tasks_of-owned new_uuid id r (k + 1 + op_nodes l)) (refl, tt))

  mark_root-owned : (id : Uuid) (ts : List (Task F)) → AreOwned id ts → AreOwned id (mark_root ts)
  unfolding mark_root
  mark_root-owned id [] h = tt
  mark_root-owned id (t ∷ []) h = h
  mark_root-owned id (t ∷ u ∷ ts) (here, there) = (here, mark_root-owned id (u ∷ ts) there)

  -- A root is open.
  root-open : (e r : Uuid) (ts : List (TaskRow F)) → is_root_of e r ts ≡ true → has_open r ts ≡ true
  root-open e r [] h = absurd cc
  root-open e r (t ∷ ts) h = elim (Bool-cases (t.id == r)) [
    | inl k ↦ rw (k, and_left (is_open t.status) _ (rw k at h)) refl
    | inr k ↦ rw k (root-open e r ts (rw k at h))
  ]

module _ (fl : Float64) where
  open fl use {F}

  -- The tasks of a plan belong to its expression, and the last one is its root.
  plan-rooted :
      (new_uuid : ℕ → Uuid) (id : Uuid) (k : ℕ) (n : Node F) (tasks : List (Task F))
      → IsFresh new_uuid
      → plan new_uuid id k n ≡ ok (tasks, none)
      → AreOwned id tasks × HasLastRoot tasks
  unfolding plan
  plan-rooted new_uuid id k (leaf v) tasks fresh h = absurd cc
  plan-rooted new_uuid id k (bin o l r) tasks fresh h = (
    elim (plan-tasks_of new_uuid id k (bin o l r)) [
      | inr (many, refused) ↦ let q = sym refused ∙ h in absurd cc
      | inl (few, planned) ↦ subst (AreOwned id) (same_tasks planned h) (
          mark_root-owned id (tasks_of new_uuid id k (bin o l r))
            (tasks_of-owned new_uuid id (bin o l r) k))
    ],
    elim (plan-IsPlan new_uuid fresh id k o l r) [
      | inr (refused, many) ↦ let q = sym refused ∙ h in absurd cc
      | inl (ts, planned, is_plan) ↦ subst HasLastRoot (same_tasks planned h) is_plan.rooted
    ],
  )

  persist-AreGoing :
      (req : Request) (raw : Text) (n : Node F) (tasks : List (Task F)) (immediate : Option F)
      (db : Db F)
      → IsFresh req.new_uuid
      → plan req.new_uuid (req.new_uuid req.next) (req.next + 1) n ≡ ok (tasks, immediate)
      → AreGoing db
      → AreGoing (persist fl req raw tasks immediate db).2
  unfolding persist
  persist-AreGoing req raw n tasks (some v) db fresh planned g =
      let id = req.new_uuid req.next in
      answered_by-holds fl AreGoing
        (finalize_immediate fl id raw req.trace_id v
          (submitted_audit fl req raw (length tasks) ∷ immediate_audit fl req v ∷ []) db)
        _ (expression_event fl id ExpressionStatus.done (some v) [])
        (finalize_immediate-AreGoing fl id raw req.trace_id v
          (submitted_audit fl req raw (length tasks) ∷ immediate_audit fl req v ∷ []) db g)
  persist-AreGoing req raw n tasks none db fresh planned g =
      let id = req.new_uuid req.next in
      let out : Outside = record { traceparent = req.traceparent; audit_id = id; now = req.now } in
      let (owned, rooted) = plan-rooted req.new_uuid id (req.next + 1) n tasks fresh planned in
      answered_by-holds fl AreGoing
        (create_expression fl out id raw req.trace_id tasks
          (submitted_audit fl req raw (length tasks) ∷ []) db)
        (pending_expression fl req raw) (expression_event fl id ExpressionStatus.pending none [])
        (create_expression-AreGoing fl out id raw req.trace_id tasks
          (submitted_audit fl req raw (length tasks) ∷ []) db owned rooted g)

  HealthyStep-AreGoing : {a b : Db F} → HealthyStep fl NamesExpression a b → AreGoing a → AreGoing b
  HealthyStep-AreGoing (submitted req raw {db} fresh) g =
      submit-holds fl AreGoing req raw db
        (λ n tasks immediate planned. persist-AreGoing req raw n tasks immediate db fresh planned g)
        g
  HealthyStep-AreGoing (started id worker attempt {db}) g =
      apply_started-AreGoing id worker attempt db g
  HealthyStep-AreGoing (result out res audit {db} names) g =
      apply_result-AreGoing fl out res audit db names g
  HealthyStep-AreGoing (relayed limit publish {db}) g = relay_outbox-AreGoing limit publish db g

  Healthy-AreGoing : {a b : Db F} → Healthy fl NamesExpression a b → AreGoing a → AreGoing b
  Healthy-AreGoing done g = g
  Healthy-AreGoing (next step more) g = Healthy-AreGoing more (HealthyStep-AreGoing step g)

  -- However submissions of any texts, starts of tasks, results and rounds of the relay interleave: an
  -- expression that is not finished has an open root task, and what that waits for, through its
  -- arguments, comes down to an open task whose message is in the outbox, published or not. The
  -- service starts with an empty database, no submission gets an id twice from `uuid.New`, a result
  -- names the expression of its task, no task fails and the outbox is not pruned.
  pub submit-goes_on :
      {db : Db F} (before behind : List (ExpressionRow F)) (e : ExpressionRow F)
      → Healthy fl NamesExpression (new_db fl) db
      → db.expressions ≡ before ++ e ∷ behind
      → is_unfinished e.status ≡ true
      → (r : Uuid) × (is_root_of e.id r db.tasks ≡ true) × HasWoken db r
  submit-goes_on {db} before behind e healthy stored unfinished =
      let going = subst (All (IsGoing db.tasks)) stored (Healthy-AreGoing healthy tt) in
      let (r, root) = All-at (IsGoing db.tasks) before behind e going unfinished in
      (r, root, submit-wakes fl NamesExpression r healthy (root-open e.id r db.tasks root))
