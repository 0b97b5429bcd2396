-- ===== src/Expression/Service/Progress.antt =====
-- service.go and repo.go together: no task of a submitted expression waits for a message that nobody
-- sends.
use golang_service_architect.Common.{
  Result, ℕ, ◌+◌, ◌≡◌, refl, sym, ap, ◌∙◌, subst, String, Option, none, some, List, [], ◌∷◌, length,
  ok, err, inl, inr, true, false,
}
use golang_service_architect.Apperrors.{Error}
use golang_service_architect.Float64.{Float64}
use golang_service_architect.Text.{Text}
use golang_service_architect.Expression.Ast.{Node, leaf, bin}
use golang_service_architect.Expression.Task.{Task, Uuid}
use golang_service_architect.Expression.Planner.{plan}
use golang_service_architect.Expression.Planner.Order.{IsOrdered}
use golang_service_architect.Expression.Planner.Graph.{plan-IsPlan}
use golang_service_architect.Messages.{ExpressionStatus, ResultMessage, AuditMessage}
use golang_service_architect.Persistent.Tables.{Db, OutboxRow}
use golang_service_architect.Persistent.Enqueue.{Outside}
use golang_service_architect.Persistent.Repo.{
  apply_started, apply_result, relay_outbox, create_expression, finalize_immediate,
  expression_event,
}
use golang_service_architect.Persistent.Values.Evaluated.{new_db}
use golang_service_architect.Persistent.Wakeups.{MissesOne, has_open, AreAwake}
use golang_service_architect.Persistent.Wakeups.Expressions.{
  create_expression-AreAwake, finalize_immediate-AreAwake,
}
use golang_service_architect.Persistent.Wakeups.Results.{apply_result-AreAwake}
use golang_service_architect.Persistent.Wakeups.Starts.{
  apply_started-AreAwake, relay_outbox-AreAwake,
}
use golang_service_architect.Persistent.Wakeups.Progress.{HasWoken, AreAwake-HasWoken}
use golang_service_architect.Expression.Service.{
  Request, pending_expression, persist, submit, submitted_audit, immediate_audit,
}
use golang_service_architect.Expression.Service.Submission.{submit-cases}
use golang_service_architect.Expression.Service.Outcome.{answered_by-holds}

-- `uuid.New` hands out no id twice.
abbrev pub IsFresh : (ℕ → Uuid) → Type 0
IsFresh new_uuid = (i j : ℕ) → new_uuid i ≡ new_uuid j → i ≡ j

-- A plan has one list of tasks.
pub same_tasks :
    {F V : Type 0} {p : Result Error (List (Task F) × V)} {ts us : List (Task F)} {v w : V}
    → p ≡ ok (ts, v)
    → p ≡ ok (us, w)
    → ts ≡ us
same_tasks {us} h k = ap (λ q. elim q [ ok (tasks, x) ↦ tasks | err e ↦ us ]) (sym h ∙ k)

module _ (fl : Float64) where
  open fl use {F}

  module _ (Sent : ResultMessage F → Db F → Type 0) where
    -- A submission, the start of a task, a result that may be sent, or a round of the relay.
    pub data HealthyStep : Db F → Db F → Type 0 where
      submitted :
          (req : Request) (raw : Text) {db : Db F}
          → IsFresh req.new_uuid
          → HealthyStep db (submit fl req raw db).2
      started :
          (id : Uuid) (worker : String) (attempt : ℕ) {db : Db F}
          → HealthyStep db (apply_started id worker attempt db)
      result :
          (out : Outside) (res : ResultMessage F) (audit : List (AuditMessage F)) {db : Db F}
          → Sent res db
          → HealthyStep db (apply_result fl out res audit db).1
      relayed :
          (limit : ℕ) (publish : List (OutboxRow F) → List ℕ) {db : Db F}
          → HealthyStep db (relay_outbox limit publish db).1

    pub data Healthy : Db F → Db F → Type 0 where
      done : {db : Db F} → Healthy db db
      next : {a b c : Db F} → HealthyStep a b → Healthy b c → Healthy a c

  plan-IsOrdered :
      (new_uuid : ℕ → Uuid) (expr_id : Uuid) (k : ℕ) (n : Node F) (tasks : List (Task F))
      → IsFresh new_uuid
      → plan new_uuid expr_id k n ≡ ok (tasks, none)
      → IsOrdered [] tasks
  unfolding plan
  plan-IsOrdered new_uuid expr_id k (leaf v) tasks fresh h = absurd cc
  plan-IsOrdered new_uuid expr_id k (bin o l r) tasks fresh h =
      elim (plan-IsPlan new_uuid fresh expr_id k o l r) [
        | inr (refused, many) ↦ let q = sym refused ∙ h in absurd cc
        | inl (ts, planned, is_plan) ↦ subst (IsOrdered []) (same_tasks planned h) is_plan.ordered
      ]

  persist-AreAwake :
      (req : Request) (raw : Text) (n : Node F) (tasks : List (Task F)) (immediate : Option F)
      (db : Db F)
      → IsFresh req.new_uuid
      → plan req.new_uuid (req.new_uuid req.next) (req.next + 1) n ≡ ok (tasks, immediate)
      → AreAwake MissesOne db
      → AreAwake MissesOne (persist fl req raw tasks immediate db).2
  unfolding persist
  persist-AreAwake req raw n tasks (some v) db fresh planned a =
      let id = req.new_uuid req.next in
      answered_by-holds fl (AreAwake MissesOne)
        (finalize_immediate fl id raw req.trace_id v
          (submitted_audit fl req raw (length tasks) ∷ immediate_audit fl req v ∷ []) db)
        _ (expression_event fl id ExpressionStatus.done (some v) [])
        (finalize_immediate-AreAwake fl id raw req.trace_id v
          (submitted_audit fl req raw (length tasks) ∷ immediate_audit fl req v ∷ []) db a)
  persist-AreAwake req raw n tasks none db fresh planned a =
      let id = req.new_uuid req.next in
      let out : Outside = record { traceparent = req.traceparent; audit_id = id; now = req.now } in
      answered_by-holds fl (AreAwake MissesOne)
        (create_expression fl out id raw req.trace_id tasks
          (submitted_audit fl req raw (length tasks) ∷ []) db)
        (pending_expression fl req raw) (expression_event fl id ExpressionStatus.pending none [])
        (create_expression-AreAwake fl out id raw req.trace_id tasks
          (submitted_audit fl req raw (length tasks) ∷ []) db
          (plan-IsOrdered req.new_uuid id (req.next + 1) n tasks fresh planned) a)

  -- What a submission keeps, if it keeps it for every plan that it stores.
  pub submit-holds :
      (Holds : Db F → Type 0) (req : Request) (raw : Text) (db : Db F)
      → ((n : Node F) (tasks : List (Task F)) (immediate : Option F)
          → plan req.new_uuid (req.new_uuid req.next) (req.next + 1) n ≡ ok (tasks, immediate)
          → Holds (persist fl req raw tasks immediate db).2)
      → Holds db
      → Holds (submit fl req raw db).2
  submit-holds Holds req raw db persisted h = elim (submit-cases fl req raw db) [
    | inl (e, refused) ↦ subst Holds (sym (ap (λ s. s.2) refused)) h
    | inr (n, tasks, immediate, valid, parsed, planned, stored) ↦
        subst Holds (sym (ap (λ s. s.2) stored)) (persisted n tasks immediate planned)
  ]

  HealthyStep-AreAwake :
      (Sent : ResultMessage F → Db F → Type 0) {a b : Db F}
      → HealthyStep Sent a b
      → AreAwake MissesOne a
      → AreAwake MissesOne b
  HealthyStep-AreAwake Sent (submitted req raw {db} fresh) a =
      submit-holds (AreAwake MissesOne) req raw db
        (λ n tasks immediate planned. persist-AreAwake req raw n tasks immediate db fresh planned a)
        a
  HealthyStep-AreAwake Sent (started id worker attempt {db}) a =
      apply_started-AreAwake id worker attempt db a
  HealthyStep-AreAwake Sent (result out res audit {db} sent) a =
      apply_result-AreAwake fl out res audit db a
  HealthyStep-AreAwake Sent (relayed limit publish {db}) a =
      relay_outbox-AreAwake limit publish db a

  Healthy-AreAwake :
      (Sent : ResultMessage F → Db F → Type 0) {a b : Db F}
      → Healthy Sent a b
      → AreAwake MissesOne a
      → AreAwake MissesOne b
  Healthy-AreAwake Sent done a = a
  Healthy-AreAwake Sent (next step more) a =
      Healthy-AreAwake Sent more (HealthyStep-AreAwake Sent step a)

  new_db-AreAwake : AreAwake MissesOne (new_db fl)
  new_db-AreAwake = record {
    order = record { rank = λ d. 0; is_known = λ d. false };
    knows = λ d. refl;
    open_ = λ d. false;
    opens = λ d. refl;
    rows = tt;
  }

  -- However submissions of any texts, starts of tasks, any results and rounds of the relay interleave:
  -- what an open task waits for, through its arguments, comes down to an open task whose message is
  -- in the outbox, published or not. The service starts with an empty database, no submission gets an id twice from `uuid.New`, no task fails and the outbox
  -- is not pruned.
  pub submit-wakes :
      (Sent : ResultMessage F → Db F → Type 0) {db : Db F} (id : Uuid)
      → Healthy Sent (new_db fl) db
      → has_open id db.tasks ≡ true
      → HasWoken db id
  submit-wakes Sent {db} id healthy h =
      AreAwake-HasWoken db id (Healthy-AreAwake Sent healthy new_db-AreAwake) h
