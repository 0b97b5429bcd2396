-- ===== src/Persistent/Values/Evaluated.antt =====
-- planner.go, repo.go and worker.go together: an expression that agents evaluate gets the value of
-- its tree.
use golang_service_architect.Common.{
  ℕ, ◌≡◌, refl, sym, ap, ◌∙◌, none, List, [], ok, err, All, subst, inl, inr, String,
}
use golang_service_architect.Text.{Text}
use golang_service_architect.Float64.{Float64}
use golang_service_architect.Expression.Ast.{Node, leaf, bin}
use golang_service_architect.Expression.Task.{Task, Uuid}
use golang_service_architect.Expression.Evaluation.{eval}
use golang_service_architect.Expression.Planner.{mark_root, plan}
use golang_service_architect.Expression.Planner.Layout.{tasks_of, plan-tasks_of}
use golang_service_architect.Messages.{ResultMessage, AuditMessage}
use golang_service_architect.Persistent.Tables.{OutboxRow, Db}
use golang_service_architect.Persistent.Enqueue.{Outside, task_row}
use golang_service_architect.Persistent.Repo.{
  create_expression, apply_started, apply_result, apply_failure, relay_outbox,
}
use golang_service_architect.Persistent.Values.{Meaning, IsValueOf, IsRight, AreRight}
use golang_service_architect.Persistent.Values.History.{
  IsReplyFrom, HonestStep, HonestStep-AreRight,
}
use golang_service_architect.Persistent.Values.Planned.{
  Means, value_at, value_at-Means, alone, AllRight, mark_root-IsRight,
}

module _ (fl : Float64) where
  open fl use {F}

  -- What happens to the tasks of an expression: agents start them, answer them from their messages
  -- and report failures, and the relay sends messages, in any order and any number of times; the rows
  -- of the messages stay, since they are pruned an hour behind.
  pub data WorkStep : Db F → Db F → Type 0 where
    started :
        (id : Uuid) (worker : String) (attempt : ℕ) {db : Db F}
        → WorkStep db (apply_started id worker attempt db)
    result :
        (out : Outside) (res : ResultMessage F) (audit : List (AuditMessage F)) {db : Db F}
        → IsReplyFrom fl db res
        → WorkStep db (apply_result fl out res audit db).1
    failure :
        (res : ResultMessage F) (audit : List (AuditMessage F)) {db : Db F}
        → WorkStep db (apply_failure fl res audit db).1
    relayed :
        (limit : ℕ) (publish : List (OutboxRow F) → List ℕ) {db : Db F}
        → WorkStep db (relay_outbox limit publish db).1

  pub data Work : Db F → Db F → Type 0 where
    done : {db : Db F} → Work db db
    next : {a b c : Db F} → WorkStep a b → Work b c → Work a c

  abbrev pub new_db : Db F
  new_db = record { expressions = []; tasks = []; outbox = []; next_outbox = 0 }

  pub WorkStep-HonestStep : (m : Meaning F) {a b : Db F} → WorkStep a b → HonestStep fl m a b
  WorkStep-HonestStep m (started id worker attempt) = HonestStep.started id worker attempt
  WorkStep-HonestStep m (result out res audit reply) = HonestStep.result out res audit reply
  WorkStep-HonestStep m (failure res audit) = HonestStep.failure res audit
  WorkStep-HonestStep m (relayed limit publish) = HonestStep.relayed limit publish

  Work-AreRight : (m : Meaning F) {a b : Db F} → Work a b → AreRight fl m a → AreRight fl m b
  Work-AreRight m done r = r
  Work-AreRight m (next s more) r =
      Work-AreRight m more (HonestStep-AreRight fl m (WorkStep-HonestStep m s) r)

  -- The tasks of a plan are right by any meaning that gives them the values of their subtrees.
  module _ (new_uuid : ℕ → Uuid) (expr_id : Uuid) (m : Meaning F) (n : Node F) (k : ℕ)
      (valued : (j : ℕ) → m.task_value (new_uuid j) ≡ value_at fl k n j)
      (owned : (j : ℕ) → m.expression_of (new_uuid j) ≡ expr_id)
      (finally : m.expression_value expr_id ≡ eval fl n) where
    abbrev Right : List (Task F) → Type 0
    Right = AllRight fl new_uuid expr_id m (value_at fl k n) (eval fl n) valued owned finally

    root-Right :
        (here : Node F)
        → n ≡ here
        → (tasks : List (Task F)) → plan new_uuid expr_id k here ≡ ok (tasks, none)
        → Right tasks
    unfolding plan
    root-Right (leaf v) e tasks h = absurd cc
    root-Right (bin o l r) e tasks h = elim (plan-tasks_of new_uuid expr_id k (bin o l r)) [
      | inr (many, refused) ↦ let q = sym refused ∙ h in absurd cc
      | inl (few, planned) ↦
          let same : mark_root (tasks_of new_uuid expr_id k (bin o l r)) ≡ tasks =
            ap (λ p. elim p [ ok (ts, v) ↦ ts | err e ↦ tasks ]) (sym planned ∙ h) in
          let means : Means fl (value_at fl k n) k (bin o l r) =
            subst (λ x. Means fl (value_at fl k n) k x) e (value_at-Means fl n k) in
          subst Right same (
            mark_root-IsRight fl new_uuid expr_id m (value_at fl k n) (eval fl n) valued owned
              finally o l r k means (means.0 ∙ ap (eval fl) (sym e)))
    ]

    pub planned_tasks :
        (tasks : List (Task F))
        → plan new_uuid expr_id k n ≡ ok (tasks, none)
        → All (λ t. IsRight fl m (task_row t)) tasks
    planned_tasks = root-Right n refl

  module _ (new_uuid : ℕ → Uuid) (index : Uuid → ℕ) (numbered : (j : ℕ) → index (new_uuid j) ≡ j)
      (expr_id : Uuid) where
    -- However agents start, answer, fail and repeat the tasks of a planned expression, and however
    -- the relay sends their messages: if the expression has a result in the end, it is the value of
    -- its tree. The expression is created in a new database, its ids can be told apart, and
    -- a result is what an agent computes from a message of the outbox.
    plan-evaluates :
        (n : Node F) (k : ℕ) (tasks : List (Task F)) (out : Outside) (raw : Text) (trace : String)
        (audit : List (AuditMessage F)) {db : Db F}
        → plan new_uuid expr_id k n ≡ ok (tasks, none)
        → Work (create_expression fl out expr_id raw trace tasks audit new_db).1 db
        → All (λ e. IsValueOf (eval fl n) e.result) db.expressions
    plan-evaluates n k tasks out raw trace audit planned work =
        let m = alone index expr_id (value_at fl k n) (eval fl n) in
        let start : AreRight fl m new_db = record { tasks = tt; outbox = tt; expressions = tt } in
        let right = Work-AreRight m work (
          HonestStep-AreRight fl m
            (HonestStep.created out expr_id raw trace tasks audit (
              planned_tasks new_uuid expr_id m n k (λ j. ap (value_at fl k n) (numbered j))
                (λ j. refl) refl tasks planned))
            start) in
        right.expressions
