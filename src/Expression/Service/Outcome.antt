-- ===== src/Expression/Service/Outcome.antt =====
-- service.go, repo.go and worker.go together: every expression that is submitted gets the value of
-- its text.
use golang_service_architect.Common.{
  ℕ, ◌+◌, ◌≡◌, refl, sym, ap, ◌∙◌, subst, Option, none, some, List, [], ◌∷◌, length, Result, ok,
  err, ◌>>=◌, All, inl, inr,
}
use golang_service_architect.Apperrors.{Error}
use golang_service_architect.Float64.{Float64}
use golang_service_architect.Text.{Text}
use golang_service_architect.Expression.Ast.{Node, leaf, bin}
use golang_service_architect.Expression.Evaluation.{eval}
use golang_service_architect.Expression.Scanner.{parse}
use golang_service_architect.Expression.Task.{Task, Uuid}
use golang_service_architect.Expression.Planner.{plan}
use golang_service_architect.Expression.Planner.Layout.{plan-tasks_of}
use golang_service_architect.Messages.{Event, ExpressionStatus}
use golang_service_architect.Persistent.Tables.{Db, ExpressionRow}
use golang_service_architect.Persistent.Enqueue.{Outside}
use golang_service_architect.Persistent.Repo.{
  create_expression, finalize_immediate, expression_event,
}
use golang_service_architect.Persistent.Values.{Meaning, IsValueOf, AreRight}
use golang_service_architect.Persistent.Values.History.{HonestStep, HonestStep-AreRight}
use golang_service_architect.Persistent.Values.Planned.{value_at}
use golang_service_architect.Persistent.Values.Evaluated.{
  WorkStep, WorkStep-HonestStep, new_db, planned_tasks,
}
use golang_service_architect.Expression.Service.{
  Request, pending_expression, answered_by, persist, submit, submitted_audit, immediate_audit,
}
use golang_service_architect.Expression.Service.Submission.{submit-cases}

-- Where ids come from: the expression for whose submission an id was made, its place among the ids
-- of that submission, and the text that was submitted.
pub record Ledger : Type 0 where
  pub owner : Uuid → Uuid
  pub number : Uuid → ℕ
  pub text : Uuid → Text

-- A submission is in the ledger, with all ids that it may use.
pub record IsEntered (ledger : Ledger) (req : Request) (raw : Text) : Type 0 where
  pub owned : (j : ℕ) → ledger.owner (req.new_uuid j) ≡ req.new_uuid req.next
  pub numbered : (j : ℕ) → ledger.number (req.new_uuid j) ≡ j
  pub texted : ledger.text (req.new_uuid req.next) ≡ raw

module _ (fl : Float64) where
  open fl use {F}

  -- The value of a text.
  abbrev pub text_value : Text → Result Error F
  text_value raw = parse fl raw >>= eval fl

  -- The value of the subtree with a number, in the tree of a text whose ids count from another one.
  abbrev subtree_value : ℕ → ℕ → Result Error (Node F) → Result Error F
  subtree_value k j parsed = parsed >>= λ ast. value_at fl k ast j

  pub answered_by-holds :
      (Holds : Db F → Type 0) (answer : Result Error (Unit {0}) × Db F) (expr : ExpressionRow F)
      (event : Event F)
      → Holds answer.1
      → Holds (answered_by fl answer expr event).2
  answered_by-holds Holds (ok done, db) expr event h = h
  answered_by-holds Holds (err e, db) expr event h = h

  -- A plan without tasks gives the value of its tree.
  immediate-eval :
      (new_uuid : ℕ → Uuid) (id : Uuid) (k : ℕ) (n : Node F) (tasks : List (Task F)) (v : F)
      → plan new_uuid id k n ≡ ok (tasks, some v)
      → eval fl n ≡ ok v
  unfolding plan eval
  immediate-eval new_uuid id k (leaf w) tasks v h = cc
  immediate-eval new_uuid id k (bin o l r) tasks v h =
      elim (plan-tasks_of new_uuid id k (bin o l r)) [
        | inl (few, planned) ↦ let q = sym planned ∙ h in absurd cc
        | inr (many, refused) ↦ let q = sym refused ∙ h in absurd cc
      ]

  module _ (ledger : Ledger) where
    open ledger use {owner, number, text}

    -- What the ids stand for.
    abbrev entered_meaning : Meaning F
    entered_meaning = record {
      task_value =
          λ id. subtree_value (number (owner id) + 1) (number id) (parse fl (text (owner id)));
      expression_of = owner;
      expression_value = λ id. text_value (text id);
    }

    -- A submission, or a step of the work on the tasks of all expressions.
    pub data ServiceStep : Db F → Db F → Type 0 where
      submitted :
          (req : Request) (raw : Text) {db : Db F}
          → IsEntered ledger req raw
          → ServiceStep db (submit fl req raw db).2
      worked : {a b : Db F} → WorkStep fl a b → ServiceStep a b

    pub data Service : Db F → Db F → Type 0 where
      done : {db : Db F} → Service db db
      next : {a b c : Db F} → ServiceStep a b → Service b c → Service a c

    Right : Db F → Type 0
    Right db = AreRight fl entered_meaning db

    module _ (req : Request) (raw : Text) (ast : Node F) (entered : IsEntered ledger req raw)
        (parsed : parse fl raw ≡ ok ast) where
      entered-text_value : text_value (text (req.new_uuid req.next)) ≡ eval fl ast
      entered-text_value =
          ap text_value entered.texted ∙ ap (λ (p : Result Error (Node F)). p >>= eval fl) parsed

      entered-subtree_value :
          (j : ℕ) → entered_meaning.task_value (req.new_uuid j) ≡ value_at fl (req.next + 1) ast j
      entered-subtree_value j =
          rw
            (entered.owned j, entered.numbered req.next, entered.numbered j, entered.texted, parsed)
            refl

      persist-Right :
          (tasks : List (Task F)) (immediate : Option F) (db : Db F)
          → plan req.new_uuid (req.new_uuid req.next) (req.next + 1) ast ≡ ok (tasks, immediate)
          → Right db
          → Right (persist fl req raw tasks immediate db).2
      unfolding persist Right
      persist-Right tasks (some v) db planned r =
          let id = req.new_uuid req.next in
          answered_by-holds (AreRight fl entered_meaning)
            (finalize_immediate fl id raw req.trace_id v
              (submitted_audit fl req raw (length tasks) ∷ immediate_audit fl req v ∷ []) db)
            (record (pending_expression fl req raw) {
              status = ExpressionStatus.done;
              result = some v;
            })
            (expression_event fl id ExpressionStatus.done (some v) [])
            (HonestStep-AreRight fl entered_meaning
              (HonestStep.finalized id raw req.trace_id v
                (submitted_audit fl req raw (length tasks) ∷ immediate_audit fl req v ∷ [])
                (entered-text_value ∙ immediate-eval req.new_uuid _ _ ast tasks v planned))
              r)
      persist-Right tasks none db planned r =
          let id = req.new_uuid req.next in
          let out : Outside = record {
            traceparent = req.traceparent;
            audit_id = id;
            now = req.now;
          } in
          answered_by-holds (AreRight fl entered_meaning)
            (create_expression fl out id raw req.trace_id tasks
              (submitted_audit fl req raw (length tasks) ∷ []) db)
            (pending_expression fl req raw)
            (expression_event fl id ExpressionStatus.pending none [])
            (HonestStep-AreRight fl entered_meaning
              (HonestStep.created out id raw req.trace_id tasks
                (submitted_audit fl req raw (length tasks) ∷ [])
                (planned_tasks fl req.new_uuid (req.new_uuid req.next) entered_meaning ast
                  (req.next + 1) entered-subtree_value entered.owned entered-text_value tasks
                  planned))
              r)

    submit-Right :
        (req : Request) (raw : Text) (db : Db F)
        → IsEntered ledger req raw
        → Right db
        → Right (submit fl req raw db).2
    submit-Right req raw db entered r = elim (submit-cases fl req raw db) [
      | inl (e, refused) ↦ subst Right (sym (ap (λ a. a.2) refused)) r
      | inr (ast, tasks, immediate, valid, parsed, planned, stored) ↦
          subst Right (sym (ap (λ a. a.2) stored))
            (persist-Right req raw ast entered parsed tasks immediate db planned r)
    ]

    Service-Right : {a b : Db F} → Service a b → Right a → Right b
    unfolding Right
    Service-Right done r = r
    Service-Right (next (submitted req raw {db} entered) more) r =
        Service-Right more (submit-Right req raw db entered r)
    Service-Right (next (worked step) more) r =
        Service-Right more
          (HonestStep-AreRight fl entered_meaning (WorkStep-HonestStep fl entered_meaning step) r)

    -- However submissions of any texts and the work on the tasks of all their expressions
    -- interleave (agents start, answer, fail and repeat tasks, the relay sends messages): an
    -- expression that has a result has the value of the tree that the parser gives for its text.
    -- The service starts with an empty database, `uuid.New` hands out no id twice, and a result is
    -- what an agent computes from a message of the outbox.
    pub submit-evaluates :
        {db : Db F}
        → Service (new_db fl) db
        → All (λ e. IsValueOf (text_value (text e.id)) e.result) db.expressions
    unfolding Right
    submit-evaluates service =
        (Service-Right service (record { tasks = tt; outbox = tt; expressions = tt })).expressions
