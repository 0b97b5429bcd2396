-- ===== src/Persistent/Values/History.antt =====
-- repo.go: the tables stay right over any sequence of honest operations.
use Prim.Native.Nat.{min}
use golang_service_architect.Common.{
  ℕ, ◌≡◌, sym, ap, ◌∙◌, Bool, List, [], ◌∷◌, ◌++◌, ok, All, All-append, subst, Bool-cases, inl, inr,
  String,
}
use golang_service_architect.Text.{Text}
use golang_service_architect.Float64.{Float64}
use golang_service_architect.Worker.{apply}
use golang_service_architect.Expression.Task.{Task, Uuid, is_ready}
use golang_service_architect.Messages.{ResultMessage, AuditMessage, TaskMessage}
use golang_service_architect.Persistent.Tables.{
  Payload, OutboxRow, Db, mark_task_ready, finalize_expression_done, select_outbox_batch, has_task,
  has_expression,
}
use golang_service_architect.Persistent.Enqueue.{
  within, Outside, insert_expression, task_row, insert_task, insert_tasks, enqueue_ready,
}
use golang_service_architect.Persistent.Repo.{
  create_expression_tx, create_expression, finalize_immediate_tx, finalize_immediate, apply_result,
  apply_failure, apply_started, relay_rows, relay_outbox,
}
use golang_service_architect.Persistent.Values.{
  Meaning, IsRight, IsRightPayload, IsRightExpression, AreRight,
}
use golang_service_architect.Persistent.Values.Rows.{
  update-All, tasks-AreRight, finalize_done-AreRight,
}
use golang_service_architect.Persistent.Values.Transactions.{
  OkAll, OkAll-bind, OkAll-within, Right, in_tx-AreRight, audited-AreRight, enqueue_task-AreRight,
  mark_ready-AreRight,
}
use golang_service_architect.Persistent.Values.Operations.{
  IsHonest, apply_result-AreRight, apply_failure-AreRight,
}

module _ (fl : Float64) where
  open fl use {F}

  -- A reply that an agent computed from a message of the outbox.
  pub record IsReplyFrom (db : Db F) (res : ResultMessage F) : Type 0 where
    pub before : List (OutboxRow F)
    pub behind : List (OutboxRow F)
    pub id : ℕ
    pub published : Bool
    pub message : TaskMessage F
    pub trace : String
    pub stored :
        db.outbox
        ≡ before
          ++ record { id = id; payload = Payload.task message trace; published = published }
            ∷ behind
    pub computed : apply fl message.op message.arg1 message.arg2 ≡ ok res.result
    pub task : res.task_id ≡ message.task_id
    pub expression : res.expression_id ≡ message.expression_id

module _ (fl : Float64) (meaning : Meaning fl.F) where
  open fl use {F, is_finite}
  open meaning use {task_value, expression_of, expression_value}

  insert_expression-AreRight :
      (id : Uuid) (raw : Text) (trace : String) (db : Db F)
      → Right fl meaning db
      → OkAll (Right fl meaning) (insert_expression id raw trace db)
  unfolding insert_expression
  insert_expression-AreRight id raw trace db r =
      elim (Bool-cases (has_expression id db.expressions)) [
        | inl taken ↦ rw taken tt
        | inr free ↦ rw free (record {
          tasks = r.tasks;
          outbox = r.outbox;
          expressions =
              All-append (IsRightExpression fl meaning) db.expressions _ r.expressions (tt, tt);
        })
      ]

  insert_task-AreRight :
      (t : Task F) (db : Db F)
      → IsRight fl meaning (task_row t)
      → Right fl meaning db
      → OkAll (Right fl meaning) (insert_task t db)
  unfolding insert_task
  insert_task-AreRight t db right r = elim (Bool-cases (has_task t.id db.tasks)) [
    | inl taken ↦ rw taken tt
    | inr free ↦ elim (Bool-cases (has_expression t.expression_id db.expressions)) [
      | inr orphan ↦ rw (free, orphan) tt
      | inl parent ↦
          rw (free, parent)
            (record {
              tasks =
                  All-append (IsRight fl meaning) db.tasks (task_row t ∷ []) r.tasks (right, tt);
              outbox = r.outbox;
              expressions = r.expressions;
            })
    ]
  ]

  insert_tasks-AreRight :
      (ts : List (Task F)) (db : Db F)
      → All (λ t. IsRight fl meaning (task_row t)) ts
      → Right fl meaning db
      → OkAll (Right fl meaning) (insert_tasks ts db)
  unfolding insert_tasks
  insert_tasks-AreRight [] db h r = r
  insert_tasks-AreRight (t ∷ ts) db (here, there) r =
      OkAll-bind (Right fl meaning) (Right fl meaning) (within "insert task" (insert_task t db)) _
        (OkAll-within (Right fl meaning) "insert task" (insert_task t db)
          (insert_task-AreRight t db here r))
        (λ db' r'. insert_tasks-AreRight ts db' there r')

  enqueue_ready-AreRight :
      (trace : String) (ts : List (Task F)) (db : Db F)
      → All (λ t. IsRight fl meaning (task_row t)) ts
      → Right fl meaning db
      → OkAll (Right fl meaning) (enqueue_ready fl trace ts db)
  unfolding enqueue_ready
  enqueue_ready-AreRight trace [] db h r = r
  enqueue_ready-AreRight trace (t ∷ ts) db (here, there) r = elim (Bool-cases (is_ready t)) [
    | inr waits ↦ rw waits (enqueue_ready-AreRight trace ts db there r)
    | inl starts ↦ rw starts (
        OkAll-bind (Right fl meaning) (Right fl meaning) _ _
          (enqueue_task-AreRight fl meaning trace (task_row t) t.expression_id db here
            here.expression r)
          (λ db' r'.
            enqueue_ready-AreRight trace ts (mark_task_ready t.id db') there
              (mark_ready-AreRight fl meaning t.id db' r')))
  ]

  pub create_expression-AreRight :
      (out : Outside) (id : Uuid) (raw : Text) (trace : String) (tasks : List (Task F))
      (audit : List (AuditMessage F)) (db : Db F)
      → All (λ t. IsRight fl meaning (task_row t)) tasks
      → Right fl meaning db
      → Right fl meaning (create_expression fl out id raw trace tasks audit db).1
  unfolding create_expression create_expression_tx
  create_expression-AreRight out id raw trace tasks audit db h r =
      in_tx-AreRight fl meaning (create_expression_tx fl out id raw trace tasks audit) db r (
        OkAll-bind (Right fl meaning) (λ s. Right fl meaning s.1) _ _
          (OkAll-within (Right fl meaning) "insert expression" (insert_expression id raw trace db)
            (insert_expression-AreRight id raw trace db r))
          (λ db₁ r₁.
            OkAll-bind (Right fl meaning) (λ s. Right fl meaning s.1) _ _
              (insert_tasks-AreRight tasks db₁ h r₁)
              (λ db₂ r₂.
                OkAll-bind (Right fl meaning) (λ s. Right fl meaning s.1) _ _
                  (enqueue_ready-AreRight out.traceparent tasks db₂ h r₂)
                  (λ db₃ r₃. audited-AreRight fl meaning tt audit db₃ r₃))))

  finalize_immediate-AreRight :
      (id : Uuid) (raw : Text) (trace : String) (v : F) (audit : List (AuditMessage F)) (db : Db F)
      → expression_value id ≡ ok v
      → Right fl meaning db
      → Right fl meaning (finalize_immediate fl id raw trace v audit db).1
  unfolding finalize_immediate finalize_immediate_tx
  finalize_immediate-AreRight id raw trace v audit db gives r =
      in_tx-AreRight fl meaning (finalize_immediate_tx fl id raw trace v audit) db r (
        OkAll-bind (Right fl meaning) (λ s. Right fl meaning s.1) _ _
          (insert_expression-AreRight id raw trace db r)
          (λ db₁ r₁.
            audited-AreRight fl meaning tt audit (finalize_expression_done id v db₁)
              (finalize_done-AreRight fl meaning id v db₁ gives r₁)))

  apply_started-AreRight :
      (id : Uuid) (worker : String) (attempt : ℕ) (db : Db F)
      → Right fl meaning db
      → Right fl meaning (apply_started id worker attempt db)
  apply_started-AreRight id worker attempt db r =
      tasks-AreRight fl meaning _ _ db
        (λ t h k. record {
          left = k.left;
          right = k.right;
          value = k.value;
          arg1 = k.arg1;
          dep1 = k.dep1;
          arg2 = k.arg2;
          dep2 = k.dep2;
          expression = k.expression;
          root = k.root;
          result = k.result;
        })
        r

  relay_outbox-AreRight :
      (limit : ℕ) (publish : List (OutboxRow F) → List ℕ) (db : Db F)
      → Right fl meaning db
      → Right fl meaning (relay_outbox limit publish db).1
  relay_outbox-AreRight limit publish db r = go (select_outbox_batch (min limit 4096) db)
    where
      go : (rows : List (OutboxRow F)) → Right fl meaning (relay_rows rows publish db).1
      go [] = r
      go (row ∷ rows) = record {
        tasks = r.tasks;
        outbox =
            update-All (λ (o : OutboxRow F). IsRightPayload fl meaning o.payload)
              (λ (o : OutboxRow F). IsRightPayload fl meaning o.payload) _ _ (λ o h k. k) db.outbox
              r.outbox;
        expressions = r.expressions;
      }

  reply-IsHonest :
      (db : Db F) (res : ResultMessage F)
      → Right fl meaning db
      → IsReplyFrom fl db res
      → IsHonest fl meaning res
  reply-IsHonest db res r reply =
      let (value, same) = at reply.before _ reply.behind (
        subst (All (λ (o : OutboxRow F). IsRightPayload fl meaning o.payload)) reply.stored
          r.outbox) in
      record {
        value = ap task_value reply.task ∙ value ∙ reply.computed;
        expression = reply.expression ∙ same ∙ ap expression_of (sym reply.task);
      }
    where
      at :
          (before : List (OutboxRow F)) (o : OutboxRow F) (behind : List (OutboxRow F))
          → All (λ (o : OutboxRow F). IsRightPayload fl meaning o.payload) (before ++ o ∷ behind)
          → IsRightPayload fl meaning o.payload
      at [] o behind (here, there) = here
      at (p ∷ before) o behind (here, there) = at before o behind there

  -- An operation of the orchestrator: the tasks of a new expression are as their meaning asks, and
  -- a result is a reply to a message. Failures, late and repeated messages are as they come.
  pub data HonestStep : Db F → Db F → Type 0 where
    created :
        (out : Outside) (id : Uuid) (raw : Text) (trace : String) (tasks : List (Task F))
        (audit : List (AuditMessage F)) {db : Db F}
        → All (λ t. IsRight fl meaning (task_row t)) tasks
        → HonestStep db (create_expression fl out id raw trace tasks audit db).1
    finalized :
        (id : Uuid) (raw : Text) (trace : String) (v : F) (audit : List (AuditMessage F))
        {db : Db F}
        → expression_value id ≡ ok v
        → HonestStep db (finalize_immediate fl id raw trace v audit db).1
    started :
        (id : Uuid) (worker : String) (attempt : ℕ) {db : Db F}
        → HonestStep db (apply_started id worker attempt db)
    result :
        (out : Outside) (res : ResultMessage F) (audit : List (AuditMessage F)) {db : Db F}
        → IsReplyFrom fl db res
        → HonestStep db (apply_result fl out res audit db).1
    failure :
        (res : ResultMessage F) (audit : List (AuditMessage F)) {db : Db F}
        → HonestStep db (apply_failure fl res audit db).1
    relayed :
        (limit : ℕ) (publish : List (OutboxRow F) → List ℕ) {db : Db F}
        → HonestStep db (relay_outbox limit publish db).1

  pub data HonestReach : Db F → Db F → Type 0 where
    done : {db : Db F} → HonestReach db db
    next : {a b c : Db F} → HonestStep a b → HonestReach b c → HonestReach a c

  pub HonestStep-AreRight :
      {a b : Db F} → HonestStep a b → AreRight fl meaning a → AreRight fl meaning b
  HonestStep-AreRight (created out id raw trace tasks audit {db} h) r =
      create_expression-AreRight out id raw trace tasks audit db h r
  HonestStep-AreRight (finalized id raw trace v audit {db} gives) r =
      finalize_immediate-AreRight id raw trace v audit db gives r
  HonestStep-AreRight (started id worker attempt {db}) r =
      apply_started-AreRight id worker attempt db r
  HonestStep-AreRight (result out res audit {db} reply) r =
      apply_result-AreRight fl meaning out res audit db (reply-IsHonest db res r reply) r
  HonestStep-AreRight (failure res audit {db}) r = apply_failure-AreRight fl meaning res audit db r
  HonestStep-AreRight (relayed limit publish {db}) r = relay_outbox-AreRight limit publish db r

  -- Whatever the order in which expressions are created, tasks are started, fail and are answered,
  -- rows are relayed and messages are repeated: the arguments and results of tasks, the messages of
  -- the outbox and the results of expressions are the values that the tasks and the expressions
  -- ought to have. The tasks of a new expression are so planned, and a result is what an agent
  -- computes from a message of the outbox.
  pub HonestReach-AreRight :
      {a b : Db F} → HonestReach a b → AreRight fl meaning a → AreRight fl meaning b
  HonestReach-AreRight (done {db}) r = r
  HonestReach-AreRight (next {a} {b} {c} s more) r =
      HonestReach-AreRight more (HonestStep-AreRight s r)
