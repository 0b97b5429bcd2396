-- ===== src/Consumers.antt =====
-- backend/internal/controller/amqp/v1/consumers.go: the flows, and the agent's handler of a task.
-- The JSON codec, the text of an id and that of an error are parameters.
pub mod Agent
pub mod Guarded
mod Tests
use golang_service_architect.Common.{
  ℕ, Bool, Option, none, some, List, [], ◌++◌, Result, ok, err, if◌then◌else◌,
}
use golang_service_architect.Apperrors.{Error, code_of, is_retryable}
use golang_service_architect.Text.{Text, codes}
use golang_service_architect.Float64.{Float64}
use golang_service_architect.Expression.Task.{Uuid}
use golang_service_architect.Messages.{TaskMessage, ResultKind, ResultMessage}
use golang_service_architect.Worker.{Latencies, compute}
use golang_service_architect.RabbitMq.{Flow, Message}
use golang_service_architect.RabbitMq.Publisher.{Amqp, publish}
use golang_service_architect.Common.{String}

abbrev pub tasks_flow : Flow
tasks_flow = record {
  exchange = codes "calc.tasks.ex";
  queue = codes "calc.tasks.q";
  routing_key = codes "task";
}

abbrev pub results_flow : Flow
results_flow = record {
  exchange = codes "calc.results.ex";
  queue = codes "calc.results.q";
  routing_key = codes "result";
}

abbrev pub audit_flow : Flow
audit_flow = record {
  exchange = codes "audit.ex";
  queue = codes "audit.q";
  routing_key = codes "event";
}

-- The strings of the kinds.
abbrev pub kind_text : ResultKind → Text
kind_text ResultKind.started = codes "started"
kind_text ResultKind.ok = codes "ok"
kind_text ResultKind.error = codes "error"
kind_text (ResultKind.other s) = codes s

-- `jsonx`, `UUID.String` and `Error.Error`.
pub record Codec (F B : Type 0) : Type 0 where
  pub decode_task : B → Result Error (TaskMessage F)
  pub encode_result : ResultMessage F → Result Error B
  pub id_text : Uuid → Text
  pub error_text : Error → Text

-- The agent, and what happens while it computes: whether the context ends before the delay is over,
-- by which error, and the milliseconds that it takes.
pub record Computer : Type 0 where
  pub latencies : Latencies
  pub worker_id : String

pub record Computing : Type 0 where
  pub canceled : Bool
  pub cause : Error
  pub elapsed_ms : ℕ

module _ (fl : Float64) where
  open fl use {F}

  -- The three messages of `handle`; a field that the code leaves out has Go's zero value.
  abbrev pub started_reply : Computer → TaskMessage F → ResultMessage F
  started_reply c task = record {
    kind = ResultKind.started;
    task_id = task.task_id;
    expression_id = task.expression_id;
    result = fl.nought;
    error = [];
    error_code = none;
    worker_id = c.worker_id;
    attempt = task.attempt;
    compute_ms = 0;
  }

  abbrev pub ok_reply : Computer → TaskMessage F → F → ℕ → ResultMessage F
  ok_reply c task value ms = record (started_reply c task) {
    kind = ResultKind.ok;
    result = value;
    compute_ms = ms;
  }

  abbrev pub error_reply : Computer → TaskMessage F → Text → Error → ResultMessage F
  error_reply c task text e = record (started_reply c task) {
    kind = ResultKind.error;
    error = text;
    error_code = some (code_of e);
  }

  module _ {B W Ch Conf : Type 0} (amqp : Amqp B W Ch Conf) (json : Codec F B) where
    -- The message of `publishResult`.
    abbrev pub result_message : B → ResultMessage F → Text → Message B
    result_message body res traceparent = record {
      body = body;
      attempt = res.attempt;
      traceparent = traceparent;
      event_id = json.id_text res.task_id ++ codes ":" ++ kind_text res.kind;
    }

    -- `publishResult`, over the publisher's channel and the broker.
    unfoldable pub publish_result :
        ResultMessage F → Text → Option Ch × W → Option Error × (Option Ch × W)
    unfolding publish
    publish_result res traceparent s = elim (json.encode_result res) [
      | err e ↦ (some e, s)
      | ok body ↦
          let (e, ch, w) =
            publish amqp results_flow.exchange results_flow.routing_key
              (result_message body res traceparent) s.0 s.1 in
          (e, (ch, w))
    ]

    -- The switch of `handle` on the computed value.
    unfoldable pub report :
        Computer
        → TaskMessage F
        → ℕ
        → Text
        → Result Error F
        → Option Ch × W
        → Option Error × (Option Ch × W)
    unfolding publish_result
    report c task ms traceparent (ok value) s =
        publish_result (ok_reply c task value ms) traceparent s
    report c task ms traceparent (err e) s =
        let permanent = publish_result (error_reply c task (json.error_text e) e) traceparent s in
        if is_retryable e then (some e, s) else permanent

    -- `handle`
    unfoldable pub handle :
        Computer
        → (TaskMessage F → Computing)
        → Message B
        → Option Ch × W
        → Option Error × (Option Ch × W)
    unfolding report compute
    handle c computing d s = elim (json.decode_task d.body) [
      | err e ↦ (some e, s)
      | ok read ↦
          let task : TaskMessage F = record read { attempt = d.attempt } in
          let run = computing task in
          let (ignored, s₁) = publish_result (started_reply c task) d.traceparent s in
          let value = compute fl c.latencies run.canceled run.cause task.op task.arg1 task.arg2 in
          report c task run.elapsed_ms d.traceparent value s₁
    ]
