-- ===== src/Consumers/Agent.antt =====
-- consumers.go, handle: what an agent's handler leaves behind, and with `dispatch` around it.
use golang_service_architect.Common.{
  ◌≡◌, refl, sym, ap, ◌∙◌, Option, none, some, ok, err, Bool, true, false, Bool-cases, ◌⊎◌, inl,
  inr, Result-cases, ◌&&◌, ltb, subst,
}
use golang_service_architect.Apperrors.{Error, Code, code_of, is_retryable, wrap}
use golang_service_architect.Text.{Text}
use golang_service_architect.Float64.{Float64}
use golang_service_architect.Expression.Ast.{Op}
use golang_service_architect.Messages.{TaskMessage, ResultKind, ResultMessage}
use golang_service_architect.Worker.{Latencies, latency_for, apply, compute}
use golang_service_architect.RabbitMq.{Message}
use golang_service_architect.RabbitMq.Publisher.{Publishing, Amqp, plain_publishing}
use golang_service_architect.RabbitMq.Dispatch.{Verdict, Port, Policy, route, follow, dispatch}
use golang_service_architect.RabbitMq.Journey.{IsCopy}
use golang_service_architect.RabbitMq.Confirms.{
  flow_port, IsHeld, publish_lem, answered, dispatch-delivers,
}
use golang_service_architect.Consumers.{
  Codec, Computer, Computing, tasks_flow, results_flow, started_reply, ok_reply, error_reply,
  result_message, publish_result, report, handle,
}

module _ (fl : Float64) where
  open fl use {F}

  -- What `Compute` returns but for a cancellation is what the operation gives.
  compute-ok :
      (lat : Latencies) (canceled : Bool) (cause : Error) (op : Op) (a b v : F)
      → compute fl lat canceled cause op a b ≡ ok v
      → apply fl op a b ≡ ok v
  unfolding compute
  compute-ok lat canceled cause op a b v h =
      elim (Bool-cases (ltb 0 (latency_for lat op) && canceled)) [
        | inl stopped ↦ let q = rw stopped at h in cc
        | inr runs ↦ rw runs at h
      ]

  compute-permanent :
      (lat : Latencies) (canceled : Bool) (cause : Error) (op : Op) (a b : F) (e : Error)
      → compute fl lat canceled cause op a b ≡ err e
      → is_retryable e ≡ false
      → apply fl op a b ≡ err e
  unfolding compute is_retryable code_of
  compute-permanent lat canceled cause op a b e h permanent =
      elim (Bool-cases (ltb 0 (latency_for lat op) && canceled)) [
        | inl stopped ↦
            let same : wrap Code.unavailable "compute canceled" cause ≡ e =
              ap (λ r. elim r [ ok _ ↦ e | err x ↦ x ]) (rw stopped at h) in
            let q = ap is_retryable same ∙ permanent in cc
        | inr runs ↦ rw runs at h
      ]

  -- A reply tells the task, and what its operation gives: the value, or the class of the error.
  abbrev pub IsReply : TaskMessage F → ResultMessage F → Type 0
  IsReply task res =
      (res.task_id ≡ task.task_id)
      × (res.expression_id ≡ task.expression_id)
      × (((res.kind ≡ ResultKind.ok) × (apply fl task.op task.arg1 task.arg2 ≡ ok res.result))
          ⊎ ((e : Error) × (res.kind ≡ ResultKind.error)
              × (apply fl task.op task.arg1 task.arg2 ≡ err e)
              × (res.error_code ≡ some (code_of e))))

  module _ {B W Ch Conf : Type 0} (amqp : Amqp B W Ch Conf) (IsStored : Publishing B → W → Type 0)
      (confirm_stores : (ch : Ch) (p : Publishing B) (w : W) (conf : Conf)
        → (amqp.publish_deferred ch p w).0 ≡ ok conf
        → (amqp.wait_confirm conf (amqp.publish_deferred ch p w).1).0 ≡ ok true
        → IsStored p (amqp.wait_confirm conf (amqp.publish_deferred ch p w).1).1)
      (json : Codec F B) where
    -- The broker holds a message on the results flow, with this reply in its body.
    abbrev pub IsSent : ResultMessage F → Text → W → Type 0
    IsSent res traceparent w =
        (body : B) × (json.encode_result res ≡ ok body)
        × IsStored
            (plain_publishing results_flow.exchange results_flow.routing_key
              (result_message fl amqp json body res traceparent))
            w

    -- The broker holds a reply to the task that a delivery's body is read as.
    abbrev pub IsAnswered : Message B → W → Type 0
    IsAnswered d w =
        (task : TaskMessage F) × (res : ResultMessage F) × (json.decode_task d.body ≡ ok task)
        × IsReply task res
        × IsSent res d.traceparent w

    publish_result-sends :
        (res : ResultMessage F) (traceparent : Text) (s : Option Ch × W)
        → (publish_result fl amqp json res traceparent s).0 ≡ none
        → IsSent res traceparent (publish_result fl amqp json res traceparent s).1.1
    unfolding publish_result
    publish_result-sends res traceparent s h = elim (Result-cases (json.encode_result res)) [
      | inr (e, failed) ↦ let q = rw (publish_result, failed) at h in cc
      | inl (body, encoded) ↦
          let msg = result_message fl amqp json body res traceparent in
          rw (publish_result, encoded)
            (
              body,
              refl,
              answered amqp IsStored confirm_stores
                  (plain_publishing results_flow.exchange results_flow.routing_key msg) _ _
                  (rw (publish_result, encoded) at h)
                  (publish_lem amqp IsStored confirm_stores results_flow.exchange
                    results_flow.routing_key msg s.0 s.1),
            )
    ]

    report-replies :
        (c : Computer) (d : Message B) (read : TaskMessage F) (run : Computing) (s : Option Ch × W)
        → json.decode_task d.body ≡ ok read
        → let task : TaskMessage F = record read { attempt = d.attempt } in
          let value = compute fl c.latencies run.canceled run.cause read.op read.arg1 read.arg2 in
          (report fl amqp json c task run.elapsed_ms d.traceparent value s).0 ≡ none
          → IsAnswered d (report fl amqp json c task run.elapsed_ms d.traceparent value s).1.1
    unfolding report
    report-replies c d read run s decoded h =
        elim (Result-cases
          (compute fl c.latencies run.canceled run.cause read.op read.arg1 read.arg2)) [
            | inl (v, computed) ↦
                let task : TaskMessage F = record read { attempt = d.attempt } in
                let res = ok_reply fl c task v run.elapsed_ms in
                rw computed (
                  read,
                  res,
                  decoded,
                  (
                    refl,
                    refl,
                    inl (
                      refl,
                      compute-ok c.latencies run.canceled run.cause read.op read.arg1 read.arg2 v
                          computed,
                    ),
                  ),
                  publish_result-sends res d.traceparent s (rw computed at h),
                )
            | inr (e, failed) ↦ elim (Bool-cases (is_retryable e)) [
              | inl transient ↦ let q = rw (failed, transient) at h in cc
              | inr permanent ↦
                  let task : TaskMessage F = record read { attempt = d.attempt } in
                  let res = error_reply fl c task (json.error_text e) e in
                  rw (failed, permanent)
                    (
                      read,
                      res,
                      decoded,
                      (
                        refl,
                        refl,
                        inr (
                          e,
                          refl,
                          compute-permanent c.latencies run.canceled run.cause read.op read.arg1
                              read.arg2 e failed permanent,
                          refl,
                        ),
                      ),
                      publish_result-sends res d.traceparent s (rw (failed, permanent) at h),
                    )
            ]
          ]

    handle-replies :
        (c : Computer) (computing : TaskMessage F → Computing) (d : Message B) (s : Option Ch × W)
        → (handle fl amqp json c computing d s).0 ≡ none
        → IsAnswered d (handle fl amqp json c computing d s).1.1
    unfolding handle
    handle-replies c computing d s h = elim (Result-cases (json.decode_task d.body)) [
      | inr (e, failed) ↦ let q = rw (handle, failed) at h in cc
      | inl (read, decoded) ↦
          let task : TaskMessage F = record read { attempt = d.attempt } in
          let s₁ = (publish_result fl amqp json (started_reply fl c task) d.traceparent s).1 in
          let (told, res, whole, reply, sent) =
            report-replies c d read (computing task) s₁ decoded (rw (handle, decoded) at h) in
          rw (handle, decoded) (told, res, sym decoded ∙ whole, reply, sent)
    ]

    abbrev pub agent_port : Computer → (TaskMessage F → Computing) → Port B (Option Ch × W)
    agent_port c computing = flow_port amqp tasks_flow (handle fl amqp json c computing)

    dispatch_handled :
        (port : Port B (Option Ch × W)) (policy : Policy) (d : Message B) (s : Option Ch × W)
        → (port.handler d s).0 ≡ none
        → (dispatch port policy d s).1 ≡ (port.handler d s).1
    unfolding dispatch route follow
    dispatch_handled port policy d s h = rw h refl

    -- A task that an agent acknowledges was answered: the broker holds a reply with the task's ids
    -- and what its operation gives, the value or the class of its permanent error. Or the broker
    -- holds a copy of the task for a later attempt or in the dead-letter exchange. The broker holds
    -- what it confirms.
    pub dispatch-handle :
        (c : Computer) (computing : TaskMessage F → Computing) (policy : Policy) (d : Message B)
        (s : Option Ch × W)
        → (dispatch (agent_port c computing) policy d s).0 ≡ Verdict.acked
        → IsAnswered d (dispatch (agent_port c computing) policy d s).1.1
          ⊎ ((copy : Message B) × IsHeld amqp IsStored confirm_stores tasks_flow copy
                (dispatch (agent_port c computing) policy d s).1
              × IsCopy d copy)
    dispatch-handle c computing policy d s h =
        let handler = handle fl amqp json c computing in
        elim (dispatch-delivers amqp IsStored confirm_stores tasks_flow handler policy d s h) [
          | inr copy ↦ inr copy
          | inl fine ↦ inl (
              subst (λ (s' : Option Ch × W). IsAnswered d s'.1)
                (sym (dispatch_handled (agent_port c computing) policy d s fine))
                (handle-replies c computing d s fine))
        ]
