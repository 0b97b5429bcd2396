-- ===== src/Consumers/Guarded/Relayed.antt =====
-- publisher.go and scheduler.go: the relay of the outbox over the guarded publisher.
use Prim.Native.Nat.{min}
use golang_service_architect.Common.{
  ℕ, ◌≡◌, sym, ap, ◌∙◌, true, Option, none, List, [], ok, inl, inr, All,
}
use golang_service_architect.Apperrors.{Error}
use golang_service_architect.Text.{Text, codes}
use golang_service_architect.Messages.{TaskMessage, AuditMessage}
use golang_service_architect.Persistent.Tables.{Db, select_outbox_batch, mark_outbox_published}
use golang_service_architect.Scheduler.{relay_once}
use golang_service_architect.Scheduler.Stores.{IsFaithful, IsOutId, relay_once-stores}
use golang_service_architect.RabbitMq.{Flow}
use golang_service_architect.RabbitMq.Publisher.{Publishing, Amqp}
use golang_service_architect.Retry.{Outcome, returned}
use golang_service_architect.Retry.Answers.{IsReliable}
use golang_service_architect.Consumers.{tasks_flow, audit_flow}
use golang_service_architect.Consumers.Guarded.{Guard, outcome_error, guarded_publish, guarded_port}
use golang_service_architect.Consumers.Guarded.Answers.{IsHeldIn, guarded_publish-answers}
use golang_service_architect.Consumers.Guarded.Durable.{IsDurable, guarded_publish-keeps}

module _ {B W Ch Conf : Type 0} (amqp : Amqp B W Ch Conf) (clock : W → ℕ)
    (IsStored : Publishing B → W → Type 0)
    (confirm_stores : (ch : Ch) (p : Publishing B) (w : W) (conf : Conf)
      → (amqp.publish_deferred ch p w).0 ≡ ok conf
      → (amqp.wait_confirm conf (amqp.publish_deferred ch p w).1).0 ≡ ok true
      → IsStored p (amqp.wait_confirm conf (amqp.publish_deferred ch p w).1).1)
    (d : IsDurable amqp IsStored) where
  sure-holds :
      (Holds : Guard Ch W → Type 0) (o : Outcome) (e : Option Error) (g : Guard Ch W)
      → o ≡ returned e
      → IsReliable Holds e g
      → outcome_error o ≡ none
      → Holds g
  sure-holds Holds o e g same (inl (fine, holds)) h = holds
  sure-holds Holds o e g same (inr (f, bad, code)) h =
      let q = sym h ∙ ap outcome_error same ∙ bad in cc

  module _ {F : Type 0} (ended : ℕ → Option Error) (task_body : TaskMessage F → B)
      (audit_body : AuditMessage F → B) where
    pub guarded_holds :
        (f : Flow) (body : B) (trace : Text) (g : Guard Ch W)
        → outcome_error (guarded_publish amqp clock ended f body trace g).0 ≡ none
        → IsHeldIn amqp clock IsStored confirm_stores f body trace
            (guarded_publish amqp clock ended f body trace g).1
    guarded_holds f body trace g h =
        let (e, same, sure) =
          guarded_publish-answers amqp clock IsStored confirm_stores ended f body trace g in
        sure-holds (IsHeldIn amqp clock IsStored confirm_stores f body trace)
          (guarded_publish amqp clock ended f body trace g).0 e
          (guarded_publish amqp clock ended f body trace g).1 same sure h

    abbrev pub faithful : IsFaithful (guarded_port amqp clock ended task_body audit_body)
    faithful = record {
      HoldsTask = λ m trace g.
          IsHeldIn amqp clock IsStored confirm_stores tasks_flow (task_body m) (codes trace) g;
      HoldsAudit =
          λ m g. IsHeldIn amqp clock IsStored confirm_stores audit_flow (audit_body m) [] g;
      task_holds = λ m trace g h. guarded_holds tasks_flow (task_body m) (codes trace) g h;
      audit_holds = λ m g h. guarded_holds audit_flow (audit_body m) [] g h;
      task_keeps_task = λ m n trace t g h.
          guarded_publish-keeps amqp clock IsStored d _ ended tasks_flow (task_body n) (codes t) g
            h;
      audit_keeps_task = λ m n trace g h.
          guarded_publish-keeps amqp clock IsStored d _ ended audit_flow (audit_body n) [] g h;
      task_keeps_audit = λ m n t g h.
          guarded_publish-keeps amqp clock IsStored d _ ended tasks_flow (task_body n) (codes t) g
            h;
      audit_keeps_audit = λ m n g h.
          guarded_publish-keeps amqp clock IsStored d _ ended audit_flow (audit_body n) [] g h;
    }

    -- One round of the relay over the guarded publisher marks rows as published by their ids, and
    -- each of these is the id of a row of its batch of pending rows whose message the broker holds
    -- behind the round, persistently on its flow, or whose kind is unknown. The broker holds what
    -- it confirms, and goes on to hold it.
    pub relay_once-guarded :
        (batch : ℕ) (db : Db F) (g : Guard Ch W)
        → (ids : List ℕ) × ((relay_once
              (guarded_port amqp clock ended task_body audit_body)
              batch
              db
              g).1
            ≡ mark_outbox_published ids db)
          × All
              (IsOutId
                (guarded_port amqp clock ended task_body audit_body)
                faithful
                (select_outbox_batch (min batch 4096) db)
                (relay_once (guarded_port amqp clock ended task_body audit_body) batch db g).2)
              ids
    relay_once-guarded batch db g =
        relay_once-stores (guarded_port amqp clock ended task_body audit_body) faithful batch db g
