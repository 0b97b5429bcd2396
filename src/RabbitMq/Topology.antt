-- ===== src/RabbitMq/Topology.antt =====
-- rabbitmq.go, DeclareFlow: the exchanges and queues of a flow, and where a message goes in them.
use golang_service_architect.Common.{
  ℕ, ◌≢◌, ◌≡◌, refl, false, ◌&&◌, Option, none, some, List, [], ◌∷◌, ◌++◌, length, length-append,
  if◌then◌else◌, arith,
}
use golang_service_architect.Apperrors.{Error}
use golang_service_architect.Text.{Text, codes, same_text}
use golang_service_architect.Text.Same.{same_text_refl, same_text-length}
use golang_service_architect.RabbitMq.{
  Flow, retry_exchange, retry_queue, dlq_exchange, dlq, retry_suffix, dlq_suffix,
}

-- What a queue does with a message that dies in it.
pub record DeadLetter : Type 0 where
  pub exchange : Text
  pub routing_key : Text

-- One call on the channel; all are durable, and all exchanges are direct.
pub data Declaration : Type 0 where
  exchange : Text → Declaration
  queue : Text → Option DeadLetter → Declaration
  bind : Text → Text → Text → Declaration

-- The calls of `DeclareFlow`, in order.
unfoldable pub declarations : Flow → List Declaration
declarations f =
    Declaration.exchange f.exchange
    ∷ Declaration.queue f.queue
        (some (record { exchange = dlq_exchange f; routing_key = f.routing_key }))
    ∷ Declaration.bind f.queue f.routing_key f.exchange
    ∷ Declaration.exchange (retry_exchange f)
    ∷ Declaration.queue (retry_queue f)
        (some (record { exchange = f.exchange; routing_key = f.routing_key }))
    ∷ Declaration.bind (retry_queue f) f.routing_key (retry_exchange f)
    ∷ Declaration.exchange (dlq_exchange f)
    ∷ Declaration.queue (dlq f) none
    ∷ Declaration.bind (dlq f) f.routing_key (dlq_exchange f)
    ∷ []

-- `DeclareFlow` on a channel that answers each call: it returns at the first error.
unfoldable pub declare_all :
    {W : Type 0} → (Declaration → W → Option Error × W) → List Declaration → W → Option Error × W
declare_all answer [] w = (none, w)
declare_all answer (d ∷ ds) w =
    let (failure, w') = answer d w in
    let rest = declare_all answer ds w' in elim failure [ some e ↦ (some e, w') | none ↦ rest ]

-- Where a direct exchange takes a message: to the queues that are bound to it by the message's key.
abbrev pub routed : Text → Text → List Declaration → List Text
routed ex key [] = []
routed ex key (Declaration.bind q k e ∷ ds) =
    let rest = routed ex key ds in if same_text e ex && same_text k key then q ∷ rest else rest
routed ex key (_ ∷ ds) = routed ex key ds

-- What happens to a message that dies in a queue, by the first declaration of the queue.
abbrev pub dies : Text → List Declaration → Option DeadLetter
dies name [] = none
dies name (Declaration.queue q letter ∷ ds) =
    let rest = dies name ds in if same_text q name then letter else rest
dies name (_ ∷ ds) = dies name ds

suffixed : (a b c : Text) → length b ≢ length c → same_text (a ++ b) (a ++ c) ≡ false
suffixed a b c n =
    same_text-length (a ++ b) (a ++ c)
      (λ e. n (omega (arith, e, length-append a b, length-append a c)))

bare : (a : Text) (c : ℕ) (b : Text) → same_text a (a ++ c ∷ b) ≡ false
bare a c b =
    same_text-length a (a ++ c ∷ b) (λ e. absurd (omega (arith, e, length-append a (c ∷ b))))

tailed : (a : Text) (c : ℕ) (b : Text) → same_text (a ++ c ∷ b) a ≡ false
tailed a c b =
    same_text-length (a ++ c ∷ b) a (λ e. absurd (omega (arith, e, length-append a (c ∷ b))))

-- In a declared flow, a message that is published to the flow's exchange reaches its queue alone;
-- one that dies there (rejected without requeue) reaches the dead-letter queue alone, and one that
-- is published to the retry exchange the retry queue alone, from which its death leads back to the
-- queue; what is in the dead-letter queue stays there.
declarations-routes :
    (f : Flow)
    → (routed f.exchange f.routing_key (declarations f) ≡ f.queue ∷ [])
      × (dies f.queue (declarations f)
          ≡ some (record { exchange = dlq_exchange f; routing_key = f.routing_key }))
      × (routed (dlq_exchange f) f.routing_key (declarations f) ≡ dlq f ∷ [])
      × (routed (retry_exchange f) f.routing_key (declarations f) ≡ retry_queue f ∷ [])
      × (dies (retry_queue f) (declarations f)
          ≡ some (record { exchange = f.exchange; routing_key = f.routing_key }))
      × (dies (dlq f) (declarations f) ≡ none)
unfolding declarations
declarations-routes f =
    let key = same_text_refl f.routing_key in
    let main = same_text_refl f.exchange in
    let retry = same_text_refl (retry_exchange f) in
    let dead = same_text_refl (dlq_exchange f) in
    let retry_main = tailed f.exchange b'.' (codes "retry") in
    let dead_main = tailed f.exchange b'.' (codes "dlq") in
    let main_retry = bare f.exchange b'.' (codes "retry") in
    let main_dead = bare f.exchange b'.' (codes "dlq") in
    let retry_dead = suffixed f.exchange retry_suffix dlq_suffix (λ e. absurd (omega (arith, e))) in
    let dead_retry = suffixed f.exchange dlq_suffix retry_suffix (λ e. absurd (omega (arith, e))) in
    let main_retry_q = bare f.queue b'.' (codes "retry") in
    let main_dead_q = bare f.queue b'.' (codes "dlq") in
    let retry_dead_q = suffixed f.queue retry_suffix dlq_suffix (λ e. absurd (omega (arith, e))) in
    (
      rw (main, key, retry_main, dead_main) refl,
      rw (same_text_refl f.queue) refl,
      rw (main_dead, retry_dead, dead, key) refl,
      rw (main_retry, retry, key, dead_retry) refl,
      rw (main_retry_q, same_text_refl (retry_queue f)) refl,
      rw (main_dead_q, retry_dead_q, same_text_refl (dlq f)) refl,
    )
