-- ===== src/RabbitMq/Tests.antt =====
-- The RabbitMQ client on small inputs.
use golang_service_architect.Common.{
  ℕ, ◌+◌, ◌*◌, ◌≡◌, refl, ap, ◌∙◌, Option, none, some, List, [], ◌∷◌, ◌++◌, map, length, ◌⊎◌,
  Result, ok, arith, ltb, if◌then◌else◌,
}
use golang_service_architect.Apperrors.{code_of, Error, Code, new, is_retryable}
use golang_service_architect.Text.{codes}
use golang_service_architect.RabbitMq.{Flow, Message, Value, header_attempt, headers, delivery}
use golang_service_architect.Samples.{Broker, library, IsIn, confirm_in}
use golang_service_architect.RabbitMq.Headers.{delivery-headers}
use golang_service_architect.RabbitMq.Publisher.{Publishing, plain_publishing, publish, publish_dlq}
use golang_service_architect.RabbitMq.Dispatch.{Verdict, Port, Policy, dispatch}
use golang_service_architect.RabbitMq.Journey.{Fate, IsCopy, IsFateOf, journey, journey-ends}
use golang_service_architect.RabbitMq.Confirms.{
  flow_port, IsHeld, publish-answers, dispatch-delivers,
}
use golang_service_architect.RabbitMq.DeadLetters.{
  Parcel, Letter, Channel, reset, requeue_dlq, IsQueue,
}
use golang_service_architect.RabbitMq.DeadLetters.Redrive.{requeue_dlq-moves}

-- A flow with short names.
abbrev tasks : Flow
tasks = record {
  exchange = codes "tasks.exchange";
  queue = codes "tasks";
  routing_key = codes "task";
}

abbrev letter : Message ℕ
letter = record { body = 7; attempt = 2; traceparent = codes "00-1"; event_id = [] }

delivery-headers_example : delivery 7 (headers letter) ≡ letter
delivery-headers_example = delivery-headers letter

-- A broker that routes one exchange alone.
abbrev IsRoutedByE : Publishing ℕ → Type 0
IsRoutedByE p = p.exchange ≡ codes "e"

publish-answers_example :
    (((publish library (codes "e") (codes "k") letter (some 0) []).0 ≡ none)
      × IsIn
          (plain_publishing (codes "e") (codes "k") letter)
          (publish library (codes "e") (codes "k") letter (some 0) []).2)
    ⊎ ((f : Error) × ((publish library (codes "e") (codes "k") letter (some 0) []).0 ≡ some f)
        × (code_of f ≡ Code.unavailable))
publish-answers_example =
    publish-answers library IsRoutedByE IsIn
      (λ ch p w conf sent ok_ routed. confirm_in ch p w conf sent ok_) (codes "e") (codes "k")
      letter (some 0) [] refl

abbrev busy : Message ℕ → Option ℕ × Broker → Option Error × (Option ℕ × Broker)
busy m s = (some (new Code.overloaded "busy"), s)

abbrev thrice : Policy
thrice = record { max_attempts = 3; backoff = λ n. n * 1000000000 }

busy_acked : (dispatch (flow_port library tasks busy) thrice letter (none, [])).0 ≡ Verdict.acked
unfolding dispatch is_retryable publish_dlq
busy_acked = refl

dispatch-delivers_example :
    ((busy letter (none, [])).0 ≡ none)
    ⊎ ((copy : Message ℕ) × IsHeld library IsIn confirm_in tasks copy
          (dispatch (flow_port library tasks busy) thrice letter (none, [])).1
        × IsCopy letter copy)
dispatch-delivers_example =
    dispatch-delivers library IsIn confirm_in tasks busy thrice letter (none, []) busy_acked

-- A handler that succeeds at the second try.
abbrev second_try : Port ℕ ℕ
second_try = record {
  handler = λ m w. (if ltb 0 w then none else some (new Code.unavailable "down"), w + 1);
  publish_retry = λ m backoff w. (none, w);
  publish_dlq = λ m w. (none, w);
}

journey-ends_example :
    (fate : Fate ℕ) × (w' : ℕ) × (journey second_try 2 thrice (record letter { attempt = 1 }) 0
      ≡ some (fate, w'))
    × IsFateOf second_try (record letter { attempt = 1 }) fate
journey-ends_example =
    journey-ends second_try 2 thrice (record letter { attempt = 1 }) 0 (λ copy b w. refl)
      (λ copy w. refl) (omega arith) (omega arith) (omega arith)

-- A queue with a channel on it.
record Box : Type 0 where
  queued : List (Parcel ℕ)
  taken : List (Letter ℕ)
  published : List (Message ℕ)

abbrev take_one : List (Parcel ℕ) → Box → Result Error (Option (Letter ℕ)) × Box
take_one [] box = (ok none, box)
take_one (p ∷ ps) box =
    let d : Letter ℕ = record { tag = length box.taken + 1; parcel = p } in
    (ok (some d), record { queued = ps; taken = box.taken ++ d ∷ []; published = box.published })

-- The letter that was got last is settled.
abbrev drop_last : List (Letter ℕ) → List (Letter ℕ)
drop_last [] = []
drop_last (d ∷ []) = []
drop_last (d ∷ e ∷ ds) = d ∷ drop_last (e ∷ ds)

drop_last-append : (ds : List (Letter ℕ)) (d : Letter ℕ) → drop_last (ds ++ d ∷ []) ≡ ds
drop_last-append [] d = refl
drop_last-append (e ∷ []) d = refl
drop_last-append (e ∷ f ∷ ds) d = ap (λ l. e ∷ l) (drop_last-append (f ∷ ds) d)

abbrev box_channel : Channel ℕ Box
box_channel = record {
  get = λ box. take_one box.queued box;
  publish = λ m box. (none, record box { published = box.published ++ m ∷ [] });
  ack = λ d box. record box { taken = drop_last box.taken };
  nack = λ d box. record box { queued = d.parcel ∷ box.queued };
  nack_until =
      λ tag box. record box { queued = map (λ d. d.parcel) box.taken ++ box.queued; taken = [] };
}

take_one-none : (box : Box) → box.queued ≡ [] → take_one box.queued box ≡ (ok none, box)
take_one-none box h = ap (λ l. take_one l box) h

take_one-some :
    (box : Box) (p : Parcel ℕ) (ps : List (Parcel ℕ))
    → box.queued ≡ p ∷ ps
    → take_one box.queued box ≡ (
      ok (some (record { tag = length box.taken + 1; parcel = p })),
      record {
        queued = ps;
        taken = box.taken ++ record { tag = length box.taken + 1; parcel = p } ∷ [];
        published = box.published;
      },
    )
take_one-some box p ps h = ap (λ l. take_one l box) h

abbrev box_queue : IsQueue box_channel
box_queue = record {
  waiting = λ box. box.queued;
  unsettled = λ box. box.taken;
  sent = λ box. box.published;
  get_none = λ box h. take_one-none box h;
  get_some = λ box p ps h.
      let e = take_one-some box p ps h in
      (
        length box.taken + 1,
        ap (λ x. x.0) e,
        omega arith,
        ap (λ x. x.1.queued) e,
        ap (λ x. x.1.taken) e,
        ap (λ x. x.1.published) e,
      );
  publish_sends = λ m box. (refl, refl, refl, refl);
  ack_settles = λ d box ds h. ap drop_last h ∙ drop_last-append ds d;
  ack_keeps = λ d box. (refl, refl);
  nack_returns = λ d box ds h. ap (λ l. map (λ d. d.parcel) l ++ box.queued) h;
}

abbrev parcel : Parcel ℕ
parcel = record { body = 7; headers = (header_attempt, Value.int64 5) ∷ [] }

abbrev two_dead : Box
two_dead = record {
  queued = parcel ∷ record { body = 8; headers = [] } ∷ [];
  taken = [];
  published = [];
}

requeue_dlq-moves_example :
    (w' : Box) × (requeue_dlq box_channel 1 two_dead ≡ (1, none, w'))
    × (w'.queued ≡ record { body = 8; headers = [] } ∷ [])
    × (w'.taken ≡ [])
    × (w'.published ≡ reset parcel ∷ [])
requeue_dlq-moves_example = requeue_dlq-moves box_channel box_queue 1 two_dead
