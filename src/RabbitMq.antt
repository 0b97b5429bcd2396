-- ===== src/RabbitMq.antt =====
-- backend/pkg/rabbitmq/rabbitmq.go: messages, their headers and what is read back from them. The
-- AMQP library is a parameter where it is called; attempt counters are not negative, as all that
-- this code writes.
pub mod Headers
pub mod Topology
pub mod Publisher
pub mod Dispatch
pub mod Journey
pub mod Confirms
pub mod DeadLetters
mod Tests
use Prim.Native.Nat.{min}
use golang_service_architect.Common.{
  ℕ, ◌^◌, String, Bool, true, false, Option, none, some, List, [], ◌∷◌, ◌++◌, if◌then◌else◌,
}
use golang_service_architect.Text.{Text, codes, same_text}

-- `Flow`, with the names of its retry and dead-letter exchanges and queues.
pub record Flow : Type 0 where
  pub exchange : Text
  pub queue : Text
  pub routing_key : Text

abbrev pub retry_suffix : Text
retry_suffix = codes ".retry"

abbrev pub dlq_suffix : Text
dlq_suffix = codes ".dlq"

abbrev pub retry_exchange : Flow → Text
retry_exchange f = f.exchange ++ retry_suffix

abbrev pub retry_queue : Flow → Text
retry_queue f = f.queue ++ retry_suffix

abbrev pub dlq_exchange : Flow → Text
dlq_exchange f = f.exchange ++ dlq_suffix

abbrev pub dlq : Flow → Text
dlq f = f.queue ++ dlq_suffix

-- `Message`, and `Delivery`, which has the same fields; `B` stands for the bytes of a body.
pub record Message (B : Type 0) : Type 0 where
  pub body : B
  pub attempt : ℕ
  pub traceparent : Text
  pub event_id : Text

-- A value of an `amqp.Table`, by its Go type.
pub data Value : Type 0 where
  int32 int64 int : ℕ → Value
  text : Text → Value
  other : Value

abbrev pub Table : Type 0
Table = List (Text × Value)

abbrev pub header_attempt : Text
header_attempt = codes "x-attempt"

abbrev pub header_traceparent : Text
header_traceparent = codes "traceparent"

abbrev pub header_event_id : Text
header_event_id = codes "x-event-id"

-- `h[key]`
unfoldable pub lookup : Text → Table → Option Value
lookup key [] = none
lookup key ((k, v) ∷ table) =
    let rest = lookup key table in if same_text k key then some v else rest

-- A header that is set where its text is not empty.
abbrev pub text_header : Text → Text → Table
text_header key [] = []
text_header key (c ∷ cs) = (key, Value.text (c ∷ cs)) ∷ []

-- `headers`
unfoldable pub headers : {B : Type 0} → Message B → Table
headers m =
    (header_attempt, Value.int32 (min m.attempt (2 ^ 30)))
      ∷ text_header header_traceparent m.traceparent
    ++ text_header header_event_id m.event_id

-- `attemptFrom`
abbrev pub attempt_value : Option Value → ℕ
attempt_value (some (Value.int32 n)) = n
attempt_value (some (Value.int64 n)) = n
attempt_value (some (Value.int n)) = n
attempt_value _ = 0

unfoldable pub attempt_from : Table → ℕ
unfolding lookup
attempt_from h = attempt_value (lookup header_attempt h)

-- `stringHeader`
abbrev pub text_value : Option Value → Text
text_value (some (Value.text s)) = s
text_value _ = []

unfoldable pub string_header : Table → Text → Text
unfolding lookup
string_header h key = text_value (lookup key h)

-- The `Delivery` that `dispatch` and `InspectDLQ` build from one of the library.
unfoldable pub delivery : {B : Type 0} → B → Table → Message B
unfolding attempt_from string_header
delivery body h = record {
  body = body;
  attempt = attempt_from h;
  traceparent = string_header h header_traceparent;
  event_id = string_header h header_event_id;
}
