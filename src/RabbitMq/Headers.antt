-- ===== src/RabbitMq/Headers.antt =====
-- rabbitmq.go: the headers of a message are read back.
use Prim.Native.Nat.{min}
use golang_service_architect.Common.{◌^◌, ◌≡◌, refl, [], ◌∷◌, ◌++◌}
use golang_service_architect.Text.{Text, same_text}
use golang_service_architect.RabbitMq.{
  Message, header_traceparent, header_event_id, lookup, text_header, headers, attempt_from,
  string_header, delivery,
}

text-first :
    (t s : Text)
    → string_header
        (text_header header_traceparent t ++ text_header header_event_id s)
        header_traceparent
      ≡ t
unfolding string_header lookup same_text
text-first [] [] = refl
text-first [] (c ∷ s) = refl
text-first (c ∷ t) s = refl

text-second :
    (t s : Text)
    → string_header
        (text_header header_traceparent t ++ text_header header_event_id s)
        header_event_id
      ≡ s
unfolding string_header lookup same_text
text-second [] [] = refl
text-second [] (c ∷ s) = refl
text-second (c ∷ t) [] = refl
text-second (c ∷ t) (d ∷ s) = refl

-- What is read from the headers of a published message is the message, its attempt counted up to
-- 2³⁰ at most.
pub delivery-headers :
    {B : Type 0} (m : Message B)
    → delivery m.body (headers m) ≡ record m { attempt = min m.attempt (2 ^ 30) }
unfolding delivery headers attempt_from string_header lookup same_text
delivery-headers m =
    rw (text-first m.traceparent m.event_id, text-second m.traceparent m.event_id) refl
