-- ===== src/Audit/Tests.antt =====
-- The ingestion over a store of ids.
use golang_service_architect.Common.{
  ℕ, ◌≡◌, refl, ap, Bool, true, false, ◌||◌, List, [], ◌∷◌, ok, err, ◌⊎◌, inl, inr, All, All-weaken,
  ◌==◌, ==_iff, Bool-cases,
}
use golang_service_architect.Apperrors.{Code, new}
use golang_service_architect.Text.{codes}
use golang_service_architect.Batcher.{Config, Step}
use golang_service_architect.Audit.{AuditEvent, Ports, Happening, happen_all, new_ingestor}
use golang_service_architect.Audit.Durability.{IsKeeping, IsSound, happen_all-stores}

abbrev IsIn : ℕ → List ℕ → Type 0
IsIn id [] = ⊥
IsIn id (j ∷ ids) = (id ≡ j) ⊎ IsIn id ids

abbrev is_in : ℕ → List ℕ → Bool
is_in id [] = false
is_in id (j ∷ ids) = id == j || is_in id ids

is_in-IsIn : (id : ℕ) (ids : List ℕ) → is_in id ids ≡ true → IsIn id ids
is_in-IsIn id [] h = absurd cc
is_in-IsIn id (j ∷ ids) h = elim (Bool-cases (id == j)) [
  | inl same ↦ inl ((==_iff id j).0 same)
  | inr other ↦ inr (is_in-IsIn id ids (rw other at h))
]

record Shelf : Type 0 where
  stored : List ℕ
  marked : List ℕ

abbrev put : List (AuditEvent ℕ) → List ℕ → List ℕ
put [] ids = ids
put (ev ∷ evs) ids = ev.id ∷ put evs ids

put-keeps :
    (evs : List (AuditEvent ℕ)) (ids : List ℕ) (id : ℕ) → IsIn id ids → IsIn id (put evs ids)
put-keeps [] ids id h = h
put-keeps (ev ∷ evs) ids id h = inr (put-keeps evs ids id h)

put-stores : (evs : List (AuditEvent ℕ)) (ids : List ℕ) → All (λ ev. IsIn ev.id (put evs ids)) evs
put-stores [] ids = tt
put-stores (ev ∷ evs) ids = (
  inl refl,
  All-weaken (λ e. IsIn e.id (put evs ids)) (λ e. IsIn e.id (put (ev ∷ evs) ids)) (λ e h. inr h) evs
      (put-stores evs ids),
)

abbrev shelf : Ports ℕ Shelf
shelf = record {
  insert_batch = λ evs w. (ok 1, record w { stored = put evs w.stored });
  seen = λ id w. (ok (is_in id w.marked), w);
  mark_seen = λ id w. record w { marked = id ∷ w.marked };
}

abbrev keeping : IsKeeping shelf
keeping = record {
  IsStored = λ id w. IsIn id w.stored;
  IsMarked = λ id w. IsIn id w.marked;
  insert_stores = λ evs w n h. put-stores evs w.stored;
  insert_keeps = λ evs w id h. put-keeps evs w.stored id h;
  insert_marks = λ evs w id h. h;
  seen_marked = λ id w h. is_in-IsIn id w.marked (ap (λ r. elim r [ ok b ↦ b | err e ↦ true ]) h);
  seen_keeps = λ j w id h. h;
  seen_marks = λ j w id h. h;
  mark_keeps = λ j w id h. h;
  mark_marks = λ j w id h. h;
}

abbrev event : ℕ → AuditEvent ℕ
event id = record {
  id = id;
  occurred_at = 0;
  type = codes "task.done";
  service = [];
  entity_type = codes "task";
  entity_id = [];
  trace_id = [];
  actor = [];
  payload = 0;
}

-- Two events in chunks of one; the first one comes again, and an event has no id.
abbrev day : List (Happening ℕ)
day =
    Happening.ingested 5 (event 1)
    ∷ Happening.ingested 6 (event 2)
    ∷ Happening.looped Step.kicked
    ∷ Happening.looped Step.swapped
    ∷ Happening.looped Step.chunked
    ∷ Happening.abandoned 2 (new Code.unavailable "audit flush timeout")
    ∷ Happening.ingested 7 (event 1)
    ∷ Happening.ingested 8 (event 0)
    ∷ []

abbrev single : Config
single = record { max_size = 1 }

happen_all-stores_example :
    IsSound shelf keeping
      (happen_all shelf day (new_ingestor single (record { stored = []; marked = [] })))
happen_all-stores_example =
    happen_all-stores shelf keeping single day (record { stored = []; marked = [] })
      (λ id h. absurd h)
