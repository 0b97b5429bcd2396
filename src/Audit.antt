-- ===== src/Audit.antt =====
-- backend/internal/usecase/audit/ingest.go: the write path of the audit log, over the batcher. The
-- store and the filter of duplicates are ports; a time is a number, with 0 for Go's zero time, and 0
-- is the zero UUID.
pub mod Durability
pub mod Store
mod Tests
use golang_service_architect.Common.{
  ℕ, ◌+◌, Bool, true, false, Option, none, some, List, [], ◌∷◌, ◌++◌, map, length, Result, ok, err,
  ◌==◌, if◌then◌else◌,
}
use golang_service_architect.Apperrors.{Error, Code, new, wrap}
use golang_service_architect.Text.{Text, codes}
use golang_service_architect.Expression.Task.{Uuid}
use golang_service_architect.Batcher as Batch
use golang_service_architect.Batcher.{Batcher, Step, step}

-- `AuditEvent`; `P` stands for its payload.
pub record AuditEvent (P : Type 0) : Type 0 where
  pub id : Uuid
  pub occurred_at : ℕ
  pub type : Text
  pub service : Text
  pub entity_type : Text
  pub entity_id : Text
  pub trace_id : Text
  pub actor : Text
  pub payload : P

-- The calls of the ports; `W` is what they work on.
pub record Ports (P W : Type 0) : Type 0 where
  pub insert_batch : List (AuditEvent P) → W → Result Error ℕ × W
  pub seen : Uuid → W → Result Error Bool × W
  pub mark_seen : Uuid → W → W

abbrev pub is_empty : Text → Bool
is_empty [] = true
is_empty (c ∷ cs) = false

-- `validate`, with the time of the call.
abbrev pub occurred_or : ℕ → ℕ → ℕ
occurred_or now at = if at == 0 then now else at

abbrev pub service_or_unknown : Text → Text
service_or_unknown [] = codes "unknown"
service_or_unknown (c ∷ cs) = c ∷ cs

unfoldable pub validate : {P : Type 0} → ℕ → AuditEvent P → Result Error (AuditEvent P)
validate now ev =
    if ev.id == 0
    then err (new Code.invalid_input "audit event id required")
    else if is_empty ev.type
    then err (new Code.invalid_input "audit event type required")
    else ok (record ev {
      occurred_at = occurred_or now ev.occurred_at;
      service = service_or_unknown ev.service;
    })

-- What a call of `Ingest` returned, for the event of an id.
pub record Answer : Type 0 where
  pub id : Uuid
  pub result : Option Error

-- `Ingestor`, with what its ports work on and what its calls returned so far.
pub record Ingestor (P W : Type 0) : Type 0 where
  pub batch : Batcher (AuditEvent P)
  pub ports : W
  pub answers : List Answer
  pub accepted : ℕ
  pub deduplicated : ℕ
  pub flushed : ℕ
  pub flush_errors : ℕ

-- What happens to an ingestor: a call of `Ingest` at a time, a step of the batcher's loop, or a
-- caller that does not wait for its answer any more, for the timeout or its context.
pub data Happening (P : Type 0) : Type 0 where
  ingested : ℕ → AuditEvent P → Happening P
  looped : Step (AuditEvent P) → Happening P
  abandoned : Uuid → Error → Happening P

module _ {P W : Type 0} (port : Ports P W) where
  -- `Ingest` up to its wait: an answer at once, or an event in the batcher.
  abbrev pub answered : Uuid → Option Error → Ingestor P W → Ingestor P W
  answered id result s = record s { answers = record { id = id; result = result } ∷ s.answers }

  abbrev pub accept : AuditEvent P → Ingestor P W → Ingestor P W
  accept ev s = record s { batch = (step (Step.added ev) s.batch).1; accepted = s.accepted + 1 }

  abbrev pub after_seen : AuditEvent P → Result Error Bool → Ingestor P W → Ingestor P W
  after_seen ev (ok true) s = answered ev.id none (record s { deduplicated = s.deduplicated + 1 })
  after_seen ev _ s = accept ev s

  unfoldable pub ingest : ℕ → AuditEvent P → Ingestor P W → Ingestor P W
  unfolding validate
  ingest now ev s = elim (validate now ev) [
    | err e ↦ answered ev.id (some e) s
    | ok ev ↦
        let (found, w) = port.seen ev.id s.ports in after_seen ev found (record s { ports = w })
  ]

  -- The loops of `flush` over a batch: each event is answered, and marked where it is stored.
  abbrev pub answer_all : Option Error → List (AuditEvent P) → List Answer → List Answer
  answer_all result [] answers = answers
  answer_all result (ev ∷ evs) answers =
      answer_all result evs (record { id = ev.id; result = result } ∷ answers)

  abbrev pub mark_all : List (AuditEvent P) → W → W
  mark_all [] w = w
  mark_all (ev ∷ evs) w = mark_all evs (port.mark_seen ev.id w)

  -- `flush`; the answer of a caller that is gone goes nowhere, and is kept here all the same.
  abbrev pub flushed_as : Result Error ℕ → List (AuditEvent P) → Ingestor P W → Ingestor P W
  flushed_as (err e) evs s = record s {
    answers = answer_all (some (wrap Code.unavailable "audit batch insert" e)) evs s.answers;
    flush_errors = s.flush_errors + 1;
  }
  flushed_as (ok n) evs s = record s {
    ports = mark_all evs s.ports;
    answers = answer_all none evs s.answers;
    flushed = s.flushed + length evs;
  }

  unfoldable pub flush : List (AuditEvent P) → Ingestor P W → Ingestor P W
  flush [] s = s
  flush (ev ∷ evs) s =
      let (stored, w) = port.insert_batch (ev ∷ evs) s.ports in
      flushed_as stored (ev ∷ evs) (record s { ports = w })

  -- One happening; a loop step of the batcher adds nothing.
  unfoldable pub happen : Happening P → Ingestor P W → Ingestor P W
  unfolding ingest flush
  happen (Happening.ingested now ev) s = ingest now ev s
  happen (Happening.looped (Step.added ev)) s = s
  happen (Happening.looped turn) s =
      let (chunk, batch) = step turn s.batch in flush chunk (record s { batch = batch })
  happen (Happening.abandoned id e) s = answered id (some e) s

  unfoldable pub happen_all : List (Happening P) → Ingestor P W → Ingestor P W
  happen_all [] s = s
  happen_all (h ∷ hs) s = happen_all hs (happen h s)

-- `NewIngestor`
unfoldable pub new_ingestor : {P W : Type 0} → Batch.Config → W → Ingestor P W
new_ingestor cfg w = record {
  batch = Batch.new_batcher cfg;
  ports = w;
  answers = [];
  accepted = 0;
  deduplicated = 0;
  flushed = 0;
  flush_errors = 0;
}
