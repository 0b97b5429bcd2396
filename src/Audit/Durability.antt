-- ===== src/Audit/Durability.antt =====
-- ingest.go: an event that was accepted is stored.
use golang_service_architect.Common.{
  ℕ, ◌≡◌, refl, sym, subst, Bool, true, false, Option, none, some, List, [], ◌∷◌, Result,
  Result-cases, ok, err, ◌⊎◌, inl, inr, All, All-weaken,
}
use golang_service_architect.Apperrors.{Error, Code, wrap}
use golang_service_architect.Expression.Task.{Uuid}
use golang_service_architect.Batcher as Batch
use golang_service_architect.Batcher.{Step, step}
use golang_service_architect.Audit.{
  AuditEvent, Ports, validate, Answer, Ingestor, Happening, after_seen, ingest, answer_all,
  mark_all, flushed_as, flush, happen, happen_all, new_ingestor,
}

-- What the ports promise: a batch that the store takes with no error is stored, and stays so; the
-- filter has seen no id that was not marked.
pub record IsKeeping {P W : Type 0} (port : Ports P W) : Type 1 where
  pub IsStored : Uuid → W → Type 0
  pub IsMarked : Uuid → W → Type 0
  pub insert_stores :
      (evs : List (AuditEvent P)) (w : W) (n : ℕ)
      → (port.insert_batch evs w).0 ≡ ok n
      → All (λ ev. IsStored ev.id (port.insert_batch evs w).1) evs
  pub insert_keeps :
      (evs : List (AuditEvent P)) (w : W) (id : Uuid)
      → IsStored id w
      → IsStored id (port.insert_batch evs w).1
  pub insert_marks :
      (evs : List (AuditEvent P)) (w : W) (id : Uuid)
      → IsMarked id (port.insert_batch evs w).1
      → IsMarked id w
  pub seen_marked : (id : Uuid) (w : W) → (port.seen id w).0 ≡ ok true → IsMarked id w
  pub seen_keeps : (j : Uuid) (w : W) (id : Uuid) → IsStored id w → IsStored id (port.seen j w).1
  pub seen_marks : (j : Uuid) (w : W) (id : Uuid) → IsMarked id (port.seen j w).1 → IsMarked id w
  pub mark_keeps : (j : Uuid) (w : W) (id : Uuid) → IsStored id w → IsStored id (port.mark_seen j w)
  pub mark_marks :
      (j : Uuid) (w : W) (id : Uuid) → IsMarked id (port.mark_seen j w) → (id ≡ j) ⊎ IsMarked id w

module _ {P W : Type 0} (port : Ports P W) (k : IsKeeping port) where
  open k use {
    IsStored, IsMarked, insert_stores, insert_keeps, insert_marks, seen_marked, seen_keeps,
    seen_marks, mark_keeps, mark_marks,
  }

  -- An answer with no error is one for a stored event.
  abbrev pub IsTrueOf : W → Uuid → Option Error → Type 0
  IsTrueOf w id none = IsStored id w
  IsTrueOf w id (some e) = Unit

  abbrev pub IsTrue : W → Answer → Type 0
  IsTrue w a = IsTrueOf w a.id a.result

  abbrev pub IsMarkedStored : W → Type 0
  IsMarkedStored w = (id : Uuid) → IsMarked id w → IsStored id w

  -- What is marked is stored, and the answers are true.
  pub record IsSound (s : Ingestor P W) : Type 0 where
    pub marks : IsMarkedStored s.ports
    pub answers : All (IsTrue s.ports) s.answers

  true-keeps :
      (w w' : W)
      → ((id : Uuid) → IsStored id w → IsStored id w')
      → (answers : List Answer) → All (IsTrue w) answers
      → All (IsTrue w') answers
  true-keeps w w' keeps answers h =
      All-weaken (IsTrue w) (IsTrue w') (λ a t. weaken a.id a.result t) answers h
    where
      weaken : (id : Uuid) (o : Option Error) → IsTrueOf w id o → IsTrueOf w' id o
      weaken id none t = keeps id t
      weaken id (some e) t = tt

  answer_all-IsTrue :
      (o : Option Error) (evs : List (AuditEvent P)) (w : W) (answers : List Answer)
      → All (λ ev. IsTrueOf w ev.id o) evs
      → All (IsTrue w) answers
      → All (IsTrue w) (answer_all port o evs answers)
  answer_all-IsTrue o [] w answers h t = t
  answer_all-IsTrue o (ev ∷ evs) w answers (here, there) t =
      answer_all-IsTrue o evs w (record { id = ev.id; result = o } ∷ answers) there (here, t)

  all_fine :
      (e : Error) (evs : List (AuditEvent P)) (w : W) → All (λ ev. IsTrueOf w ev.id (some e)) evs
  all_fine e [] w = tt
  all_fine e (ev ∷ evs) w = (tt, all_fine e evs w)

  mark_all-keeps :
      (evs : List (AuditEvent P)) (w : W) (id : Uuid)
      → IsStored id w
      → IsStored id (mark_all port evs w)
  mark_all-keeps [] w id h = h
  mark_all-keeps (ev ∷ evs) w id h =
      mark_all-keeps evs (port.mark_seen ev.id w) id (mark_keeps ev.id w id h)

  mark_all-stored :
      (evs : List (AuditEvent P)) (w : W)
      → All (λ ev. IsStored ev.id w) evs
      → IsMarkedStored w
      → IsMarkedStored (mark_all port evs w)
  mark_all-stored [] w h m = m
  mark_all-stored (ev ∷ evs) w (here, there) m =
      let w₁ = port.mark_seen ev.id w in
      mark_all-stored evs w₁
        (All-weaken (λ e. IsStored e.id w) (λ e. IsStored e.id w₁)
          (λ e h. mark_keeps ev.id w e.id h) evs there)
        (λ id marked. mark_keeps ev.id w id (old id (mark_marks ev.id w id marked)))
    where
      old : (id : Uuid) → (id ≡ ev.id) ⊎ IsMarked id w → IsStored id w
      old id (inl e) = subst (λ j. IsStored j w) (sym e) here
      old id (inr marked) = m id marked

  flushed_as-IsSound :
      (stored : Result Error ℕ) (evs : List (AuditEvent P)) (s : Ingestor P W)
      → ((n : ℕ) → stored ≡ ok n → All (λ ev. IsStored ev.id s.ports) evs)
      → IsSound s
      → IsSound (flushed_as port stored evs s)
  flushed_as-IsSound (err e) evs s h sound =
      let why = wrap Code.unavailable "audit batch insert" e in
      record {
        marks = sound.marks;
        answers =
            answer_all-IsTrue (some why) evs s.ports s.answers (all_fine why evs s.ports)
              sound.answers;
      }
  flushed_as-IsSound (ok n) evs s h sound =
      let there = h n refl in
      let w = mark_all port evs s.ports in
      record {
        marks = mark_all-stored evs s.ports there sound.marks;
        answers =
            answer_all-IsTrue none evs w s.answers
              (All-weaken (λ ev. IsStored ev.id s.ports) (λ ev. IsStored ev.id w)
                (λ ev h. mark_all-keeps evs s.ports ev.id h) evs there)
              (true-keeps s.ports w (mark_all-keeps evs s.ports) s.answers sound.answers);
      }

  flush-IsSound :
      (evs : List (AuditEvent P)) (s : Ingestor P W) → IsSound s → IsSound (flush port evs s)
  unfolding flush
  flush-IsSound [] s sound = sound
  flush-IsSound (ev ∷ evs) s sound =
      let (stored, w) = port.insert_batch (ev ∷ evs) s.ports in
      flushed_as-IsSound stored (ev ∷ evs) (record s { ports = w })
        (λ n h. insert_stores (ev ∷ evs) s.ports n h)
        (record {
          marks = λ id m.
              insert_keeps (ev ∷ evs) s.ports id
                (sound.marks id (insert_marks (ev ∷ evs) s.ports id m));
          answers = true-keeps s.ports w (insert_keeps (ev ∷ evs) s.ports) s.answers sound.answers;
        })

  after_seen-IsSound :
      (ev : AuditEvent P) (found : Result Error Bool) (s : Ingestor P W)
      → (found ≡ ok true → IsStored ev.id s.ports)
      → IsSound s
      → IsSound (after_seen port ev found s)
  after_seen-IsSound ev (ok true) s h sound = record {
    marks = sound.marks;
    answers = (h refl, sound.answers);
  }
  after_seen-IsSound ev (ok false) s h sound = record {
    marks = sound.marks;
    answers = sound.answers;
  }
  after_seen-IsSound ev (err e) s h sound = record { marks = sound.marks; answers = sound.answers }

  ingest-IsSound :
      (now : ℕ) (ev : AuditEvent P) (s : Ingestor P W) → IsSound s → IsSound (ingest port now ev s)
  unfolding ingest
  ingest-IsSound now ev s sound = elim (Result-cases (validate now ev)) [
    | inr (e, refused) ↦
        rw (ingest, refused) (record { marks = sound.marks; answers = (tt, sound.answers) })
    | inl (valid, fine) ↦
        let (found, w) = port.seen valid.id s.ports in
        rw (ingest, fine)
          (after_seen-IsSound valid found (record s { ports = w })
            (λ seen.
              seen_keeps valid.id s.ports valid.id
                (sound.marks valid.id (seen_marked valid.id s.ports seen)))
            (record {
              marks = λ id m.
                  seen_keeps valid.id s.ports id
                    (sound.marks id (seen_marks valid.id s.ports id m));
              answers = true-keeps s.ports w (seen_keeps valid.id s.ports) s.answers sound.answers;
            }))
  ]

  -- A turn of the loop flushes a chunk, which may be empty.
  turn-IsSound :
      (turn : Step (AuditEvent P)) (s : Ingestor P W)
      → IsSound s
      → IsSound (flush port (step turn s.batch).0 (record s { batch = (step turn s.batch).1 }))
  turn-IsSound turn s sound =
      flush-IsSound (step turn s.batch).0 (record s { batch = (step turn s.batch).1 })
        (record { marks = sound.marks; answers = sound.answers })

  happen-IsSound : (h : Happening P) (s : Ingestor P W) → IsSound s → IsSound (happen port h s)
  unfolding happen
  happen-IsSound (Happening.ingested now ev) s sound = ingest-IsSound now ev s sound
  happen-IsSound (Happening.abandoned id e) s sound = record {
    marks = sound.marks;
    answers = (tt, sound.answers);
  }
  happen-IsSound (Happening.looped (Step.added ev)) s sound = sound
  happen-IsSound (Happening.looped Step.closed) s sound = turn-IsSound Step.closed s sound
  happen-IsSound (Happening.looped Step.ticked) s sound = turn-IsSound Step.ticked s sound
  happen-IsSound (Happening.looped Step.kicked) s sound = turn-IsSound Step.kicked s sound
  happen-IsSound (Happening.looped Step.stopped) s sound = turn-IsSound Step.stopped s sound
  happen-IsSound (Happening.looped Step.swapped) s sound = turn-IsSound Step.swapped s sound
  happen-IsSound (Happening.looped Step.chunked) s sound = turn-IsSound Step.chunked s sound

  happen_all-IsSound :
      (hs : List (Happening P)) (s : Ingestor P W) → IsSound s → IsSound (happen_all port hs s)
  unfolding happen_all
  happen_all-IsSound [] s sound = sound
  happen_all-IsSound (h ∷ hs) s sound =
      happen_all-IsSound hs (happen port h s) (happen-IsSound h s sound)

  -- However the calls, the turns of the loop, the timeouts and the failures of the store follow one
  -- another, every call that returned no error was for the id of a stored event, and only ids of
  -- stored events are marked as seen; if that is so of the marks at the start. What the store takes
  -- with no error stays stored.
  pub happen_all-stores :
      (cfg : Batch.Config) (hs : List (Happening P)) (w : W)
      → IsMarkedStored w
      → IsSound (happen_all port hs (new_ingestor cfg w))
  unfolding new_ingestor
  happen_all-stores cfg hs w marked =
      happen_all-IsSound hs (new_ingestor cfg w) (record { marks = marked; answers = tt })
