-- ===== src/Scheduler/Stores.antt =====
-- scheduler.go, relayOnce: a row that the relay marks as published is held by the broker.
use Prim.Native.Nat.{min}
use golang_service_architect.Common.{
  ℕ, ◌≡◌, refl, sym, ap, String, Option, none, some, List, [], ◌∷◌, All, All-weaken, ◌⊎◌, inl, inr,
}
use golang_service_architect.Apperrors.{Error}
use golang_service_architect.Messages.{TaskMessage, AuditMessage}
use golang_service_architect.Persistent.Tables.{
  Payload, OutboxRow, Db, select_outbox_batch, mark_outbox_published,
}
use golang_service_architect.Persistent.Repo.{relay_rows}
use golang_service_architect.Scheduler.{Publisher, publish, kept, publish_all, relay_once}
use golang_service_architect.Scheduler.Relay.{mark-none}

-- A row is one of some.
abbrev pub IsOneOf : {F : Type 0} → OutboxRow F → List (OutboxRow F) → Type 0
IsOneOf r [] = ⊥
IsOneOf r (s ∷ rows) = (r ≡ s) ⊎ IsOneOf r rows

-- What a port promises with respect to what its broker holds: it holds what the port answers with no
-- error, and goes on to hold it.
pub record IsFaithful {F W : Type 0} (port : Publisher F W) : Type 1 where
  pub HoldsTask : TaskMessage F → String → W → Type 0
  pub HoldsAudit : AuditMessage F → W → Type 0
  pub task_holds :
      (m : TaskMessage F) (trace : String) (w : W)
      → (port.publish_task m trace w).0 ≡ none
      → HoldsTask m trace (port.publish_task m trace w).1
  pub audit_holds :
      (m : AuditMessage F) (w : W)
      → (port.publish_audit m "" w).0 ≡ none
      → HoldsAudit m (port.publish_audit m "" w).1
  pub task_keeps_task :
      (m n : TaskMessage F) (trace t : String) (w : W)
      → HoldsTask m trace w
      → HoldsTask m trace (port.publish_task n t w).1
  pub audit_keeps_task :
      (m : TaskMessage F) (n : AuditMessage F) (trace : String) (w : W)
      → HoldsTask m trace w
      → HoldsTask m trace (port.publish_audit n "" w).1
  pub task_keeps_audit :
      (m : AuditMessage F) (n : TaskMessage F) (t : String) (w : W)
      → HoldsAudit m w
      → HoldsAudit m (port.publish_task n t w).1
  pub audit_keeps_audit :
      (m n : AuditMessage F) (w : W) → HoldsAudit m w → HoldsAudit m (port.publish_audit n "" w).1

module _ {F W : Type 0} (port : Publisher F W) (p : IsFaithful port) where
  open p use {
    HoldsTask, HoldsAudit, task_holds, audit_holds, task_keeps_task, audit_keeps_task,
    task_keeps_audit, audit_keeps_audit,
  }

  -- The broker holds a payload's message; a payload of an unknown kind has none.
  abbrev pub IsOut : Payload F → W → Type 0
  IsOut (Payload.task m trace) w = HoldsTask m trace w
  IsOut (Payload.audit m) w = HoldsAudit m w
  IsOut (Payload.unknown kind) w = Unit

  publish-IsOut :
      (l : Payload F) (w : W) → (publish port l w).0 ≡ none → IsOut l (publish port l w).1
  unfolding publish
  publish-IsOut (Payload.task m trace) w h = task_holds m trace w h
  publish-IsOut (Payload.audit m) w h = audit_holds m w h
  publish-IsOut (Payload.unknown kind) w h = tt

  publish-keeps : (l n : Payload F) (w : W) → IsOut l w → IsOut l (publish port n w).1
  unfolding publish
  publish-keeps (Payload.task m trace) (Payload.task n t) w h = task_keeps_task m n trace t w h
  publish-keeps (Payload.task m trace) (Payload.audit n) w h = audit_keeps_task m n trace w h
  publish-keeps (Payload.audit m) (Payload.task n t) w h = task_keeps_audit m n t w h
  publish-keeps (Payload.audit m) (Payload.audit n) w h = audit_keeps_audit m n w h
  publish-keeps (Payload.unknown kind) n w h = tt
  publish-keeps l (Payload.unknown kind) w h = h

  publish_all-keeps :
      (l : Payload F) (rows : List (OutboxRow F)) (w : W)
      → IsOut l w
      → IsOut l (publish_all port rows w).1
  unfolding publish_all
  publish_all-keeps l [] w h = h
  publish_all-keeps l (r ∷ rows) w h =
      publish_all-keeps l rows (publish port r.payload w).1 (publish-keeps l r.payload w h)

  -- An id belongs to one of some rows, of which the broker holds the message.
  abbrev pub IsOutId : List (OutboxRow F) → W → ℕ → Type 0
  IsOutId rows w id = (r : OutboxRow F) × IsOneOf r rows × (r.id ≡ id) × IsOut r.payload w

  kept-All :
      (id : ℕ) (answer : Option Error) (ids : List ℕ) (Holds : ℕ → Type 0)
      → (answer ≡ none → Holds id)
      → All Holds ids
      → All Holds (kept port id answer ids)
  kept-All id none ids Holds here there = (here refl, there)
  kept-All id (some e) ids Holds here there = there

  publish_all-IsOutId :
      (rows : List (OutboxRow F)) (w : W)
      → All (IsOutId rows (publish_all port rows w).1) (publish_all port rows w).0
  unfolding publish_all
  publish_all-IsOutId [] w = tt
  publish_all-IsOutId (r ∷ rows) w =
      let (answer, w₁) = publish port r.payload w in
      let w₂ = (publish_all port rows w₁).1 in
      kept-All r.id answer (publish_all port rows w₁).0 (IsOutId (r ∷ rows) w₂)
        (λ fine.
          (r, inl refl, refl, publish_all-keeps r.payload rows w₁ (publish-IsOut r.payload w fine)))
        (All-weaken (IsOutId rows w₂) (IsOutId (r ∷ rows) w₂)
          (λ id (s, among, same, out). (s, inr among, same, out)) (publish_all port rows w₁).0
          (publish_all-IsOutId rows w₁))

  -- One round of the relay marks the rows of some ids as published, and each of these is the id of
  -- a row of its batch of pending rows whose message the broker holds behind the round, or whose
  -- kind is unknown; for a port that answers with no error only what its broker holds from then on.
  pub relay_once-stores :
      (batch : ℕ) (db : Db F) (w : W)
      → (ids : List ℕ) × ((relay_once port batch db w).1 ≡ mark_outbox_published ids db)
        × All (IsOutId (select_outbox_batch (min batch 4096) db) (relay_once port batch db w).2) ids
  unfolding relay_once publish_all
  relay_once-stores batch db w =
      let rows = select_outbox_batch (min batch 4096) db in
      ((publish_all port rows w).0, go rows db w, publish_all-IsOutId rows w)
    where
      go :
          (rows : List (OutboxRow F)) (db : Db F) (w : W)
          → (relay_rows rows (λ rs. (publish_all port rs w).0) db).1
            ≡ mark_outbox_published (publish_all port rows w).0 db
      go [] db w = ap (λ rs. record db { outbox = rs }) (sym (mark-none db.outbox))
      go (r ∷ rows) db w = refl
