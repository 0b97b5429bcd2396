-- ===== src/Scheduler/Refusal.antt =====
-- scheduler.go, the outbox relay: a tick against a broker that refuses.
use Prim.Native.Nat.{min}
use golang_service_architect.Common.{
  ℕ, zero, suc, ◌≤◌, ◌≡◌, refl, ap, ◌∙◌, false, none, some, List, [], ◌∷◌, length, take,
  length-take, ltb, if◌then◌else◌, arith, All, All-take,
}
use golang_service_architect.Apperrors.{Error}
use golang_service_architect.Persistent.Tables.{OutboxRow, Db, mark_outbox_published}
use golang_service_architect.Persistent.Repo.{relay_rows}
use golang_service_architect.Scheduler.{Publisher, publish, publish_all, relay_once, drain}
use golang_service_architect.Scheduler.Relay.{pending, mark-none}

module _ {F : Type 0} where
  -- The broker refuses the row, whatever its state.
  abbrev pub IsRefused : {W : Type 0} → Publisher F W → OutboxRow F → Type 0
  IsRefused port r = (w : _) → (e : Error) × ((publish port r.payload w).0 ≡ some e)

  publish_all-refused :
      {W : Type 0} (port : Publisher F W) (rows : List (OutboxRow F)) (w : W)
      → All (IsRefused port) rows
      → (publish_all port rows w).0 ≡ []
  unfolding publish_all
  publish_all-refused port [] w h = refl
  publish_all-refused port (r ∷ rows) w h =
      let (e, q) = h.0 w in rw q (publish_all-refused port rows (publish port r.payload w).1 h.1)

  relay_rows-refused :
      {W : Type 0} (port : Publisher F W) (rows : List (OutboxRow F)) (db : Db F) (w : W)
      → All (IsRefused port) rows
      → relay_rows rows (λ rs. (publish_all port rs w).0) db ≡ (length rows, db)
  relay_rows-refused port [] db w h = refl
  relay_rows-refused port (r ∷ rows) db w h =
      ap (λ ids. (length (r ∷ rows), mark_outbox_published ids db))
        (publish_all-refused port (r ∷ rows) w h)
      ∙ ap (λ us. (length (r ∷ rows), record db { outbox = us })) (mark-none db.outbox)

  -- While the broker refuses every pending row and at least one batch of them is pending, the tick
  -- of the relay does not end: no number of rounds is enough; the batch is at most 4096.
  pub drain-spins :
      {W : Type 0} (port : Publisher F W) (rounds batch : ℕ) (db : Db F) (w : W)
      → batch ≤ 4096
      → batch ≤ length (pending db.outbox)
      → All (IsRefused port) (pending db.outbox)
      → drain port rounds batch db w ≡ none
  unfolding drain relay_once
  drain-spins port zero batch db w small many refused = refl
  drain-spins port (suc rounds) batch db w small many refused =
      let least : min batch 4096 ≡ batch = omega (arith, small) in
      let rows = take batch (pending db.outbox) in
      let w' = (publish_all port rows w).1 in
      let full : length rows ≡ batch = omega (arith, length-take batch (pending db.outbox), many) in
      let not_less : ltb batch batch ≡ false = ground arith in
      rw least (
        ap (λ s. if ltb s.0 batch then some (s.1, w') else drain port rounds batch s.1 w')
          (relay_rows-refused port rows db w
            (All-take (IsRefused port) batch (pending db.outbox) refused))
        ∙ rw (full, not_less) (drain-spins port rounds batch db w' small many refused))
