-- ===== src/Scheduler/Relay.antt =====
-- scheduler.go, the outbox relay: what a tick delivers.
use Prim.Native.Nat.{min}
use golang_service_architect.Common.{
  ℕ, zero, suc, ◌+◌, ◌<◌, ◌≤◌, ◌≡◌, refl, sym, ap, ◌∙◌, true, false, not, none, some, List, [], ◌∷◌,
  ◌++◌, length, take, drop, append-nil, append_assoc, take-append-drop, take-all, drop-all,
  length-take, length-drop, ◌==◌, ltb, ltb→lt, if◌then◌else◌, inl, inr, Bool-cases, arith, tests,
  ==_iff,
}
use golang_service_architect.Persistent.Tables.{
  Payload, OutboxRow, Db, update, select, is_among, mark_outbox_published,
}
use golang_service_architect.Persistent.Repo.{relay_rows}
use golang_service_architect.Scheduler.{Publisher, publish, publish_all, relay_once, drain}

module _ {F : Type 0} where
  abbrev pub pending : List (OutboxRow F) → List (OutboxRow F)
  pending rows = select (λ r. not r.published) rows

  abbrev pub row_ids : List (OutboxRow F) → List ℕ
  row_ids [] = []
  row_ids (r ∷ rows) = r.id ∷ row_ids rows

  -- The ids of the identity column: each is above the ones before it.
  abbrev pub IsSerial : ℕ → List (OutboxRow F) → Type 0
  IsSerial low [] = Unit
  IsSerial low (r ∷ rows) = (low ≤ r.id) × IsSerial (r.id + 1) rows

  -- A broker that takes every message, and remembers it.
  abbrev pub recorder : Publisher F (List (Payload F))
  recorder = record {
    publish_task = λ msg trace log. (none, log ++ Payload.task msg trace ∷ []);
    publish_audit = λ msg trace log. (none, log ++ Payload.audit msg ∷ []);
  }

  -- What a row tells the broker: nothing if its kind is unknown.
  abbrev pub delivery : Payload F → List (Payload F)
  delivery (Payload.unknown kind) = []
  delivery p = p ∷ []

  abbrev pub deliveries : List (OutboxRow F) → List (Payload F)
  deliveries [] = []
  deliveries (r ∷ rows) = delivery r.payload ++ deliveries rows

  abbrev pub publishes : OutboxRow F → OutboxRow F
  publishes r = record r { published = true }

  publish-recorder :
      (p : Payload F) (log : List (Payload F)) → publish recorder p log ≡ (none, log ++ delivery p)
  unfolding publish
  publish-recorder (Payload.task msg trace) log = refl
  publish-recorder (Payload.audit msg) log = refl
  publish-recorder (Payload.unknown kind) log = ap (λ l. (none, l)) (sym (append-nil log))

  publish_all-recorder :
      (rows : List (OutboxRow F)) (log : List (Payload F))
      → publish_all recorder rows log ≡ (row_ids rows, log ++ deliveries rows)
  unfolding publish_all
  publish_all-recorder [] log = ap (λ l. ([], l)) (sym (append-nil log))
  publish_all-recorder (r ∷ rows) log =
      rw (publish-recorder r.payload log, publish_all-recorder rows (log ++ delivery r.payload))
        (ap (λ l. (r.id ∷ row_ids rows, l))
          (append_assoc log (delivery r.payload) (deliveries rows)))

  mark-other :
      (low i : ℕ) (ids : List ℕ) (rows : List (OutboxRow F))
      → IsSerial low rows
      → i < low
      → update (λ r. is_among r.id (i ∷ ids)) publishes rows
        ≡ update (λ r. is_among r.id ids) publishes rows
  unfolding update
  mark-other low i ids [] s h = refl
  mark-other low i ids (r ∷ rows) s h =
      let differs : (r.id == i) ≡ false = ground (arith, h, s.0) in
      rw differs (
        ap (λ us. (if is_among r.id ids then publishes r else r) ∷ us)
          (mark-other (r.id + 1) i ids rows s.1 (omega (arith, h, s.0))))

  pub mark-none : (rows : List (OutboxRow F)) → update (λ r. is_among r.id []) publishes rows ≡ rows
  unfolding update
  mark-none [] = refl
  mark-none (r ∷ rows) = ap (λ us. r ∷ us) (mark-none rows)

  -- Marking the first pending rows leaves the others pending.
  pending-mark :
      (low k : ℕ) (rows : List (OutboxRow F)) (ids : List ℕ)
      → IsSerial low rows
      → ids ≡ row_ids (take k (pending rows))
      → pending (update (λ r. is_among r.id ids) publishes rows) ≡ drop k (pending rows)
  unfolding update select
  pending-mark low zero [] ids s e = refl
  pending-mark low (suc k) [] ids s e = refl
  pending-mark low k (r ∷ rows) ids s e = elim (Bool-cases r.published) [
    | inl h ↦
        let passed =
          pending-mark (r.id + 1) k rows ids s.1
            (e ∙ ap (λ b. row_ids (take k (if not b then r ∷ pending rows else pending rows))) h) in
        elim (Bool-cases (is_among r.id ids)) [
          | inl i ↦ rw (h, i) passed
          | inr i ↦ rw (h, i) passed
        ]
    | inr h ↦
        first_pending k h
          (λ j. pending-mark (r.id + 1) j rows (row_ids (take j (pending rows))) s.1 refl)
          (e ∙ ap (λ b. row_ids (take k (if not b then r ∷ pending rows else pending rows))) h)
  ]
    where
      first_pending :
          (k : ℕ)
          → r.published ≡ false
          → ((j : ℕ)
              → pending
                  (update (λ r. is_among r.id (row_ids (take j (pending rows)))) publishes rows)
                ≡ drop j (pending rows))
          → ids ≡ row_ids (take k (r ∷ pending rows))
          → pending (update (λ r. is_among r.id ids) publishes (r ∷ rows))
            ≡ drop k (pending (r ∷ rows))
      first_pending zero h rest e =
          ap (λ js. pending (update (λ r. is_among r.id js) publishes (r ∷ rows))) e
          ∙ ap pending (mark-none (r ∷ rows))
      first_pending (suc k) h rest e =
          let others = row_ids (take k (pending rows)) in
          let itself = (==_iff r.id r.id).1 refl in
          ap (λ js. pending (update (λ r. is_among r.id js) publishes (r ∷ rows))) e
          ∙ rw (h, itself)
              (ap pending (mark-other (r.id + 1) r.id others rows s.1 (omega arith)) ∙ rest k)

  IsSerial-mark :
      (low : ℕ) (ids : List ℕ) (rows : List (OutboxRow F))
      → IsSerial low rows
      → IsSerial low (update (λ r. is_among r.id ids) publishes rows)
  unfolding update
  IsSerial-mark low ids [] s = tt
  IsSerial-mark low ids (r ∷ rows) s =
      let rest = IsSerial-mark (r.id + 1) ids rows s.1 in
      elim (Bool-cases (is_among r.id ids)) [ inl h ↦ rw h (s.0, rest) | inr h ↦ rw h (s.0, rest) ]

  deliveries-append :
      (xs ys : List (OutboxRow F)) → deliveries (xs ++ ys) ≡ deliveries xs ++ deliveries ys
  deliveries-append [] ys = refl
  deliveries-append (x ∷ xs) ys =
      ap (λ l. delivery x.payload ++ l) (deliveries-append xs ys)
      ∙ sym (append_assoc (delivery x.payload) (deliveries xs) (deliveries ys))

  relay_rows-recorder :
      (rows : List (OutboxRow F)) (db : Db F) (log : List (Payload F))
      → relay_rows rows (λ rs. (publish_all recorder rs log).0) db
        ≡ (length rows, mark_outbox_published (row_ids rows) db)
  relay_rows-recorder [] db log =
      ap (λ us. (0, record db { outbox = us })) (sym (mark-none db.outbox))
  relay_rows-recorder (r ∷ rows) db log =
      ap (λ ids. (length (r ∷ rows), mark_outbox_published ids db))
        (ap (λ s. s.0) (publish_all-recorder (r ∷ rows) log))

  -- One round of the relay with the recorder.
  relay_once-recorder :
      (batch : ℕ) (db : Db F) (log : List (Payload F))
      → batch ≤ 4096
      → relay_once recorder batch db log ≡ (
        length (take batch (pending db.outbox)),
        mark_outbox_published (row_ids (take batch (pending db.outbox))) db,
        log ++ deliveries (take batch (pending db.outbox)),
      )
  unfolding relay_once
  relay_once-recorder batch db log small =
      let least : min batch 4096 ≡ batch = omega (arith, small) in
      let rows = take batch (pending db.outbox) in
      rw least (
        ap (λ s. (s.0, s.1, (publish_all recorder rows log).1)) (relay_rows-recorder rows db log)
        ∙ ap (λ s. (length rows, mark_outbox_published (row_ids rows) db, s.1))
            (publish_all-recorder rows log))

  -- A tick of the relay against a broker that takes every message, with more rounds than rows that
  -- are pending, ends with no row pending, and the broker got the message of every row that was
  -- pending once, in the order of the rows; the ids of the rows ascend, and the batch is between 1
  -- and 4096.
  pub drain-delivers :
      (rounds batch low : ℕ) (db : Db F) (log : List (Payload F))
      → 0 < batch
      → batch ≤ 4096
      → IsSerial low db.outbox
      → length (pending db.outbox) < rounds
      → (db' : Db F) × (drain recorder rounds batch db log
          ≡ some (db', log ++ deliveries (pending db.outbox)))
        × (pending db'.outbox ≡ [])
  unfolding drain
  drain-delivers zero batch low db log positive small s enough = absurd (omega (arith, enough))
  drain-delivers (suc rounds) batch low db log positive small s enough =
      let rows = take batch (pending db.outbox) in
      let db₁ = mark_outbox_published (row_ids rows) db in
      let left = pending-mark low batch db.outbox (row_ids rows) s refl in
      let round = relay_once-recorder batch db log small in
      let ran_round =
        ap (λ s. if ltb s.0 batch then some (s.1, s.2) else drain recorder rounds batch s.1 s.2)
          round in
      let len = length-take batch (pending db.outbox) in
      elim (Bool-cases (ltb (length rows) batch)) [
        | inl h ↦
            let few : length (pending db.outbox) ≤ batch =
              omega (tests, ltb→lt (length rows) batch h, len) in
            (
              db₁,
              ran_round ∙ rw (h, take-all batch (pending db.outbox) few) refl,
              left ∙ drop-all batch (pending db.outbox) few,
            )
        | inr h ↦
            let many : batch ≤ length rows = ground (arith, h) in
            let fewer : length (pending db₁.outbox) < rounds = omega (
              arith,
              ap length left,
              length-drop batch (pending db.outbox),
              many,
              len,
              enough,
              positive,
            ) in
            let all_sent : (log ++ deliveries rows) ++ deliveries (pending db₁.outbox)
                ≡ log ++ deliveries (pending db.outbox) =
              append_assoc log (deliveries rows) (deliveries (pending db₁.outbox))
              ∙ ap (λ l. log ++ l)
                  (ap (λ us. deliveries rows ++ deliveries us) left
                    ∙ sym (deliveries-append rows (drop batch (pending db.outbox)))
                    ∙ ap deliveries (take-append-drop batch (pending db.outbox))) in
            let (db', ran, empty) =
              drain-delivers rounds batch low db₁ (log ++ deliveries rows) positive small
                (IsSerial-mark low (row_ids rows) db.outbox s) fewer in
            (db', ran_round ∙ rw h (ran ∙ ap (λ l. some (db', l)) all_sent), empty)
      ]
