-- ===== src/Persistent/Wakeups/Starts.antt =====
-- repo.go: a started task and the relay of the outbox keep every row awake.
use Prim.Native.Nat.{min}
use golang_service_architect.Common.{
  ℕ, ◌≡◌, refl, sym, ap, ◌∙◌, String, Bool, true, ◌&&◌, ◌||◌, List, [], ◌∷◌, ◌==◌, inl, inr,
  Bool-cases,
}
use golang_service_architect.Expression.Task.{TaskStatus, Uuid}
use golang_service_architect.Persistent.Tables.{
  TaskRow, OutboxRow, Db, update, is_open, is_ready_or_running, mark_outbox_published, is_among,
  select_outbox_batch,
}
use golang_service_architect.Persistent.Repo.{relay_rows, relay_outbox, apply_started}
use golang_service_architect.Persistent.Settled.{has-update}
use golang_service_architect.Persistent.Wakeups.{
  has_message, asks_for, Order, IsAwakeAs, IsAwake, MissesOne, AreAwake,
}
use golang_service_architect.Persistent.Wakeups.Changes.{update-each}
use golang_service_architect.Persistent.Wakeups.Marking.{
  and_right, AreAwake-weaken, has_open-update,
}

pub running_open : (s : TaskStatus) → is_ready_or_running s ≡ true → is_open s ≡ true
running_open TaskStatus.pending h = refl
running_open TaskStatus.ready h = refl
running_open TaskStatus.running h = refl
running_open TaskStatus.done h = absurd cc
running_open TaskStatus.failed h = absurd cc

module _ {F : Type 0} where
  -- A task that is started has its message.
  started_has :
      (order : Order) (open_ : Uuid → Bool) (outbox : List (OutboxRow F)) (s : TaskStatus)
      (t : TaskRow F)
      → is_ready_or_running s ≡ true
      → IsAwakeAs order open_ open_ MissesOne outbox s t
      → has_message t.id outbox ≡ true
  started_has order open_ outbox TaskStatus.pending t h a = absurd cc
  started_has order open_ outbox TaskStatus.ready t h a = a
  started_has order open_ outbox TaskStatus.running t h a = a
  started_has order open_ outbox TaskStatus.done t h a = absurd cc
  started_has order open_ outbox TaskStatus.failed t h a = absurd cc

  pub apply_started-AreAwake :
      (id : Uuid) (worker : String) (attempt : ℕ) (db : Db F)
      → AreAwake MissesOne db
      → AreAwake MissesOne (apply_started id worker attempt db)
  apply_started-AreAwake id worker attempt db a = record {
    order = a.order;
    knows = λ d. has-update d _ _ (λ t. refl) db.tasks ∙ a.knows d;
    open_ = a.open_;
    opens = λ d.
        has_open-update d _ _
          (λ t e.
            ap (λ b. (t.id == d) && b)
              (sym
                (running_open t.status (and_right (t.id == id) (is_ready_or_running t.status) e))))
          db.tasks
        ∙ a.opens d;
    rows =
        update-each (IsAwake a.order a.open_ a.open_ MissesOne db.outbox)
          (IsAwake a.order a.open_ a.open_ MissesOne db.outbox) _ _
          (λ t e.
            started_has a.order a.open_ db.outbox t.status t
              (and_right (t.id == id) (is_ready_or_running t.status) e))
          (λ t e k. k) db.tasks a.rows;
  }

  has_message-published :
      (id : Uuid) (ids : List ℕ) (rows : List (OutboxRow F))
      → has_message id (update (λ r. is_among r.id ids) (λ r. record r { published = true }) rows)
        ≡ has_message id rows
  unfolding update
  has_message-published id ids [] = refl
  has_message-published id ids (r ∷ rows) =
      let rest = ap (λ b. asks_for id r.payload || b) (has_message-published id ids rows) in
      elim (Bool-cases (is_among r.id ids)) [ inl e ↦ rw e rest | inr e ↦ rw e rest ]

  pub relay_outbox-AreAwake :
      (limit : ℕ) (publish : List (OutboxRow F) → List ℕ) (db : Db F)
      → AreAwake MissesOne db
      → AreAwake MissesOne (relay_outbox limit publish db).1
  relay_outbox-AreAwake limit publish db a = go (select_outbox_batch (min limit 4096) db)
    where
      go : (rows : List (OutboxRow F)) → AreAwake MissesOne (relay_rows rows publish db).1
      go [] = a
      go (r ∷ rows) =
          let ids = publish (r ∷ rows) in
          AreAwake-weaken MissesOne MissesOne db (mark_outbox_published ids db) refl
            (λ id h. has_message-published id ids db.outbox ∙ h) (λ t w. w) a
