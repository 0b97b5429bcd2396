-- ===== src/Persistent/Wakeups/Marking.antt =====
-- repo.go: more messages, and tasks that are marked ready, keep the rows awake.
use golang_service_architect.Common.{
  ◌≡◌, refl, sym, ap, ◌∙◌, Bool, true, false, ◌&&◌, ◌||◌, List, [], ◌∷◌, ◌++◌, ◌==◌, ==_iff, inl,
  inr, Bool-cases, All-weaken,
}
use golang_service_architect.Expression.Task.{TaskStatus, Uuid}
use golang_service_architect.Persistent.Tables.{
  TaskRow, OutboxRow, Db, has_task, update, is_open, is_pending, completes, mark_task_ready,
}
use golang_service_architect.Persistent.Settled.{has-update}
use golang_service_architect.Persistent.Values.Rows.{and_left}
use golang_service_architect.Persistent.Wakeups.{
  Order, has_open, has_message, asks_for, IsWaiting, IsAwake, AreAwake,
}
use golang_service_architect.Persistent.Wakeups.Changes.{update-each, keeps_awake, not_named}

pub and_right : (a b : Bool) → (a && b) ≡ true → b ≡ true
and_right true b h = h
and_right false b h = absurd cc

pending_open : (s : TaskStatus) → is_pending s ≡ true → is_open s ≡ true
pending_open TaskStatus.pending h = refl
pending_open TaskStatus.ready h = refl
pending_open TaskStatus.running h = refl
pending_open TaskStatus.done h = absurd cc
pending_open TaskStatus.failed h = absurd cc

module _ {F : Type 0} where
  pub has_message-append :
      (id : Uuid) (rows more : List (OutboxRow F))
      → has_message id rows ≡ true
      → has_message id (rows ++ more) ≡ true
  has_message-append id [] more h = absurd cc
  has_message-append id (r ∷ rows) more h = elim (Bool-cases (asks_for id r.payload)) [
    | inl e ↦ rw e refl
    | inr e ↦ rw e (has_message-append id rows more (rw e at h))
  ]

  pub has_message-last :
      (id : Uuid) (rows : List (OutboxRow F)) (r : OutboxRow F)
      → asks_for id r.payload ≡ true
      → has_message id (rows ++ r ∷ []) ≡ true
  has_message-last id [] r h = rw h refl
  has_message-last id (o ∷ rows) r h = elim (Bool-cases (asks_for id o.payload)) [
    | inl e ↦ rw e refl
    | inr e ↦ rw e (has_message-last id rows r h)
  ]

  -- A row that waits with other open tasks to the same effect.
  abbrev pub wait_on :
      (order : Order) (open_ : Uuid → Bool) (Wakes Also : TaskRow F → Type 0) (t : TaskRow F)
      → (Wakes t → Also t)
      → IsWaiting order open_ open_ Wakes t
      → IsWaiting order open_ open_ Also t
  wait_on order open_ Wakes Also t weaken w = record {
    first = w.first;
    second = w.second;
    earlier1 = w.earlier1;
    earlier2 = w.earlier2;
    counted = w.counted;
    wakes = weaken w.wakes;
  }

  -- The messages may become more, and the reasons to wake weaker.
  pub AreAwake-weaken :
      (Wakes Also : TaskRow F → Type 0) (db db' : Db F)
      → db'.tasks ≡ db.tasks
      → ((id : Uuid) → has_message id db.outbox ≡ true → has_message id db'.outbox ≡ true)
      → ((t : TaskRow F) → Wakes t → Also t)
      → AreAwake Wakes db
      → AreAwake Also db'
  AreAwake-weaken Wakes Also db db' same more weaken a = record {
    order = a.order;
    knows = λ d. ap (has_task d) same ∙ a.knows d;
    open_ = a.open_;
    opens = λ d. ap (has_open d) same ∙ a.opens d;
    rows = rw same (
        All-weaken (IsAwake a.order a.open_ a.open_ Wakes db.outbox)
          (IsAwake a.order a.open_ a.open_ Also db'.outbox)
          (λ t.
            keeps_awake a.order a.order a.open_ a.open_ a.open_ a.open_ Wakes Also db.outbox
              db'.outbox t.status t t (more t.id)
              (λ p. wait_on a.order a.open_ Wakes Also t (weaken t)))
          db.tasks a.rows);
  }

  abbrev pub set_ready : TaskRow F → TaskRow F
  set_ready t = record t { status = TaskStatus.ready }

  abbrev pub is_marked : Uuid → TaskRow F → Bool
  is_marked id t = t.id == id && is_pending t.status

  pub marked_open : (id : Uuid) (t : TaskRow F) → is_marked id t ≡ true → is_open t.status ≡ true
  marked_open id t h = pending_open t.status (and_right (t.id == id) (is_pending t.status) h)

  -- An update that leaves the changed rows open or settled, and theirs.
  pub has_open-update :
      (d : Uuid) (test : TaskRow F → Bool) (change : TaskRow F → TaskRow F)
      → ((t : TaskRow F) → test t ≡ true → completes d (change t) ≡ completes d t)
      → (ts : List (TaskRow F)) → has_open d (update test change ts) ≡ has_open d ts
  unfolding update
  has_open-update d test change same [] = refl
  has_open-update d test change same (t ∷ ts) =
      let rest = has_open-update d test change same ts in
      elim (Bool-cases (test t)) [
        | inl e ↦ rw e (
            ap (λ b. b || has_open d (update test change ts)) (same t e)
            ∙ ap (λ b. completes d t || b) rest)
        | inr e ↦ rw e (ap (λ b. completes d t || b) rest)
      ]

  has_open-mark :
      (id d : Uuid) (ts : List (TaskRow F))
      → has_open d (update (is_marked id) set_ready ts) ≡ has_open d ts
  has_open-mark id d =
      has_open-update d (is_marked id) set_ready
        (λ t e. ap (λ b. (t.id == d) && b) (sym (marked_open id t e)))

  -- Marking a task that has its message.
  pub mark_task_ready-AreAwake :
      (Wakes Also : TaskRow F → Type 0) (id : Uuid) (db : Db F)
      → has_message id db.outbox ≡ true
      → ((t : TaskRow F) → (t.id == id) ≡ false → Wakes t → Also t)
      → AreAwake Wakes db
      → AreAwake Also (mark_task_ready id db)
  mark_task_ready-AreAwake Wakes Also id db has weaken a = record {
    order = a.order;
    knows = λ d. has-update d _ _ (λ t. refl) db.tasks ∙ a.knows d;
    open_ = a.open_;
    opens = λ d. has_open-mark id d db.tasks ∙ a.opens d;
    rows =
        update-each (IsAwake a.order a.open_ a.open_ Wakes db.outbox)
          (IsAwake a.order a.open_ a.open_ Also db.outbox) (is_marked id) set_ready
          (λ t e k.
            ap (λ i. has_message i db.outbox)
              ((==_iff t.id id).0 (and_left (t.id == id) (is_pending t.status) e))
            ∙ has)
          (λ t e.
            keeps_awake a.order a.order a.open_ a.open_ a.open_ a.open_ Wakes Also db.outbox
              db.outbox t.status t t (λ m. m)
              (λ p.
                wait_on a.order a.open_ Wakes Also t
                  (weaken t (not_named (t.id == id) (is_pending t.status) e p))))
          db.tasks a.rows;
  }
