-- ===== src/Persistent/Wakeups.antt =====
-- repo.go: which task rows wait for what. A pending row waits for the open tasks that its arguments
-- name, and counts them; a ready or running one has its message in the outbox.
pub mod Changes
pub mod Filling
pub mod Marking
pub mod Unlocking
pub mod Results
pub mod Starts
pub mod Creation
pub mod Inserts
pub mod Expressions
pub mod Progress
use golang_service_architect.Common.{
  ℕ, ◌+◌, ◌<◌, ◌≡◌, Bool, true, false, ◌&&◌, ◌||◌, Option, none, some, List, [], ◌∷◌, ◌==◌, ◌⊎◌,
  All,
}
use golang_service_architect.Common.Int.{pos, is_zero_ℤ}
use golang_service_architect.Expression.Task.{Task, TaskStatus, Uuid, is_ready}
use golang_service_architect.Persistent.Tables.{
  TaskRow, Payload, OutboxRow, Db, has_task, completes,
}

-- An order of the tasks that are known.
pub record Order : Type 0 where
  pub rank : Uuid → ℕ
  pub is_known : Uuid → Bool

-- A task that an argument names is known and comes earlier.
abbrev pub IsEarlier : Order → Uuid → Option Uuid → Type 0
IsEarlier order id none = Unit
IsEarlier order id (some d) = (order.rank d < order.rank id) × (order.is_known d ≡ true)

module _ {F : Type 0} where
  -- An open row of a task.
  abbrev pub has_open : Uuid → List (TaskRow F) → Bool
  has_open id [] = false
  has_open id (t ∷ ts) = completes id t || has_open id ts

  abbrev pub asks_for : Uuid → Payload F → Bool
  asks_for id (Payload.task m trace) = m.task_id == id
  asks_for id (Payload.audit a) = false
  asks_for id (Payload.unknown kind) = false

  -- A message of a task, published or not.
  abbrev pub has_message : Uuid → List (OutboxRow F) → Bool
  has_message id [] = false
  has_message id (r ∷ rows) = asks_for id r.payload || has_message id rows

  abbrev pub missing : Option F → ℕ
  missing none = 1
  missing (some v) = 0

  abbrev pub missing_args : TaskRow F → ℕ
  missing_args t = missing t.arg1_value + missing t.arg2_value

  -- An argument that names a task is missing exactly while that task is open.
  abbrev pub IsAwaited : (Uuid → Bool) → Option F → Option Uuid → Type 0
  IsAwaited open_ (some v) none = Unit
  IsAwaited open_ none none = ⊥
  IsAwaited open_ (some v) (some d) = open_ d ≡ false
  IsAwaited open_ none (some d) = open_ d ≡ true

  -- A row that waits, in which the first argument is up to date with some open tasks and the second
  -- with others; `Wakes` tells why it will not wait for ever.
  pub record IsWaiting (order : Order) (open1 open2 : Uuid → Bool) (Wakes : TaskRow F → Type 0)
      (t : TaskRow F) : Type 0 where
    pub first : IsAwaited open1 t.arg1_value t.arg1_task_id
    pub second : IsAwaited open2 t.arg2_value t.arg2_task_id
    pub earlier1 : IsEarlier order t.id t.arg1_task_id
    pub earlier2 : IsEarlier order t.id t.arg2_task_id
    pub counted : t.unmet_deps ≡ pos (missing_args t)
    pub wakes : Wakes t

  abbrev pub IsAwakeAs :
      Order
      → (Uuid → Bool)
      → (Uuid → Bool)
      → (TaskRow F → Type 0)
      → List (OutboxRow F)
      → TaskStatus
      → TaskRow F
      → Type 0
  IsAwakeAs order open1 open2 Wakes outbox TaskStatus.pending t =
      IsWaiting order open1 open2 Wakes t
  IsAwakeAs order open1 open2 Wakes outbox TaskStatus.ready t = has_message t.id outbox ≡ true
  IsAwakeAs order open1 open2 Wakes outbox TaskStatus.running t = has_message t.id outbox ≡ true
  IsAwakeAs order open1 open2 Wakes outbox TaskStatus.done t = Unit
  IsAwakeAs order open1 open2 Wakes outbox TaskStatus.failed t = Unit

  abbrev pub IsAwake :
      Order
      → (Uuid → Bool)
      → (Uuid → Bool)
      → (TaskRow F → Type 0)
      → List (OutboxRow F)
      → TaskRow F
      → Type 0
  IsAwake order open1 open2 Wakes outbox t = IsAwakeAs order open1 open2 Wakes outbox t.status t

  -- Between transactions a waiting row misses an argument.
  abbrev pub MissesOne : TaskRow F → Type 0
  MissesOne t = 0 < missing_args t

  -- A list of rows that names a task with nothing left to wait for.
  abbrev pub has_free : Uuid → List (TaskRow F) → Bool
  has_free id [] = false
  has_free id (d ∷ deps) = (d.id == id && is_zero_ℤ d.unmet_deps) || has_free id deps

  abbrev pub MissesOrListed : List (TaskRow F) → TaskRow F → Type 0
  MissesOrListed deps t = MissesOne t ⊎ (has_free t.id deps ≡ true)

  -- The same of tasks that are about to be enqueued.
  abbrev pub has_ready : Uuid → List (Task F) → Bool
  has_ready id [] = false
  has_ready id (t ∷ ts) = (t.id == id && is_ready t) || has_ready id ts

  abbrev pub MissesOrReady : List (Task F) → TaskRow F → Type 0
  MissesOrReady ts t = MissesOne t ⊎ (has_ready t.id ts ≡ true)

-- The rows of the tables are awake, with respect to the open tasks and to some order.
pub record AreAwake {F : Type 0} (Wakes : TaskRow F → Type 0) (db : Db F) : Type 0 where
  pub order : Order
  pub knows : (d : Uuid) → has_task d db.tasks ≡ order.is_known d
  pub open_ : Uuid → Bool
  pub opens : (d : Uuid) → has_open d db.tasks ≡ open_ d
  pub rows : All (IsAwake order open_ open_ Wakes db.outbox) db.tasks
