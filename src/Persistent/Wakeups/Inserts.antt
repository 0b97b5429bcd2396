-- ===== src/Persistent/Wakeups/Inserts.antt =====
-- repo.go: the tasks of a plan are inserted with every row awake.
use golang_service_architect.Common.{
  ◌≡◌, refl, sym, ap, ◌∙◌, Bool, true, false, ◌&&◌, ◌||◌, List, [], ◌∷◌, ◌++◌, ◌==◌, ==_iff, inl,
  inr, Bool-cases, All, All-append, All-weaken,
}
use golang_service_architect.Expression.Task.{Task, Uuid, is_ready}
use golang_service_architect.Expression.Planner.Order.{Elem, IsPlanned, IsOrdered}
use golang_service_architect.Persistent.Tables.{TaskRow, Db, has_expression, has_task}
use golang_service_architect.Persistent.Enqueue.{task_row, insert_task, insert_tasks}
use golang_service_architect.Persistent.Values.Transactions.{OkAll}
use golang_service_architect.Persistent.Wakeups.{has_open, has_ready, MissesOrReady, AreAwake}
use golang_service_architect.Persistent.Wakeups.Creation.{
  has_open-append, has_task-append, open_task, extended, opened, old-IsAwake, new-IsWaiting,
}

and-true : (b : Bool) → (b && true) ≡ b
and-true true = refl
and-true false = refl

pub or_last : (a b : Bool) → b ≡ true → (a || b) ≡ true
or_last true b h = refl
or_last false b h = h

module _ {F : Type 0} where
  has_open-inserted :
      (d : Uuid) (ts : List (TaskRow F)) (t : Task F)
      → has_open d (ts ++ task_row t ∷ []) ≡ (has_open d ts || (t.id == d))
  has_open-inserted d ts t =
      has_open-append d ts (task_row t) ∙ ap (λ b. has_open d ts || b) (and-true (t.id == d))

  -- A task of a list that waits for nothing is found in it.
  abbrev IsListed : List (Task F) → Task F → Type 0
  IsListed all t = is_ready t ≡ true → has_ready t.id all ≡ true

  later_ready :
      (id : Uuid) (t : Task F) (ts : List (Task F))
      → has_ready id ts ≡ true
      → has_ready id (t ∷ ts) ≡ true
  later_ready id t ts h = elim (Bool-cases (t.id == id && is_ready t)) [
    | inl e ↦ rw e refl
    | inr e ↦ rw e h
  ]

  pub All-IsListed : (ts : List (Task F)) → All (IsListed ts) ts
  All-IsListed [] = tt
  All-IsListed (t ∷ ts) =
      let same : (t.id == t.id) ≡ true = (==_iff t.id t.id).1 refl in
      (
        λ e. rw (same, e) refl,
        All-weaken (IsListed ts) (IsListed (t ∷ ts)) (λ u h e. later_ready u.id t ts (h e)) ts
            (All-IsListed ts),
      )

  all_known : (ts : List (TaskRow F)) → All (λ t. has_task t.id ts ≡ true) ts
  all_known [] = tt
  all_known (t ∷ ts) =
      let same : (t.id == t.id) ≡ true = (==_iff t.id t.id).1 refl in
      (
        rw same refl,
        All-weaken (λ u. has_task u.id ts ≡ true) (λ u. has_task u.id (t ∷ ts) ≡ true)
            (λ u h. elim (Bool-cases (t.id == u.id)) [ inl e ↦ rw e refl | inr e ↦ rw e h ]) ts
            (all_known ts),
      )

  both :
      {P Q R : TaskRow F → Type 0} (f : (t : TaskRow F) → P t → Q t → R t) (ts : List (TaskRow F))
      → All P ts
      → All Q ts
      → All R ts
  both f [] p q = tt
  both f (t ∷ ts) p q = (f t p.0 q.0, both f ts p.1 q.1)

  -- The tasks before are in the table and open.
  abbrev AreOpen : List Uuid → Db F → Type 0
  AreOpen earlier db = (d : Uuid) → Elem d earlier → has_open d db.tasks ≡ true

  inserted-AreAwake :
      (all : List (Task F)) (earlier : List Uuid) (t : Task F) (db : Db F)
      → has_task t.id db.tasks ≡ false
      → IsPlanned earlier t
      → IsListed all t
      → AreOpen earlier db
      → AreAwake (MissesOrReady all) db
      → let db' = record db { tasks = db.tasks ++ task_row t ∷ [] } in
        AreAwake (MissesOrReady all) db' × AreOpen (t.id ∷ earlier) db'
  inserted-AreAwake all earlier t db fresh p listed pending a =
      let new_id = sym (a.knows t.id) ∙ fresh in
      (
        record {
          order = extended a.order t;
          knows =
              λ d. has_task-append d db.tasks (task_row t) ∙ ap (λ b. b || (t.id == d)) (a.knows d);
          open_ = opened a.open_ t;
          opens = λ d. has_open-inserted d db.tasks t ∙ ap (λ b. b || (t.id == d)) (a.opens d);
          rows =
              All-append _ db.tasks (task_row t ∷ [])
                (both
                  (λ row known.
                    old-IsAwake a.order a.open_ t new_id (MissesOrReady all) db.outbox row
                      (sym (a.knows row.id) ∙ known))
                  db.tasks (all_known db.tasks) a.rows)
                (
                  new-IsWaiting a.order a.open_ t new_id earlier
                      (λ d e. (
                        sym (a.opens d) ∙ pending d e,
                        sym (a.knows d) ∙ open_task d db.tasks (pending d e),
                      ))
                      (MissesOrReady all) p (λ e ready. inr (listed ready)) (λ m. inl m),
                  tt,
                );
        },
        λ d e. has_open-inserted d db.tasks t ∙ elim e [
          | inl same ↦ or_last (has_open d db.tasks) (t.id == d) ((==_iff t.id d).1 (sym same))
          | inr before ↦ rw (pending d before) refl
        ],
      )

  pub insert_tasks-AreAwake :
      (all : List (Task F)) (earlier : List Uuid) (ts : List (Task F)) (db : Db F)
      → IsOrdered earlier ts
      → All (IsListed all) ts
      → AreOpen earlier db
      → AreAwake (MissesOrReady all) db
      → OkAll (AreAwake (MissesOrReady all)) (insert_tasks ts db)
  unfolding insert_tasks insert_task
  insert_tasks-AreAwake all earlier [] db ordered listed pending a = a
  insert_tasks-AreAwake all earlier (t ∷ ts) db (p, ordered) (here, there) pending a =
      elim (Bool-cases (has_task t.id db.tasks)) [
        | inl h ↦ rw h tt
        | inr h ↦ elim (Bool-cases (has_expression t.expression_id db.expressions)) [
          | inr k ↦ rw (h, k) tt
          | inl k ↦
              let (awake, pending') = inserted-AreAwake all earlier t db h p here pending a in
              rw (h, k)
                (insert_tasks-AreAwake all (t.id ∷ earlier) ts _ ordered there pending' awake)
        ]
      ]
