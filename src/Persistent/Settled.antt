-- ===== src/Persistent/Settled.antt =====
-- repo.go: what `CompleteTask` and `FailTask` settle stays settled, so it counts once.
use golang_service_architect.Common.{
  ◌≡◌, refl, sym, ◌⊎◌, ap, ◌∙◌, Bool, true, false, ◌&&◌, ◌||◌, inl, inr, Bool-cases, List, [], ◌∷◌,
  Result, ok, err, Result-cases, ◌==◌, subst, if◌then◌else◌,
}
use golang_service_architect.Float64.{Float64}
use golang_service_architect.Apperrors.{Error}
use golang_service_architect.Expression.Task.{Uuid}
use golang_service_architect.Messages.{ResultMessage, Event, AuditMessage}
use golang_service_architect.Persistent.Tables.{
  TaskRow, Db, update, updated, is_open, has_task, completes, complete, fail, complete_task,
  fail_task,
}
use golang_service_architect.Persistent.Enqueue.{Outside, in_tx}
use golang_service_architect.Persistent.Repo.{
  apply_result, apply_result_tx, apply_failure, apply_failure_tx, on_completed, on_failed,
}
use golang_service_architect.Persistent.Evolution.{has_no_open, not-and, not-and_intro, IsSettled}
use golang_service_architect.Persistent.Inserts.{Gives}
use golang_service_architect.Persistent.Operations.{on_completed-Evolves, on_failed-Evolves}
use golang_service_architect.Persistent.History.{Reach, Reach-Evolves}

pub and-false : (a : Bool) → (a && false) ≡ false
and-false true = refl
and-false false = refl

module _ {F : Type 0} where
  pub has-update :
      (id : Uuid) (test : TaskRow F → Bool) (change : TaskRow F → TaskRow F)
      → ((t : TaskRow F) → (change t).id ≡ t.id)
      → (ts : List (TaskRow F)) → has_task id (update test change ts) ≡ has_task id ts
  unfolding update
  has-update id test change same [] = refl
  has-update id test change same (t ∷ ts) =
      let rest = ap (λ b. (t.id == id) || b) (has-update id test change same ts) in
      elim (Bool-cases (test t)) [ inl h ↦ rw (h, same t) rest | inr h ↦ rw h rest ]

module _ (fl : Float64) where
  open fl use {F}

  complete-closes :
      (id : Uuid) (v : F) (ts : List (TaskRow F))
      → has_no_open id (update (completes id) (complete v) ts) ≡ true
  unfolding update
  complete-closes id v [] = refl
  complete-closes id v (t ∷ ts) =
      let rest = complete-closes id v ts in
      elim (Bool-cases (completes id t)) [
        | inl h ↦ rw h (not-and_intro _ _ (and-false (t.id == id)) rest)
        | inr h ↦ rw h (not-and_intro _ _ h rest)
      ]

  fail-closes :
      (id : Uuid) (ts : List (TaskRow F)) → has_no_open id (update (completes id) fail ts) ≡ true
  unfolding update
  fail-closes id [] = refl
  fail-closes id (t ∷ ts) =
      let rest = fail-closes id ts in
      elim (Bool-cases (completes id t)) [
        | inl h ↦ rw h (not-and_intro _ _ (and-false (t.id == id)) rest)
        | inr h ↦ rw h (not-and_intro _ _ h rest)
      ]

  updated-has :
      (id : Uuid) (change : TaskRow F → TaskRow F) (ts : List (TaskRow F)) (r : TaskRow F)
      (rs : List (TaskRow F))
      → updated (completes id) change ts ≡ r ∷ rs
      → has_task id ts ≡ true
  unfolding updated
  updated-has id change [] r rs h = cc
  updated-has id change (t ∷ ts) r rs h = elim (Bool-cases (t.id == id)) [
    | inl e ↦ rw e refl
    | inr e ↦ rw e (
        updated-has id change ts r rs (
          ap
            (λ b.
              if b && is_open t.status
              then change t ∷ updated (completes id) change ts
              else updated (completes id) change ts)
            (sym e)
          ∙ h))
  ]

  -- Nothing open under the id: the update finds nothing.
  no-open :
      (id : Uuid) (change : TaskRow F → TaskRow F) (ts : List (TaskRow F))
      → has_no_open id ts ≡ true
      → (updated (completes id) change ts ≡ []) × (update (completes id) change ts ≡ ts)
  unfolding update updated
  no-open id change [] h = (refl, refl)
  no-open id change (t ∷ ts) h =
      let (here, there) = not-and (completes id t) _ h in
      let rest = no-open id change ts there in rw here (rest.0, ap (λ us. t ∷ us) rest.1)

  pub ignores_result :
      (out : Outside) (res : ResultMessage F) (audit : List (AuditMessage F)) (db : Db F)
      → has_no_open res.task_id db.tasks ≡ true
      → apply_result fl out res audit db ≡ (ok [], db)
  unfolding apply_result apply_result_tx on_completed
  ignores_result out res audit db h =
      let (none_found, same) = no-open res.task_id (complete res.result) db.tasks h in
      let db' = (complete_task res.task_id res.result db).1 in
      ap (λ rows. in_tx (λ d. on_completed fl out res audit rows db') db) none_found
      ∙ ap (λ ts. (ok [], record db { tasks = ts })) same

  pub ignores_failure :
      (res : ResultMessage F) (audit : List (AuditMessage F)) (db : Db F)
      → has_no_open res.task_id db.tasks ≡ true
      → apply_failure fl res audit db ≡ (ok [], db)
  unfolding apply_failure apply_failure_tx on_failed
  ignores_failure res audit db h =
      let (none_found, same) = no-open res.task_id fail db.tasks h in
      let db' = (fail_task res.task_id db).1 in
      ap (λ rows. in_tx (λ d. on_failed fl res audit rows db') db) none_found
      ∙ ap (λ ts. (ok [], record db { tasks = ts })) same

  ignored :
      (db : Db F) (res : ResultMessage F) (out : Outside) (audit : List (AuditMessage F))
      → has_no_open res.task_id db.tasks ≡ true
      → (apply_result fl out res audit db ≡ (ok [], db))
        × (apply_failure fl res audit db ≡ (ok [], db))
  ignored db res out audit h = (ignores_result out res audit db h, ignores_failure res audit db h)

  abbrev events_of : Result Error (List (Event F) × Db F) → List (Event F)
  events_of (ok (events, db)) = events
  events_of (err e) = []

  -- A completion that found its row leaves the task settled.
  on_completed-settles :
      (out : Outside) (res : ResultMessage F) (audit : List (AuditMessage F))
      (rows : List (TaskRow F)) (db : Db F) (events : List (Event F)) (db' : Db F)
      → has_no_open res.task_id db.tasks ≡ true
      → ((r : TaskRow F) (rs : List (TaskRow F))
          → rows ≡ r ∷ rs
          → has_task res.task_id db.tasks ≡ true)
      → on_completed fl out res audit rows db ≡ ok (events, db')
      → (events ≡ []) ⊎ IsSettled res.task_id db'.tasks
  unfolding on_completed
  on_completed-settles out res audit [] db events db' closed found e = inl (sym (ap events_of e))
  on_completed-settles out res audit (r ∷ rs) db events db' closed found e =
      let moved =
        subst (Gives (λ s. s.1) db) e (on_completed-Evolves fl out res audit (r ∷ rs) db) in
      inr (moved.settled res.task_id (found r rs refl, closed))

  on_failed-settles :
      (res : ResultMessage F) (audit : List (AuditMessage F)) (rows : List (TaskRow F)) (db : Db F)
      (events : List (Event F)) (db' : Db F)
      → has_no_open res.task_id db.tasks ≡ true
      → ((r : TaskRow F) (rs : List (TaskRow F))
          → rows ≡ r ∷ rs
          → has_task res.task_id db.tasks ≡ true)
      → on_failed fl res audit rows db ≡ ok (events, db')
      → (events ≡ []) ⊎ IsSettled res.task_id db'.tasks
  unfolding on_failed
  on_failed-settles res audit [] db events db' closed found e = inl (sym (ap events_of e))
  on_failed-settles res audit (r ∷ rs) db events db' closed found e =
      let moved = subst (Gives (λ s. s.1) db) e (on_failed-Evolves fl res audit (r ∷ rs) db) in
      inr (moved.settled res.task_id (found r rs refl, closed))

  in_tx-ok :
      {A : Type 0} (f : Db F → Result Error (A × Db F)) (db : Db F) (a : A) (db' : Db F)
      → f db ≡ ok (a, db')
      → in_tx f db ≡ (ok a, db')
  in_tx-ok f db a db' q = rw (in_tx, q) refl

  in_tx-err :
      {A : Type 0} (f : Db F → Result Error (A × Db F)) (db : Db F) (x : Error)
      → f db ≡ err x
      → in_tx f db ≡ (err x, db)
  in_tx-err f db x q = rw (in_tx, q) refl

  -- A transaction whose body has that property when it succeeds with events.
  in_tx-settles :
      (f : Db F → Result Error (List (Event F) × Db F)) (id : Uuid) (db : Db F) (e : Event F)
      (es : List (Event F))
      → ((events : List (Event F)) (db' : Db F)
          → f db ≡ ok (events, db')
          → (events ≡ []) ⊎ IsSettled id db'.tasks)
      → (in_tx f db).0 ≡ ok (e ∷ es)
      → IsSettled id (in_tx f db).1.tasks
  in_tx-settles f id db e es step h = elim (Result-cases (f db)) [
    | inl ((events, db'), q) ↦
        let ran = in_tx-ok f db events db' q in
        elim (step events db' q) [
          | inl nothing ↦ let got = sym (ap (λ r. r.0) ran) ∙ h in cc
          | inr settled ↦ rw (in_tx, q) settled
        ]
    | inr (x, q) ↦ let got = sym (ap (λ r. r.0) (in_tx-err f db x q)) ∙ h in cc
  ]

  pub completed-settles :
      (out : Outside) (res : ResultMessage F) (audit : List (AuditMessage F)) (db : Db F)
      (e : Event F) (es : List (Event F))
      → (apply_result fl out res audit db).0 ≡ ok (e ∷ es)
      → IsSettled res.task_id (apply_result fl out res audit db).1.tasks
  unfolding apply_result apply_result_tx
  completed-settles out res audit db e es h =
      in_tx-settles (apply_result_tx fl out res audit) res.task_id db e es
        (λ events db'.
          on_completed-settles out res audit (complete_task res.task_id res.result db).0
            (complete_task res.task_id res.result db).1 events db'
            (complete-closes res.task_id res.result db.tasks)
            (λ r rs q.
              has-update res.task_id (completes res.task_id) (complete res.result) (λ t. refl)
                db.tasks
              ∙ updated-has res.task_id (complete res.result) db.tasks r rs q))
        h

  pub failed-settles :
      (res : ResultMessage F) (audit : List (AuditMessage F)) (db : Db F) (e : Event F)
      (es : List (Event F))
      → (apply_failure fl res audit db).0 ≡ ok (e ∷ es)
      → IsSettled res.task_id (apply_failure fl res audit db).1.tasks
  unfolding apply_failure apply_failure_tx
  failed-settles res audit db e es h =
      in_tx-settles (apply_failure_tx fl res audit) res.task_id db e es
        (λ events db'.
          on_failed-settles res audit (fail_task res.task_id db).0 (fail_task res.task_id db).1
            events db' (fail-closes res.task_id db.tasks)
            (λ r rs q.
              has-update res.task_id (completes res.task_id) fail (λ t. refl) db.tasks
              ∙ updated-has res.task_id fail db.tasks r rs q))
        h

  -- A result that was applied (its transaction committed and told events) counts once: whatever
  -- operations follow, a further result or a further failure of the same task, with any value, is
  -- accepted without an event and leaves the database as it is.
  pub apply_result-once :
      (out : Outside) (res : ResultMessage F) (audit : List (AuditMessage F)) (db : Db F)
      (e : Event F) (es : List (Event F))
      → (apply_result fl out res audit db).0 ≡ ok (e ∷ es)
      → {later : Db F} → Reach fl (apply_result fl out res audit db).1 later
      → (again : ResultMessage F) → again.task_id ≡ res.task_id
      → (out' : Outside) (audit' : List (AuditMessage F))
      → (apply_result fl out' again audit' later ≡ (ok [], later))
        × (apply_failure fl again audit' later ≡ (ok [], later))
  apply_result-once out res audit db e es h {later} reach again same out' audit' =
      ignored later again out' audit' (
        subst (λ i. has_no_open i later.tasks ≡ true) (sym same)
          ((Reach-Evolves fl reach).settled res.task_id
            (completed-settles out res audit db e es h)).1)

  -- The same for a failure that was applied.
  apply_failure-once :
      (res : ResultMessage F) (audit : List (AuditMessage F)) (db : Db F) (e : Event F)
      (es : List (Event F))
      → (apply_failure fl res audit db).0 ≡ ok (e ∷ es)
      → {later : Db F} → Reach fl (apply_failure fl res audit db).1 later
      → (again : ResultMessage F) → again.task_id ≡ res.task_id
      → (out' : Outside) (audit' : List (AuditMessage F))
      → (apply_result fl out' again audit' later ≡ (ok [], later))
        × (apply_failure fl again audit' later ≡ (ok [], later))
  apply_failure-once res audit db e es h {later} reach again same out' audit' =
      ignored later again out' audit' (
        subst (λ i. has_no_open i later.tasks ≡ true) (sym same)
          ((Reach-Evolves fl reach).settled res.task_id (failed-settles res audit db e es h)).1)
