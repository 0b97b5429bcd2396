-- ===== src/Scheduler/FanIn.antt =====
-- scheduler.go, HandleResult: what a message does once its task is settled.
use golang_service_architect.Common.{
  ◌≡◌, ◌≢◌, refl, sym, ap, Bool, true, false, ◌&&◌, List, [], ◌∷◌, ok, subst, ◌==◌,
}
use golang_service_architect.Float64.{Float64}
use golang_service_architect.Expression.Task.{TaskStatus, Uuid}
use golang_service_architect.Messages.{ResultKind, ResultMessage, Event}
use golang_service_architect.Persistent.Tables.{
  TaskRow, Db, update, is_open, is_ready_or_running, completes,
}
use golang_service_architect.Persistent.Evolution.{has_no_open, not-and, IsSettled}
use golang_service_architect.Persistent.History.{Reach, Reach-Evolves}
use golang_service_architect.Persistent.Settled.{
  ignores_result, ignores_failure, completed-settles, failed-settles,
}
use golang_service_architect.Scheduler.{
  Surroundings, running_event, failure_audit, result_audit, dispatch, handle_result,
}

closed-idle :
    (a : Bool) (s : TaskStatus) → (a && is_open s) ≡ false → (a && is_ready_or_running s) ≡ false
closed-idle false s h = refl
closed-idle true TaskStatus.pending h = refl
closed-idle true TaskStatus.ready h = h
closed-idle true TaskStatus.running h = h
closed-idle true TaskStatus.done h = refl
closed-idle true TaskStatus.failed h = refl

update-idle :
    {F : Type 0} (id : Uuid) (change : TaskRow F → TaskRow F) (ts : List (TaskRow F))
    → has_no_open id ts ≡ true
    → update (λ t. t.id == id && is_ready_or_running t.status) change ts ≡ ts
unfolding update
update-idle id change [] h = refl
update-idle id change (t ∷ ts) h =
    let (here, there) = not-and (completes id t) _ h in
    rw (closed-idle (t.id == id) t.status here) (ap (λ us. t ∷ us) (update-idle id change ts there))

-- The events of a message that finds its task settled.
abbrev pub late_events : {F : Type 0} → ResultKind → ResultMessage F → List (Event F)
late_events ResultKind.started res = running_event res ∷ []
late_events _ res = []

module _ (fl : Float64) where
  open fl use {F}

  dispatch-late :
      (out : Surroundings) (kind : ResultKind) (res : ResultMessage F) (db : Db F)
      → has_no_open res.task_id db.tasks ≡ true
      → dispatch fl out kind res db ≡ (ok (late_events kind res), db)
  unfolding dispatch
  dispatch-late out ResultKind.started res db h =
      ap (λ ts. (ok (running_event res ∷ []), record db { tasks = ts }))
        (update-idle res.task_id _ db.tasks h)
  dispatch-late out ResultKind.error res db h = ignores_failure fl res (failure_audit out res) db h
  dispatch-late out ResultKind.ok res db h = ignores_result fl _ res (result_audit out res) db h
  dispatch-late out (ResultKind.other s) res db h =
      ignores_result fl _ res (result_audit out res) db h

  dispatch-settles :
      (out : Surroundings) (kind : ResultKind) (res : ResultMessage F) (db : Db F) (e : Event F)
      (es : List (Event F))
      → kind ≢ ResultKind.started
      → (dispatch fl out kind res db).0 ≡ ok (e ∷ es)
      → IsSettled res.task_id (dispatch fl out kind res db).1.tasks
  unfolding dispatch
  dispatch-settles out ResultKind.started res db e es reply h = absurd (reply refl)
  dispatch-settles out ResultKind.error res db e es reply h =
      failed-settles fl res (failure_audit out res) db e es h
  dispatch-settles out ResultKind.ok res db e es reply h =
      completed-settles fl _ res (result_audit out res) db e es h
  dispatch-settles out (ResultKind.other s) res db e es reply h =
      completed-settles fl _ res (result_audit out res) db e es h

  -- Behind a reply that was handled with an effect (any kind but `started`, and it emitted an
  -- event), a message of any kind for the same task leaves the database as it is, whatever operations
  -- came in between; a reply emits nothing then, and a late `started` still emits that the task
  -- is running.
  pub handle_result-once :
      (out : Surroundings) (res : ResultMessage F) (db : Db F) (e : Event F) (es : List (Event F))
      → res.kind ≢ ResultKind.started
      → (handle_result fl out (ok res) db).0 ≡ ok (e ∷ es)
      → {later : Db F} → Reach fl (handle_result fl out (ok res) db).1 later
      → (out' : Surroundings) (again : ResultMessage F) → again.task_id ≡ res.task_id
      → handle_result fl out' (ok again) later ≡ (ok (late_events again.kind again), later)
  unfolding handle_result
  handle_result-once out res db e es reply h {later} reach out' again same =
      dispatch-late out' again.kind again later (
        subst (λ i. has_no_open i later.tasks ≡ true) (sym same)
          ((Reach-Evolves fl reach).settled res.task_id
            (dispatch-settles out res.kind res db e es reply h)).1)
