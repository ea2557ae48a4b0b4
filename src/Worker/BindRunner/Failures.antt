-- ===== src/Worker/BindRunner/Failures.antt =====
-- A run of the bind runner that fails.
use rpa_group.Prelude.{
  String, true, false, ◌≡◌, refl, ap, ◌∙◌, Option, none, some, List, [], ◌∷◌, ◌==◌, any, find,
  update_where, Error, Result, ok, err, subst, retryable_wecom_order_error,
}
use rpa_group.Prelude.Tables.Lookups.{any-find, find-update_self}
use rpa_group.Prelude.Value.{Value, Fields}
use rpa_group.Domain.StateMachine.{TaskStatus, running, failed, success, waiting_wecom_online_delay}
use rpa_group.Store.Rows.{Task, Db, task_is, step_is}
use rpa_group.Store.Exec.{pure, raise, lift, recover, ◌>>◌}
use rpa_group.Store.Tasks.{
  get_task, get_task_context, merge_task_context, set_task_current_step, set_task_status,
}
use rpa_group.Store.Tasks.Records.{append_task_step}
use rpa_group.Store.Robots.{update_robot_status}
use rpa_group.Services.Bind.Backends.{Clients, Secrets}
use rpa_group.Services.Bind.{JdyWecomBindResult, start_bind}
use rpa_group.Worker.Ends.{IsLeftIn, let_go-IsLeftIn}
use rpa_group.Worker.BindRunner.Output.{step_output_from_context, bind_request}
use rpa_group.Worker.BindRunner.Keeps.{
  CanRecord, Keeps, >>=-Keeps, set_task_current_step-Keeps, get_task_context-Keeps,
  merge_task_context-Keeps, set_task_status-Keeps, update_robot_status-Keeps,
  append_task_step-Keeps,
}
use rpa_group.Worker.BindRunner.{
  BindTimes, BindRunResult, record_failure, or_record_failure, after_submit, submit_online,
  after_bind, run_binding, run_submission,
}

module _ (clients : Clients) (secrets : Secrets) (repr : Value → String) (str_exc : Error → String)
    (c : BindTimes) (task_id robot_id : String) where
  abbrev R : Db → Type 0
  R = CanRecord c.failure_uuid task_id

  -- Where the failure can be recorded, the task is failed after it and nobody's, and the robot idle.
  failure-IsLeftIn :
      (key name : String) (e : Error)
      → (s : Db) → R s
      → let out =
          (record_failure clients secrets repr str_exc c task_id robot_id key name e
              >> raise {A = BindRunResult} e)
            s in
        (out.0 ≡ err e) × IsLeftIn (failed ∷ []) task_id robot_id out.1
  unfolding record_failure append_task_step set_task_status update_robot_status
  failure-IsLeftIn key name e s (fresh, known) =
      rw (fresh, known)
        (
          refl,
          let_go-IsLeftIn (failed ∷ []) c.failed_time c.freed_time task_id robot_id failed none s
              refl,
        )

  let_go-Keeps :
      (status : TaskStatus) (at : Option String) (result : BindRunResult)
      → Keeps R (do
        set_task_status c.status_time task_id status at none none
        update_robot_status c.robot_time robot_id "idle"
        pure result)
  let_go-Keeps status at result =
      >>=-Keeps R (set_task_status c.status_time task_id status at none none) _
        (set_task_status-Keeps c.failure_uuid task_id _ _ _ _)
        (λ _.
          >>=-Keeps R (update_robot_status c.robot_time robot_id "idle") _
            (update_robot_status-Keeps c.failure_uuid task_id _ _ _) (λ _ s p. p))

  abbrev set_running : Task → Task
  set_running t = record t {
    status = running;
    next_check_at = none;
    check_attempts = t.check_attempts;
    assigned_robot_id = some robot_id;
    updated_at = c.running_time;
  }

  abbrev set_step : Task → Task
  set_step t = record t {
    current_step_key = "jdy_wecom_bind_service";
    updated_at = c.set_step_time;
  }

  -- The tasks once the run has begun.
  abbrev begun : List Task → List Task
  begun tasks =
      update_where (task_is task_id) set_step (update_where (task_is task_id) set_running tasks)

  begun_found :
      (tasks : List Task) (t : Task)
      → find (task_is task_id) tasks ≡ some t
      → find (task_is task_id) (begun tasks) ≡ some (set_step (set_running t))
  begun_found tasks t found =
      find-update_self (task_is task_id) set_step (update_where (task_is task_id) set_running tasks)
        (set_running t) (λ x. refl)
        (find-update_self (task_is task_id) set_running tasks t (λ x. refl) found)

  begun_known :
      (tasks : List Task) (t : Task)
      → find (task_is task_id) tasks ≡ some t
      → any (task_is task_id) (begun tasks) ≡ true
  begun_known tasks t found =
      any-find (task_is task_id) (begun tasks) ∙ rw (begun_found tasks t found) refl

  -- A first run that the service refuses comes to the caller as the service's exception. The task is
  -- then failed and without a robot, and the robot idle, if the task is known and the failure record
  -- has a uuid of its own.
  run_binding-failed :
      (now later : String) (s : Db) (t : Task) (e : Error)
      → any (step_is c.failure_uuid) s.task_steps ≡ false
      → find (task_is task_id) s.tasks ≡ some t
      → (start_bind clients (bind_request t) secrets now later).0 ≡ err e
      → let out = run_binding clients secrets repr str_exc c task_id robot_id now later s in
        (out.0 ≡ err e) × IsLeftIn (failed ∷ []) task_id robot_id out.1
  unfolding run_binding set_task_status set_task_current_step get_task after_bind bind_request
  run_binding-failed now later s t e fresh found refused =
      rw (begun_known s.tasks t found, begun_found s.tasks t found, refused)
        (failure-IsLeftIn _ _ e (record s { tasks = begun s.tasks })
          (fresh, begun_known s.tasks t found))

  module _ (distinct : c.step_uuid == c.failure_uuid ≡ false) where
    append-Keeps :
        (name key status : String) (input output : Fields)
        → Keeps R (append_task_step c.step_uuid c.step_time task_id name key status input output)
    append-Keeps name key status input output =
        append_task_step-Keeps c.failure_uuid task_id _ _ _ _ _ _ _ distinct

    after_submit-Keeps :
        (soon : String) (r : Result JdyWecomBindResult)
        → Keeps R (after_submit clients secrets repr str_exc c task_id robot_id soon r)
    unfolding after_submit
    after_submit-Keeps soon (ok result) =
        >>=-Keeps R (merge_task_context c.merge_time task_id result.context) _
          (merge_task_context-Keeps c.failure_uuid task_id _ _)
          (λ _.
            >>=-Keeps R (lift (step_output_from_context result.context)) _ (λ s p. p)
              (λ output.
                >>=-Keeps R (append_task_step c.step_uuid c.step_time task_id _ _ _ _ output) _
                  (append-Keeps _ _ _ _ _) (λ _. let_go-Keeps success none _)))
    after_submit-Keeps soon (err (retryable_wecom_order_error m)) =
        >>=-Keeps R (append_task_step c.step_uuid c.step_time task_id _ _ _ _ _) _
          (append-Keeps _ _ _ _ _) (λ _. let_go-Keeps waiting_wecom_online_delay (some soon) _)
    after_submit-Keeps soon (err e) = λ s p. p

    submit_online-Keeps :
        (soon : String)
        → Keeps R (submit_online clients secrets repr str_exc c task_id robot_id soon)
    unfolding submit_online
    submit_online-Keeps soon =
        >>=-Keeps R (set_task_current_step c.set_step_time task_id _) _
          (set_task_current_step-Keeps c.failure_uuid task_id _ _)
          (λ _.
            >>=-Keeps R (get_task_context task_id) _ (get_task_context-Keeps c.failure_uuid task_id)
              (λ context. after_submit-Keeps soon _))

    recovered :
        (key name : String) (r : Result BindRunResult) (s s' : Db) (e : Error)
        → R s
        → recover r
            (λ x.
              record_failure clients secrets repr str_exc c task_id robot_id key name x >> raise x)
            s
          ≡ (err e, s')
        → IsLeftIn (failed ∷ []) task_id robot_id s'
    recovered key name (ok a) s s' e p h = cc (ap (λ (x : Result BindRunResult × Db). x.0) h)
    recovered key name (err x) s s' e p h =
        subst (IsLeftIn (failed ∷ []) task_id robot_id)
          (ap (λ (x : Result BindRunResult × Db). x.1) h) (failure-IsLeftIn key name x s p).1

    -- A submission that raises, for whatever reason, leaves the task failed and without a robot, and the
    -- robot idle, if the task is known and the failure record has a uuid of its own.
    pub run_submission-failed :
        (soon : String) (s s' : Db) (e : Error)
        → CanRecord c.failure_uuid task_id s
        → run_submission clients secrets repr str_exc c task_id robot_id soon s ≡ (err e, s')
        → IsLeftIn (failed ∷ []) task_id robot_id s'
    unfolding run_submission or_record_failure
    run_submission-failed soon s s' e p h =
        recovered _ _ (submit_online clients secrets repr str_exc c task_id robot_id soon s).0
          (submit_online clients secrets repr str_exc c task_id robot_id soon s).1 s' e
          (submit_online-Keeps soon s p) h
