-- ===== src/Worker/BindRunner/Settled.antt =====
-- How a run of the bind runner leaves the task and the robot, when it returns and when it raises.
use rpa_group.Prelude.{
  String, Bool, true, false, ◌≡◌, refl, none, some, List, [], ◌∷◌, Error,
  retryable_wecom_order_error, Result, ok, err, if◌then◌else◌,
}
use rpa_group.Prelude.Value.{Value}
use rpa_group.Domain.StateMachine.{TaskStatus, waiting_wecom_online_delay, success}
use rpa_group.Store.Rows.{Db}
use rpa_group.Store.Exec.{lift}
use rpa_group.Store.Tasks.{
  get_task, get_task_context, merge_task_context, set_task_current_step, set_task_status,
}
use rpa_group.Store.Tasks.Records.{append_task_step}
use rpa_group.Services.Bind.Backends.{Clients, Secrets}
use rpa_group.Services.Bind.{JdyWecomBindResult}
use rpa_group.Worker.Ends.{Ends, attempt-Ends, >>=-Ends, raise-Ends, IsLeftIn, let_go-Ends}
use rpa_group.Worker.BindRunner.Output.{step_output_from_context}
use rpa_group.Worker.BindRunner.{
  BindTimes, BindRunResult, record_failure, or_record_failure, after_submit, submit_online,
  is_online_delay, after_bind, run_binding, run_submission, run_bind,
}

-- The statuses that a run which returns leaves the task in.
abbrev pub settled : List TaskStatus
settled = waiting_wecom_online_delay ∷ success ∷ []

module _ (clients : Clients) (secrets : Secrets) (repr : Value → String) (str_exc : Error → String)
    (c : BindTimes) (task_id robot_id : String) where
  abbrev Settled : Db → Type 0
  Settled = IsLeftIn settled task_id robot_id

  after_submit-Ends :
      (soon : String) (r : Result JdyWecomBindResult)
      → Ends Settled (after_submit clients secrets repr str_exc c task_id robot_id soon r)
  unfolding after_submit
  after_submit-Ends soon (ok result) =
      >>=-Ends Settled (merge_task_context c.merge_time task_id result.context) _ (λ _.
        >>=-Ends Settled (lift (step_output_from_context result.context)) _ (λ output.
          >>=-Ends Settled (append_task_step c.step_uuid c.step_time task_id _ _ _ _ output) _ (λ _.
            let_go-Ends settled c.status_time c.robot_time task_id robot_id success none _ refl)))
  after_submit-Ends soon (err (retryable_wecom_order_error m)) =
      >>=-Ends Settled (append_task_step c.step_uuid c.step_time task_id _ _ _ _ _) _ (λ _.
        let_go-Ends settled c.status_time c.robot_time task_id robot_id waiting_wecom_online_delay
          (some soon) _ refl)
  after_submit-Ends soon (err e) = raise-Ends Settled e

  after_bind-Ends :
      (r : Result JdyWecomBindResult)
      → Ends Settled (after_bind clients secrets repr str_exc c task_id robot_id r)
  unfolding after_bind
  after_bind-Ends (err e) =
      >>=-Ends Settled (record_failure clients secrets repr str_exc c task_id robot_id _ _ e) _
        (λ _. raise-Ends Settled e)
  after_bind-Ends (ok result) =
      >>=-Ends Settled (merge_task_context c.merge_time task_id result.context) _ (λ _.
        >>=-Ends Settled (lift (step_output_from_context result.context)) _ (λ output.
          >>=-Ends Settled (append_task_step c.step_uuid c.step_time task_id _ _ _ _ output) _ (λ _.
            let_go-Ends settled c.status_time c.robot_time task_id robot_id
              waiting_wecom_online_delay result.next_check_at _ refl)))

  submit_online-Ends :
      (soon : String)
      → Ends Settled (submit_online clients secrets repr str_exc c task_id robot_id soon)
  unfolding submit_online
  submit_online-Ends soon =
      >>=-Ends Settled (set_task_current_step c.set_step_time task_id _) _
        (λ _. >>=-Ends Settled (get_task_context task_id) _ (λ context. after_submit-Ends soon _))

  run_submission-Ends :
      (soon : String)
      → Ends Settled (run_submission clients secrets repr str_exc c task_id robot_id soon)
  unfolding run_submission or_record_failure
  run_submission-Ends soon =
      attempt-Ends Settled (submit_online clients secrets repr str_exc c task_id robot_id soon) _
        (submit_online-Ends soon)
        (λ x.
          >>=-Ends Settled (record_failure clients secrets repr str_exc c task_id robot_id _ _ x) _
            (λ _. raise-Ends Settled x))

  run_binding-Ends :
      (now later : String)
      → Ends Settled (run_binding clients secrets repr str_exc c task_id robot_id now later)
  unfolding run_binding
  run_binding-Ends now later =
      >>=-Ends Settled (set_task_status c.running_time task_id _ none none _) _ (λ _.
        >>=-Ends Settled (set_task_current_step c.set_step_time task_id _) _
          (λ _. >>=-Ends Settled (get_task task_id) _ (λ task. after_bind-Ends _)))

  -- A run that returns leaves the robot idle, and the task without a robot, in success or waiting
  -- for the delay before going online to be over.
  pub run_bind-IsLeftIn :
      (now soon later : String) (s s' : Db) (r : BindRunResult)
      → run_bind clients secrets repr str_exc c task_id robot_id now soon later s ≡ (ok r, s')
      → IsLeftIn settled task_id robot_id s'
  unfolding run_bind
  run_bind-IsLeftIn now soon later = >>=-Ends Settled (get_task task_id) _ (λ task.
      >>=-Ends Settled (is_online_delay clients secrets repr str_exc task_id task.status) _
        (λ delayed. chosen delayed))
    where
      chosen :
          (delayed : Bool)
          → Ends Settled (
              if delayed
              then run_submission clients secrets repr str_exc c task_id robot_id soon
              else run_binding clients secrets repr str_exc c task_id robot_id now later)
      chosen true = run_submission-Ends soon
      chosen false = run_binding-Ends now later
