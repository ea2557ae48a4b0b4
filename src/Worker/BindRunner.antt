-- ===== src/Worker/BindRunner.antt =====
-- rpa_platform/worker/wecom_bind_runner.py. The clients of the service are an argument, with the
-- secrets that the service draws, the text that str() makes of an exception, and `repr`. `now` is
-- the text of the time, and `soon` and `later` are those of the times in two and in five minutes.
pub mod Output
pub mod Keeps
pub mod Failures
pub mod Settled
use rpa_group.Prelude.{
  String, Bool, true, false, Option, none, some, ◌==◌, if◌then◌else◌, Error, attribute_error,
  retryable_wecom_order_error, Result, ok, err, class_name,
}
use rpa_group.Prelude.Value.{Value, str, obj, Fields, end, field, get, get_or, truthy, pos}
use rpa_group.Domain.StateMachine.{
  TaskStatus, checking_login, running, waiting_wecom_online_delay, success, failed, status_value,
}
use rpa_group.Store.Rows.{Task}
use rpa_group.Store.Exec.{Exec, pure, raise, lift, attempt, ◌>>=◌, ◌>>◌}
use rpa_group.Store.Tasks.{
  get_task, get_task_context, merge_task_context, set_task_current_step, set_task_status,
}
use rpa_group.Store.Tasks.Records.{append_task_step}
use rpa_group.Store.Robots.{update_robot_status}
use rpa_group.Services.Bind.Backends.{Clients, JdyWecomBindInput, Secrets}
use rpa_group.Worker.BindRunner.Output.{step_output_from_context, bind_request, has_order}
use rpa_group.Services.Bind.{JdyWecomBindResult, start_bind, submit_bound_order}

-- The dict that the runner returns.
pub record BindRunResult : Type 0 where
  pub task_id : String
  pub status : String

-- The times and uuids that the store's methods read, those of the failure record last.
pub record BindTimes : Type 0 where
  pub running_time : String
  pub set_step_time : String
  pub merge_time : String
  pub step_uuid : String
  pub step_time : String
  pub status_time : String
  pub robot_time : String
  pub failure_uuid : String
  pub failure_time : String
  pub failed_time : String
  pub freed_time : String

module _ (clients : Clients) (secrets : Secrets) (repr : Value → String)
    (str_exc : Error → String) where
  unfoldable pub record_failure :
      BindTimes → String → String → String → String → Error → Exec (Unit {0})
  record_failure c task_id robot_id step_key step_name e = do
    append_task_step c.failure_uuid c.failure_time task_id step_key step_name "failed" end
        (field "error_type" (str (class_name e)) (field "error_detail" (str (str_exc e)) end))
    set_task_status c.failed_time task_id failed none none none
    update_robot_status c.freed_time robot_id "idle"

  -- The two `except` clauses of `run_claimed_task`.
  unfoldable pub or_record_failure :
      BindTimes → String → String → String → String → Exec BindRunResult → Exec BindRunResult
  or_record_failure c task_id robot_id step_key step_name m =
      attempt m (λ e. record_failure c task_id robot_id step_key step_name e >> raise e)

  -- The rest of `_submit_online`, once the service has answered.
  unfoldable pub after_submit :
      BindTimes → String → String → String → Result JdyWecomBindResult → Exec BindRunResult
  after_submit c task_id robot_id soon (err (retryable_wecom_order_error m)) = do
    append_task_step c.step_uuid c.step_time task_id "wecom_submit_online_order" "企微提交上线订单"
        "waiting_wecom_online_delay" end
        (field "error_type" (str "retryable_wecom_order")
          (field "error_detail" (str (str_exc (retryable_wecom_order_error m))) end))
    set_task_status c.status_time task_id waiting_wecom_online_delay (some soon) none none
    update_robot_status c.robot_time robot_id "idle"
    pure (record { task_id = task_id; status = "waiting_wecom_online_delay" })
  after_submit c task_id robot_id soon (err e) = raise e
  after_submit c task_id robot_id soon (ok result) = do
    merge_task_context c.merge_time task_id result.context
    output ← lift (step_output_from_context result.context)
    append_task_step c.step_uuid c.step_time task_id "wecom_submit_online_order" "企微提交上线订单"
        "success" end output
    set_task_status c.status_time task_id success none none none
    update_robot_status c.robot_time robot_id "idle"
    pure (record { task_id = task_id; status = "success" })

  unfoldable pub submit_online : BindTimes → String → String → String → Exec BindRunResult
  submit_online c task_id robot_id soon = do
    set_task_current_step c.set_step_time task_id "wecom_submit_online_order"
    context ← get_task_context task_id
    after_submit c task_id robot_id soon (submit_bound_order clients repr context).0

  -- `_is_claimed_online_delay`, and the status itself in front of it.
  unfoldable pub is_online_delay : String → TaskStatus → Exec Bool
  is_online_delay task_id waiting_wecom_online_delay = pure true
  is_online_delay task_id checking_login = do
    context ← get_task_context task_id
    lift (has_order context)
  is_online_delay task_id _ = pure false

  -- The rest of the first run, once the service has answered.
  unfoldable pub after_bind :
      BindTimes → String → String → Result JdyWecomBindResult → Exec BindRunResult
  after_bind c task_id robot_id (err e) =
      record_failure c task_id robot_id "jdy_wecom_bind_service" "企微绑定接口服务" e >> raise e
  after_bind c task_id robot_id (ok result) = do
    merge_task_context c.merge_time task_id result.context
    output ← lift (step_output_from_context result.context)
    append_task_step c.step_uuid c.step_time task_id "jdy_wecom_bind_service" "企微绑定接口服务" "success"
        end output
    set_task_status c.status_time task_id waiting_wecom_online_delay result.next_check_at none none
    update_robot_status c.robot_time robot_id "idle"
    pure (record { task_id = task_id; status = "waiting_wecom_online_delay" })

  unfoldable pub run_binding : BindTimes → String → String → String → String → Exec BindRunResult
  run_binding c task_id robot_id now later = do
    set_task_status c.running_time task_id running none none (some robot_id)
    set_task_current_step c.set_step_time task_id "jdy_wecom_bind_service"
    task ← get_task task_id
    after_bind c task_id robot_id (start_bind clients (bind_request task) secrets now later).0

  unfoldable pub run_submission : BindTimes → String → String → String → Exec BindRunResult
  run_submission c task_id robot_id soon =
      or_record_failure c task_id robot_id "wecom_submit_online_order" "企微提交上线订单"
        (submit_online c task_id robot_id soon)

  -- run_claimed_task
  unfoldable pub run_bind :
      BindTimes → String → String → String → String → String → Exec BindRunResult
  run_bind c task_id robot_id now soon later = do
    task ← get_task task_id
    delayed ← is_online_delay task_id task.status
    if delayed
        then run_submission c task_id robot_id soon
        else run_binding c task_id robot_id now later
