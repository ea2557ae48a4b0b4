-- ===== src/Queue/Worker.antt =====
-- queue_worker.py: the worker's loop. What RPA.py's workflows do on the desktop is an argument: the
-- value that each returns, or the exception that it raises, for a configuration.
pub mod Drain
use rpa_group.Prelude.{
  ℕ, zero, suc, String, Bool, true, false, Option, none, some, List, [], ◌∷◌, ◌==◌, one_of, join2,
  if◌then◌else◌,
}
use rpa_group.Prelude.Value.{Fields}
use rpa_group.Queue.Jobs.{Job, Report, update_task_status, get_next_pending_task}

-- WorkflowException carries a type and a detail; another exception has the name of its class.
pub data Workflow : Type 0 where
  returned : String → Workflow
  workflow_exception : String → String → String → Workflow
  other_exception : String → String → Workflow

abbrev pub plain_report : String → Report
plain_report status = record { status = status; error_msg = ""; error_type = ""; error_detail = "" }

abbrev pub failed_report : String → String → String → Report
failed_report message type detail = record {
  status = "failed";
  error_msg = message;
  error_type = type;
  error_detail = detail;
}

-- _run_create_group
unfoldable pub create_group_report : Workflow → Report
create_group_report (returned result) = plain_report "success"
create_group_report (workflow_exception m t d) = failed_report m t d
create_group_report (other_exception m t) = failed_report m t ""

-- _run_send_message
unfoldable pub send_message_report : Workflow → Report
send_message_report (returned result) =
    if result == "group_not_found"
    then record {
      status = "group_not_found";
      error_msg = "群不存在";
      error_type = "";
      error_detail = "";
    }
    else plain_report "success"
send_message_report (workflow_exception m t d) = failed_report m t d
send_message_report (other_exception m t) = failed_report m t ""

module _ (execute_workflow execute_send_message_workflow : Fields → Workflow) where
  -- The report on a job once its workflow is over.
  unfoldable pub run_job : Job → Report
  unfolding create_group_report send_message_report
  run_job job =
      if job.task_type == "create_group"
      then create_group_report (execute_workflow job.config)
      else if job.task_type == "send_message"
      then send_message_report (execute_send_message_workflow job.config)
      else failed_report (join2 "未知任务类型: " job.task_type) "UnknownTaskType" ""

  -- A job that is taken is marked as running at `start`, and its report is written at `finish`.
  unfoldable pub carry_out : String → String → Job → List Job → List Job
  unfolding run_job
  carry_out start finish job jobs =
      if one_of job.status ("success" ∷ "retried" ∷ "group_not_found" ∷ [])
      then jobs
      else update_task_status finish job.task_id (run_job job)
          (update_task_status start job.task_id (plain_report "running") jobs)

  unfoldable pub carry_out_next : String → String → Option Job → List Job → List Job
  carry_out_next start finish none jobs = jobs
  carry_out_next start finish (some job) jobs = carry_out start finish job jobs

  -- One pass of the loop, with the flag of the pause as it is read.
  unfoldable pub worker_pass : Bool → String → String → List Job → List Job
  unfolding carry_out_next carry_out
  worker_pass true start finish jobs = jobs
  worker_pass false start finish jobs =
      carry_out_next start finish (get_next_pending_task jobs) jobs

  -- So many passes in which the queue is not paused; `clock` gives the two times of each.
  unfoldable pub worker_passes : (ℕ → String × String) → ℕ → List Job → List Job
  worker_passes clock zero jobs = jobs
  worker_passes clock (suc n) jobs =
      let (start, finish) = clock n in worker_passes clock n (worker_pass false start finish jobs)
