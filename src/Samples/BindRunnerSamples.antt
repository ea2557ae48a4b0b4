-- ===== src/Samples/BindRunnerSamples.antt =====
-- The theorems about rpa_platform/worker/wecom_bind_runner.py at concrete inputs.
use rpa_group.Prelude.{String, ◌≡◌, refl, [], ◌∷◌, Error, ok, err, value_error}
use rpa_group.Prelude.Value.{str, obj, end, field, str_of, pos}
use rpa_group.Domain.StateMachine.{waiting_wecom_online_delay, failed}
use rpa_group.Store.Rows.{Task, Db}
use rpa_group.Store.Robots.{claimed_by, update_robot_status}
use rpa_group.Store.Context.{deep_merge}
use rpa_group.Store.Tasks.{
  get_task, get_task_context, merge_task_context, set_task_status, set_task_current_step,
}
use rpa_group.Store.Tasks.Records.{append_task_step}
use rpa_group.Services.Bind.Backends.{Clients}
use rpa_group.Services.Bind.{start_bind, submit_bound_order, audit_order_id}
use rpa_group.Worker.Ends.{IsLeftIn}
use rpa_group.Worker.BindRunner.Output.{bind_request, has_order, step_output_from_context}
use rpa_group.Worker.BindRunner.{
  BindTimes, run_bind, run_submission, is_online_delay, submit_online, after_submit,
  or_record_failure, record_failure,
}
use rpa_group.Worker.BindRunner.Settled.{settled, run_bind-IsLeftIn}
use rpa_group.Worker.BindRunner.Failures.{run_submission-failed}
use rpa_group.Samples.DomainSamples.{no_repr}
use rpa_group.Samples.StoreData.{db, task}
use rpa_group.Samples.ServiceSamples.{clients, secrets}

abbrev times : BindTimes
times = record {
  running_time = "t4";
  set_step_time = "t4";
  merge_time = "t5";
  step_uuid = "s4";
  step_time = "t5";
  status_time = "t5";
  robot_time = "t5";
  failure_uuid = "f4";
  failure_time = "t5";
  failed_time = "t5";
  freed_time = "t5";
}

abbrev no_text : Error → String
no_text e = ""

-- A task whose order has been created, and which the robot has claimed when its time had come.
abbrev delayed : Task
delayed = record (task "a" "key-a") {
  status = waiting_wecom_online_delay;
  runtime_context = field "wecom" (obj (field "auditorderid" (str "9") end)) end;
}

abbrev claimed_db : Db
claimed_db = record db { tasks = claimed_by "r1" "t3" delayed ∷ [] }

-- The back end confirms the order.
abbrev confirming : Clients
confirming = record clients {
  submit_order =
      λ id. ok (record { auditorderid = id; corpappid = ""; authcorp_name = ""; status = pos 5 });
}

abbrev after : Db
after = (run_bind confirming secrets no_repr no_text times "a" "r1" "t4" "t6" "t9" claimed_db).1

run_returns :
    run_bind confirming secrets no_repr no_text times "a" "r1" "t4" "t6" "t9" claimed_db
    ≡ (ok (record { task_id = "a"; status = "success" }), after)
unfolding run_bind run_submission or_record_failure submit_online after_submit is_online_delay
    has_order step_output_from_context submit_bound_order audit_order_id get_task get_task_context
    merge_task_context set_task_status set_task_current_step append_task_step update_robot_status
    claimed_by deep_merge str_of
run_returns = refl

run_bind-IsLeftIn_example : IsLeftIn settled "a" "r1" after
run_bind-IsLeftIn_example =
    run_bind-IsLeftIn confirming secrets no_repr no_text times "a" "r1" "t4" "t6" "t9" claimed_db
      after (record { task_id = "a"; status = "success" }) run_returns

-- The back end refuses the order.
abbrev refused_db : Db
refused_db = (run_submission clients secrets no_repr no_text times "a" "r1" "t6" claimed_db).1

submission_raises :
    run_submission clients secrets no_repr no_text times "a" "r1" "t6" claimed_db
    ≡ (err (value_error "not yet"), refused_db)
unfolding run_submission or_record_failure submit_online after_submit record_failure
    submit_bound_order audit_order_id get_task get_task_context set_task_status
    set_task_current_step append_task_step update_robot_status claimed_by str_of
submission_raises = refl

run_submission-failed_example : IsLeftIn (failed ∷ []) "a" "r1" refused_db
unfolding claimed_by
run_submission-failed_example =
    run_submission-failed clients secrets no_repr no_text times "a" "r1" refl "t6" claimed_db
      refused_db (value_error "not yet") (refl, refl) submission_raises

-- No corp is found.
abbrev unknown : Clients
unknown = record clients { find_corp = λ id name. err (value_error "unknown") }

no_corp :
    (start_bind unknown (bind_request delayed) secrets "t4" "t9").0 ≡ err (value_error "unknown")
unfolding start_bind
no_corp = refl
