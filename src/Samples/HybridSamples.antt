-- ===== src/Samples/HybridSamples.antt =====
-- The theorems about rpa_platform/worker/hybrid_runner.py at concrete inputs.
use rpa_group.Prelude.{ℕ, ◌≡◌, refl, false, [], ◌∷◌, Result, ok, err, value_error}
use rpa_group.Prelude.Value.{Value, str, int, obj, arr, Items, cons, nil, end, field, ℤ, pos}
use rpa_group.Domain.StateMachine.{ready_to_online}
use rpa_group.Store.Rows.{Task, Db}
use rpa_group.Store.Robots.{claimed_by, update_robot_status}
use rpa_group.Store.Context.{deep_merge}
use rpa_group.Store.Tasks.{
  get_task, get_task_context, merge_task_context, set_task_status, set_task_current_step,
}
use rpa_group.Store.Tasks.Records.{append_task_step}
use rpa_group.Worker.Hybrid.Base.{Tick, Clients, reviewing, at, text_at, log_step, release}
use rpa_group.Worker.Hybrid.Handlers.{jdy_resolve_corp}
use rpa_group.Worker.Hybrid.{snapshot_steps, run_action, run_steps, run_flow, run_from, run_hybrid}
use rpa_group.Worker.Hybrid.Release.{IsReleased}
use rpa_group.Worker.Hybrid.Runs.{run_hybrid-IsReleased}
use rpa_group.Samples.DomainSamples.{no_repr}
use rpa_group.Samples.StoreData.{db, task}

-- The back ends find one CorpID, and refuse everything else.
abbrev clients : Clients
clients = record {
  resolve_unique_corp = λ corp name. ok (record {
    corp_id = "s1";
    name = name;
    tenant_id = "t";
    suite_id = pos 1;
    suite_scenario = "main";
    suite_name = "";
    integrate_suite_name = "";
  });
  check_wework_owner = λ user suite scenario. ok false;
  install_corp_deploy = λ request. err (value_error "down");
  configure_custom_app = λ t context. err (value_error "down");
  wecom_submit_review = λ t context. err (value_error "down");
  check_review_status = λ t context. ok reviewing;
  wecom_submit_online = λ t context. err (value_error "down");
}

abbrev int_of : Value → Result ℤ
int_of (int n) = ok n
int_of _ = err (value_error "no number")

abbrev ticks : ℕ → Tick
ticks n = record {
  set_step_time = "t4";
  merge_time = "t4";
  step_uuid = "s4";
  step_time = "t4";
  action_uuid = "a4";
  action_time = "t4";
  status_time = "t5";
  robot_time = "t5";
}

abbrev flow : Items
flow =
    cons
      (obj (
        field "key" (str "corp")
          (field "name" (str "Corp") (field "action" (str "jdy_resolve_corp") end))))
      nil

-- A task that a robot has claimed when it was ready to go online.
abbrev ready : Task
ready = record (task "a" "key-a") {
  status = ready_to_online;
  flow_version_snapshot = field "steps" (arr flow) end;
}

abbrev claimed_db : Db
claimed_db = record db { tasks = claimed_by "r1" "t3" ready ∷ [] }

abbrev ready_db : Db
ready_db = record db { tasks = ready ∷ [] }

run_returns : run_hybrid clients no_repr int_of "t9" "t4" ticks "a" "r1" claimed_db ≡ (
  ok (record { task_id = "a"; status = "success" }),
  (run_hybrid clients no_repr int_of "t9" "t4" ticks "a" "r1" claimed_db).1,
)
unfolding run_hybrid run_from run_flow run_steps run_action snapshot_steps get_task get_task_context
    merge_task_context set_task_status set_task_current_step append_task_step update_robot_status
    text_at at log_step release jdy_resolve_corp claimed_by deep_merge
run_returns = refl

run_hybrid-IsReleased_example :
    IsReleased "a" "r1" (run_hybrid clients no_repr int_of "t9" "t4" ticks "a" "r1" claimed_db).1
run_hybrid-IsReleased_example =
    run_hybrid-IsReleased clients no_repr int_of "t9" "a" "r1" "t4" ticks claimed_db
      (run_hybrid clients no_repr int_of "t9" "t4" ticks "a" "r1" claimed_db).1
      (record { task_id = "a"; status = "success" }) run_returns
