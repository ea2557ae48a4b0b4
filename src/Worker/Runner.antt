-- ===== src/Worker/Runner.antt =====
-- rpa_platform/worker/runner.py: the runner that stands in for a browser.
use rpa_group.Prelude.{String, Option, none, some, List, []}
use rpa_group.Prelude.Value.{str, end, field}
use rpa_group.Domain.StateMachine.{running, waiting_login}
use rpa_group.Store.Exec.{Exec, pure, ◌>>=◌, ◌>>◌}
use rpa_group.Store.Tasks.{set_task_status}
use rpa_group.Store.Tasks.Records.{append_task_step}
use rpa_group.Store.Robots.{update_robot_status}
use rpa_group.Worker.Login.{Probe, LoginClock, TaskLoginCheckOutcome, check_task_login}

-- The dict that a runner returns.
pub record RunnerResult : Type 0 where
  pub task_id : String
  pub robot_id : String
  pub status : String
  pub missing_targets : List String

-- The times and the uuid of the store's calls.
pub record RunnerClock : Type 0 where
  pub login : LoginClock
  pub status_time : String
  pub step_uuid : String
  pub step_time : String
  pub robot_time : String

unfoldable pub run_stub : RunnerClock → String → String → Exec RunnerResult
run_stub c task_id robot_id = do
  set_task_status c.status_time task_id running none none (some robot_id)
  append_task_step c.step_uuid c.step_time task_id "worker_stub" "Worker 骨架占位执行" "success" end
      (field "runner" (str "fake") (field "next" (str "playwright_profile") end))
  update_robot_status c.robot_time robot_id "idle"
  pure (record {
    task_id = task_id;
    robot_id = robot_id;
    status = "runner_stubbed";
    missing_targets = [];
  })

unfoldable pub after_login :
    RunnerClock → String → String → TaskLoginCheckOutcome → Exec RunnerResult
after_login c task_id robot_id outcome = elim outcome.status [
  | waiting_login ↦ pure (record {
    task_id = task_id;
    robot_id = robot_id;
    status = "waiting_login";
    missing_targets = outcome.missing_targets;
  })
  | _ ↦ run_stub c task_id robot_id
]

-- FakeRunner.run_claimed_task, with the checker where there is one. It does not look at `now`.
unfoldable pub run_claimed_task :
    Option Probe → RunnerClock → String → String → Option String → Exec RunnerResult
run_claimed_task none c task_id robot_id now = run_stub c task_id robot_id
run_claimed_task (some probe) c task_id robot_id now = do
  outcome ← check_task_login probe c.login task_id robot_id
  after_login c task_id robot_id outcome
