-- ===== src/Samples/StoreData.antt =====
-- Rows of the store for the theorems' inputs.
use rpa_group.Prelude.{String, true, none, some, [], ◌∷◌}
use rpa_group.Prelude.Value.{end}
use rpa_group.Domain.StateMachine.{pending, waiting_login}
use rpa_group.Store.Rows.{Team, FlowTemplate, FlowVersion, published, Task, Robot, Db}
use rpa_group.Store.Tasks.{TaskRequest}
use rpa_group.Samples.DomainSamples.{checked_steps}

abbrev pub team : Team
team = record {
  id = "team";
  name = "Ops";
  webhook_url = "";
  notification_enabled = true;
  created_at = "t0";
  updated_at = "t0";
}

abbrev pub version : String → String → FlowVersion
version id template = record {
  id = id;
  flow_template_id = template;
  version_no = 1;
  status = published;
  steps = checked_steps;
  created_by = "ann";
  published_at = some "t1";
  created_at = "t1";
  updated_at = "t1";
}

abbrev pub template : FlowTemplate
template = record {
  id = "flow";
  team_id = "team";
  name = "Bind";
  description = "";
  published_version_id = some "v1";
  draft_version_id = none;
  created_at = "t0";
  updated_at = "t1";
}

abbrev pub request : String → TaskRequest
request key = record {
  team_id = "team";
  flow_template_id = "flow";
  enterprise_name = "Acme";
  corp_id = "ww12345678";
  source_user_id = "u1";
  idempotency_key = key;
  payload = end;
}

abbrev pub task : String → String → Task
task id key = record {
  id = id;
  team_id = "team";
  flow_template_id = "flow";
  flow_version_id = "v1";
  flow_version_snapshot = end;
  status = pending;
  enterprise_name = "Acme";
  corp_id = "ww12345678";
  source_user_id = "u1";
  idempotency_key = key;
  payload = end;
  runtime_context = end;
  current_step_key = "";
  next_check_at = none;
  check_attempts = 0;
  assigned_robot_id = none;
  created_at = "t2";
  updated_at = "t2";
  finished_at = none;
}

abbrev pub robot : String → Robot
robot id = record {
  id = id;
  name = "R";
  status = "idle";
  host = "pc";
  browser_profile_path = "";
  last_heartbeat_at = "t0";
  capabilities = end;
  created_at = "t0";
  updated_at = "t0";
}

-- Two versions of two templates, two tasks, one of which waits for a login, and two robots.
abbrev pub db : Db
db = record {
  teams = team ∷ [];
  flow_templates = template ∷ [];
  flow_versions = version "v1" "flow" ∷ version "w1" "other" ∷ [];
  tasks = task "a" "key-a" ∷ record (task "b" "key-b") { status = waiting_login } ∷ [];
  task_steps = [];
  task_artifacts = [];
  robots = robot "r1" ∷ robot "r2" ∷ [];
  manual_actions = [];
}
