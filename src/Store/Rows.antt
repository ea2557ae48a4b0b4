-- ===== src/Store/Rows.antt =====
-- The tables of `init_schema`, one record for the rows of each. A TEXT column that may be NULL is an
-- `Option`; a column with JSON in it holds the value itself, since `json.loads` gives back what
-- `json.dumps` was given. Times are texts, as the program stores and compares them.
use rpa_group.Prelude.{ℕ, String, Bool, Option, List, [], ◌==◌}
use rpa_group.Prelude.Value.{Items, Fields}
use rpa_group.Domain.StateMachine.{TaskStatus}

pub record Team : Type 0 where
  pub id : String
  pub name : String
  pub webhook_url : String
  pub notification_enabled : Bool
  pub created_at : String
  pub updated_at : String

pub record FlowTemplate : Type 0 where
  pub id : String
  pub team_id : String
  pub name : String
  pub description : String
  pub published_version_id : Option String
  pub draft_version_id : Option String
  pub created_at : String
  pub updated_at : String

-- The texts 'draft', 'published' and 'archived' of the column `status`.
pub data VersionStatus : Type 0 where
  draft published archived : VersionStatus

abbrev pub version_status_value : VersionStatus → String
version_status_value draft = "draft"
version_status_value published = "published"
version_status_value archived = "archived"

pub record FlowVersion : Type 0 where
  pub id : String
  pub flow_template_id : String
  pub version_no : ℕ
  pub status : VersionStatus
  pub steps : Items
  pub created_by : String
  pub published_at : Option String
  pub created_at : String
  pub updated_at : String

pub record Task : Type 0 where
  pub id : String
  pub team_id : String
  pub flow_template_id : String
  pub flow_version_id : String
  pub flow_version_snapshot : Fields
  pub status : TaskStatus
  pub enterprise_name : String
  pub corp_id : String
  pub source_user_id : String
  pub idempotency_key : String
  pub payload : Fields
  pub runtime_context : Fields
  pub current_step_key : String
  pub next_check_at : Option String
  pub check_attempts : ℕ
  pub assigned_robot_id : Option String
  pub created_at : String
  pub updated_at : String
  pub finished_at : Option String

-- The columns `error_type`, `error_message` and `screenshot_id` keep their defaults and are left out.
pub record TaskStep : Type 0 where
  pub id : String
  pub task_id : String
  pub step_key : String
  pub step_name : String
  pub status : String
  pub attempt : ℕ
  pub started_at : String
  pub finished_at : String
  pub input : Fields
  pub output : Fields

pub record TaskArtifact : Type 0 where
  pub id : String
  pub task_id : String
  pub step_id : Option String
  pub artifact_type : String
  pub path : String
  pub metadata : Fields
  pub created_at : String

pub record Robot : Type 0 where
  pub id : String
  pub name : String
  pub status : String
  pub host : String
  pub browser_profile_path : String
  pub last_heartbeat_at : String
  pub capabilities : Fields
  pub created_at : String
  pub updated_at : String

pub record ManualAction : Type 0 where
  pub id : String
  pub task_id : String
  pub action_type : String
  pub status : String
  pub reason : String
  pub candidates : Items
  pub selected_candidate : Option Fields
  pub handled_by : Option String
  pub handled_at : Option String
  pub created_at : String
  pub updated_at : String

pub record Db : Type 0 where
  pub teams : List Team
  pub flow_templates : List FlowTemplate
  pub flow_versions : List FlowVersion
  pub tasks : List Task
  pub task_steps : List TaskStep
  pub task_artifacts : List TaskArtifact
  pub robots : List Robot
  pub manual_actions : List ManualAction

abbrev pub empty_db : Db
empty_db = record {
  teams = [];
  flow_templates = [];
  flow_versions = [];
  tasks = [];
  task_steps = [];
  task_artifacts = [];
  robots = [];
  manual_actions = [];
}

-- `id=?` in each table.
abbrev pub team_is : String → Team → Bool
team_is id r = r.id == id

abbrev pub template_is : String → FlowTemplate → Bool
template_is id r = r.id == id

abbrev pub version_is : String → FlowVersion → Bool
version_is id r = r.id == id

abbrev pub task_is : String → Task → Bool
task_is id r = r.id == id

abbrev pub step_is : String → TaskStep → Bool
step_is id r = r.id == id

abbrev pub artifact_is : String → TaskArtifact → Bool
artifact_is id r = r.id == id

abbrev pub robot_is : String → Robot → Bool
robot_is id r = r.id == id

abbrev pub action_is : String → ManualAction → Bool
action_is id r = r.id == id
