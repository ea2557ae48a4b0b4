-- ===== src/Worker/Hybrid/Base.antt =====
-- What the handlers of the hybrid runner share. The key, the name and the action of a step in a
-- snapshot are texts, since `validate_steps` has made them so; a step with another value there is
-- outside the model, and is refused.
use rpa_group.Prelude.{
  String, Bool, false, Option, none, some, ◌==◌, key_error, type_error, Result, ok, err,
}
use rpa_group.Prelude.Value.{Value, str, obj, Fields, end, get, ℤ}
use rpa_group.Domain.StateMachine.{TaskStatus, status_value}
use rpa_group.Store.Exec.{Exec, pure, lift, ◌>>=◌, ◌>>◌}
use rpa_group.Store.Rows.{Task}
use rpa_group.Store.Tasks.{set_task_status}
use rpa_group.Store.Tasks.Records.{append_task_step}
use rpa_group.Store.Robots.{update_robot_status}

-- The times and uuids that the store's methods read in the course of one step.
pub record Tick : Type 0 where
  pub set_step_time : String
  pub merge_time : String
  pub step_uuid : String
  pub step_time : String
  pub action_uuid : String
  pub action_time : String
  pub status_time : String
  pub robot_time : String

-- The dict that the runner returns, without the reason of a pause.
pub record HybridResult : Type 0 where
  pub task_id : String
  pub status : String

pub record JdyCorpDeploy : Type 0 where
  pub corp_id : String
  pub name : String
  pub tenant_id : String
  pub suite_id : ℤ
  pub suite_scenario : String
  pub suite_name : String
  pub integrate_suite_name : String

-- JdyInstallRequest; what stands in the context is passed on as it is.
pub record JdyInstallRequest : Type 0 where
  pub corp_id : Value
  pub corp_name : Value
  pub tenant_id : String
  pub token : Value
  pub encoding_aes_key : Value
  pub suite_id : ℤ
  pub suite_scenario : Value

pub record JdyInstallResult : Type 0 where
  pub tenant_id : String
  pub owner_id : String

-- WecomReviewStatus
pub data ReviewStatus : Type 0 where
  reviewing review_passed online unknown : ReviewStatus

abbrev pub review_value : ReviewStatus → String
review_value reviewing = "审核中"
review_value review_passed = "待上线"
review_value online = "已上线"
review_value unknown = "未知"

-- The methods of the two clients that the runner calls.
pub record Clients : Type 0 where
  pub resolve_unique_corp : String → String → Result JdyCorpDeploy
  pub check_wework_owner : String → ℤ → Value → Result Bool
  pub install_corp_deploy : JdyInstallRequest → Result JdyInstallResult
  pub configure_custom_app : Task → Fields → Result Fields
  pub wecom_submit_review : Task → Fields → Result Fields
  pub check_review_status : Task → Fields → Result ReviewStatus
  pub wecom_submit_online : Task → Fields → Result Fields

-- d[key]
unfoldable pub at : String → Fields → Result Value
at key d = elim (get key d) [ none ↦ err (key_error key) | some v ↦ ok v ]

-- context[outer]
unfoldable pub dict_at : String → Fields → Result Fields
dict_at key d = elim (get key d) [
  | none ↦ err (key_error key)
  | some (obj e) ↦ ok e
  | some _ ↦ err (type_error key)
]

unfoldable pub text_at : String → Fields → Result String
text_at key d = elim (get key d) [
  | none ↦ err (key_error key)
  | some (str s) ↦ ok s
  | some _ ↦ err (type_error key)
]

abbrev pub is_text : Value → String → Bool
is_text (str s) t = s == t
is_text _ t = false

-- append_task_step(task_id, step["key"], step["name"], status, output_data=output)
unfoldable pub log_step : Tick → String → Fields → String → Fields → Exec String
log_step c task_id step status output = do
  key ← lift (text_at "key" step)
  name ← lift (text_at "name" step)
  append_task_step c.step_uuid c.step_time task_id key name status end output

-- The last calls of every branch that ends the run.
unfoldable pub release : Tick → String → String → TaskStatus → Option String → Exec HybridResult
release c task_id robot_id status next_check_at = do
  set_task_status c.status_time task_id status next_check_at none none
  update_robot_status c.robot_time robot_id "idle"
  pure (record { task_id = task_id; status = status_value status })
