-- ===== src/Worker/Login.antt =====
-- rpa_platform/worker/login_health.py. Each call of the store reads a time and perhaps a uuid, which
-- are the first arguments here.
pub mod Outcomes
use rpa_group.Prelude.{
  String, Bool, true, false, not, Option, none, some, List, [], ◌∷◌, if◌then◌else◌, Error,
  attribute_error, Result, ok, err,
}
use rpa_group.Prelude.Value.{
  Value, str, bool, arr, obj, Items, nil, cons, Fields, end, field, get, get_or,
}
use rpa_group.Domain.StateMachine.{TaskStatus, running, waiting_login}
use rpa_group.Store.Rows.{Task, Robot}
use rpa_group.Store.Exec.{Exec, pure, raise, lift, ◌>>=◌, ◌>>◌}
use rpa_group.Store.Tasks.{get_task, set_task_status}
use rpa_group.Store.Tasks.Records.{append_task_step}
use rpa_group.Store.Robots.{get_robot, get_robot_capabilities, update_robot_status}

pub record LoginCheckResult : Type 0 where
  pub healthy : Bool
  pub message : String

pub record TaskLoginCheckOutcome : Type 0 where
  pub status : TaskStatus
  pub missing_targets : List String

-- A probe's `check`: the target, its entry URL, the robot and the task.
abbrev pub Probe : Type 0
Probe = String → Value → Robot → Task → LoginCheckResult

-- `results.get(target, …)` of StaticLoginProbe.
unfoldable pub static_probe : (String → Option LoginCheckResult) → Probe
static_probe results target entry_url robot task = elim (results target) [
  | none ↦ record { healthy = false; message = "missing static login result" }
  | some r ↦ r
]

-- `entry_urls.get(target, "")`, where the capabilities may hold anything under `entry_urls`.
unfoldable pub entry_url : Value → String → Result Value
entry_url (obj urls) target = ok (get_or target (str "") urls)
entry_url _ target = err (attribute_error "get")

-- An entry of `probe_results`.
abbrev pub probe_result : LoginCheckResult → Value → Value
probe_result r url =
    obj (
      field "healthy" (bool r.healthy)
        (field "message" (str r.message) (field "entry_url" url end)))

abbrev pub missing : String → LoginCheckResult → List String → List String
missing target r rest = if r.healthy then rest else target ∷ rest

abbrev texts : List String → Items
texts [] = nil
texts (t ∷ ts) = cons (str t) (texts ts)

-- The times and the uuid that the store's methods read, in the order of the calls.
pub record LoginClock : Type 0 where
  pub step_uuid : String
  pub step_time : String
  pub status_time : String
  pub robot_time : String

-- The branch for targets that are missing, and the one for none.
unfoldable pub conclude :
    LoginClock → String → String → Fields → List String → Exec TaskLoginCheckOutcome
conclude c task_id robot_id results [] = do
  append_task_step c.step_uuid c.step_time task_id "login_check" "检查后台登录态" "success" end
      (field "targets" (obj results) end)
  set_task_status c.status_time task_id running none none (some robot_id)
  pure (record { status = running; missing_targets = [] })
conclude c task_id robot_id results (t ∷ ts) = do
  append_task_step c.step_uuid c.step_time task_id "login_check" "检查后台登录态" "failed" end
      (field "targets" (obj results) (field "missing_targets" (arr (texts (t ∷ ts))) end))
  set_task_status c.status_time task_id waiting_login none none none
  update_robot_status c.robot_time robot_id "idle"
  pure (record { status = waiting_login; missing_targets = t ∷ ts })

module _ (probe : Probe) where
  -- The targets that are not healthy, for the entry URLs of the two.
  unfoldable pub missing_of : Value → Value → Robot → Task → List String
  missing_of jdy_url wecom_url robot task =
      missing "jdy" (probe "jdy" jdy_url robot task)
        (missing "wecom" (probe "wecom" wecom_url robot task) [])

  unfoldable pub check_task_login : LoginClock → String → String → Exec TaskLoginCheckOutcome
  check_task_login c task_id robot_id = do
    task ← get_task task_id
    robot ← get_robot robot_id
    capabilities ← get_robot_capabilities robot_id
    let urls = get_or "entry_urls" (obj end) capabilities
    jdy_url ← lift (entry_url urls "jdy")
    wecom_url ← lift (entry_url urls "wecom")
    conclude c task_id robot_id
        (field "jdy" (probe_result (probe "jdy" jdy_url robot task) jdy_url)
          (field "wecom" (probe_result (probe "wecom" wecom_url robot task) wecom_url) end))
        (missing_of jdy_url wecom_url robot task)
