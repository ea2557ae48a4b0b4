-- ===== src/Store/Tasks/Detail.antt =====
-- What the task page shows.
use rpa_group.Prelude.{
  String, Option, none, some, List, if◌then◌else◌, is_empty, find, join2, prefix, suffix, chars,
  ltb, key_error,
}
use rpa_group.Prelude.Value.{Value, obj}
use rpa_group.Domain.Redaction.{redact_context}
use rpa_group.Store.Rows.{Task, TaskStep, TaskArtifact, Robot, ManualAction, robot_is}
use rpa_group.Store.Exec.{Exec, pure, gets, or_raise, ◌>>=◌}
use rpa_group.Store.Tasks.{get_task}
use rpa_group.Store.Tasks.Records.{list_task_steps, list_task_artifacts, list_manual_actions}

-- _mask_corp_id
unfoldable pub mask_corp_id : String → String
mask_corp_id corp_id =
    if ltb (chars corp_id) 3
    then "***"
    else join2 (prefix 3 corp_id) (join2 "***" (suffix 3 corp_id))

-- What `get_task_detail` adds to the row.
pub record TaskDetail : Type 0 where
  pub task : Task
  pub corp_id_masked : String
  pub runtime_context : Value
  pub steps : List TaskStep
  pub artifacts : List TaskArtifact
  pub manual_actions : List ManualAction
  pub robot : Option Robot

-- `self.get_robot(robot_id) if robot_id else None`; the KeyError of an unknown robot.
robot_of : Option String → Exec (Option Robot)
robot_of none = pure none
robot_of (some id) = if is_empty id then pure none else (do
  row ← gets (λ s. find (robot_is id) s.robots)
  robot ← or_raise row (key_error id)
  pure (some robot))

unfoldable pub get_task_detail : String → Exec TaskDetail
unfolding get_task list_task_steps list_task_artifacts list_manual_actions robot_of mask_corp_id
get_task_detail id = do
  task ← get_task id
  steps ← list_task_steps id
  artifacts ← list_task_artifacts id
  actions ← list_manual_actions id
  robot ← robot_of task.assigned_robot_id
  pure (record {
    task = task;
    corp_id_masked = mask_corp_id task.corp_id;
    runtime_context = redact_context (obj task.runtime_context);
    steps = steps;
    artifacts = artifacts;
    manual_actions = actions;
    robot = robot;
  })
