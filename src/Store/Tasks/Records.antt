-- ===== src/Store/Tasks/Records.antt =====
-- Steps, artifacts and manual actions of a task.
use rpa_group.Prelude.{
  String, Bool, true, not, ◌&&◌, Option, none, some, List, [], ◌∷◌, ◌++◌, ◌==◌, if◌then◌else◌, find,
  select, order_by, any, text_le, key_error,
}
use rpa_group.Prelude.Value.{Items, Fields}
use rpa_group.Store.Rows.{
  TaskStep, TaskArtifact, ManualAction, Db, task_is, step_is, artifact_is, action_is,
}
use rpa_group.Store.Exec.{Exec, pure, gets, or_raise, transact, modify, require, ◌>>=◌, ◌>>◌}

unfoldable pub append_task_step :
    String → String → String → String → String → String → Fields → Fields → Exec String
append_task_step uuid now task_id step_key step_name status input output = transact do
  taken ← gets (λ s. any (step_is uuid) s.task_steps)
  require (not taken) "UNIQUE constraint failed: task_steps.id"
  known ← gets (λ s. any (task_is task_id) s.tasks)
  require known "FOREIGN KEY constraint failed"
  modify (λ s. record s {
    task_steps =
        s.task_steps
        ++ record {
          id = uuid;
          task_id = task_id;
          step_key = step_key;
          step_name = step_name;
          status = status;
          attempt = 1;
          started_at = now;
          finished_at = now;
          input = input;
          output = output;
        }
          ∷ [];
  })
  pure uuid

-- ORDER BY started_at ASC, id ASC, and the same with created_at.
abbrev pub earlier : String → String → String → String → Bool
earlier at id at' id' = if at == at' then text_le id id' else text_le at at'

unfoldable pub list_task_steps : String → Exec (List TaskStep)
list_task_steps task_id = gets (λ s.
    order_by (λ a b. earlier a.started_at a.id b.started_at b.id)
      (select (λ r. r.task_id == task_id) s.task_steps))

-- `step_id` may be NULL; a step that is named must be there.
abbrev step_known : Option String → Db → Bool
step_known none s = true
step_known (some id) s = any (step_is id) s.task_steps

unfoldable pub create_task_artifact :
    String → String → String → Option String → String → String → Fields → Exec String
create_task_artifact uuid now task_id step_id artifact_type path metadata = transact do
  taken ← gets (λ s. any (artifact_is uuid) s.task_artifacts)
  require (not taken) "UNIQUE constraint failed: task_artifacts.id"
  known ← gets (λ s. any (task_is task_id) s.tasks && step_known step_id s)
  require known "FOREIGN KEY constraint failed"
  modify (λ s. record s {
    task_artifacts =
        s.task_artifacts
        ++ record {
          id = uuid;
          task_id = task_id;
          step_id = step_id;
          artifact_type = artifact_type;
          path = path;
          metadata = metadata;
          created_at = now;
        }
          ∷ [];
  })
  pure uuid

unfoldable pub list_task_artifacts : String → Exec (List TaskArtifact)
list_task_artifacts task_id = gets (λ s.
    order_by (λ a b. earlier a.created_at a.id b.created_at b.id)
      (select (λ r. r.task_id == task_id) s.task_artifacts))

unfoldable pub create_manual_action :
    String → String → String → String → String → Items → Exec String
create_manual_action uuid now task_id action_type reason candidates = transact do
  taken ← gets (λ s. any (action_is uuid) s.manual_actions)
  require (not taken) "UNIQUE constraint failed: manual_actions.id"
  known ← gets (λ s. any (task_is task_id) s.tasks)
  require known "FOREIGN KEY constraint failed"
  modify (λ s. record s {
    manual_actions =
        s.manual_actions
        ++ record {
          id = uuid;
          task_id = task_id;
          action_type = action_type;
          status = "pending";
          reason = reason;
          candidates = candidates;
          selected_candidate = none;
          handled_by = none;
          handled_at = none;
          created_at = now;
          updated_at = now;
        }
          ∷ [];
  })
  pure uuid

unfoldable pub get_manual_action : String → Exec ManualAction
get_manual_action id = do
  row ← gets (λ s. find (action_is id) s.manual_actions)
  or_raise row (key_error id)

unfoldable pub list_manual_actions : String → Exec (List ManualAction)
list_manual_actions task_id = gets (λ s.
    order_by (λ a b. earlier a.created_at a.id b.created_at b.id)
      (select (λ r. r.task_id == task_id) s.manual_actions))
