-- ===== src/Store/Tasks/Resumption.antt =====
-- Resuming a task that waits for a person.
use rpa_group.Prelude.{
  String, Bool, ◌&&◌, Option, none, some, ◌==◌, if◌then◌else◌, is_empty, update_where, join2,
  value_error, Result, ok, err,
}
use rpa_group.Prelude.Value.{str, Fields, end, field}
use rpa_group.Domain.StateMachine.{
  TaskStatus, checking_login, running, waiting_login, waiting_manual_selection,
  waiting_manual_intervention, waiting_test_confirmation, status_value, check_transition,
}
use rpa_group.Store.Rows.{Task, ManualAction, task_is}
use rpa_group.Store.Exec.{Exec, pure, lift, transact, modify, ◌>>=◌, ◌>>◌}
use rpa_group.Store.Tasks.{get_task}
use rpa_group.Store.Tasks.Records.{append_task_step}

-- _resume_target_status
unfoldable pub resume_target_status : TaskStatus → Result TaskStatus
resume_target_status waiting_login = ok checking_login
resume_target_status waiting_manual_selection = ok running
resume_target_status waiting_manual_intervention = ok running
resume_target_status waiting_test_confirmation = ok running
resume_target_status current =
    err (value_error (join2 "Task status cannot be resumed: " (status_value current)))

-- A dict that is empty counts as none: `json.dumps(…) if selected_candidate else None`.
abbrev candidate_or_null : Option Fields → Option Fields
candidate_or_null (some (field k v d)) = some (field k v d)
candidate_or_null _ = none

abbrev pub pending_action : String → ManualAction → Bool
pending_action task_id a = a.task_id == task_id && a.status == "pending"

unfoldable pub resolve : String → String → Option Fields → ManualAction → ManualAction
resolve now handled_by selected a = record a {
  status = "resolved";
  selected_candidate = candidate_or_null selected;
  handled_by = some handled_by;
  handled_at = some now;
  updated_at = now;
}

unfoldable pub requeue : String → TaskStatus → Task → Task
requeue now target t = record t { status = target; assigned_robot_id = none; updated_at = now }

-- The transaction of `resume_task`.
unfoldable pub resume_rows : String → String → TaskStatus → String → Option Fields → Exec (Unit {0})
unfolding requeue resolve
resume_rows now task_id target handled_by selected = transact (
    modify (λ s. record s {
      tasks = update_where (task_is task_id) (requeue now target) s.tasks;
      manual_actions =
          update_where (pending_action task_id) (resolve now handled_by selected) s.manual_actions;
    }))

-- The step that is appended where there is a note; it reads the clock again.
note_step : String → String → String → String → String → Exec (Unit {0})
note_step uuid later task_id handled_by note = if is_empty note then pure tt else (do
  append_task_step uuid later task_id "manual_resume" "管理员继续任务" "success" end
      (field "handled_by" (str handled_by) (field "note" (str note) end))
  pure tt)

unfoldable pub resume_task :
    String → String → String → String → String → Option Fields → String → Exec TaskStatus
unfolding note_step append_task_step resume_rows
resume_task uuid now later task_id handled_by selected note = do
  task ← get_task task_id
  target ← lift (resume_target_status task.status)
  lift (check_transition task.status target)
  resume_rows now task_id target handled_by selected
  note_step uuid later task_id handled_by note
  pure target
