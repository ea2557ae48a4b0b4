-- ===== src/Store/Tasks.antt =====
-- Tasks: creation, context and status. A method takes the uuids and the times that it
-- reads as its first arguments.
pub mod Records
pub mod Resumption
pub mod Detail
pub mod Creation
pub mod Resume
use rpa_group.Prelude.{
  ℕ, suc, ◌+◌, String, Bool, true, false, not, ◌&&◌, ◌||◌, Option, none, some, List, [], ◌∷◌, ◌++◌,
  ◌==◌, if◌then◌else◌, is_some, is_empty, find, select, update_where, order_by, any, text_le, join2,
  prefix, suffix, chars, ltb, Error, key_error, value_error, Result, ok, err,
}
use rpa_group.Prelude.Value.{Value, null, int, str, arr, obj, Items, nil, Fields, end, field, pos}
use rpa_group.Domain.Redaction.{redact_context}
use rpa_group.Domain.StateMachine.{
  TaskStatus, pending, checking_login, running, waiting_login, waiting_manual_selection,
  waiting_manual_intervention, waiting_test_confirmation, status_value, check_transition,
}
use rpa_group.Store.Rows.{
  FlowTemplate, FlowVersion, version_status_value, Task, TaskStep, TaskArtifact, Robot,
  ManualAction, Db, team_is, template_is, version_is, task_is, step_is, artifact_is, robot_is,
  action_is,
}
use rpa_group.Store.Exec.{
  Exec, pure, raise, gets, or_raise, lift, transact, modify, require, ◌>>=◌, ◌>>◌,
}
use rpa_group.Store.Context.{deep_merge}

-- TaskCreateResult
pub record TaskCreateResult : Type 0 where
  pub task_id : String
  pub created : Bool

-- The arguments of `create_task_from_published_flow`.
pub record TaskRequest : Type 0 where
  pub team_id : String
  pub flow_template_id : String
  pub enterprise_name : String
  pub corp_id : String
  pub source_user_id : String
  pub idempotency_key : String
  pub payload : Fields

abbrev pub has_key : String → Task → Bool
has_key k t = t.idempotency_key == k

-- The JOIN of flow_templates with flow_versions on the published version.
version_of : Option FlowTemplate → List FlowVersion → Option FlowVersion
version_of none versions = none
version_of (some t) versions = elim t.published_version_id [
  | none ↦ none
  | some v ↦ find (version_is v) versions
]

unfoldable pub published_version : TaskRequest → Db → Option FlowVersion
unfolding version_of
published_version r s =
    version_of
      (find (λ t. template_is r.flow_template_id t && t.team_id == r.team_id) s.flow_templates)
      s.flow_versions

abbrev pub optional_text : Option String → Value
optional_text none = null
optional_text (some s) = str s

unfoldable pub snapshot : FlowVersion → Fields
snapshot v = field "id" (str v.id) (
    field "version_no" (int (pos v.version_no)) (
      field "status" (str (version_status_value v.status))
        (field "published_at" (optional_text v.published_at) (field "steps" (arr v.steps) end))))

unfoldable pub new_task : String → String → TaskRequest → FlowVersion → Task
unfolding snapshot
new_task uuid now r v = record {
  id = uuid;
  team_id = r.team_id;
  flow_template_id = r.flow_template_id;
  flow_version_id = v.id;
  flow_version_snapshot = snapshot v;
  status = pending;
  enterprise_name = r.enterprise_name;
  corp_id = r.corp_id;
  source_user_id = r.source_user_id;
  idempotency_key = r.idempotency_key;
  payload = r.payload;
  runtime_context = end;
  current_step_key = "";
  next_check_at = none;
  check_attempts = 0;
  assigned_robot_id = none;
  created_at = now;
  updated_at = now;
  finished_at = none;
}

-- The rest of `create_task_from_published_flow` where the key is new. The team, the template and the
-- version that the row refers to are those of the JOIN, and the key is new by the test before: of
-- the constraints there remains the primary key, and the team's.
unfoldable pub insert_task : String → String → TaskRequest → Exec TaskCreateResult
unfolding new_task
insert_task uuid now r = do
  found ← gets (published_version r)
  version ← or_raise found (value_error "Flow template has no published version")
  taken ← gets (λ s. any (task_is uuid) s.tasks)
  require (not taken) "UNIQUE constraint failed: tasks.id"
  team ← gets (λ s. any (team_is r.team_id) s.teams)
  require team "FOREIGN KEY constraint failed"
  modify (λ s. record s { tasks = s.tasks ++ new_task uuid now r version ∷ [] })
  pure (record { task_id = uuid; created = true })

create_unless : Option Task → String → String → TaskRequest → Exec TaskCreateResult
create_unless (some existing) uuid now r = pure (record { task_id = existing.id; created = false })
create_unless none uuid now r = insert_task uuid now r

unfoldable pub create_task_from_published_flow :
    String → String → TaskRequest → Exec TaskCreateResult
unfolding create_unless insert_task
create_task_from_published_flow uuid now r = transact do
  existing ← gets (λ s. find (has_key r.idempotency_key) s.tasks)
  create_unless existing uuid now r

unfoldable pub get_task : String → Exec Task
get_task id = do row ← gets (λ s. find (task_is id) s.tasks); or_raise row (key_error id)

unfoldable pub get_task_context : String → Exec Fields
unfolding get_task
get_task_context id = do task ← get_task id; pure task.runtime_context

update_task : String → (Task → Task) → Exec (Unit {0})
update_task id f = modify (λ s. record s { tasks = update_where (task_is id) f s.tasks })

unfoldable pub merge_task_context : String → String → Fields → Exec Fields
unfolding update_task
merge_task_context now id patch = transact do
  row ← gets (λ s. find (task_is id) s.tasks)
  task ← or_raise row (key_error id)
  let merged = deep_merge task.runtime_context patch
  update_task id (λ t. record t { runtime_context = merged; updated_at = now })
  pure merged

-- The UPDATE comes first, and the test on `cur.rowcount` after it.
unfoldable pub set_task_current_step : String → String → String → Exec (Unit {0})
unfolding update_task
set_task_current_step now id step_key = transact do
  update_task id (λ t. record t { current_step_key = step_key; updated_at = now })
  known ← gets (λ s. any (task_is id) s.tasks)
  if known then pure tt else raise (key_error id)

-- The optional arguments of `set_task_status`: `next_check_at` is the text of the time.
abbrev pub or_keep : Option ℕ → ℕ → ℕ
or_keep none n = n
or_keep (some m) n = m

unfoldable pub set_task_status :
    String → String → TaskStatus → Option String → Option ℕ → Option String → Exec (Unit {0})
unfolding update_task
set_task_status now id status next_check_at check_attempts assigned_robot_id = transact (
    update_task id (λ t. record t {
      status = status;
      next_check_at = next_check_at;
      check_attempts = or_keep check_attempts t.check_attempts;
      assigned_robot_id = assigned_robot_id;
      updated_at = now;
    }))
