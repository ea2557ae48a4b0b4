-- ===== src/Store/Flows.antt =====
-- Teams, flow templates and their versions. A method takes the uuid and the time that it reads as its
-- first arguments; `repr` is the text that str() makes of a list or a dict.
pub mod Versions
pub mod Copies
use rpa_group.Prelude.{
  ℕ, suc, ◌+◌, String, Bool, true, false, not, ◌&&◌, Option, none, some, List, [], ◌∷◌, ◌++◌, ◌==◌,
  if◌then◌else◌, is_some, find, select, update_where, order_by, any, leb, ltb, eqb, text_le, Error,
  key_error, value_error,
}
use rpa_group.Prelude.Value.{Value, arr, Items}
use rpa_group.Domain.FlowSteps.{validate_steps}
use rpa_group.Store.Rows.{
  Team, FlowTemplate, VersionStatus, draft, published, archived, FlowVersion, Db, team_is,
  template_is, version_is,
}
use rpa_group.Store.Exec.{
  Exec, pure, raise, gets, or_raise, lift, transact, modify, require, ◌>>=◌, ◌>>◌,
}

-- A row that INSERT adds: the primary key is new. The other constraints are the callers' to state.
unfoldable pub create_team : String → String → String → String → Bool → Exec String
create_team uuid now name webhook_url notification_enabled = transact do
  taken ← gets (λ s. any (team_is uuid) s.teams)
  require (not taken) "UNIQUE constraint failed: teams.id"
  modify (λ s. record s {
    teams =
        s.teams
        ++ record {
          id = uuid;
          name = name;
          webhook_url = webhook_url;
          notification_enabled = notification_enabled;
          created_at = now;
          updated_at = now;
        }
          ∷ [];
  })
  pure uuid

unfoldable pub create_flow_template : String → String → String → String → String → Exec String
create_flow_template uuid now team_id name description = transact do
  taken ← gets (λ s. any (template_is uuid) s.flow_templates)
  require (not taken) "UNIQUE constraint failed: flow_templates.id"
  team ← gets (λ s. any (team_is team_id) s.teams)
  require team "FOREIGN KEY constraint failed"
  modify (λ s. record s {
    flow_templates =
        s.flow_templates
        ++ record {
          id = uuid;
          team_id = team_id;
          name = name;
          description = description;
          published_version_id = none;
          draft_version_id = none;
          created_at = now;
          updated_at = now;
        }
          ∷ [];
  })
  pure uuid

unfoldable pub get_flow_template : String → Exec FlowTemplate
get_flow_template id = do
  row ← gets (λ s. find (template_is id) s.flow_templates)
  or_raise row (key_error id)

-- ORDER BY created_at DESC, name ASC
abbrev newest_template_first : FlowTemplate → FlowTemplate → Bool
newest_template_first a b =
    if a.created_at == b.created_at
    then text_le a.name b.name
    else text_le b.created_at a.created_at

unfoldable pub list_flow_templates : String → Exec (List FlowTemplate)
list_flow_templates team_id =
    gets (λ s. order_by newest_template_first (select (λ t. t.team_id == team_id) s.flow_templates))

-- MAX(version_no) over the rows of a template, 0 if there is none.
unfoldable pub max_version : String → List FlowVersion → ℕ
max_version template [] = 0
max_version template (v ∷ vs) =
    let rest = max_version template vs in
    if v.flow_template_id == template && ltb rest v.version_no then v.version_no else rest

-- The two UPDATEs of flow_templates.
unfoldable pub set_draft : String → String → FlowTemplate → FlowTemplate
set_draft version now t = record t { draft_version_id = some version; updated_at = now }

unfoldable pub set_published : String → String → FlowTemplate → FlowTemplate
set_published version now t = record t {
  published_version_id = some version;
  draft_version_id = none;
  updated_at = now;
}

-- A row that breaks UNIQUE(flow_template_id, version_no).
abbrev same_number : String → ℕ → FlowVersion → Bool
same_number template number v = v.flow_template_id == template && eqb v.version_no number

unfoldable pub new_version : String → String → String → ℕ → Items → String → FlowVersion
new_version uuid now template number steps created_by = record {
  id = uuid;
  flow_template_id = template;
  version_no = number;
  status = draft;
  steps = steps;
  created_by = created_by;
  published_at = none;
  created_at = now;
  updated_at = now;
}

unfoldable pub create_flow_version :
    (Value → String) → String → String → String → Value → String → Exec String
unfolding set_draft new_version
create_flow_version repr uuid now template steps created_by = transact do
  normalized ← lift (validate_steps repr steps false)
  number ← gets (λ s. max_version template s.flow_versions + 1)
  taken ← gets (λ s. any (version_is uuid) s.flow_versions)
  require (not taken) "UNIQUE constraint failed: flow_versions.id"
  clash ← gets (λ s. any (same_number template number) s.flow_versions)
  require (not clash) "UNIQUE constraint failed: flow_versions.version_no"
  known ← gets (λ s. any (template_is template) s.flow_templates)
  require known "FOREIGN KEY constraint failed"
  modify (λ s. record s {
    flow_versions =
        s.flow_versions ++ new_version uuid now template number normalized created_by ∷ [];
    flow_templates = update_where (template_is template) (set_draft uuid now) s.flow_templates;
  })
  pure uuid

unfoldable pub get_flow_version : String → Exec FlowVersion
get_flow_version id = do
  row ← gets (λ s. find (version_is id) s.flow_versions)
  or_raise row (key_error id)

-- ORDER BY version_no DESC
unfoldable pub list_flow_versions : String → Exec (List FlowVersion)
list_flow_versions template = gets (λ s.
    order_by (λ a b. leb b.version_no a.version_no)
      (select (λ v. v.flow_template_id == template) s.flow_versions))

abbrev pub is_published : FlowVersion → Bool
is_published v = elim v.status [ published ↦ true | _ ↦ false ]

unfoldable pub archive : String → FlowVersion → FlowVersion
archive now v = record v { status = archived; updated_at = now }

unfoldable pub publish : String → FlowVersion → FlowVersion
publish now v = record v { status = published; published_at = some now; updated_at = now }

-- The two UPDATEs of flow_versions: the published versions of the template are archived, and then
-- the given one is published.
pub publish_rows : String → String → String → List FlowVersion → List FlowVersion
unfolding archive publish
publish_rows now template version rows =
    update_where (version_is version) (publish now)
      (update_where (λ v. v.flow_template_id == template && is_published v) (archive now) rows)

unfoldable pub publish_flow_version : String → String → String → Exec String
unfolding publish_rows set_published
publish_flow_version now template version = transact do
  row ←
      gets (λ s. find (λ v. version_is version v && v.flow_template_id == template) s.flow_versions)
  or_raise row (value_error "Flow version does not belong to template")
  modify (λ s. record s {
    flow_versions = publish_rows now template version s.flow_versions;
    flow_templates =
        update_where (template_is template) (set_published version now) s.flow_templates;
  })
  pure version

unfoldable pub copy_flow_version :
    (Value → String) → String → String → String → String → String → Exec String
copy_flow_version repr uuid now template source_version created_by = do
  source ← get_flow_version source_version
  if source.flow_template_id == template
      then create_flow_version repr uuid now template (arr source.steps) created_by
      else raise (value_error "Flow version does not belong to template")

unfoldable pub rollback_flow_version : String → String → String → Exec String
rollback_flow_version now template version = publish_flow_version now template version
