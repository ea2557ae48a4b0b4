-- ===== src/Samples/StoreSamples.antt =====
-- The theorems about rpa_platform/storage/sqlite_store.py at concrete inputs.
use rpa_group.Prelude.{
  ℕ, ◌++◌, ◌&&◌, update_where, ◌≡◌, refl, sym, subst, inl, inr, true, false, none, some, List, [],
  ◌∷◌, ◌==◌, strip, All, find, select, ok,
}
use rpa_group.Prelude.Value.{int, obj, Fields, field, end, pos, str_of}
use rpa_group.Domain.FlowSteps.{
  validate_steps, normalize_steps, normalize_step, required_text, required_value, save_step, saved,
  raise_if,
}
use rpa_group.Domain.FlowSteps.Rules.{validate_steps_idem}
use rpa_group.Domain.StateMachine.{checking_login, waiting_login}
use rpa_group.Store.Rows.{ManualAction, draft, published, version_is, template_is, task_is}
use rpa_group.Store.Flows.{copy_flow_version, publish_flow_version}
use rpa_group.Store.Flows.Versions.{OnlyPublished, publish_flow_version_lem}
use rpa_group.Store.Flows.Copies.{StepsValid, IsNext, copy_flow_version_lem}
use rpa_group.Store.Tasks.{create_task_from_published_flow, published_version, insert_task}
use rpa_group.Store.Tasks.Resumption.{resume_target_status, resume_task}
use rpa_group.Store.Tasks.Creation.{create_task_once}
use rpa_group.Store.Tasks.Resume.{resume_task_lem}
use rpa_group.Store.Robots.{claim_time, claim_next_runnable_task}
use rpa_group.Store.Robots.Claim.{HasUniqueIds, Outcome, claim-Outcome}
use rpa_group.Store.Robots.Claim.Schedule.{
  ClaimCall, handed_out, AllDistinct, handed_out-AllDistinct,
}
use rpa_group.Samples.DomainSamples.{no_repr, raw_steps, checked_steps}
use rpa_group.Samples.StoreData.{version, template, request, task, db}

abbrev calls : List ClaimCall
calls =
    record { clock = "t3"; robot_id = "r1"; time = none }
    ∷ record { clock = "t4"; robot_id = "r2"; time = some "t5" }
    ∷ []

handed_out-AllDistinct_example : AllDistinct (handed_out calls db)
handed_out-AllDistinct_example = handed_out-AllDistinct calls db

claim-Outcome_example :
    Outcome "r1" (claim_time none "t3") db (claim_next_runnable_task "t3" "r1" none db)
claim-Outcome_example = claim-Outcome "t3" "r1" none db

db_unique : HasUniqueIds db.tasks
db_unique u (inl e) = subst (λ x. find (task_is x.id) db.tasks ≡ some x) (sym e) refl
db_unique u (inr (inl e)) = subst (λ x. find (task_is x.id) db.tasks ≡ some x) (sym e) refl
db_unique u (inr (inr m)) = absurd m

first_request :
    (create_task_from_published_flow "c" "t3" (request "key-c") db).0
    ≡ ok (record { task_id = "c"; created = true })
unfolding create_task_from_published_flow published_version insert_task
first_request = refl

create_task_once_example :
    let s' = (create_task_from_published_flow "c" "t3" (request "key-c") db).1 in
    create_task_from_published_flow "d" "t4" (request "key-c") s'
    ≡ (ok (record { task_id = "c"; created = false }), s')
create_task_once_example =
    create_task_once "c" "t3" "d" "t4" (request "key-c") (request "key-c") db
      (record { task_id = "c"; created = true }) refl first_request

valid_steps : validate_steps no_repr raw_steps false ≡ ok checked_steps
unfolding validate_steps normalize_steps normalize_step required_text required_value save_step saved
    raise_if strip str_of
valid_steps = refl

db_valid : StepsValid no_repr db.flow_versions
db_valid =
    let again = validate_steps_idem no_repr raw_steps false checked_steps valid_steps in
    (again, (again, tt))

publish_flow_version_lem_example :
    let (r, s') = publish_flow_version "t3" "flow" "v1" db in
    (r ≡ ok "v1")
    × OnlyPublished "flow" "v1" s'.flow_versions
    × (find (version_is "v1") s'.flow_versions
        ≡ some (record (version "v1" "flow") {
          status = published;
          published_at = some "t3";
          updated_at = "t3";
        }))
    × (find (template_is "flow") s'.flow_templates
        ≡ some (record template {
          published_version_id = some "v1";
          draft_version_id = none;
          updated_at = "t3";
        }))
    × (find (version_is "w1") s'.flow_versions ≡ some (version "w1" "other"))
publish_flow_version_lem_example =
    publish_flow_version_lem "t3" "flow" "v1" db (version "v1" "flow") (version "w1" "other")
      template "w1" refl refl refl refl refl

copy_flow_version_lem_example :
    (number : ℕ) × IsNext "flow" number db.flow_versions
    × (copy_flow_version no_repr "v2" "t3" "flow" "v1" "bob" db ≡ (
      ok "v2",
      record db {
        flow_versions =
            db.flow_versions
            ++ record {
              id = "v2";
              flow_template_id = "flow";
              version_no = number;
              status = draft;
              steps = checked_steps;
              created_by = "bob";
              published_at = none;
              created_at = "t3";
              updated_at = "t3";
            }
              ∷ [];
        flow_templates =
            update_where
              (λ t. t.id == "flow")
              (λ t. record t { draft_version_id = some "v2"; updated_at = "t3" })
              db.flow_templates;
      },
    ))
copy_flow_version_lem_example =
    copy_flow_version_lem no_repr "v2" "t3" "flow" "bob" db "v1" (version "v1" "flow") db_valid refl
      refl refl refl

target_of_login : resume_target_status waiting_login ≡ ok checking_login
unfolding resume_target_status
target_of_login = refl

resume_task_lem_example :
    let (r, s') = resume_task "s1" "t3" "t4" "b" "ann" none "" db in
    (r ≡ ok checking_login)
    × (find (task_is "b") s'.tasks
        ≡ some (record (task "b" "key-b") {
          status = checking_login;
          assigned_robot_id = none;
          updated_at = "t3";
        }))
    × (find (task_is "a") s'.tasks ≡ find (task_is "a") db.tasks)
    × All (λ a. (a.task_id == "b" && a.status == "pending") ≡ false) s'.manual_actions
    × (select (λ (a : ManualAction). a.task_id == "a") s'.manual_actions
        ≡ select (λ (a : ManualAction). a.task_id == "a") db.manual_actions)
resume_task_lem_example =
    resume_task_lem "s1" "t3" "t4" "b" "ann" none db
      (record (task "b" "key-b") { status = waiting_login }) checking_login "a" refl target_of_login
      refl

abbrev patch : Fields
patch = field "app" (obj (field "id" (int (pos 7)) end)) end
