-- ===== src/Samples/IntegrationSamples.antt =====
-- The theorems about rpa_platform/integrations at concrete inputs.
use rpa_group.Prelude.{
  ◌≡◌, ◌↔◌, refl, false, true, [], ◌∷◌, Result, ok, err, value_error, any, strip,
}
use rpa_group.Prelude.Value.{
  Value, str, int, obj, arr, bool, cons, nil, Items, end, field, Fields, ℤ, pos, negsuc, str_of,
}
use rpa_group.Integrations.Answers.{text_of}
use rpa_group.Integrations.Jdy.{
  JdyRequest, JdyCorpDeploy, parse_corp_row, corp_rows, resolve_unique_corp,
  search_corp_deploy_list,
}
use rpa_group.Integrations.Jdy.Corps.{key_of, candidates, search_request, resolve_unique_corp_lem}
use rpa_group.Integrations.Wecom.Answers.{
  WecomCustomApp, extract_corpapp_rows, raise_api_error_if_present, api_error, parse_custom_app,
}
use rpa_group.Integrations.Wecom.Privileges.{check_target_privileges, privilege_id}
use rpa_group.Integrations.Wecom.Marks.{
  has_target, AllMarked, without_marks, check_target_privileges_lem,
}
use rpa_group.Integrations.Wecom.{
  WecomRequest, WecomSaveAppRequest, matching, resolve_unique_custom_app, save_development_info,
  set_target_privileges, set_trial_rule, set_sso_redirect_domain, create_online_order,
  submit_online_order,
}
use rpa_group.Integrations.Wecom.Apps.{resolve_unique_custom_app_lem}
use rpa_group.Integrations.Wecom.Sessions.{expired, methods_expired}
use rpa_group.Worker.LoginRecovery.Sessions.{LoginSessionStatus, classify_readonly_response}
use rpa_group.Worker.LoginRecovery.Agreement.{raise_api_error-expired}
use rpa_group.Services.Bind.Online.{online_clients, start_bind-expired}
use rpa_group.Services.Bind.Order.{is_write}
use rpa_group.Services.Bind.{start_bind}
use rpa_group.Samples.DomainSamples.{no_repr}
use rpa_group.Samples.ServiceSamples.{request, secrets}

abbrev int_of : Value → Result ℤ
int_of (int n) = ok n
int_of _ = err (value_error "no number")

-- One corp is found, under its CorpID and under its name.
abbrev corps : Fields
corps =
    field "corp_deploy_list"
      (arr (cons (obj (field "corp_id" (str "ww1") (field "name" (str "Acme") end))) nil)) end

abbrev jdy : JdyRequest → Result Fields
jdy r = ok corps

abbrev acme : JdyCorpDeploy
acme = record {
  deploy_id = "";
  default_userid = "";
  corp_id = "ww1";
  name = "Acme";
  tenant_id = "";
  suite_name = "";
  integrate_suite_name = "";
  suite_id = pos 0;
  suite_scenario = "";
}

parsed : corp_rows jdy no_repr int_of corps ≡ ok (acme ∷ [])
unfolding corp_rows parse_corp_row text_of str_of
parsed = refl

abbrev found_corp : Result JdyCorpDeploy
found_corp = (resolve_unique_corp jdy no_repr int_of " " "Acme").0

resolve_unique_corp_lem_example :
    ((found_corp ≡ ok acme) ↔ (candidates " " "Acme" (acme ∷ []) ≡ acme ∷ []))
    × ((resolve_unique_corp jdy no_repr int_of " " "Acme").1
        ≡ search_request (key_of " " "Acme") ∷ [])
unfolding strip
resolve_unique_corp_lem_example =
    resolve_unique_corp_lem jdy no_repr int_of " " "Acme" corps (acme ∷ []) acme refl refl parsed

corp_found : found_corp ≡ ok acme
unfolding strip
corp_found = resolve_unique_corp_lem_example.0.1 refl

-- One app of that name, and one of another.
abbrev app_row : Fields
app_row =
    field "app_id" (str "a1") (field "authcorp_name" (str "Acme") (field "name" (str "JDY") end))

abbrev rows : Items
rows = cons (obj app_row) (cons (obj (field "name" (str "Other") end)) nil)

abbrev app_list : Fields
app_list = field "data" (obj (field "corpapp" (arr rows) end)) end

abbrev wecom : WecomRequest → Result Fields
wecom r = ok app_list

abbrev acme_app : WecomCustomApp
acme_app = record {
  app_id = "a1";
  authcorp_name = "Acme";
  name = "JDY";
  logo = "";
  description = "";
  customized_app_status = pos 0;
  aes_app_id = "";
  raw = app_row;
}

app_found : (resolve_unique_custom_app wecom no_repr int_of (pos 7) "Acme" "JDY").0 ≡ ok acme_app
unfolding resolve_unique_custom_app extract_corpapp_rows raise_api_error_if_present matching
    parse_custom_app text_of str_of
app_found = refl

rows_read : extract_corpapp_rows no_repr app_list ≡ ok rows
unfolding extract_corpapp_rows raise_api_error_if_present
rows_read = refl

resolve_unique_custom_app_lem_example :
    (matching wecom no_repr int_of "Acme" "JDY" rows ≡ ok (app_row ∷ []))
    × (acme_app.authcorp_name ≡ "Acme")
    × (acme_app.name ≡ "JDY")
resolve_unique_custom_app_lem_example =
    resolve_unique_custom_app_lem wecom no_repr int_of (pos 7) "Acme" "JDY" app_list rows acme_app
      refl rows_read app_found

-- A privilege under a group.
abbrev privileges : Value
privileges = obj (
    field "id" (int (pos 1))
      (field "children" (arr (cons (obj (field "id" (int (pos 10006)) end)) nil)) end))

group_marked :
    (check_target_privileges int_of privileges).1
    ≡ obj (
        field "id" (int (pos 1)) (
          field "children"
            (arr (cons (obj (field "id" (int (pos 10006)) (field "b_check" (bool true) end))) nil))
            (field "b_check" (bool true) end)))
unfolding check_target_privileges privilege_id
group_marked = refl

check_target_privileges_lem_example :
    let out = check_target_privileges int_of privileges in
    (out.0 ≡ has_target int_of privileges)
    × AllMarked int_of out.1
    × (without_marks out.1 ≡ without_marks privileges)
    × (has_target int_of privileges ≡ false → out.1 ≡ privileges)
check_target_privileges_lem_example = check_target_privileges_lem int_of privileges

-- Every request is answered with the code -3.
abbrev outsession : Fields
outsession = field "errCode" (int (negsuc 2)) (field "message" (str "outsession") end)

abbrev refusal : Fields
refusal = field "result" (obj outsession) end

abbrev logged_out : WecomRequest → Result Fields
logged_out r = ok refusal

abbrev save : WecomSaveAppRequest
save = record {
  suiteid = pos 7;
  app = acme_app;
  homeurl = "";
  callbackurl = "";
  redirect_domain = "";
  token = "";
  encoding_aes_key = "";
}

methods_expired_example :
    ((resolve_unique_custom_app logged_out no_repr int_of (pos 7) "Acme" "JDY").0 ≡ err expired)
    × ((save_development_info logged_out no_repr int_of save).0 ≡ err expired)
    × ((set_target_privileges logged_out no_repr int_of (pos 7) "a1").0 ≡ err expired)
    × ((set_trial_rule logged_out no_repr int_of "a1").0 ≡ err expired)
    × ((set_sso_redirect_domain logged_out no_repr int_of (pos 7) "a1" "x1" "d").0 ≡ err expired)
    × ((create_online_order logged_out no_repr int_of (pos 7) "a1").0 ≡ err expired)
    × ((submit_online_order logged_out no_repr int_of "a1").0 ≡ err expired)
methods_expired_example =
    methods_expired logged_out no_repr int_of refusal outsession (λ r. refl) refl refl (pos 7)
      "Acme" "JDY" "a1" "x1" "d" save

online_corp : (resolve_unique_corp jdy no_repr int_of "ww1" "Acme Ltd").0 ≡ ok acme
unfolding resolve_unique_corp search_corp_deploy_list corp_rows parse_corp_row text_of str_of strip
online_corp = refl

start_bind-expired_example :
    let out = start_bind (online_clients jdy logged_out no_repr int_of) request secrets "t" "u" in
    (out.0 ≡ err expired) × (any is_write out.1 ≡ false)
start_bind-expired_example =
    start_bind-expired jdy logged_out no_repr int_of refusal outsession (λ r. refl) refl refl
      request acme secrets "t" "u" online_corp

refused : raise_api_error_if_present no_repr refusal ≡ err expired
unfolding raise_api_error_if_present api_error text_of str_of
refused = refl

raise_api_error-expired_example :
    (classify_readonly_response no_repr (obj refusal)).status ≡ LoginSessionStatus.expired
raise_api_error-expired_example =
    raise_api_error-expired no_repr refusal "WeCom admin session expired: outsession" refused
