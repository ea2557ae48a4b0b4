-- ===== src/Samples/ServiceSamples.antt =====
-- The theorems about rpa_platform/services/wecom_bind_service.py at concrete inputs.
use rpa_group.Prelude.{◌≡◌, refl, ap, some, true, false, ok, err, any, strip, value_error}
use rpa_group.Prelude.Value.{pos, end, nil}
use rpa_group.Services.Bind.Backends.{
  JdyWecomBindInput, JdyCorpDeploy, WecomCustomApp, Secrets, Clients,
}
use rpa_group.Services.Bind.{bind_context, install_and_order, bind_with, start_bind}
use rpa_group.Services.Bind.Order.{is_write, allowed, completed, whole_binding, start_bind-allowed}

abbrev pub corp : JdyCorpDeploy
corp = record {
  deploy_id = "d1";
  default_userid = "u1";
  corp_id = "ww1";
  name = "Acme";
  tenant_id = "t1";
  suite_name = "简道云教育版";
  integrate_suite_name = "";
  suite_id = pos 1;
  suite_scenario = "main";
}

abbrev pub app : WecomCustomApp
app = record {
  app_id = "a1";
  authcorp_name = "Acme";
  name = "简道云教育版";
  logo = "";
  description = "";
  customized_app_status = pos 0;
  aes_app_id = "x1";
  raw = end;
}

abbrev pub clients : Clients
clients = record {
  find_corp = λ id name. ok corp;
  find_app = λ suite name suite_name. ok app;
  owner_of = λ user suite scenario. ok (record {
    can_bind_corp_secret = true;
    can_update_corp_secret = false;
    owner_corp_id = "";
    corp_name = "";
    existing_token = "";
    existing_encoding_aes_key = "";
  });
  install = λ request. ok (record { tenant_id = "t1"; owner_id = " o1" });
  save_app = λ request. ok end;
  privileges = λ suite app. ok nil;
  trial_rule = λ app. ok end;
  sso_domain = λ suite app aes domain. ok end;
  new_order = λ suite app.
      ok (record { auditorderid = "9"; corpappid = "a1"; authcorp_name = "Acme"; status = pos 1 });
  submit_order = λ id. err (value_error "not yet");
}

abbrev pub secrets : Secrets
secrets = record { token = "tok"; encoding_aes_key = "aes" }

abbrev pub request : JdyWecomBindInput
request = record {
  enterprise_name = "Acme Ltd";
  plain_corp_id = "ww1";
  requested_user_id = " ";
  suite_id = pos 1;
  suite_scenario = "main";
  wecom_suiteid = pos 1009479;
  suite_name = "简道云";
  enterprise_short_name = "";
  wecom_suite_explicit = false;
}

calls_made : (start_bind clients request secrets "t3" "t8").1 ≡ whole_binding
unfolding start_bind bind_with install_and_order strip
calls_made = refl

start_bind-allowed_example :
    let asked = completed clients secrets "t3" "t8" request corp in
    allowed (clients.owner_of asked.requested_user_id asked.suite_id asked.suite_scenario) ≡ true
start_bind-allowed_example =
    start_bind-allowed clients secrets "t3" "t8" request corp refl (ap (any is_write) calls_made)

bind_returns :
    (start_bind clients request secrets "t3" "t8").0
    ≡ ok (record {
      status = "waiting_wecom_online_delay";
      context =
          bind_context
            (completed clients secrets "t3" "t8" request corp)
            corp
            app
            secrets
            "t1"
            "o1"
            (record {
              auditorderid = "9";
              corpappid = "a1";
              authcorp_name = "Acme";
              status = pos 1;
            })
            "t3";
      next_check_at = some "t8";
    })
unfolding start_bind bind_with install_and_order strip
bind_returns = refl
