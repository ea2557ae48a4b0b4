-- ===== src/Services/Bind/Online.antt =====
-- The service with the two clients of rpa_platform/integrations.
use rpa_group.Prelude.{String, false, ◌≡◌, refl, some, any, Result, ok, err}
use rpa_group.Prelude.Value.{Value, int, obj, Fields, get, ℤ, negsuc}
use rpa_group.Integrations.Jdy.{JdyRequest}
use rpa_group.Integrations.Jdy
use rpa_group.Integrations.Wecom.{WecomRequest}
use rpa_group.Integrations.Wecom
use rpa_group.Integrations.Wecom.Sessions.{expired, resolve_unique_custom_app-expired}
use rpa_group.Services.Bind.Backends.{Clients, JdyWecomBindInput, JdyCorpDeploy, Secrets}
use rpa_group.Services.Bind.{or_text, bind_with, start_bind}
use rpa_group.Services.Bind.Order.{is_write, completed}

module _ (jdy : JdyRequest → Result Fields) (wecom : WecomRequest → Result Fields)
    (repr : Value → String) (int_of : Value → Result ℤ) where
  -- The clients over their transports.
  unfoldable pub online_clients : Clients
  online_clients = record {
    find_corp = λ id name. (Jdy.resolve_unique_corp jdy repr int_of id name).0;
    find_app = λ suiteid name suite.
        (Wecom.resolve_unique_custom_app wecom repr int_of suiteid name suite).0;
    owner_of =
        λ user suite scenario. (Jdy.check_wework_owner jdy repr int_of user suite scenario).0;
    install = λ request. (Jdy.install_corp_deploy jdy repr int_of request).0;
    save_app = λ request. (Wecom.save_development_info wecom repr int_of request).0;
    privileges = λ suiteid app. (Wecom.set_target_privileges wecom repr int_of suiteid app).0;
    trial_rule = λ app. (Wecom.set_trial_rule wecom repr int_of app).0;
    sso_domain = λ suiteid app aes domain.
        (Wecom.set_sso_redirect_domain wecom repr int_of suiteid app aes domain).0;
    new_order = λ suiteid app. (Wecom.create_online_order wecom repr int_of suiteid app).0;
    submit_order = λ id. (Wecom.submit_online_order wecom repr int_of id).0;
  }

  -- With a WeCom session that has expired, a binding whose corp is found raises so, before anything
  -- has been changed at a back end.
  pub start_bind-expired :
      (answer result : Fields)
      → ((request : WecomRequest) → wecom request ≡ ok answer)
      → get "result" answer ≡ some (obj result)
      → get "errCode" result ≡ some (int (negsuc 2))
      → (request : JdyWecomBindInput) (corp : JdyCorpDeploy) (secrets : Secrets) (now next : String)
      → (Jdy.resolve_unique_corp jdy repr int_of request.plain_corp_id
          (or_text request.enterprise_short_name request.enterprise_name)).0
        ≡ ok corp
      → let out = start_bind online_clients request secrets now next in
        (out.0 ≡ err expired) × (any is_write out.1 ≡ false)
  unfolding start_bind bind_with online_clients
  start_bind-expired answer result answered has_result code request corp secrets now next found =
      let asked = completed online_clients secrets now next request corp in
      let refused =
        resolve_unique_custom_app-expired wecom repr int_of answer result asked.wecom_suiteid
          (or_text asked.enterprise_short_name (or_text corp.name asked.enterprise_name))
          asked.suite_name answered has_result code in
      rw (found, refused) (refl, refl)
