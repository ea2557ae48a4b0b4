-- ===== src/Services/Bind.antt =====
-- rpa_platform/services/wecom_bind_service.py. The clients of the two back ends are arguments. A
-- method gives the calls that it has made of them by the end, or before it raised, the failed one
-- included. The secrets, and the texts of the time and of the time in five minutes, are arguments.
pub mod Backends
pub mod Order
pub mod Online
use rpa_group.Prelude.{
  String, Bool, true, false, not, ◌&&◌, ◌||◌, List, [], ◌∷◌, ◌++◌, ◌==◌, if◌then◌else◌, is_empty,
  join2, strip, has_infix, Error, owner_cannot_bind_error, jdy_admin_error, key_error, type_error,
  Option, none, some, Result, ok, err,
}
use rpa_group.Prelude.Value.{Value, str, int, obj, arr, Fields, end, field, get, str_of, ℤ, pos}
use rpa_group.Services.Bind.Backends.{
  Call, resolve_unique_corp, resolve_unique_custom_app, check_wework_owner, install_corp_deploy,
  save_development_info, set_target_privileges, set_trial_rule, set_sso_redirect_domain,
  create_online_order, submit_online_order, Calls, pure, raise, lift, call, ◌>>=◌, ◌>>◌,
  JdyWecomBindInput, JdyCorpDeploy, WecomCustomApp, JdyOwnerCheckResult, JdyInstallRequest,
  JdyInstallResult, WecomSaveAppRequest, WecomOnlineOrder, Secrets, Clients,
}

pub record JdyWecomBindResult : Type 0 where
  pub status : String
  pub context : Fields
  pub next_check_at : Option String

abbrev pub or_text : String → String → String
or_text s t = if is_empty s then t else s

-- _with_corp_default_userid
unfoldable pub with_corp_default_userid : JdyWecomBindInput → JdyCorpDeploy → JdyWecomBindInput
with_corp_default_userid request corp =
    let default = strip corp.default_userid in
    if not (is_empty (strip request.requested_user_id)) || is_empty default
    then request
    else record request { requested_user_id = default }

-- _corp_uses_education_suite
unfoldable pub corp_uses_education_suite : JdyCorpDeploy → Bool
corp_uses_education_suite corp =
    has_infix corp.integrate_suite_name "简道云教育版" || has_infix corp.suite_name "简道云教育版"

unfoldable pub with_resolved_wecom_suite : JdyWecomBindInput → JdyCorpDeploy → JdyWecomBindInput
unfolding corp_uses_education_suite
with_resolved_wecom_suite request corp =
    if not request.wecom_suite_explicit && corp_uses_education_suite corp
    then record request { wecom_suiteid = pos 1038071; suite_name = "简道云教育版" }
    else request

abbrev pub homeurl : JdyCorpDeploy → String
homeurl corp = join2 "https://wxwork.jiandaoyun.com/wxwork/" (join2 corp.corp_id "/dashboard")

abbrev pub callbackurl : JdyCorpDeploy → String
callbackurl corp =
    join2 "https://wxwork.jiandaoyun.com/wxwork/corp/" (join2 corp.corp_id "/service")

unfoldable pub install_request : JdyWecomBindInput → JdyCorpDeploy → Secrets → JdyInstallRequest
install_request request corp secrets = record {
  corp_id = corp.corp_id;
  corp_name = corp.name;
  tenant_id = request.requested_user_id;
  token = secrets.token;
  encoding_aes_key = secrets.encoding_aes_key;
  suite_id = request.suite_id;
  suite_scenario = request.suite_scenario;
}

unfoldable pub save_request :
    JdyWecomBindInput → JdyCorpDeploy → WecomCustomApp → Secrets → WecomSaveAppRequest
save_request request corp app secrets = record {
  suiteid = request.wecom_suiteid;
  app = app;
  homeurl = homeurl corp;
  callbackurl = callbackurl corp;
  redirect_domain = "wxwork.jiandaoyun.com";
  token = secrets.token;
  encoding_aes_key = secrets.encoding_aes_key;
}

-- The context, with the values of its three entries about the order.
unfoldable pub context_of :
    JdyWecomBindInput
    → JdyCorpDeploy
    → WecomCustomApp
    → Secrets
    → String
    → String
    → Value
    → Value
    → Value
    → Fields
context_of request corp app secrets tenant_id owner_id auditorderid auditorder_status
      order_created_at =
    field "jdy"
      (obj (
        field "corp_secret_id" (str corp.corp_id) (
          field "corp_name" (str corp.name) (
            field "original_tenant_id" (str corp.tenant_id) (
              field "requested_user_id" (str request.requested_user_id) (
                field "install_tenant_id" (str tenant_id) (
                  field "install_owner_id" (str owner_id) (
                    field "bound_user_id" (str owner_id) (
                      field "suite_id" (int corp.suite_id) (
                        field "suite_scenario" (str corp.suite_scenario) (
                          field "suite_name" (str corp.suite_name) (
                            field "integrate_suite_name" (str corp.integrate_suite_name)
                              end))))))))))))
      (field "wecom"
        (obj (
          field "suiteid" (int request.wecom_suiteid) (
            field "suite_name" (str request.suite_name) (
              field "app_id" (str app.app_id) (
                field "aes_app_id" (str app.aes_app_id) (
                  field "homeurl" (str (homeurl corp)) (
                    field "callbackurl" (str (callbackurl corp)) (
                      field "redirect_domain" (str "wxwork.jiandaoyun.com") (
                        field "token" (str secrets.token) (
                          field "encoding_aes_key" (str secrets.encoding_aes_key) (
                            field "auditorderid" auditorderid (
                              field "auditorder_status" auditorder_status
                                (field "order_created_at" order_created_at end)))))))))))))
        end)

unfoldable pub bind_context :
    JdyWecomBindInput
    → JdyCorpDeploy
    → WecomCustomApp
    → Secrets
    → String
    → String
    → WecomOnlineOrder
    → String
    → Fields
unfolding context_of
bind_context request corp app secrets tenant_id owner_id order now =
    context_of request corp app secrets tenant_id owner_id (str order.auditorderid)
      (int order.status) (str now)

module _ (clients : Clients) where
  -- From the installation on.
  unfoldable pub install_and_order :
      JdyWecomBindInput
      → JdyCorpDeploy
      → WecomCustomApp
      → Secrets
      → String
      → String
      → Calls JdyWecomBindResult
  unfolding bind_context
  install_and_order request corp app secrets now next = do
    installed ← call install_corp_deploy (clients.install (install_request request corp secrets))
    let tenant_id = strip installed.tenant_id
    let owner_id = strip installed.owner_id
    if is_empty tenant_id || is_empty owner_id
        then raise (jdy_admin_error "install_corp_deploy returned empty tenant_id or owner_id")
        else (do
          call save_development_info (clients.save_app (save_request request corp app secrets))
          call set_target_privileges (clients.privileges request.wecom_suiteid app.app_id)
          call set_trial_rule (clients.trial_rule app.app_id)
          call set_sso_redirect_domain (
              clients.sso_domain request.wecom_suiteid app.app_id app.aes_app_id
                "wxwork.jiandaoyun.com")
          order ← call create_online_order (clients.new_order request.wecom_suiteid app.app_id)
          pure (record {
            status = "waiting_wecom_online_delay";
            context = bind_context request corp app secrets tenant_id owner_id order now;
            next_check_at = some next;
          }))

  -- With the request as it stands once the corp is known.
  unfoldable pub bind_with :
      JdyWecomBindInput → JdyCorpDeploy → Secrets → String → String → Calls JdyWecomBindResult
  bind_with request corp secrets now next = do
    app ← call resolve_unique_custom_app (
        clients.find_app request.wecom_suiteid
          (or_text request.enterprise_short_name (or_text corp.name request.enterprise_name))
          request.suite_name)
    owner ←
        call check_wework_owner
          (clients.owner_of request.requested_user_id request.suite_id request.suite_scenario)
    if not owner.can_bind_corp_secret && not owner.can_update_corp_secret
        then raise (owner_cannot_bind_error "User_ID cannot bind corp secret")
        else install_and_order request corp app secrets now next

  unfoldable pub start_bind :
      JdyWecomBindInput → Secrets → String → String → Calls JdyWecomBindResult
  start_bind request secrets now next = do
    corp ← call resolve_unique_corp (
        clients.find_corp request.plain_corp_id
          (or_text request.enterprise_short_name request.enterprise_name))
    bind_with (with_resolved_wecom_suite (with_corp_default_userid request corp) corp) corp secrets
        now next

  -- `str(context["wecom"]["auditorderid"])`
  unfoldable pub audit_order_id : (Value → String) → Fields → Result String
  audit_order_id repr context = elim (get "wecom" context) [
    | none ↦ err (key_error "wecom")
    | some (obj wecom) ↦ (elim (get "auditorderid" wecom) [
      | none ↦ err (key_error "auditorderid")
      | some v ↦ ok (str_of repr v)
    ])
    | some _ ↦ err (type_error "auditorderid")
  ]

  unfoldable pub submit_bound_order : (Value → String) → Fields → Calls JdyWecomBindResult
  submit_bound_order repr context = do
    id ← lift (audit_order_id repr context)
    order ← call submit_online_order (clients.submit_order id)
    pure (record {
      status = "success";
      context = field "wecom" (obj (field "auditorder_status" (int order.status) end)) end;
      next_check_at = none;
    })
