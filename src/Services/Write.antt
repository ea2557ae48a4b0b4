-- ===== src/Services/Write.antt =====
-- scripts/dev/run_wecom_bind_real_write.py: the binding that keeps its context in a file, so that it
-- can be taken up again. A method gives its steps: the calls of the two clients, and what it writes
-- to the file, which does not fail. `shape` is the text that `_json_shape` makes of an answer.
pub mod Names
pub mod Reports
pub mod Ready
pub mod Orders
pub mod Refines
use rpa_group.Prelude.{
  String, Bool, true, false, not, ◌&&◌, ◌||◌, if◌then◌else◌, is_empty, strip, join2, Option, none,
  some, Error, jdy_admin_error, missing_corp_deploy_error, ambiguous_corp_deploy_error,
  owner_cannot_bind_error, wecom_admin_error, wecom_session_expired_error, missing_wecom_app_error,
  ambiguous_wecom_app_error, retryable_wecom_order_error, Result, ok, err,
}
use rpa_group.Prelude.Value.{Value, null, str, int, Fields, get_or, truthy}
use rpa_group.Prelude.Logged.{Logged}
use rpa_group.Integrations.Wecom.Answers.{is_text, extract_corpapp}
use rpa_group.Services.Bind.Backends.{
  pure, raise, lift, call, tried, ◌>>=◌, ◌>>◌, Call, resolve_unique_corp, resolve_unique_custom_app,
  check_wework_owner, install_corp_deploy, save_development_info, set_target_privileges,
  set_trial_rule, set_sso_redirect_domain, create_online_order, JdyWecomBindInput, JdyCorpDeploy,
  JdyOwnerCheckResult, WecomCustomApp, WecomSaveAppRequest, Secrets, Clients,
}
use rpa_group.Services.Bind.{
  or_text, with_corp_default_userid, with_resolved_wecom_suite, install_request, save_request,
  context_of, JdyWecomBindResult,
}
use rpa_group.Services.Preflight.{recover_corp_from_owner}

pub data Step : Type 0 where
  writes : Fields → Step
  asks : Call → Step

abbrev pub Steps : Type 0 → Type 0
Steps = Logged Step

-- The clients, with the method that gives the whole answer to a change of an app.
pub record WriteClients : Type 0 where
  pub online : Clients
  pub save_app_raw : WecomSaveAppRequest → Result Fields

-- except JdyAdminError
abbrev pub is_jdy_admin_error : Error → Bool
is_jdy_admin_error (jdy_admin_error m) = true
is_jdy_admin_error (missing_corp_deploy_error m) = true
is_jdy_admin_error (ambiguous_corp_deploy_error m) = true
is_jdy_admin_error (owner_cannot_bind_error m) = true
is_jdy_admin_error _ = false

-- except WecomAdminError
abbrev pub is_wecom_admin_error : Error → Bool
is_wecom_admin_error (wecom_admin_error m) = true
is_wecom_admin_error (wecom_session_expired_error m) = true
is_wecom_admin_error (missing_wecom_app_error m) = true
is_wecom_admin_error (ambiguous_wecom_app_error m) = true
is_wecom_admin_error (retryable_wecom_order_error m) = true
is_wecom_admin_error _ = false

-- The request, the corp and, where it has been asked, the owner.
pub record Known : Type 0 where
  pub request : JdyWecomBindInput
  pub corp : JdyCorpDeploy
  pub owner : Option JdyOwnerCheckResult

-- What a write goes by.
pub record Prepared : Type 0 where
  pub request : JdyWecomBindInput
  pub corp : JdyCorpDeploy
  pub app : WecomCustomApp
  pub owner : JdyOwnerCheckResult

-- The secrets, and what the installation says.
pub record Installed : Type 0 where
  pub secrets : Secrets
  pub tenant_id : String
  pub owner_id : String

-- _development_info_present
unfoldable pub development_info_present : Fields → WecomSaveAppRequest → Bool
development_info_present row request =
    is_text (get_or "homeurl" null row) request.homeurl
    && is_text (get_or "callbackurl" null row) request.callbackurl
    && is_text (get_or "redirect_domain" null row) request.redirect_domain
    && truthy (get_or "token" null row)
    && truthy (get_or "aeskey" null row)

module _ (clients : WriteClients) (repr : Value → String) (shape : Fields → String) where
  abbrev pub owner_answer : JdyWecomBindInput → Result JdyOwnerCheckResult
  owner_answer request =
      clients.online.owner_of request.requested_user_id request.suite_id request.suite_scenario

  -- Where the search of the corp has raised `e`, the owner may know the corp.
  unfoldable pub known_by_owner : JdyWecomBindInput → Error → JdyOwnerCheckResult → Steps Known
  known_by_owner request e owner = elim (recover_corp_from_owner request owner) [
    | none ↦ raise e
    | some corp ↦ pure (record {
      request = with_resolved_wecom_suite request corp;
      corp = corp;
      owner = some owner;
    })
  ]

  unfoldable pub after_search : JdyWecomBindInput → Result JdyCorpDeploy → Steps Known
  after_search request (ok corp) = pure (record {
    request = with_resolved_wecom_suite (with_corp_default_userid request corp) corp;
    corp = corp;
    owner = none;
  })
  after_search request (err e) =
      if not (is_jdy_admin_error e)
      then raise e
      else (call (asks check_wework_owner) (owner_answer request) >>= known_by_owner request e)

  -- `if owner is None: …`
  unfoldable pub owner_of_known : Known → Steps JdyOwnerCheckResult
  owner_of_known known = elim known.owner [
    | none ↦ call (asks check_wework_owner) (owner_answer known.request)
    | some owner ↦ pure owner
  ]

  abbrev pub may_bind : Known → WecomCustomApp → JdyOwnerCheckResult → Steps Prepared
  may_bind known app owner =
      if not owner.can_bind_corp_secret && not owner.can_update_corp_secret
      then raise (owner_cannot_bind_error "User_ID cannot bind or update corp secret")
      else pure (record { request = known.request; corp = known.corp; app = app; owner = owner })

  abbrev pub app_answer : Known → Result WecomCustomApp
  app_answer known =
      clients.online.find_app known.request.wecom_suiteid
        (or_text known.request.enterprise_short_name
          (or_text known.corp.name known.request.enterprise_name))
        known.request.suite_name

  -- The app and the owner of a corp that is known.
  unfoldable pub check_known : Known → Steps Prepared
  check_known known = do
    app ← call (asks resolve_unique_custom_app) (app_answer known)
    owner ← owner_of_known known
    may_bind known app owner

  -- Everything up to the first change.
  unfoldable pub prepare : JdyWecomBindInput → Steps Prepared
  prepare request = do
    found ← tried (asks resolve_unique_corp) (
        clients.online.find_corp request.plain_corp_id
          (or_text request.enterprise_short_name request.enterprise_name))
    known ← after_search request found
    check_known known

  -- The secrets that the owner has already, or else new ones with an installation.
  unfoldable pub install : Prepared → Secrets → Steps Installed
  install p secrets =
      if p.owner.can_update_corp_secret
        && not (is_empty p.owner.existing_token)
        && not (is_empty p.owner.existing_encoding_aes_key)
      then pure (record {
        secrets = record {
          token = p.owner.existing_token;
          encoding_aes_key = p.owner.existing_encoding_aes_key;
        };
        tenant_id = p.request.requested_user_id;
        owner_id = p.request.requested_user_id;
      })
      else (call (asks install_corp_deploy)
            (clients.online.install (install_request p.request p.corp secrets))
          >>= λ done.
              if is_empty (strip done.tenant_id) || is_empty (strip done.owner_id)
              then raise
                  (jdy_admin_error "install_corp_deploy returned empty tenant_id or owner_id")
              else pure (record {
                secrets = secrets;
                tenant_id = strip done.tenant_id;
                owner_id = strip done.owner_id;
              }))

  -- Whether the answer to the change shows it. An exception of the client says no.
  unfoldable pub shown_in : Fields → WecomSaveAppRequest → Result Bool
  shown_in response request = elim (extract_corpapp repr response) [
    | ok corpapp ↦ ok (development_info_present corpapp request)
    | err e ↦ if is_wecom_admin_error e then ok false else err e
  ]

  -- The app is looked up again where the answer does not show the change.
  unfoldable pub confirm : Fields → WecomSaveAppRequest → Steps (Unit {0})
  confirm response request = do
    refreshed ←
        call (asks resolve_unique_custom_app)
          (clients.online.find_app request.suiteid request.app.authcorp_name request.app.name)
    if development_info_present refreshed.raw request
        then pure tt
        else raise (
            wecom_admin_error (
              join2 "WeCom development info save was not confirmed; response_shape="
                (shape response)))

  unfoldable pub save_development_info_and_confirm : WecomSaveAppRequest → Steps (Unit {0})
  save_development_info_and_confirm request =
      if development_info_present request.app.raw request
      then pure tt
      else (call (asks save_development_info) (clients.save_app_raw request) >>= λ response.
          lift (shown_in response request) >>= λ shown.
          if shown then pure tt else confirm response request)

  -- From the credentials on. The context is in the file before an app is changed.
  unfoldable pub write_binding : Prepared → Installed → String → String → Steps JdyWecomBindResult
  write_binding p done now next = do
    let blank = context_of p.request p.corp p.app done.secrets done.tenant_id done.owner_id
    call (writes (blank (str "") null (str ""))) (ok tt)
    save_development_info_and_confirm (save_request p.request p.corp p.app done.secrets)
    call (asks set_target_privileges)
        (clients.online.privileges p.request.wecom_suiteid p.app.app_id)
    call (asks set_trial_rule) (clients.online.trial_rule p.app.app_id)
    call (asks set_sso_redirect_domain) (
        clients.online.sso_domain p.request.wecom_suiteid p.app.app_id p.app.aes_app_id
          "wxwork.jiandaoyun.com")
    order ←
        call (asks create_online_order)
          (clients.online.new_order p.request.wecom_suiteid p.app.app_id)
    call (writes (blank (str order.auditorderid) (int order.status) (str now))) (ok tt)
    pure (record {
      status = "waiting_wecom_online_delay";
      context = blank (str order.auditorderid) (int order.status) (str now);
      next_check_at = some next;
    })

  unfoldable pub start_bind_with_recoverable_context :
      JdyWecomBindInput → Secrets → String → String → Steps JdyWecomBindResult
  start_bind_with_recoverable_context request secrets now next = do
    p ← prepare request
    done ← install p secrets
    write_binding p done now next
