-- ===== src/Services/Preflight.antt =====
-- scripts/dev/check_wecom_bind_real_readonly.py: run_readonly_preflight, which asks the two back ends
-- whether a binding can go through. The clients are an argument, and `str_exc` is the text of an
-- exception.
pub mod Summaries
pub mod Reads
use rpa_group.Prelude.{
  String, Bool, true, false, ◌||◌, List, [], ◌∷◌, ◌==◌, if◌then◌else◌, is_empty, strip, one_of,
  select, not, ◌&&◌, has_infix, Option, none, some, Error, jdy_admin_error,
  missing_corp_deploy_error, ambiguous_corp_deploy_error, owner_cannot_bind_error,
  wecom_admin_error, wecom_session_expired_error, missing_wecom_app_error,
  ambiguous_wecom_app_error, retryable_wecom_order_error, json_http_error, Result, ok, err,
}
use rpa_group.Prelude.Value.{Fields}
use rpa_group.Services.Bind.Backends.{
  Calls, pure, raise, tried, ◌>>=◌, resolve_unique_corp, resolve_unique_custom_app,
  check_wework_owner, JdyWecomBindInput, JdyCorpDeploy, JdyOwnerCheckResult, WecomCustomApp,
  Clients,
}
use rpa_group.Services.Bind.{or_text, with_corp_default_userid, with_resolved_wecom_suite}
use rpa_group.Services.Preflight.Summaries.{summary, failure_summary}

-- except (JdyAdminError, JsonHttpError)
abbrev pub is_jdy_error : Error → Bool
is_jdy_error (jdy_admin_error m) = true
is_jdy_error (missing_corp_deploy_error m) = true
is_jdy_error (ambiguous_corp_deploy_error m) = true
is_jdy_error (owner_cannot_bind_error m) = true
is_jdy_error (json_http_error m) = true
is_jdy_error _ = false

-- except (WecomAdminError, JsonHttpError)
abbrev pub is_wecom_error : Error → Bool
is_wecom_error (wecom_admin_error m) = true
is_wecom_error (wecom_session_expired_error m) = true
is_wecom_error (missing_wecom_app_error m) = true
is_wecom_error (ambiguous_wecom_app_error m) = true
is_wecom_error (retryable_wecom_order_error m) = true
is_wecom_error (json_http_error m) = true
is_wecom_error _ = false

-- `_is_jdy_session_expired_error`, of the exception's text.
unfoldable pub is_jdy_session_expired_error : String → Bool
is_jdy_session_expired_error message =
    has_infix message "\"code\":1007" || has_infix message "code=1007" || has_infix message "用户尚未登录"

-- _owner_state
abbrev pub owner_state : JdyOwnerCheckResult → String
owner_state owner =
    if owner.can_bind_corp_secret
    then "can_bind_corp_secret"
    else if owner.can_update_corp_secret
    then "can_update_corp_secret"
    else "cannot_bind_or_update"

-- `_acceptable_enterprise_names`; the order and the repetitions are of no consequence.
abbrev pub acceptable_enterprise_names : JdyWecomBindInput → List String
acceptable_enterprise_names request =
    select (λ value. not (is_empty value))
      (strip request.enterprise_name ∷ strip request.enterprise_short_name ∷ [])

-- _recover_corp_from_owner
unfoldable pub recover_corp_from_owner :
    JdyWecomBindInput → JdyOwnerCheckResult → Option JdyCorpDeploy
recover_corp_from_owner request owner =
    let name =
      or_text owner.corp_name (or_text request.enterprise_short_name request.enterprise_name) in
    if not owner.can_update_corp_secret || is_empty owner.owner_corp_id
    then none
    else if not (one_of name (acceptable_enterprise_names request))
    then none
    else some (record {
      deploy_id = request.requested_user_id;
      default_userid = request.requested_user_id;
      corp_id = owner.owner_corp_id;
      name = name;
      tenant_id = request.requested_user_id;
      suite_name = request.suite_name;
      integrate_suite_name = "";
      suite_id = request.suite_id;
      suite_scenario = request.suite_scenario;
    })

-- The source that `_with_corp_default_userid` gives; the request it gives is that of the service's
-- function of the same name.
abbrev pub userid_source : JdyWecomBindInput → String
userid_source request = if is_empty (strip request.requested_user_id) then "default" else "payload"

-- The name under which the app is asked for.
unfoldable pub authcorp_name : JdyWecomBindInput → JdyCorpDeploy → String
authcorp_name request corp =
    if one_of corp.name (acceptable_enterprise_names request)
    then or_text request.enterprise_short_name (or_text corp.name request.enterprise_name)
    else corp.name

-- The status and the reason of an app that was found.
unfoldable pub verdict : WecomCustomApp → JdyOwnerCheckResult → String × String
verdict app owner =
    if is_empty app.app_id
    then ("blocked", "wecom_app_id_missing")
    else if is_empty app.aes_app_id
    then ("blocked", "wecom_aes_app_id_missing")
    else if owner_state owner == "can_update_corp_secret"
    then ("review", "owner_already_bound_can_update_corp_secret")
    else ("ok", "ready_for_confirm_write")

module _ (clients : Clients) (str_exc : Error → String) where
  -- The answer where the app has been looked for.
  unfoldable pub after_app :
      JdyWecomBindInput
      → JdyCorpDeploy
      → JdyOwnerCheckResult
      → String
      → Result WecomCustomApp
      → Calls Fields
  after_app request corp owner source (ok app) =
      let (status, reason) = verdict app owner in
      pure (summary request corp (some app) status reason (owner_state owner) source)
  after_app request corp owner source (err (wecom_session_expired_error m)) = pure (
      failure_summary request "wecom_session_expired" (str_exc (wecom_session_expired_error m))
        (some corp) (owner_state owner))
  after_app request corp owner source (err e) =
      if is_wecom_error e
      then pure (
          failure_summary request "wecom_app_not_unique_or_missing" (str_exc e) (some corp)
            (owner_state owner))
      else raise e

  -- From the owner's answer on.
  unfoldable pub check_app :
      JdyWecomBindInput → JdyCorpDeploy → JdyOwnerCheckResult → String → Calls Fields
  check_app request corp owner source =
      if owner_state owner == "cannot_bind_or_update"
      then pure (
          summary request corp none "blocked" "owner_cannot_bind_or_update_corp_secret"
            (owner_state owner) source)
      else (tried resolve_unique_custom_app
            (clients.find_app request.wecom_suiteid (authcorp_name request corp) request.suite_name)
          >>= after_app request corp owner source)

  -- The owner's answer for a corp that was found.
  unfoldable pub after_owner :
      JdyWecomBindInput → JdyCorpDeploy → String → Result JdyOwnerCheckResult → Calls Fields
  after_owner request corp source (ok owner) = check_app request corp owner source
  after_owner request corp source (err e) =
      if not (is_jdy_error e)
      then raise e
      else if is_jdy_session_expired_error (str_exc e)
      then pure
          (failure_summary request "jdy_session_expired" (str_exc e) (some corp) "not_checked")
      else pure
          (failure_summary request "jdy_owner_check_failed" (str_exc e) (some corp) "not_checked")

  -- The owner's answer where the search of the corp has raised `e`.
  unfoldable pub after_recovery :
      JdyWecomBindInput → Error → Result JdyOwnerCheckResult → Calls Fields
  after_recovery request e (ok owner) = elim (recover_corp_from_owner request owner) [
    | none ↦
        pure
          (failure_summary request "jdy_corp_not_unique_or_missing" (str_exc e) none "not_checked")
    | some corp ↦
        check_app (with_resolved_wecom_suite request corp) corp owner (userid_source request)
  ]
  after_recovery request e (err f) =
      if not (is_jdy_error f)
      then raise f
      else if is_jdy_session_expired_error (str_exc f)
      then pure (failure_summary request "jdy_session_expired" (str_exc f) none "not_checked")
      else pure
          (failure_summary request "jdy_corp_not_unique_or_missing" (str_exc f) none "not_checked")

  abbrev pub owner_answer : JdyWecomBindInput → Result JdyOwnerCheckResult
  owner_answer request =
      clients.owner_of request.requested_user_id request.suite_id request.suite_scenario

  -- From the search of the corp on.
  unfoldable pub after_corp : JdyWecomBindInput → Result JdyCorpDeploy → Calls Fields
  after_corp request (ok corp) =
      let known = with_resolved_wecom_suite (with_corp_default_userid request corp) corp in
      tried check_wework_owner (owner_answer known)
      >>= after_owner known corp (userid_source request)
  after_corp request (err e) =
      if not (is_jdy_error e)
      then raise e
      else if is_jdy_session_expired_error (str_exc e)
      then pure (failure_summary request "jdy_session_expired" (str_exc e) none "not_checked")
      else (tried check_wework_owner (owner_answer request) >>= after_recovery request e)

  unfoldable pub run_readonly_preflight : JdyWecomBindInput → Calls Fields
  run_readonly_preflight request =
      tried resolve_unique_corp (
        clients.find_corp request.plain_corp_id
          (or_text request.enterprise_short_name request.enterprise_name))
      >>= after_corp request
