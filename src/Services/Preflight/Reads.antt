-- ===== src/Services/Preflight/Reads.antt =====
-- What the preflight does at the back ends.
use rpa_group.Prelude.{
  String, Bool, true, false, not, if◌then◌else◌, wecom_session_expired_error, ◌≡◌, refl, ◌==◌, any,
  inl, inr, Option-cases, Error, Result, ok, err,
}
use rpa_group.Services.Bind.Backends.{
  Call, resolve_unique_corp, resolve_unique_custom_app, check_wework_owner, Calls, tried, ◌>>=◌,
  JdyWecomBindInput, JdyCorpDeploy, JdyOwnerCheckResult, WecomCustomApp, Clients,
}
use rpa_group.Services.Bind.{or_text, with_resolved_wecom_suite, with_corp_default_userid}
use rpa_group.Services.Bind.Order.{is_write}
use rpa_group.Services.Preflight.{
  is_jdy_error, is_jdy_session_expired_error, owner_state, userid_source, recover_corp_from_owner,
  after_app, check_app, after_owner, after_recovery, owner_answer, authcorp_name, after_corp,
  run_readonly_preflight,
}

-- The block changes nothing at a back end.
abbrev pub OnlyReads : {A : Type 0} → Calls A → Type 0
OnlyReads m = any is_write m.1 ≡ false

tried-OnlyReads :
    {A B : Type 0} (c : Call) (answer : Result A) (f : Result A → Calls B)
    → is_write c ≡ false
    → OnlyReads (f answer)
    → OnlyReads (tried c answer >>= f)
tried-OnlyReads c answer f reads h = rw reads h

either-OnlyReads :
    {A : Type 0} (b : Bool) (m n : Calls A)
    → OnlyReads m
    → OnlyReads n
    → OnlyReads (if b then m else n)
either-OnlyReads true m n h k = h
either-OnlyReads false m n h k = k

module _ (clients : Clients) (str_exc : Error → String) where
  after_app-OnlyReads :
      (request : JdyWecomBindInput) (corp : JdyCorpDeploy) (owner : JdyOwnerCheckResult)
      (source : String) (found : Result WecomCustomApp)
      → OnlyReads (after_app clients str_exc request corp owner source found)
  unfolding after_app
  after_app-OnlyReads request corp owner source (ok app) = refl
  after_app-OnlyReads request corp owner source (err (wecom_session_expired_error m)) = refl
  after_app-OnlyReads request corp owner source (err e) = refl

  check_app-OnlyReads :
      (request : JdyWecomBindInput) (corp : JdyCorpDeploy) (owner : JdyOwnerCheckResult)
      (source : String)
      → OnlyReads (check_app clients str_exc request corp owner source)
  unfolding check_app
  check_app-OnlyReads request corp owner source =
      either-OnlyReads (owner_state owner == "cannot_bind_or_update") _ _ refl (
        tried-OnlyReads resolve_unique_custom_app
          (clients.find_app request.wecom_suiteid (authcorp_name request corp) request.suite_name)
          (after_app clients str_exc request corp owner source) refl
          (after_app-OnlyReads request corp owner source _))

  after_owner-OnlyReads :
      (request : JdyWecomBindInput) (corp : JdyCorpDeploy) (source : String)
      (answer : Result JdyOwnerCheckResult)
      → OnlyReads (after_owner clients str_exc request corp source answer)
  unfolding after_owner
  after_owner-OnlyReads request corp source (ok owner) =
      check_app-OnlyReads request corp owner source
  after_owner-OnlyReads request corp source (err e) =
      either-OnlyReads (not (is_jdy_error e)) _ _ refl
        (either-OnlyReads (is_jdy_session_expired_error (str_exc e)) _ _ refl refl)

  after_recovery-OnlyReads :
      (request : JdyWecomBindInput) (e : Error) (answer : Result JdyOwnerCheckResult)
      → OnlyReads (after_recovery clients str_exc request e answer)
  unfolding after_recovery
  after_recovery-OnlyReads request e (ok owner) =
      elim (Option-cases (recover_corp_from_owner request owner)) [
        | inl found ↦ rw (after_recovery, found) refl
        | inr (corp, found) ↦ rw (after_recovery, found) (check_app-OnlyReads _ corp owner _)
      ]
  after_recovery-OnlyReads request e (err f) =
      either-OnlyReads (not (is_jdy_error f)) _ _ refl
        (either-OnlyReads (is_jdy_session_expired_error (str_exc f)) _ _ refl refl)

  after_corp-OnlyReads :
      (request : JdyWecomBindInput) (found : Result JdyCorpDeploy)
      → OnlyReads (after_corp clients str_exc request found)
  unfolding after_corp
  after_corp-OnlyReads request (ok corp) =
      let known = with_resolved_wecom_suite (with_corp_default_userid request corp) corp in
      tried-OnlyReads check_wework_owner (owner_answer clients str_exc known)
        (after_owner clients str_exc known corp (userid_source request)) refl
        (after_owner-OnlyReads known corp (userid_source request) _)
  after_corp-OnlyReads request (err e) = either-OnlyReads (not (is_jdy_error e)) _ _ refl (
      either-OnlyReads (is_jdy_session_expired_error (str_exc e)) _ _ refl (
        tried-OnlyReads check_wework_owner (owner_answer clients str_exc request)
          (after_recovery clients str_exc request e) refl (after_recovery-OnlyReads request e _)))

  -- Whatever the back ends answer, and whatever they raise, the preflight changes nothing there.
  pub run_readonly_preflight-OnlyReads :
      (request : JdyWecomBindInput) → OnlyReads (run_readonly_preflight clients str_exc request)
  unfolding run_readonly_preflight
  run_readonly_preflight-OnlyReads request =
      tried-OnlyReads resolve_unique_corp
        (clients.find_corp request.plain_corp_id
          (or_text request.enterprise_short_name request.enterprise_name))
        (after_corp clients str_exc request) refl (after_corp-OnlyReads request _)
