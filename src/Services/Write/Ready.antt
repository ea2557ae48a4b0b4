-- ===== src/Services/Write/Ready.antt =====
-- What the preflight of check_wecom_bind_real_readonly.py says of the write of
-- run_wecom_bind_real_write.py.
use rpa_group.Prelude.{
  String, true, not, ◌≡◌, refl, ◌∙◌, one_of, Bool-cases, inl, inr, none, some, Error, Result, ok,
  err,
}
use rpa_group.Prelude.Logged.{>>=-goes_on}
use rpa_group.Prelude.Value.{Value, Fields}
use rpa_group.Services.Bind.Backends.{◌>>=◌, JdyWecomBindInput, JdyCorpDeploy, JdyOwnerCheckResult}
use rpa_group.Services.Bind.{or_text, with_resolved_wecom_suite, with_corp_default_userid}
use rpa_group.Services.Preflight.Summaries.{failure_summary}
use rpa_group.Services.Preflight.{
  is_jdy_error, is_jdy_session_expired_error, acceptable_enterprise_names, userid_source,
  after_corp, run_readonly_preflight, recover_corp_from_owner,
}
use rpa_group.Services.Write.{
  owner_answer, WriteClients, Known, Prepared, is_jdy_admin_error, after_search, known_by_owner,
  owner_of_known, check_known, prepare,
}
use rpa_group.Services.Write.Names.{
  with_resolved-names, with_default-names, authcorp_name-acceptable, recovered-acceptable,
}
use rpa_group.Services.Write.Reports.{
  is_ready, IsUsable, Found, stopped, after_owner-ready, after_recovery-ready, check_known-IsUsable,
}

module _ (clients : WriteClients) (repr : Value → String) (shape : Fields → String)
    (str_exc : Error → String) (request : JdyWecomBindInput) where
  -- The search of the corp.
  abbrev found_corp : Result JdyCorpDeploy
  found_corp =
      clients.online.find_corp request.plain_corp_id
        (or_text request.enterprise_short_name request.enterprise_name)

  -- The checks of the write pass, and what they find can be used.
  abbrev Passes : Result JdyCorpDeploy → Type 0
  Passes found =
      (p : Prepared) × ((after_search clients repr shape request found
          >>= check_known clients repr shape).0
        ≡ ok p)
      × IsUsable p.app p.owner

  found-Passes :
      (corp : JdyCorpDeploy) (d : Fields)
      → (after_corp clients.online str_exc request (ok corp)).0 ≡ ok d
      → is_ready d ≡ true
      → one_of corp.name (acceptable_enterprise_names request) ≡ true
      → Passes (ok corp)
  unfolding after_corp after_search owner_of_known
  found-Passes corp d h ready named =
      let asked = with_corp_default_userid request corp in
      let known = with_resolved_wecom_suite asked corp in
      let (owner, answered, usable) =
        after_owner-ready clients repr shape str_exc known corp (userid_source request) _ d h
          ready in
      check_known-IsUsable clients repr shape str_exc
        (record { request = known; corp = corp; owner = none }) owner
        (authcorp_name-acceptable known corp
          (rw (with_resolved-names asked corp, with_default-names request corp) named))
        answered usable

  recovery-Passes :
      (e : Error) (owner : JdyOwnerCheckResult) (corp : JdyCorpDeploy)
      → is_jdy_admin_error e ≡ true
      → owner_answer clients repr shape request ≡ ok owner
      → recover_corp_from_owner request owner ≡ some corp
      → Found clients repr shape str_exc (with_resolved_wecom_suite request corp) corp owner
      → Passes (err e)
  unfolding owner_of_known after_search known_by_owner
  recovery-Passes e owner corp jdy answered known usable =
      let resolved = with_resolved_wecom_suite request corp in
      let taken : Known = record { request = resolved; corp = corp; owner = some owner } in
      let (p, checked, can) =
        check_known-IsUsable clients repr shape str_exc taken owner
          (authcorp_name-acceptable resolved corp
            (rw (with_resolved-names request corp) (recovered-acceptable request owner corp known)))
          refl usable in
      let reached : (after_search clients repr shape request (err e)).0 ≡ ok taken =
        rw (jdy, answered, known_by_owner, known) refl in
      (
        p,
        >>=-goes_on (after_search clients repr shape request (err e))
              (check_known clients repr shape) taken reached
            ∙ checked,
        can,
      )

  recovered-Passes :
      (e : Error) (d : Fields)
      → (after_corp clients.online str_exc request (err e)).0 ≡ ok d
      → is_ready d ≡ true
      → is_jdy_admin_error e ≡ true
      → Passes (err e)
  unfolding after_corp failure_summary
  recovered-Passes e d h ready jdy = elim (Bool-cases (not (is_jdy_error e))) [
    | inl raises ↦ cc (rw raises at h)
    | inr caught ↦ (elim (Bool-cases (is_jdy_session_expired_error (str_exc e))) [
      | inl expired ↦ cc (
          stopped true
            (failure_summary request "jdy_session_expired" (str_exc e) none "not_checked") e d refl
            (rw (caught, expired) at h) ready)
      | inr other ↦
          let (owner, answered, corp, known, usable) =
            after_recovery-ready clients repr shape str_exc request e _ d (rw (caught, other) at h)
              ready in
          recovery-Passes e owner corp jdy answered known usable
    ])
  ]

  -- Where the preflight lets a write go on, the write passes its own checks: it gets as far as its
  -- first change, with an app that has both ids and an owner who may bind or update the secret. That
  -- is so if the corp, where the search finds one, has one of the request's names, and if the search
  -- raises no other exceptions than those of the client.
  pub prepare-ready :
      (d : Fields)
      → (run_readonly_preflight clients.online str_exc request).0 ≡ ok d
      → is_ready d ≡ true
      → ((corp : JdyCorpDeploy)
          → found_corp ≡ ok corp
          → one_of corp.name (acceptable_enterprise_names request) ≡ true)
      → ((e : Error) → found_corp ≡ err e → is_jdy_admin_error e ≡ true)
      → (p : Prepared) × ((prepare clients repr shape request).0 ≡ ok p) × IsUsable p.app p.owner
  unfolding run_readonly_preflight prepare
  prepare-ready d h ready named raised = go found_corp refl h
    where
      go :
          (found : Result JdyCorpDeploy)
          → found_corp ≡ found
          → (after_corp clients.online str_exc request found).0 ≡ ok d
          → Passes found
      go (ok corp) e g = found-Passes corp d g ready (named corp e)
      go (err x) e g = recovered-Passes x d g ready (raised x e)
