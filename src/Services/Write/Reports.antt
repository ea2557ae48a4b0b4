-- ===== src/Services/Write/Reports.antt =====
-- What a report of check_wecom_bind_real_readonly.py that lets a write go on has found out, and what
-- the write of run_wecom_bind_real_write.py finds then.
use rpa_group.Prelude.{
  String, Bool, true, false, not, ◌&&◌, ◌||◌, ◌≡◌, refl, sym, ◌∙◌, subst, ◌==◌, if◌then◌else◌,
  is_empty, Bool-cases, inl, inr, none, some, Option-cases, Error, wecom_session_expired_error,
  Result, ok, err, ok_injective,
}
use rpa_group.Prelude.Logged.{>>=-goes_on}
use rpa_group.Prelude.Value.{Value, null, Fields, get_or}
use rpa_group.Integrations.Wecom.Answers.{is_text}
use rpa_group.Services.Bind.Backends.{
  Call, pure, raise, call, ◌>>=◌, resolve_unique_custom_app, JdyWecomBindInput, JdyCorpDeploy,
  JdyOwnerCheckResult, WecomCustomApp,
}
use rpa_group.Services.Bind.{or_text, with_resolved_wecom_suite}
use rpa_group.Services.Preflight.Summaries.{summary, failure_summary}
use rpa_group.Services.Preflight.{
  is_jdy_error, is_wecom_error, is_jdy_session_expired_error, owner_state, verdict,
  recover_corp_from_owner, authcorp_name, after_app, check_app, after_owner, after_recovery,
}
use rpa_group.Services.Write.{
  WriteClients, Known, Prepared, owner_of_known, may_bind, app_answer, asks, check_known,
}

-- The statuses with which a write may go on.
abbrev pub is_ready : Fields → Bool
is_ready d = is_text (get_or "status" null d) "ok" || is_text (get_or "status" null d) "review"

-- The app has both of its ids, and the owner may bind or update the secret.
abbrev pub IsUsable : WecomCustomApp → JdyOwnerCheckResult → Type 0
IsUsable app owner =
    (is_empty app.app_id ≡ false)
    × (is_empty app.aes_app_id ≡ false)
    × ((not owner.can_bind_corp_secret && not owner.can_update_corp_secret) ≡ false)

owner_state-usable :
    (bind update : Bool)
    → ((if bind
          then "can_bind_corp_secret"
          else if update
          then "can_update_corp_secret"
          else "cannot_bind_or_update")
        == "cannot_bind_or_update")
      ≡ false
    → (not bind && not update) ≡ false
owner_state-usable true update h = refl
owner_state-usable false true h = refl
owner_state-usable false false h = cc h

verdict-usable :
    (request : JdyWecomBindInput) (corp : JdyCorpDeploy) (owner : JdyOwnerCheckResult)
    (source : String) (app : WecomCustomApp)
    → is_ready (
        summary request corp
          (some app)
          (verdict app owner).0
          (verdict app owner).1
          (owner_state owner)
          source)
      ≡ true
    → (is_empty app.app_id ≡ false) × (is_empty app.aes_app_id ≡ false)
unfolding summary verdict
verdict-usable request corp owner source app h = elim (Bool-cases (is_empty app.app_id)) [
  | inl e ↦ cc (rw e at h)
  | inr e ↦ (elim (Bool-cases (is_empty app.aes_app_id)) [
    | inl f ↦ cc (rw (e, f) at h)
    | inr f ↦ (e, f)
  ])
]

-- A block that raises or reports a failure lets no write go on.
pub stopped :
    (b : Bool) (report : Fields) (e : Error) (d : Fields)
    → is_ready report ≡ false
    → (if b then ok report else err e) ≡ ok d
    → is_ready d ≡ true
    → true ≡ false
stopped true report e d no_write h ready =
    cc (subst (λ f. is_ready f ≡ true) (sym (ok_injective h)) ready, no_write)
stopped false report e d no_write h ready = cc h

-- The same where an exception that is caught has one of two reports.
both_stopped :
    (raises first : Bool) (e : Error) (one other d : Fields)
    → is_ready one ≡ false
    → is_ready other ≡ false
    → (if raises then raise {W = Call} {A = Fields} e else if first then pure one else pure other).0
      ≡ ok d
    → is_ready d ≡ true
    → true ≡ false
both_stopped true first e one other d h k eq ready = cc eq
both_stopped false true e one other d h k eq ready = stopped true one e d h eq ready
both_stopped false false e one other d h k eq ready = stopped true other e d k eq ready

module _ (clients : WriteClients) (repr : Value → String) (shape : Fields → String)
    (str_exc : Error → String) where
  -- What a report that lets a write go on has found out about the app.
  abbrev pub Found : JdyWecomBindInput → JdyCorpDeploy → JdyOwnerCheckResult → Type 0
  Found request corp owner =
      (app : WecomCustomApp) × (clients.online.find_app request.wecom_suiteid
          (authcorp_name request corp) request.suite_name
        ≡ ok app)
      × IsUsable app owner

  after_app-ready :
      (request : JdyWecomBindInput) (corp : JdyCorpDeploy) (owner : JdyOwnerCheckResult)
      (source : String) (found : Result WecomCustomApp) (d : Fields)
      → (after_app clients.online str_exc request corp owner source found).0 ≡ ok d
      → is_ready d ≡ true
      → (app : WecomCustomApp) × (found ≡ ok app)
        × (is_empty app.app_id ≡ false)
        × (is_empty app.aes_app_id ≡ false)
  unfolding after_app summary failure_summary
  after_app-ready request corp owner source (ok app) d h ready =
      let usable =
        verdict-usable request corp owner source app
          (subst (λ e. is_ready e ≡ true) (sym (ok_injective h)) ready) in
      (app, refl, usable.0, usable.1)
  after_app-ready request corp owner source (err (wecom_session_expired_error m)) d h ready =
      cc (subst (λ e. is_ready e ≡ true) (sym (ok_injective h)) ready)
  after_app-ready request corp owner source (err e) d h ready = cc (
      stopped (is_wecom_error e)
        (failure_summary request "wecom_app_not_unique_or_missing" (str_exc e) (some corp)
          (owner_state owner))
        e d refl h ready)

  check_app-ready :
      (request : JdyWecomBindInput) (corp : JdyCorpDeploy) (owner : JdyOwnerCheckResult)
      (source : String) (d : Fields)
      → (check_app clients.online str_exc request corp owner source).0 ≡ ok d
      → is_ready d ≡ true
      → Found request corp owner
  unfolding check_app summary
  check_app-ready request corp owner source d h ready =
      elim (Bool-cases (owner_state owner == "cannot_bind_or_update")) [
        | inl e ↦ cc (subst (λ f. is_ready f ≡ true) (sym (ok_injective (rw e at h))) ready)
        | inr e ↦
            let (app, found, id, aes) =
              after_app-ready request corp owner source _ d (rw e at h) ready in
            (
              app,
              found,
              (
                id,
                aes,
                owner_state-usable owner.can_bind_corp_secret owner.can_update_corp_secret e,
              ),
            )
      ]

  -- The write finds what the report has found.
  pub check_known-IsUsable :
      (known : Known) (owner : JdyOwnerCheckResult)
      → authcorp_name known.request known.corp
        ≡ or_text known.request.enterprise_short_name
            (or_text known.corp.name known.request.enterprise_name)
      → (owner_of_known clients repr shape known).0 ≡ ok owner
      → Found known.request known.corp owner
      → (p : Prepared) × ((check_known clients repr shape known).0 ≡ ok p) × IsUsable p.app p.owner
  unfolding check_known
  check_known-IsUsable known owner same asked (app, found, usable) =
      let answered : app_answer clients repr shape known ≡ ok app =
        subst
          (λ n.
            clients.online.find_app known.request.wecom_suiteid n known.request.suite_name ≡ ok app)
          same found in
      let allowed : (may_bind clients repr shape known app owner).0
          ≡ ok (record { request = known.request; corp = known.corp; app = app; owner = owner }) =
        rw usable.2 refl in
      let checked =
        >>=-goes_on (owner_of_known clients repr shape known)
          (may_bind clients repr shape known app) owner asked in
      (
        record { request = known.request; corp = known.corp; app = app; owner = owner },
        >>=-goes_on (call (asks resolve_unique_custom_app) (app_answer clients repr shape known))
              (λ a. owner_of_known clients repr shape known >>= may_bind clients repr shape known a)
              app answered
            ∙ checked
            ∙ allowed,
        usable,
      )

  pub after_owner-ready :
      (request : JdyWecomBindInput) (corp : JdyCorpDeploy) (source : String)
      (answer : Result JdyOwnerCheckResult) (d : Fields)
      → (after_owner clients.online str_exc request corp source answer).0 ≡ ok d
      → is_ready d ≡ true
      → (owner : JdyOwnerCheckResult) × (answer ≡ ok owner) × Found request corp owner
  unfolding after_owner failure_summary summary
  after_owner-ready request corp source (ok owner) d h ready =
      (owner, refl, check_app-ready request corp owner source d h ready)
  after_owner-ready request corp source (err e) d h ready = cc (
      both_stopped (not (is_jdy_error e)) (is_jdy_session_expired_error (str_exc e)) e
        (failure_summary request "jdy_session_expired" (str_exc e) (some corp) "not_checked")
        (failure_summary request "jdy_owner_check_failed" (str_exc e) (some corp) "not_checked") d
        refl refl h ready)

  pub after_recovery-ready :
      (request : JdyWecomBindInput) (e : Error) (answer : Result JdyOwnerCheckResult) (d : Fields)
      → (after_recovery clients.online str_exc request e answer).0 ≡ ok d
      → is_ready d ≡ true
      → (owner : JdyOwnerCheckResult) × (answer ≡ ok owner)
        × (corp : JdyCorpDeploy) × (recover_corp_from_owner request owner ≡ some corp)
        × Found (with_resolved_wecom_suite request corp) corp owner
  unfolding after_recovery failure_summary
  after_recovery-ready request e (ok owner) d h ready =
      elim (Option-cases (recover_corp_from_owner request owner)) [
        | inl gone ↦ cc (
            subst (λ f. is_ready f ≡ true) (sym (ok_injective (rw (after_recovery, gone) at h)))
              ready)
        | inr (corp, known) ↦ (
          owner,
          refl,
          corp,
          known,
          check_app-ready (with_resolved_wecom_suite request corp) corp owner _ d
              (rw (after_recovery, known) at h) ready,
        )
      ]
  after_recovery-ready request e (err f) d h ready = cc (
      both_stopped (not (is_jdy_error f)) (is_jdy_session_expired_error (str_exc f)) f
        (failure_summary request "jdy_session_expired" (str_exc f) none "not_checked")
        (failure_summary request "jdy_corp_not_unique_or_missing" (str_exc f) none "not_checked") d
        refl refl h ready)
