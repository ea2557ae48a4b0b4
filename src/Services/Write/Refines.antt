-- ===== src/Services/Write/Refines.antt =====
-- The binding of run_wecom_bind_real_write.py beside that of wecom_bind_service.py.
use rpa_group.Prelude.{
  String, true, false, arith, not, ◌&&◌, ◌||◌, ◌≡◌, refl, sym, ap, subst, is_empty, strip,
  Bool-cases, inl, inr, none, some, ok, ok_injective,
}
use rpa_group.Prelude.Logged.{>>=-returns}
use rpa_group.Prelude.Value.{Value, str, int, ℤ, Fields, Items}
use rpa_group.Services.Bind.Backends.{
  call, ◌>>=◌, JdyWecomBindInput, JdyCorpDeploy, JdyOwnerCheckResult, WecomOnlineOrder,
  WecomSaveAppRequest, Secrets, JdyInstallResult, resolve_unique_custom_app, install_corp_deploy,
  set_target_privileges, set_trial_rule, set_sso_redirect_domain, create_online_order,
}
use rpa_group.Services.Bind.{
  or_text, JdyWecomBindResult, context_of, bind_context, install_request, save_request,
  install_and_order, bind_with, start_bind, with_resolved_wecom_suite, with_corp_default_userid,
}
use rpa_group.Services.Write.{
  asks, WriteClients, Known, Prepared, Installed, after_search, owner_of_known, app_answer,
  check_known, prepare, install, save_development_info_and_confirm, write_binding,
  start_bind_with_recoverable_context,
}

module _ (clients : WriteClients) (repr : Value → String) (shape : Fields → String)
    (now next : String) where
  -- The result of a binding with this order.
  abbrev bound : Prepared → Installed → WecomOnlineOrder → JdyWecomBindResult
  bound p done order = record {
    status = "waiting_wecom_online_delay";
    context =
        context_of p.request p.corp p.app done.secrets done.tenant_id done.owner_id
          (str order.auditorderid) (int order.status) (str now);
    next_check_at = some next;
  }

  -- What the two back ends have answered when the app is set up.
  abbrev IsSetUp : Prepared → Installed → JdyWecomBindResult → Type 0
  IsSetUp p done r =
      (marked : Items) × (rule : Fields) × (domain : Fields) × (order : WecomOnlineOrder)
      × (clients.online.privileges p.request.wecom_suiteid p.app.app_id ≡ ok marked)
      × (clients.online.trial_rule p.app.app_id ≡ ok rule)
      × (clients.online.sso_domain p.request.wecom_suiteid p.app.app_id p.app.aes_app_id
            "wxwork.jiandaoyun.com"
          ≡ ok domain)
      × (clients.online.new_order p.request.wecom_suiteid p.app.app_id ≡ ok order)
      × (bound p done order ≡ r)

  write_binding-IsSetUp :
      (p : Prepared) (done : Installed) (r : JdyWecomBindResult)
      → (write_binding clients repr shape p done now next).0 ≡ ok r
      → IsSetUp p done r
  unfolding write_binding
  write_binding-IsSetUp p done r h =
      let (saved, h0, h1, s1) =
        >>=-returns
          (save_development_info_and_confirm clients repr shape
            (save_request p.request p.corp p.app done.secrets))
          _ r h in
      let (marked, m, h2, s2) =
        >>=-returns
          (call (asks set_target_privileges)
            (clients.online.privileges p.request.wecom_suiteid p.app.app_id))
          _ r h1 in
      let (rule, t, h3, s3) =
        >>=-returns (call (asks set_trial_rule) (clients.online.trial_rule p.app.app_id)) _ r h2 in
      let (domain, d, h4, s4) =
        >>=-returns
          (call (asks set_sso_redirect_domain) (
            clients.online.sso_domain p.request.wecom_suiteid p.app.app_id p.app.aes_app_id
              "wxwork.jiandaoyun.com"))
          _ r h3 in
      let (order, o, h5, s5) =
        >>=-returns
          (call (asks create_online_order)
            (clients.online.new_order p.request.wecom_suiteid p.app.app_id))
          _ r h4 in
      (marked, rule, domain, order, m, t, d, o, ok_injective h5)

  -- The installation of an owner that has no secrets yet.
  abbrev IsInstalled : Prepared → Secrets → Installed → Type 0
  IsInstalled p secrets done =
      (answer : JdyInstallResult) × (clients.online.install
          (install_request p.request p.corp secrets)
        ≡ ok answer)
      × ((is_empty (strip answer.tenant_id) || is_empty (strip answer.owner_id)) ≡ false)
      × (record {
        secrets = secrets;
        tenant_id = strip answer.tenant_id;
        owner_id = strip answer.owner_id;
      }
          ≡ done)

  install-IsInstalled :
      (p : Prepared) (secrets : Secrets) (done : Installed)
      → is_empty p.owner.existing_token ≡ true
      → (install clients repr shape p secrets).0 ≡ ok done
      → IsInstalled p secrets done
  unfolding install
  install-IsInstalled p secrets done no_token h =
      let reused : (p.owner.can_update_corp_secret
            && not (is_empty p.owner.existing_token)
            && not (is_empty p.owner.existing_encoding_aes_key))
          ≡ false =
        ground (arith, no_token) in
      let (answer, i, h1, s) =
        >>=-returns
          (call (asks install_corp_deploy)
            (clients.online.install (install_request p.request p.corp secrets)))
          _ done (rw reused at h) in
      elim (Bool-cases (is_empty (strip answer.tenant_id) || is_empty (strip answer.owner_id))) [
        | inl e ↦ cc (rw e at h1)
        | inr e ↦ (answer, i, e, ok_injective (rw e at h1))
      ]

  -- The checks have passed, with the answers that `p` holds.
  abbrev IsChecked : Prepared → Type 0
  IsChecked p =
      (clients.online.find_app p.request.wecom_suiteid
          (or_text p.request.enterprise_short_name (or_text p.corp.name p.request.enterprise_name))
          p.request.suite_name
        ≡ ok p.app)
      × (clients.online.owner_of p.request.requested_user_id p.request.suite_id
            p.request.suite_scenario
          ≡ ok p.owner)
      × ((not p.owner.can_bind_corp_secret && not p.owner.can_update_corp_secret) ≡ false)

  check_known-IsChecked :
      (known : JdyWecomBindInput) (corp : JdyCorpDeploy) (p : Prepared)
      → (check_known clients repr shape (record { request = known; corp = corp; owner = none })).0
        ≡ ok p
      → IsChecked p × (p.request ≡ known) × (p.corp ≡ corp)
  unfolding check_known owner_of_known
  check_known-IsChecked known corp p h =
      let taken : Known = record { request = known; corp = corp; owner = none } in
      let (app, a, h1, s1) =
        >>=-returns (call (asks resolve_unique_custom_app) (app_answer clients repr shape taken)) _
          p h in
      let (owner, o, h2, s2) = >>=-returns (owner_of_known clients repr shape taken) _ p h1 in
      elim (Bool-cases (not owner.can_bind_corp_secret && not owner.can_update_corp_secret)) [
        | inl e ↦ cc (rw e at h2)
        | inr e ↦
            subst (λ x. IsChecked x × (x.request ≡ known) × (x.corp ≡ corp))
              (ok_injective (rw e at h2)) ((a, o, e), refl, refl)
      ]

  -- The service's binding with the same answers.
  bind_with-returns :
      (p : Prepared) (secrets : Secrets) (saved : Fields) (r : JdyWecomBindResult)
      → IsChecked p
      → is_empty p.owner.existing_token ≡ true
      → clients.online.save_app (save_request p.request p.corp p.app secrets) ≡ ok saved
      → (install clients repr shape p secrets >>= λ done.
          write_binding clients repr shape p done now next).0
        ≡ ok r
      → (bind_with clients.online p.request p.corp secrets now next).0 ≡ ok r
  unfolding bind_with install_and_order bind_context
  bind_with-returns p secrets saved r (a, o, e) no_token v h =
      let (done, hd, h2, s) =
        >>=-returns (install clients repr shape p secrets)
          (λ d. write_binding clients repr shape p d now next) r h in
      let (answer, i, f, installed) = install-IsInstalled p secrets done no_token hd in
      let (marked, rule, domain, order, m, t, d, n, same) =
        subst (λ x. IsSetUp p x r) (sym installed) (write_binding-IsSetUp p done r h2) in
      rw (a, o, e, i, f, v, m, t, d, n) (ap ok same)

  -- Where the search finds the corp, no owner has a token yet and every change of an app is taken, the
  -- binding that keeps its context in a file refines the service's: whatever it returns, the service's
  -- binding returns too, with the same back ends.
  pub start_bind-refined :
      (request : JdyWecomBindInput) (secrets : Secrets) (corp : JdyCorpDeploy)
      (r : JdyWecomBindResult)
      → clients.online.find_corp request.plain_corp_id
          (or_text request.enterprise_short_name request.enterprise_name)
        ≡ ok corp
      → ((user scenario : String) (suite : ℤ) (owner : JdyOwnerCheckResult)
          → clients.online.owner_of user suite scenario ≡ ok owner
          → is_empty owner.existing_token ≡ true)
      → ((change : WecomSaveAppRequest)
          → (answer : Fields) × (clients.online.save_app change ≡ ok answer))
      → (start_bind_with_recoverable_context clients repr shape request secrets now next).0 ≡ ok r
      → (start_bind clients.online request secrets now next).0 ≡ ok r
  unfolding start_bind_with_recoverable_context prepare after_search start_bind
  start_bind-refined request secrets corp r found no_token takes h =
      let known = with_resolved_wecom_suite (with_corp_default_userid request corp) corp in
      let (p, hp, h1, s1) = >>=-returns (prepare clients repr shape request) _ r h in
      let (checked, named, taken) = check_known-IsChecked known corp p (
        subst
          (λ f.
            (after_search clients repr shape request f >>= check_known clients repr shape).0 ≡ ok p)
          found hp) in
      let (saved, v) = takes (save_request p.request p.corp p.app secrets) in
      let bound_with =
        bind_with-returns p secrets saved r checked (no_token _ _ _ p.owner checked.1) v h1 in
      rw found (
        subst (λ k. (bind_with clients.online k corp secrets now next).0 ≡ ok r) named
          (subst (λ c. (bind_with clients.online p.request c secrets now next).0 ≡ ok r) taken
            bound_with))
