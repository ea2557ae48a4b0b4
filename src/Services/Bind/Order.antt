-- ===== src/Services/Bind/Order.antt =====
-- In which order the service calls the back ends.
use rpa_group.Prelude.{
  String, Bool, true, false, not, ◌&&◌, ◌||◌, ◌≡◌, refl, ap, arith, List, [], ◌∷◌, any, is_empty,
  strip, Result, ok, err, Bool-cases, inl, inr,
}
use rpa_group.Services.Bind.Backends.{
  Calls, call, ◌>>=◌, Call, resolve_unique_corp, resolve_unique_custom_app, check_wework_owner,
  install_corp_deploy, save_development_info, set_target_privileges, set_trial_rule,
  set_sso_redirect_domain, create_online_order, Clients, JdyWecomBindInput, JdyCorpDeploy,
  WecomCustomApp, JdyOwnerCheckResult, Secrets,
}
use rpa_group.Services.Bind.{
  or_text, JdyWecomBindResult, install_and_order, bind_with, start_bind, install_request,
  save_request, with_resolved_wecom_suite, with_corp_default_userid,
}

-- A call that changes something at a back end.
abbrev pub is_write : Call → Bool
is_write resolve_unique_corp = false
is_write resolve_unique_custom_app = false
is_write check_wework_owner = false
is_write _ = true

-- The owner may bind or update the secret.
abbrev pub allowed : Result JdyOwnerCheckResult → Bool
allowed (ok owner) = owner.can_bind_corp_secret || owner.can_update_corp_secret
allowed (err e) = false

-- The calls of a binding that succeeds.
abbrev pub whole_binding : List Call
whole_binding =
    resolve_unique_corp ∷ resolve_unique_custom_app ∷ check_wework_owner ∷ install_corp_deploy
    ∷ save_development_info ∷ set_target_privileges ∷ set_trial_rule ∷ set_sso_redirect_domain
    ∷ create_online_order ∷ []

-- If the block returns, these are the calls that it has made.
abbrev Makes : {A : Type 0} → List Call → Calls A → Type 0
Makes {A} made m = (a : A) → m.0 ≡ ok a → m.1 ≡ made

call-Makes :
    {A B : Type 0} (c : Call) (r : Result A) (f : A → Calls B) (made : List Call)
    → ((a : A) → Makes made (f a))
    → Makes (c ∷ made) (call c r >>= f)
call-Makes c (ok a) f made h b e = ap (λ l. c ∷ l) (h a b e)
call-Makes c (err x) f made h b e = cc

module _ (clients : Clients) (secrets : Secrets) (now next : String) where
  owner_check :
      (request : JdyWecomBindInput) (corp : JdyCorpDeploy)
      → any is_write (bind_with clients request corp secrets now next).1 ≡ true
      → allowed (clients.owner_of request.requested_user_id request.suite_id request.suite_scenario)
        ≡ true
  unfolding bind_with
  owner_check request corp h = go _ refl _ refl
    where
      go :
          (a : Result WecomCustomApp)
          → clients.find_app request.wecom_suiteid
              (or_text request.enterprise_short_name (or_text corp.name request.enterprise_name))
              request.suite_name
            ≡ a
          → (o : Result JdyOwnerCheckResult)
          → clients.owner_of request.requested_user_id request.suite_id request.suite_scenario ≡ o
          → allowed o ≡ true
      go (err e) p o q = cc (rw p at h)
      go (ok app) p (err e) q = cc (rw (p, q) at h)
      go (ok app) p (ok owner) q =
          elim (Bool-cases (not owner.can_bind_corp_secret && not owner.can_update_corp_secret)) [
            | inl x ↦ cc (rw (p, q, x) at h)
            | inr x ↦ ground (arith, x)
          ]

  install_and_order-Makes :
      (request : JdyWecomBindInput) (corp : JdyCorpDeploy) (app : WecomCustomApp)
      → Makes
          (install_corp_deploy ∷ save_development_info ∷ set_target_privileges ∷ set_trial_rule
            ∷ set_sso_redirect_domain ∷ create_online_order ∷ [])
          (install_and_order clients request corp app secrets now next)
  unfolding install_and_order
  install_and_order-Makes request corp app =
      call-Makes install_corp_deploy (clients.install (install_request request corp secrets)) _ _
        (λ installed.
          elim (Bool-cases
            (is_empty (strip installed.tenant_id) || is_empty (strip installed.owner_id))) [
              | inl x ↦ rw x (λ a e. cc)
              | inr x ↦ rw x (
                  call-Makes save_development_info
                    (clients.save_app (save_request request corp app secrets)) _ _
                    (λ _.
                      call-Makes set_target_privileges
                        (clients.privileges request.wecom_suiteid app.app_id) _ _
                        (λ _. call-Makes set_trial_rule (clients.trial_rule app.app_id) _ _ (λ _.
                          call-Makes set_sso_redirect_domain
                            (clients.sso_domain request.wecom_suiteid app.app_id app.aes_app_id
                              "wxwork.jiandaoyun.com")
                            _ _
                            (λ _.
                              call-Makes create_online_order
                                (clients.new_order request.wecom_suiteid app.app_id) _ _
                                (λ order a e. refl))))))
            ])

  bind_with-Makes :
      (request : JdyWecomBindInput) (corp : JdyCorpDeploy)
      → Makes
          (resolve_unique_custom_app ∷ check_wework_owner ∷ install_corp_deploy
            ∷ save_development_info ∷ set_target_privileges ∷ set_trial_rule
            ∷ set_sso_redirect_domain ∷ create_online_order ∷ [])
          (bind_with clients request corp secrets now next)
  unfolding bind_with
  bind_with-Makes request corp =
      call-Makes resolve_unique_custom_app
        (clients.find_app request.wecom_suiteid
          (or_text request.enterprise_short_name (or_text corp.name request.enterprise_name))
          request.suite_name)
        _ _
        (λ app.
          call-Makes check_wework_owner
            (clients.owner_of request.requested_user_id request.suite_id request.suite_scenario) _ _
            (λ owner.
              elim (Bool-cases
                (not owner.can_bind_corp_secret && not owner.can_update_corp_secret)) [
                  | inl x ↦ rw x (λ a e. cc)
                  | inr x ↦ rw x (install_and_order-Makes request corp app)
                ]))

  -- A binding that succeeds has made the nine calls, each once and in this order.
  start_bind_calls :
      (request : JdyWecomBindInput) (r : JdyWecomBindResult)
      → (start_bind clients request secrets now next).0 ≡ ok r
      → (start_bind clients request secrets now next).1 ≡ whole_binding
  unfolding start_bind
  start_bind_calls request =
      call-Makes resolve_unique_corp
        (clients.find_corp request.plain_corp_id
          (or_text request.enterprise_short_name request.enterprise_name))
        _ _
        (λ corp.
          bind_with-Makes (with_resolved_wecom_suite (with_corp_default_userid request corp) corp)
            corp)

  -- The request once the corp is known: with the corp's user where it names none, and with the suite
  -- of the corp where it names none.
  abbrev pub completed : JdyWecomBindInput → JdyCorpDeploy → JdyWecomBindInput
  completed request corp = with_resolved_wecom_suite (with_corp_default_userid request corp) corp

  -- Nothing is changed at a back end before the owner check of the completed request has passed,
  -- whether or not the binding succeeds.
  pub start_bind-allowed :
      (request : JdyWecomBindInput) (corp : JdyCorpDeploy)
      → clients.find_corp request.plain_corp_id
          (or_text request.enterprise_short_name request.enterprise_name)
        ≡ ok corp
      → any is_write (start_bind clients request secrets now next).1 ≡ true
      → let asked = completed request corp in
        allowed (clients.owner_of asked.requested_user_id asked.suite_id asked.suite_scenario)
        ≡ true
  unfolding start_bind
  start_bind-allowed request corp found h =
      owner_check (completed request corp) corp (rw found at h)
