-- ===== src/Services/Write/Orders.antt =====
-- The binding of run_wecom_bind_real_write.py leaves the submission of its order to its caller.
use rpa_group.Prelude.{
  String, Bool, true, false, not, ◌&&◌, ◌||◌, ◌≡◌, refl, if◌then◌else◌, any, is_empty, strip, inl,
  inr, some, Option-cases, Error, Result, ok, err,
}
use rpa_group.Prelude.Tables.Lookups.{any-append}
use rpa_group.Prelude.Value.{Value, null, str, int, Fields}
use rpa_group.Services.Bind.Backends.{
  pure, raise, lift, call, tried, ◌>>=◌, submit_online_order, JdyWecomBindInput, JdyCorpDeploy,
  resolve_unique_corp, resolve_unique_custom_app, check_wework_owner, install_corp_deploy,
  save_development_info, set_target_privileges, set_trial_rule, set_sso_redirect_domain,
  create_online_order, WecomCustomApp, WecomOnlineOrder, JdyOwnerCheckResult, WecomSaveAppRequest,
  Secrets,
}
use rpa_group.Services.Bind.{JdyWecomBindResult, save_request, context_of}
use rpa_group.Services.Preflight.{recover_corp_from_owner}
use rpa_group.Services.Write.{
  Step, writes, asks, Steps, WriteClients, Known, Prepared, Installed, is_jdy_admin_error,
  known_by_owner, after_search, owner_of_known, may_bind, check_known, prepare, install, shown_in,
  confirm, owner_answer, app_answer, development_info_present, save_development_info_and_confirm,
  write_binding, start_bind_with_recoverable_context,
}

abbrev pub is_submission : Step → Bool
is_submission (writes context) = false
is_submission (asks submit_online_order) = true
is_submission (asks c) = false

-- The block submits no order.
unfoldable pub SubmitsNothing : {A : Type 0} → Steps A → Type 0
SubmitsNothing m = any is_submission m.1 ≡ false

pub >>=-SubmitsNothing :
    {A B : Type 0} (m : Steps A) (f : A → Steps B)
    → SubmitsNothing m
    → ((a : A) → SubmitsNothing (f a))
    → SubmitsNothing (m >>= f)
unfolding SubmitsNothing
>>=-SubmitsNothing (ok a, made) f h k = rw (any-append is_submission made (f a).1, h) (k a)
>>=-SubmitsNothing (err e, made) f h k = h

pure-SubmitsNothing : {A : Type 0} (a : A) → SubmitsNothing (pure a)
unfolding SubmitsNothing
pure-SubmitsNothing a = refl

raise-SubmitsNothing : (A : Type 0) (e : Error) → SubmitsNothing (raise {A = A} e)
unfolding SubmitsNothing
raise-SubmitsNothing A e = refl

lift-SubmitsNothing : {A : Type 0} (r : Result A) → SubmitsNothing (lift r)
unfolding SubmitsNothing
lift-SubmitsNothing r = refl

tried-SubmitsNothing :
    {A : Type 0} (s : Step) (r : Result A) → is_submission s ≡ false → SubmitsNothing (tried s r)
unfolding SubmitsNothing
tried-SubmitsNothing s r h = rw h refl

either-SubmitsNothing :
    {A : Type 0} (b : Bool) (m n : Steps A)
    → SubmitsNothing m
    → SubmitsNothing n
    → SubmitsNothing (if b then m else n)
unfolding SubmitsNothing
either-SubmitsNothing true m n h k = h
either-SubmitsNothing false m n h k = k

-- A step that submits nothing, and what comes after it.
after-SubmitsNothing :
    {A B : Type 0} (s : Step) (r : Result A) (f : A → Steps B)
    → is_submission s ≡ false
    → ((a : A) → SubmitsNothing (f a))
    → SubmitsNothing (call s r >>= f)
unfolding SubmitsNothing
after-SubmitsNothing s (ok a) f h k = rw h (k a)
after-SubmitsNothing s (err e) f h k = rw h refl

module _ (clients : WriteClients) (repr : Value → String) (shape : Fields → String) where
  known_by_owner-SubmitsNothing :
      (request : JdyWecomBindInput) (e : Error) (owner : JdyOwnerCheckResult)
      → SubmitsNothing (known_by_owner clients repr shape request e owner)
  unfolding SubmitsNothing known_by_owner
  known_by_owner-SubmitsNothing request e owner =
      elim (Option-cases (recover_corp_from_owner request owner)) [
        | inl gone ↦ rw (known_by_owner, gone) refl
        | inr (corp, found) ↦ rw (known_by_owner, found) refl
      ]

  after_search-SubmitsNothing :
      (request : JdyWecomBindInput) (found : Result JdyCorpDeploy)
      → SubmitsNothing (after_search clients repr shape request found)
  unfolding after_search
  after_search-SubmitsNothing request (ok corp) = pure-SubmitsNothing _
  after_search-SubmitsNothing request (err e) =
      either-SubmitsNothing (not (is_jdy_admin_error e)) _ _ (raise-SubmitsNothing _ e) (
        after-SubmitsNothing (asks check_wework_owner) (owner_answer clients repr shape request)
          (known_by_owner clients repr shape request e) refl
          (known_by_owner-SubmitsNothing request e))

  owner_of_known-SubmitsNothing :
      (known : Known) → SubmitsNothing (owner_of_known clients repr shape known)
  unfolding SubmitsNothing owner_of_known
  owner_of_known-SubmitsNothing known = elim (Option-cases known.owner) [
    | inl e ↦ rw (owner_of_known, e) refl
    | inr (owner, e) ↦ rw (owner_of_known, e) refl
  ]

  may_bind-SubmitsNothing :
      (known : Known) (app : WecomCustomApp) (owner : JdyOwnerCheckResult)
      → SubmitsNothing (may_bind clients repr shape known app owner)
  may_bind-SubmitsNothing known app owner =
      either-SubmitsNothing (not owner.can_bind_corp_secret && not owner.can_update_corp_secret) _ _
        (raise-SubmitsNothing _ _) (pure-SubmitsNothing _)

  prepare-SubmitsNothing :
      (request : JdyWecomBindInput) → SubmitsNothing (prepare clients repr shape request)
  unfolding prepare check_known
  prepare-SubmitsNothing request =
      >>=-SubmitsNothing (tried (asks resolve_unique_corp) _) _ (tried-SubmitsNothing _ _ refl)
        (λ found.
          >>=-SubmitsNothing (after_search clients repr shape request found) _
            (after_search-SubmitsNothing request found)
            (λ known.
              after-SubmitsNothing (asks resolve_unique_custom_app)
                (app_answer clients repr shape known) _ refl
                (λ app.
                  >>=-SubmitsNothing (owner_of_known clients repr shape known) _
                    (owner_of_known-SubmitsNothing known) (may_bind-SubmitsNothing known app))))

  install-SubmitsNothing :
      (p : Prepared) (secrets : Secrets) → SubmitsNothing (install clients repr shape p secrets)
  unfolding install
  install-SubmitsNothing p secrets =
      either-SubmitsNothing
        (p.owner.can_update_corp_secret
          && not (is_empty p.owner.existing_token)
          && not (is_empty p.owner.existing_encoding_aes_key))
        _ _ (pure-SubmitsNothing _)
        (after-SubmitsNothing (asks install_corp_deploy) _ _ refl (λ done.
          either-SubmitsNothing (is_empty (strip done.tenant_id) || is_empty (strip done.owner_id))
            _ _ (raise-SubmitsNothing _ _) (pure-SubmitsNothing _)))

  confirm-SubmitsNothing :
      (response : Fields) (request : WecomSaveAppRequest)
      → SubmitsNothing (confirm clients repr shape response request)
  unfolding confirm
  confirm-SubmitsNothing response request =
      after-SubmitsNothing (asks resolve_unique_custom_app) _ _ refl (λ refreshed.
        either-SubmitsNothing (development_info_present refreshed.raw request) _ _
          (pure-SubmitsNothing _) (raise-SubmitsNothing _ _))

  save-SubmitsNothing :
      (request : WecomSaveAppRequest)
      → SubmitsNothing (save_development_info_and_confirm clients repr shape request)
  unfolding save_development_info_and_confirm
  save-SubmitsNothing request =
      either-SubmitsNothing (development_info_present request.app.raw request) _ _
        (pure-SubmitsNothing _)
        (after-SubmitsNothing (asks save_development_info) _ _ refl (λ response.
          >>=-SubmitsNothing (lift (shown_in clients repr shape response request)) _
            (lift-SubmitsNothing _)
            (λ shown.
              either-SubmitsNothing shown _ _ (pure-SubmitsNothing _)
                (confirm-SubmitsNothing response request))))

  write_binding-SubmitsNothing :
      (p : Prepared) (done : Installed) (now next : String)
      → SubmitsNothing (write_binding clients repr shape p done now next)
  unfolding write_binding
  write_binding-SubmitsNothing p done now next =
      let online = clients.online in
      let suiteid = p.request.wecom_suiteid in
      let blank = context_of p.request p.corp p.app done.secrets done.tenant_id done.owner_id in
      let request = save_request p.request p.corp p.app done.secrets in
      let domain =
        online.sso_domain suiteid p.app.app_id p.app.aes_app_id "wxwork.jiandaoyun.com" in
      let made : WecomOnlineOrder → JdyWecomBindResult = λ order. record {
        status = "waiting_wecom_online_delay";
        context = blank (str order.auditorderid) (int order.status) (str now);
        next_check_at = some next;
      } in
      after-SubmitsNothing (writes (blank (str "") null (str ""))) (ok tt) _ refl (λ _.
        >>=-SubmitsNothing (save_development_info_and_confirm clients repr shape request) _
          (save-SubmitsNothing request)
          (λ _.
            after-SubmitsNothing (asks set_target_privileges)
              (online.privileges suiteid p.app.app_id) _ refl
              (λ _.
                after-SubmitsNothing (asks set_trial_rule) (online.trial_rule p.app.app_id) _ refl
                  (λ _. after-SubmitsNothing (asks set_sso_redirect_domain) domain _ refl (λ _.
                    after-SubmitsNothing (asks create_online_order)
                      (online.new_order suiteid p.app.app_id) _ refl
                      (λ order.
                        after-SubmitsNothing
                          (writes (blank (str order.auditorderid) (int order.status) (str now)))
                          (ok tt) _ refl (λ _. pure-SubmitsNothing (made order))))))))

  -- Whatever the back ends answer, the binding itself submits no order.
  pub start_bind-SubmitsNothing :
      (request : JdyWecomBindInput) (secrets : Secrets) (now next : String)
      → SubmitsNothing
          (start_bind_with_recoverable_context clients repr shape request secrets now next)
  unfolding start_bind_with_recoverable_context
  start_bind-SubmitsNothing request secrets now next =
      >>=-SubmitsNothing (prepare clients repr shape request) _ (prepare-SubmitsNothing request)
        (λ p.
          >>=-SubmitsNothing (install clients repr shape p secrets) _
            (install-SubmitsNothing p secrets)
            (λ done. write_binding-SubmitsNothing p done now next))
