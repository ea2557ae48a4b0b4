-- ===== src/Integrations/Wecom/Sessions.antt =====
-- A session that has expired.
use rpa_group.Prelude.{String, ◌≡◌, refl, some, wecom_session_expired_error, Error, Result, ok, err}
use rpa_group.Prelude.Value.{Value, int, obj, Fields, get, get_or, ℤ, negsuc}
use rpa_group.Integrations.Wecom.Answers.{
  dict_at, api_error, raise_api_error_if_present, extract_corpapp_rows, extract_dict,
  extract_required_privilege_list, validate_trial_rule_response,
}
use rpa_group.Integrations.Wecom.{
  WecomRequest, WecomSaveAppRequest, resolve_unique_custom_app, save_development_info_raw,
  save_development_info, set_target_privileges, set_trial_rule, set_sso_redirect_domain,
  create_online_order, submit_online_order,
}

abbrev pub expired : Error
expired = wecom_session_expired_error "WeCom admin session expired: outsession"

raised :
    (repr : Value → String) (answer result : Fields)
    → get "result" answer ≡ some (obj result)
    → get "errCode" result ≡ some (int (negsuc 2))
    → raise_api_error_if_present repr answer ≡ err expired
unfolding raise_api_error_if_present api_error
raised repr answer result has_result code =
    rw (raise_api_error_if_present, dict_at, get_or, has_result, api_error, code) refl

module _ (transport : WecomRequest → Result Fields) (repr : Value → String)
    (int_of : Value → Result ℤ) where
  pub resolve_unique_custom_app-expired :
      (answer result : Fields) (suiteid : ℤ) (name suite : String)
      → ((request : WecomRequest) → transport request ≡ ok answer)
      → get "result" answer ≡ some (obj result)
      → get "errCode" result ≡ some (int (negsuc 2))
      → (resolve_unique_custom_app transport repr int_of suiteid name suite).0 ≡ err expired
  unfolding resolve_unique_custom_app extract_corpapp_rows
  resolve_unique_custom_app-expired answer result suiteid name suite answered has_result code =
      rw (answered _, raised repr answer result has_result code) refl

  -- If the back end answers everything with the code -3, each of the seven methods raises that the
  -- session has expired, whatever it was asked to do.
  pub methods_expired :
      (answer result : Fields)
      → ((request : WecomRequest) → transport request ≡ ok answer)
      → get "result" answer ≡ some (obj result)
      → get "errCode" result ≡ some (int (negsuc 2))
      → (suiteid : ℤ) (name suite app_id aes_app_id domain : String) (save : WecomSaveAppRequest)
      → ((resolve_unique_custom_app transport repr int_of suiteid name suite).0 ≡ err expired)
        × ((save_development_info transport repr int_of save).0 ≡ err expired)
        × ((set_target_privileges transport repr int_of suiteid app_id).0 ≡ err expired)
        × ((set_trial_rule transport repr int_of app_id).0 ≡ err expired)
        × ((set_sso_redirect_domain transport repr int_of suiteid app_id aes_app_id domain).0
            ≡ err expired)
        × ((create_online_order transport repr int_of suiteid app_id).0 ≡ err expired)
        × ((submit_online_order transport repr int_of app_id).0 ≡ err expired)
  unfolding resolve_unique_custom_app save_development_info save_development_info_raw
      set_target_privileges set_trial_rule set_sso_redirect_domain create_online_order
      submit_online_order extract_corpapp_rows extract_dict extract_required_privilege_list
      validate_trial_rule_response
  methods_expired answer result answered has_result code suiteid name suite app_id aes_app_id domain
        save =
      (
        resolve_unique_custom_app-expired answer result suiteid name suite answered has_result code,
        rw (answered _, raised repr answer result has_result code) refl,
        rw (answered _, raised repr answer result has_result code) refl,
        rw (answered _, answered _, raised repr answer result has_result code) refl,
        rw (answered _, raised repr answer result has_result code) refl,
        rw (answered _, raised repr answer result has_result code) refl,
        rw (answered _, raised repr answer result has_result code) refl,
      )
