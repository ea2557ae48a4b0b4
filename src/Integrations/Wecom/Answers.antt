-- ===== src/Integrations/Wecom/Answers.antt =====
-- What the WeCom client takes from an answer, and its checks of it.
use rpa_group.Prelude.{
  ℕ, String, Bool, true, false, not, ◌||◌, Option, none, some, ◌==◌, if◌then◌else◌, eqb, join2,
  wecom_admin_error, wecom_session_expired_error, Result, ok, err, ◌>>=◌, ◌>>◌,
}
use rpa_group.Prelude.Value.{
  Value, null, bool, int, str, arr, obj, Items, nil, cons, Fields, get_or, truthy, ℤ, pos, negsuc,
  str_of,
}
use rpa_group.Integrations.Answers.{dict_or_empty, or_zero, text_of}

pub record WecomCustomApp : Type 0 where
  pub app_id : String
  pub authcorp_name : String
  pub name : String
  pub logo : String
  pub description : String
  pub customized_app_status : ℤ
  pub aes_app_id : String
  pub raw : Fields

pub record WecomOnlineOrder : Type 0 where
  pub auditorderid : String
  pub corpappid : String
  pub authcorp_name : String
  pub status : ℤ

-- `err_code in (None, 0, "0")`, where False is 0 as well.
abbrev pub is_no_error : Value → Bool
is_no_error null = true
is_no_error (bool b) = not b
is_no_error (int (pos n)) = eqb n 0
is_no_error (int (negsuc n)) = false
is_no_error (str s) = s == "0"
is_no_error (arr vs) = false
is_no_error (obj d) = false

-- `err_code == -3`
abbrev pub is_minus_three : Value → Bool
is_minus_three (int (negsuc n)) = eqb n 2
is_minus_three _ = false

-- `value == n` for a number that is neither 0 nor 1, which False and True would equal.
abbrev pub is_number : Value → ℕ → Bool
is_number (int (pos m)) n = eqb m n
is_number _ n = false

abbrev pub is_text : Value → String → Bool
is_text (str s) t = s == t
is_text _ t = false

-- A list that `isinstance(value, list)` finds under the key, or a dict.
abbrev pub list_at : String → Fields → Option Items
list_at key d = elim (get_or key null d) [ arr vs ↦ some vs | _ ↦ none ]

abbrev pub dict_at : String → Fields → Option Fields
dict_at key d = elim (get_or key null d) [ obj e ↦ some e | _ ↦ none ]

module _ (repr : Value → String) where
  -- The tests of `_raise_api_error_if_present` on the dict under "result".
  unfoldable pub api_error : Fields → Result (Unit {0})
  api_error result =
      let err_code = get_or "errCode" null result in
      let message = text_of repr "message" result in
      if is_no_error err_code
      then ok tt
      else if is_minus_three err_code || message == "outsession"
      then err (wecom_session_expired_error "WeCom admin session expired: outsession")
      else err (
          wecom_admin_error (
            join2 "WeCom admin API error: errCode="
              (join2 (str_of repr err_code) (join2 " message=" message))))

  unfoldable pub raise_api_error_if_present : Fields → Result (Unit {0})
  unfolding api_error
  raise_api_error_if_present answer = elim (dict_at "result" answer) [
    | none ↦ ok tt
    | some result ↦ api_error result
  ]

  -- The two places that `_extract_corpapp_rows` looks at.
  wrapped_rows : Fields → Items
  wrapped_rows nested = elim (dict_at "corpapp_list" nested) [
    | none ↦ nil
    | some wrapper ↦ elim (list_at "corpapp" wrapper) [ none ↦ nil | some rows ↦ rows ]
  ]

  rows_in : Fields → Items
  unfolding wrapped_rows
  rows_in answer = elim (dict_at "data" answer) [
    | none ↦ nil
    | some nested ↦ elim (list_at "corpapp" nested) [
      | none ↦ wrapped_rows nested
      | some rows ↦ rows
    ]
  ]

  unfoldable pub extract_corpapp_rows : Fields → Result Items
  unfolding rows_in
  extract_corpapp_rows answer = raise_api_error_if_present answer >> ok (rows_in answer)

  -- The dict at data.key, which must be there.
  unfoldable pub extract_dict : String → Fields → Result Fields
  extract_dict key answer = raise_api_error_if_present answer >> (elim (dict_at "data" answer) [
    | none ↦ err (wecom_admin_error (join2 "WeCom admin response missing data." key))
    | some nested ↦ elim (dict_at key nested) [
      | none ↦ err (wecom_admin_error (join2 "WeCom admin response missing data." key))
      | some d ↦ ok d
    ]
  ])

  abbrev pub extract_corpapp : Fields → Result Fields
  extract_corpapp = extract_dict "corpapp"

  abbrev pub extract_order : Fields → Result Fields
  extract_order = extract_dict "auditorder"

  -- _extract_privilege_list
  top_privileges : Fields → Items
  top_privileges answer = elim (list_at "privilege_list" answer) [ none ↦ nil | some vs ↦ vs ]

  unfoldable pub extract_privilege_list : Fields → Items
  unfolding top_privileges
  extract_privilege_list answer = elim (dict_at "data" answer) [
    | none ↦ top_privileges answer
    | some nested ↦ elim (list_at "privilege_list" nested) [
      | none ↦ top_privileges answer
      | some vs ↦ vs
    ]
  ]

  -- `_extract_required_privilege_list`, where the list under data.new_privilege_list comes first if
  -- it is not empty.
  fallback_privileges : Fields → Result Items
  fallback_privileges answer = elim (extract_privilege_list answer) [
    | nil ↦ err (wecom_admin_error "WeCom admin response missing data.privilege_list")
    | cons v vs ↦ ok (cons v vs)
  ]

  new_privileges : Fields → Items
  new_privileges answer = elim (dict_at "data" answer) [
    | none ↦ nil
    | some nested ↦ elim (list_at "new_privilege_list" nested) [ none ↦ nil | some vs ↦ vs ]
  ]

  unfoldable pub extract_required_privilege_list : Fields → Result Items
  unfolding fallback_privileges new_privileges
  extract_required_privilege_list answer =
      raise_api_error_if_present answer >> (elim (new_privileges answer) [
        | nil ↦ fallback_privileges answer
        | cons v vs ↦ ok (cons v vs)
      ])

  -- _validate_trial_rule_response
  check_try_rule : Fields → Result (Unit {0})
  check_try_rule nested = elim (dict_at "base_price_info" nested) [
    | none ↦ err (wecom_admin_error "WeCom trial rule response missing base_price_info")
    | some prices ↦ elim (dict_at "try_rule_info" prices) [
      | none ↦ err (wecom_admin_error "WeCom trial rule response missing try_rule_info")
      | some rule ↦
          if not (is_number (get_or "try_time" null rule) 60)
            || not (is_number (get_or "second_try_time" null rule) 15)
          then err
              (wecom_admin_error "WeCom trial rule response did not confirm requested trial window")
          else ok tt
    ]
  ]

  unfoldable pub validate_trial_rule_response : Fields → Result (Unit {0})
  unfolding check_try_rule
  validate_trial_rule_response answer =
      raise_api_error_if_present answer >> (elim (dict_at "data" answer) [
        | none ↦ err (wecom_admin_error "WeCom trial rule response missing confirmation")
        | some nested ↦
            if truthy (get_or "is_already_set_try_info" null nested)
            then check_try_rule nested
            else err (wecom_admin_error "WeCom trial rule response missing confirmation")
      ])

  unfoldable pub validate_sso_response : Fields → String → String → Result (Unit {0})
  validate_sso_response corpapp aes_app_id redirect_domain = elim (dict_at "sdk_auth" corpapp) [
    | none ↦ err (wecom_admin_error "WeCom SSO response missing sdk_auth")
    | some sdk_auth ↦
        if not (is_text (get_or "aes_app_id" null sdk_auth) aes_app_id)
        then err (wecom_admin_error "WeCom SSO response did not confirm aes_app_id")
        else if not (is_text (get_or "redirect_domain2" null sdk_auth) redirect_domain)
        then err (wecom_admin_error "WeCom SSO response did not confirm redirect_domain2")
        else ok tt
  ]

  module _ (int_of : Value → Result ℤ) where
    unfoldable pub parse_custom_app : Fields → Result WecomCustomApp
    parse_custom_app row =
        let sdk_auth = dict_or_empty (get_or "sdk_auth" null row) in
        int_of (or_zero (get_or "customized_app_status" null row)) >>= λ status. ok (record {
          app_id = text_of repr "app_id" row;
          authcorp_name = text_of repr "authcorp_name" row;
          name = text_of repr "name" row;
          logo = text_of repr "logo" row;
          description = text_of repr "description" row;
          customized_app_status = status;
          aes_app_id = text_of repr "aes_app_id" sdk_auth;
          raw = row;
        })

    unfoldable pub parse_online_order : Fields → Result WecomOnlineOrder
    parse_online_order row = int_of (or_zero (get_or "status" null row)) >>= λ status. ok (record {
      auditorderid = text_of repr "auditorderid" row;
      corpappid = text_of repr "corpappid" row;
      authcorp_name = text_of repr "authcorp_name" row;
      status = status;
    })
