-- ===== src/Worker/LoginRecovery/Sessions.antt =====
-- The check of a login session: `LoginSessionHealthChecker` and `classify_readonly_response`. A text is
-- compared in lower case by what a test on ASCII letters can see.
use rpa_group.Prelude.{
  String, Bool, false, ◌||◌, ◌==◌, if◌then◌else◌, has_infix, none, some, Error, Result, ok, err,
}
use rpa_group.Prelude.Text.Lower.{lower}
use rpa_group.Prelude.Value.{Value, null, str, obj, Fields, get_or, has_key}
use rpa_group.Integrations.Answers.{text_of}
use rpa_group.Integrations.Wecom.Answers.{is_no_error, is_minus_three, is_number, dict_at}

pub data LoginSessionStatus : Type 0 where
  expired restored error : LoginSessionStatus

pub record LoginSessionCheckResult : Type 0 where
  pub status : LoginSessionStatus
  pub reason : String
  pub detail : String

abbrev pub outcome : LoginSessionStatus → String → LoginSessionCheckResult
outcome status reason = record { status = status; reason = reason; detail = "" }

-- The branch for a text.
abbrev pub asks_for_login : String → Bool
asks_for_login response =
    let lowered = lower response in
    has_infix lowered "outsession" || (has_infix lowered "<html" || has_infix response "登录")

unfoldable pub classify_text : String → LoginSessionCheckResult
classify_text response =
    if asks_for_login response
    then outcome expired "login_required"
    else outcome error "unexpected_text_response"

-- The text under "body", if it asks for a login.
abbrev pub login_in_body : Value → Bool
login_in_body (str body) = asks_for_login body
login_in_body _ = false

module _ (repr : Value → String) where
  -- The tests on "data" and on the keys of the response itself.
  unfoldable pub has_readonly_data : Fields → Bool
  has_readonly_data response = elim (dict_at "data" response) [
    | none ↦ false
    | some d ↦
        has_key "corpapp" d
        || (has_key "corpapp_list" d || (has_key "total" d || has_key "customized_app" d))
  ]

  unfoldable pub classify_data : Fields → LoginSessionCheckResult
  unfolding has_readonly_data
  classify_data response =
      if has_readonly_data response
      then outcome restored "readonly_api_ok"
      else if has_key "corp_deploy_list" response || has_key "has_more" response
      then outcome restored "readonly_api_ok"
      else outcome error "unexpected_json_shape"

  -- The tests on the dict under "result", in front of those on the data.
  unfoldable pub classify_result : Fields → Fields → LoginSessionCheckResult
  classify_result result response =
      let message = lower (text_of repr "message" result) in
      let err_code = get_or "errCode" null result in
      if is_minus_three err_code || (message == "outsession" || has_infix message "outsession")
      then record { status = expired; reason = "outsession"; detail = "outsession" }
      else if is_no_error err_code
      then classify_data response
      else record { status = error; reason = "api_error"; detail = repr (obj result) }

  unfoldable pub classify_dict : Fields → LoginSessionCheckResult
  unfolding classify_text
  classify_dict response =
      let error_text = text_of repr "error" response in
      let status_code = get_or "status_code" null response in
      if is_number (get_or "code" null response) 1007 || has_infix error_text "用户尚未登录"
      then record { status = expired; reason = "jdy_login_required"; detail = error_text }
      else if is_number status_code 401 || is_number status_code 403
      then outcome expired "http_forbidden"
      else if login_in_body (get_or "body" null response)
      then outcome expired "login_required"
      else elim (dict_at "result" response) [
        | none ↦ classify_data response
        | some result ↦ classify_result result response
      ]

  unfoldable pub classify_readonly_response : Value → LoginSessionCheckResult
  classify_readonly_response (str response) = classify_text response
  classify_readonly_response (obj response) = classify_dict response
  classify_readonly_response _ = outcome error "unexpected_response_type"

  -- `check`, on what the probe gives or raises.
  unfoldable pub check_session : (Error → String) → Result Value → LoginSessionCheckResult
  check_session str_exc (ok response) = classify_readonly_response response
  check_session str_exc (err e) = record {
    status = error;
    reason = "probe_error";
    detail = str_exc e;
  }
