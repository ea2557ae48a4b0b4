-- ===== src/Worker/LoginRecovery/Agreement.antt =====
-- The client of the WeCom back end and the check of the login session agree on what has expired.
use rpa_group.Prelude.{
  String, ◌||◌, ◌≡◌, refl, ◌==◌, eq_iff, Option, none, some, has_infix, wecom_session_expired_error,
  Result, ok, err, Bool-cases, inl, inr,
}
use rpa_group.Prelude.Text.Lower.{lower}
use rpa_group.Prelude.Value.{Value, null, obj, Fields, get_or}
use rpa_group.Integrations.Answers.{text_of}
use rpa_group.Integrations.Wecom.Answers.{
  is_no_error, is_minus_three, is_number, dict_at, api_error, raise_api_error_if_present,
}
use rpa_group.Worker.LoginRecovery.Sessions.{
  expired, LoginSessionCheckResult, classify_result, classify_dict, classify_data,
  classify_readonly_response, login_in_body,
}

lower_outsession : lower "outsession" ≡ "outsession"
unfolding lower
lower_outsession = refl

module _ (repr : Value → String) where
  classify_expired :
      (result answer : Fields) (m : String)
      → api_error repr result ≡ err (wecom_session_expired_error m)
      → (classify_result repr result answer).status ≡ expired
  unfolding api_error classify_result
  classify_expired result answer m h =
      elim (Bool-cases (is_no_error (get_or "errCode" null result))) [
        | inl fine ↦ cc (rw fine at h)
        | inr wrong ↦ elim (Bool-cases (is_minus_three (get_or "errCode" null result))) [
          | inl minus ↦ rw minus refl
          | inr other ↦ elim (Bool-cases (text_of repr "message" result == "outsession")) [
            | inl says ↦ rw (other, (eq_iff _ _).0 says, lower_outsession) refl
            | inr silent ↦ cc (rw (wrong, other, silent) at h)
          ]
        ]
      ]

  -- What makes the client raise that its session has expired, the check of the login session takes for
  -- an expired session as well.
  pub raise_api_error-expired :
      (answer : Fields) (m : String)
      → raise_api_error_if_present repr answer ≡ err (wecom_session_expired_error m)
      → (classify_readonly_response repr (obj answer)).status ≡ expired
  unfolding raise_api_error_if_present classify_readonly_response classify_dict
  raise_api_error-expired answer m h =
      elim (Bool-cases (
        is_number (get_or "code" null answer) 1007
        || has_infix (text_of repr "error" answer) "用户尚未登录")) [
          | inl e ↦ rw e refl
          | inr e ↦
              rw e
                (elim (Bool-cases (
                  is_number (get_or "status_code" null answer) 401
                  || is_number (get_or "status_code" null answer) 403)) [
                    | inl k ↦ rw k refl
                    | inr k ↦ rw k (elim (Bool-cases (login_in_body (get_or "body" null answer))) [
                      | inl l ↦ rw l refl
                      | inr l ↦ rw l (go (dict_at "result" answer) h)
                    ])
                  ])
        ]
    where
      go :
          (found : Option Fields)
          → (elim found as (λ k. Result (Unit {0})) [
            | none ↦ ok tt
            | some result ↦ api_error repr result
          ])
            ≡ err (wecom_session_expired_error m)
          → (elim found as (λ k. LoginSessionCheckResult) [
            | none ↦ classify_data repr answer
            | some result ↦ classify_result repr result answer
          ]).status
            ≡ expired
      go none q = cc
      go (some result) q = classify_expired result answer m q
