-- ===== src/Worker/RealRecovery.antt =====
-- rpa_platform/worker/wecom_bind_real_recovery.py: the request that a task's context makes, and what
-- goes around the recovery of its logins. The recoveries are arguments, and so is Python's int().
use rpa_group.Prelude.{
  String, Bool, false, not, ◌&&◌, ◌||◌, List, [], ◌∷◌, ◌==◌, if◌then◌else◌, is_empty, strip, one_of,
  Option, none, some, Result, ok, err, Error, ◌>>=◌,
}
use rpa_group.Prelude.Value.{
  Value, null, str, arr, Items, nil, cons, Fields, end, field, get_or, has_key, put, str_of, ℤ, pos,
}
use rpa_group.Integrations.Wecom.Answers.{is_text}
use rpa_group.Services.Bind.Backends.{JdyWecomBindInput}
use rpa_group.Worker.Dispatch.{or_else}

abbrev pub business_unexecutable_reasons : List String
business_unexecutable_reasons =
    "missing_enterprise_identity" ∷ "missing_enterprise_name" ∷ "missing_corp_id" ∷ "missing_userid"
    ∷ "missing_required_bind_context" ∷ "jdy_corp_not_unique_or_missing"
    ∷ "owner_cannot_bind_or_update_corp_secret" ∷ "wecom_app_not_unique_or_missing"
    ∷ "wecom_app_id_missing" ∷ "wecom_aes_app_id_missing" ∷ []

-- value in {…}; the values that are looked up are texts or None.
abbrev pub is_in : Value → List String → Bool
is_in (str s) texts = one_of s texts
is_in _ texts = false

-- _coerce_business_unexecutable_result
unfoldable pub coerce_business_unexecutable_result : Fields → Fields
coerce_business_unexecutable_result result =
    if is_text (get_or "status" null result) "blocked"
      && is_in (get_or "reason" null result) business_unexecutable_reasons
    then put "status" (str "business_unexecutable") result
    else result

-- The tables of `_missing_required_business_result`.
reason_by_field : String → String
reason_by_field name =
    if name == "enterprise_identity"
    then "missing_enterprise_identity"
    else if name == "enterprise_name"
    then "missing_enterprise_name"
    else if name == "corp_id"
    then "missing_corp_id"
    else if name == "userid"
    then "missing_userid"
    else "missing_required_bind_context"

error_msg_by_field : String → String
error_msg_by_field name =
    if one_of name ("enterprise_identity" ∷ "enterprise_name" ∷ "corp_id" ∷ [])
    then "请填写 CorpID 或企业名称后重试"
    else if name == "userid"
    then "未配置默认绑定用户，请联系管理员配置默认 UserID"
    else "请检查企业绑定任务必填字段后重试"

text_items : List String → Items
text_items [] = nil
text_items (s ∷ ss) = cons (str s) (text_items ss)

reason_of : String → List String → String
reason_of first [] = reason_by_field first
reason_of first (_ ∷ _) = "missing_required_bind_context"

-- `_missing_required_business_result`, of the first missing field and the others.
unfoldable pub missing_required_business_result : String → List String → Option String → Fields
unfolding reason_of reason_by_field error_msg_by_field text_items
missing_required_business_result first others mode =
    let result = field "status" (str "business_unexecutable") (
      field "reason" (str (reason_of first others)) (
        field "missing_fields" (arr (text_items (first ∷ others)))
          (field "error_msg" (str (error_msg_by_field first)) end))) in
    elim mode [ none ↦ result | some m ↦ put "mode" (str m) result ]

abbrev pub userid_keys : List String
userid_keys = "requested_user_id" ∷ "userid" ∷ "user_id" ∷ "User_ID" ∷ []

module _ (repr : Value → String) where
  -- The text of a value that is there and not blank, stripped, or else "".
  abbrev pub shown : Value → String
  shown null = ""
  shown v = strip (str_of repr v)

  -- _first_text
  unfoldable pub first_text : Fields → List String → String
  first_text context [] = ""
  first_text context (key ∷ keys) =
      let rest = first_text context keys in
      if is_empty (shown (get_or key null context)) then rest else shown (get_or key null context)

  -- _has_nonblank
  abbrev pub has_nonblank : Fields → String → Bool
  has_nonblank context key = not (is_empty (shown (get_or key null context)))

  -- _with_default_userid
  unfoldable pub with_default_userid : Fields → Fields
  with_default_userid context =
      let userid = first_text context userid_keys in
      if is_empty userid
      then put "userid_source" (str "default")
          (put "userid" (str "") (put "requested_user_id" (str "") context))
      else (let result = put "userid" (str userid) (put "requested_user_id" (str userid) context) in
          if has_key "userid_source" result
          then result
          else put "userid_source" (str "payload") result)

  -- `_copy_userid_source`: the result as it leaves it.
  unfoldable pub copy_userid_source : Fields → Fields → Fields
  copy_userid_source result context =
      let source = first_text context ("userid_source" ∷ []) in
      if is_empty source then result else put "userid_source" (str source) result

module _ (repr : Value → String) (int_of : Value → Result ℤ) where
  -- `_parse_int`. A text has no other exception than ValueError.
  unfoldable pub parse_int_or : Value → ℤ → ℤ
  parse_int_or raw default =
      if is_empty (shown repr raw)
      then default
      else elim (int_of (str (shown repr raw))) [ ok n ↦ n | err e ↦ default ]

  unfoldable pub build_bind_input_from_context : Fields → JdyWecomBindInput
  unfolding parse_int_or
  build_bind_input_from_context context = record {
    enterprise_name = first_text repr context ("enterprise_name" ∷ "企业客户名称" ∷ []);
    enterprise_short_name = first_text repr context ("enterprise_short_name" ∷ "企业简称" ∷ []);
    plain_corp_id = first_text repr context ("plain_corp_id" ∷ "corp_id" ∷ "企业微信明文 CorpID" ∷ []);
    requested_user_id = first_text repr context userid_keys;
    suite_id = parse_int_or (get_or "suite_id" null context) (pos 1);
    suite_scenario =
        strip (str_of repr (or_else (get_or "suite_scenario" null context) (str "main")));
    wecom_suiteid = parse_int_or (get_or "wecom_suiteid" null context) (pos 1009479);
    suite_name = strip (str_of repr (or_else (get_or "suite_name" null context) (str "简道云")));
    wecom_suite_explicit =
        has_nonblank repr context "wecom_suiteid" || has_nonblank repr context "suite_name";
  }

  -- `_missing_required_fields`, which is at most this one field.
  unfoldable pub misses_identity : Fields → Bool
  misses_identity context =
      let request = build_bind_input_from_context context in
      is_empty request.enterprise_name && is_empty request.plain_corp_id

  -- RealWecomBindRecovery.run
  unfoldable pub run_bind_recovery : (Fields → Result Fields) → Fields → Result Fields
  run_bind_recovery orchestrator given =
      let context = with_default_userid repr given in
      if misses_identity context
      then ok (missing_required_business_result "enterprise_identity" [] none)
      else (orchestrator context >>= λ result.
          ok (copy_userid_source repr (coerce_business_unexecutable_result result) context))

  -- RealWecomBindUnattendedWriteRecovery.run. `clients` is what the building of the clients raises, or
  -- else the write with them.
  unfoldable pub run_unattended_recovery :
      (Error → String)
      → (Fields → Result Fields)
      → (Fields → Result (Fields → Result Fields))
      → Fields
      → Result Fields
  run_unattended_recovery str_exc login_recovery clients given =
      let context = with_default_userid repr given in
      if misses_identity context
      then ok (missing_required_business_result "enterprise_identity" [] (some "unattended_write"))
      else (login_recovery context >>= λ preflight.
          if not (
            is_in (get_or "status" null preflight)
              ("ready_for_real_bind" ∷ "manual_confirm_required" ∷ []))
          then ok (
              copy_userid_source repr
                (put "mode" (str "unattended_write")
                  (coerce_business_unexecutable_result preflight))
                context)
          else elim (clients context) [
            | err e ↦ ok (
                field "mode" (str "unattended_write") (
                  field "status" (str "blocked") (
                    field "reason" (str "missing_cookie_source")
                      (field "detail" (str (str_exc e)) end))))
            | ok write ↦ write preflight >>= λ result. ok (copy_userid_source repr result context)
          ])

-- ChainedLoginRecoveryOrchestrator.run
unfoldable pub run_chained : Result Fields → Result Fields → Result Fields
run_chained jdy_recovery wecom_recovery = jdy_recovery >>= λ jdy_result.
    if is_text (get_or "reason" null jdy_result) "wecom_session_expired"
    then wecom_recovery
    else ok jdy_result
