-- ===== src/Services/Preflight/Summaries.antt =====
-- What the preflight reports (check_wecom_bind_real_readonly.py and wecom_bind_error_messages.py).
use rpa_group.Prelude.{
  String, Bool, not, ◌||◌, if◌then◌else◌, is_empty, strip, has_infix, Option, none, some,
}
use rpa_group.Prelude.Value.{Value, null, str, int, obj, Fields, end, field, put}
use rpa_group.Domain.Redaction.{mask_identifier}
use rpa_group.Services.Bind.Backends.{JdyWecomBindInput, JdyCorpDeploy, WecomCustomApp}

unfoldable pub known_public_error_msg : String → String
known_public_error_msg detail =
    if has_infix (strip detail) "no custom app matched authcorp name and app name"
    then "未在企微后台找到匹配的简道云应用，请检查授权企业名称、企业简称或套件名称是否一致"
    else ""

abbrev is_empty_owner_userid_error : String → Bool
is_empty_owner_userid_error detail =
    has_infix detail "userId should not be empty"
    || has_infix detail "\"property\":\"userId\""
    || has_infix detail "\"property\": \"userId\""

abbrev is_non_owner_userid_error : String → Bool
is_non_owner_userid_error detail = has_infix detail "USER_IS_NOT_OWNER"

-- `_public_error_msg`, of the exception's text. Its last two cases give the same text where there is
-- one.
unfoldable pub public_error_msg : String → String → String
unfolding known_public_error_msg
public_error_msg reason message =
    let detail = strip message in
    if not (is_empty (known_public_error_msg detail))
    then known_public_error_msg detail
    else if is_empty_owner_userid_error detail
    then "未找到可用于绑定的 UserID，请填写 UserID 或配置默认绑定用户后重试"
    else if is_non_owner_userid_error detail
    then "当前填写的 UserID 不是该企业的简道云拥有者，请填写企业拥有者 UserID 后重试"
    else if is_empty detail
    then reason
    else detail

-- `app.… if app else …`
abbrev of_app : Option WecomCustomApp → Value → (WecomCustomApp → Value) → Value
of_app none default read = default
of_app (some app) default read = read app

-- _summary
unfoldable pub summary :
    JdyWecomBindInput
    → JdyCorpDeploy
    → Option WecomCustomApp
    → String
    → String
    → String
    → String
    → Fields
summary request corp app status reason owner_state userid_source = field "status" (str status) (
    field "reason" (str reason) (
      field "userid_source" (str userid_source) (
        field "enterprise_name" (str request.enterprise_name) (
          field "enterprise_short_name" (str request.enterprise_short_name) (
            field "plain_corp_id" (str (mask_identifier request.plain_corp_id)) (
              field "jdy"
                (obj (
                  field "corp_secret_id" (str (mask_identifier corp.corp_id)) (
                    field "corp_name" (str corp.name) (
                      field "original_tenant_id" (str corp.tenant_id) (
                        field "requested_user_id" (str request.requested_user_id) (
                          field "bound_user_id" (str request.requested_user_id) (
                            field "suite_id" (int corp.suite_id) (
                              field "suite_scenario" (str corp.suite_scenario) (
                                field "suite_name" (str corp.suite_name) (
                                  field "integrate_suite_name" (str corp.integrate_suite_name)
                                    (field "owner_state" (str owner_state) end)))))))))))
                (field "wecom"
                  (obj (
                    field "suiteid" (int request.wecom_suiteid) (
                      field "suite_name" (str request.suite_name) (
                        field "app_id" (of_app app (str "") (λ a. str a.app_id)) (
                          field "authcorp_name" (of_app app (str "") (λ a. str a.authcorp_name)) (
                            field "aes_app_id"
                              (of_app app (str "") (λ a. str (mask_identifier a.aes_app_id)))
                              (field "customized_app_status"
                                (of_app app null (λ a. int a.customized_app_status)) end)))))))
                  end)))))))

-- `_failure_summary`, of the exception's text.
unfoldable pub failure_summary :
    JdyWecomBindInput → String → String → Option JdyCorpDeploy → String → Fields
unfolding summary public_error_msg
failure_summary request reason message none owner_state = field "status" (str "blocked") (
    field "reason" (str reason) (
      field "error_msg" (str (public_error_msg reason message)) (
        field "detail" (str message) (
          field "enterprise_name" (str request.enterprise_name) (
            field "enterprise_short_name" (str request.enterprise_short_name) (
              field "plain_corp_id" (str (mask_identifier request.plain_corp_id)) (
                field "jdy"
                  (obj (
                    field "corp_secret_id" (str "") (
                      field "original_tenant_id" (str "") (
                        field "requested_user_id" (str request.requested_user_id) (
                          field "bound_user_id" (str request.requested_user_id)
                            (field "owner_state" (str owner_state) end))))))
                  (field "wecom"
                    (obj (
                      field "suiteid" (int request.wecom_suiteid)
                        (field "suite_name" (str request.suite_name) end)))
                    end))))))))
failure_summary request reason message (some corp) owner_state = put "detail" (str message) (
    put "error_msg" (str (public_error_msg reason message))
      (summary request corp none "blocked" reason owner_state "payload"))
