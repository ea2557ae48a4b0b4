-- ===== src/Integrations/Wecom.antt =====
-- rpa_platform/integrations/wecom_admin_client.py. `repr` is the text that str() makes of a list or a
-- dict, and `int_of` is Python's int().
pub mod Answers
pub mod Privileges
pub mod Apps
pub mod Marks
pub mod Sessions
use rpa_group.Prelude.{
  String, Bool, true, false, none, some, ◌&&◌, List, [], ◌∷◌, ◌==◌, if◌then◌else◌, Error,
  attribute_error, missing_wecom_app_error, ambiguous_wecom_app_error, wecom_admin_error, Result,
  ok, err,
}
use rpa_group.Prelude.Logged
use rpa_group.Prelude.Logged.{Logged, raise, lift, call, ◌>>=◌, ◌>>◌}
use rpa_group.Prelude.Value.{
  Value, null, bool, int, str, arr, obj, Items, nil, cons, Fields, end, field, get_or, truthy, ℤ,
  pos, show_ℤ,
}
use rpa_group.Integrations.Answers.{update, text_of}
use rpa_group.Integrations.Wecom.Answers.{
  WecomCustomApp, WecomOnlineOrder, dict_at, extract_corpapp_rows, extract_corpapp, extract_order,
  extract_privilege_list, extract_required_privilege_list, validate_trial_rule_response,
  validate_sso_response, parse_custom_app, parse_online_order,
}
use rpa_group.Integrations.Wecom.Privileges.{check_items}

-- A call of the transport: path, parameters or payload, and the two headers.
pub data WecomRequest : Type 0 where
  get_json post_json : String → Fields → String → String → WecomRequest

pub record WecomSaveAppRequest : Type 0 where
  pub suiteid : ℤ
  pub app : WecomCustomApp
  pub homeurl : String
  pub callbackurl : String
  pub redirect_domain : String
  pub token : String
  pub encoding_aes_key : String

module _ (transport : WecomRequest → Result Fields) (repr : Value → String)
    (int_of : Value → Result ℤ) where
  abbrev pub Asks : Type 0 → Type 0
  Asks = Logged WecomRequest

  abbrev ask : WecomRequest → Asks Fields
  ask request = call request (transport request)

  -- The rows of the list comprehension.
  unfoldable pub matching : String → String → Items → Result (List Fields)
  matching enterprise_name suite_name nil = ok []
  matching enterprise_name suite_name (cons (obj row) rows) =
      elim (matching enterprise_name suite_name rows) [
        | err e ↦ err e
        | ok rest ↦ ok (
            if text_of repr "authcorp_name" row == enterprise_name
              && text_of repr "name" row == suite_name
            then row ∷ rest
            else rest)
      ]
  matching enterprise_name suite_name (cons v rows) = err (attribute_error "get")

  abbrev pub only_app : List Fields → Result WecomCustomApp
  only_app [] = err (missing_wecom_app_error "no custom app matched authcorp name and app name")
  only_app (row ∷ []) = parse_custom_app repr int_of row
  only_app (row ∷ other ∷ rows) =
      err (ambiguous_wecom_app_error "authcorp name and app name matched multiple custom apps")

  abbrev pub app_list_request : ℤ → String → WecomRequest
  app_list_request suiteid enterprise_name =
      get_json "/wwopen/developer/customApp/tpl/app/list"
        (field "lang" (str "zh_CN") (
          field "ajax" (int (pos 1)) (
            field "f" (str "json") (
              field "suiteid" (str (show_ℤ suiteid)) (
                field "scene" (int (pos 1)) (
                  field "corp_name_keyword" (str enterprise_name) (
                    field "offset" (int (pos 0))
                      (field "limit" (int (pos 10)) (field "random" (int (pos 0)) end)))))))))
        "/sass/customApp/tpl/info" "50"

  unfoldable pub resolve_unique_custom_app : ℤ → String → String → Asks WecomCustomApp
  resolve_unique_custom_app suiteid enterprise_name suite_name = do
    answer ← ask (app_list_request suiteid enterprise_name)
    rows ← lift (extract_corpapp_rows repr answer)
    matches ← lift (matching enterprise_name suite_name rows)
    lift (only_app matches)

  unfoldable pub development_info : WecomSaveAppRequest → Fields
  development_info request = update request.app.raw (
      field "app_id" (str request.app.app_id) (
        field "suiteid" (int request.suiteid) (
          field "page_type" (str "CREATE") (
            field "name" (str request.app.name) (
              field "name_pinyin" (str "jiandaoyun") (
                field "logo" (str request.app.logo) (
                  field "description" (str request.app.description) (
                    field "homeurl" (str request.homeurl) (
                      field "redirect_domain" (str request.redirect_domain) (
                        field "domain_belong_to" (int (pos 0)) (
                          field "jssdkdomain_list" (obj (field "domains" (arr nil) end)) (
                            field "white_ip_list" (obj (field "ip" (arr nil) end)) (
                              field "callbackurl" (str request.callbackurl) (
                                field "token" (str request.token) (
                                  field "aeskey" (str request.encoding_aes_key) (
                                    field "enter_homeurl_in_wx" (bool true) (
                                      field "is_homeurl_miniprogram" (bool false) (
                                        field "miniprogram_enter_path" (str "")
                                          (field "miniprogramInfo" (obj end) end)))))))))))))))))))

  -- save_development_info_raw
  unfoldable pub save_development_info_raw : WecomSaveAppRequest → Asks Fields
  unfolding development_info
  save_development_info_raw request = ask (
      post_json "/wwopen/developer/customApp/tpl/corpApp"
        (field "suiteid" (str (show_ℤ request.suiteid))
          (field "corpapp" (obj (development_info request)) end))
        "/sass/customApp/app/create" "50")

  unfoldable pub save_development_info : WecomSaveAppRequest → Asks Fields
  save_development_info request = do
    answer ← save_development_info_raw request
    lift (extract_corpapp repr answer)

  -- What `set_target_privileges` makes of the second answer.
  set_privileges : Items → Fields → Result Items
  set_privileges patched answer = elim (extract_privilege_list repr answer) [
    | cons v vs ↦ ok (cons v vs)
    | nil ↦ elim (dict_at "data" answer) [
      | none ↦ err (wecom_admin_error "WeCom admin response missing data.privilege_list")
      | some d ↦
          if truthy (get_or "result" null answer)
          then err (wecom_admin_error "WeCom admin response missing data.privilege_list")
          else ok patched
    ]
  ]

  unfoldable pub set_target_privileges : ℤ → String → Asks Items
  unfolding set_privileges
  set_target_privileges suiteid app_id = do
    answer ← ask (
        post_json "/wwopen/api/customApp/privilege/getCustomizedAppPrivilege"
          (field "thirdapp_id" (arr (cons (str app_id) nil))
            (field "suiteid" (str (show_ℤ suiteid)) end))
          "/sass/customApp/app/detail" "50,51")
    privileges ← lift (extract_required_privilege_list repr answer)
    let patched = (check_items int_of privileges).1
    response ← ask (
        post_json "/wwopen/api/customApp/privilege/setCustomizedAppPrivilege"
          (field "thirdapp_id" (arr (cons (str app_id) nil))
            (field "suiteid" (str (show_ℤ suiteid)) (field "privilege_list" (arr patched) end)))
          "/sass/customApp/app/detail" "50,51")
    lift (set_privileges patched response)

  unfoldable pub set_trial_rule : String → Asks Fields
  set_trial_rule app_id = do
    ask (
        post_json "/wwopen/api/customApp/price/GetStandardPriceInfoForCA"
          (field "corpappid" (str app_id) end) "/sass/customApp/app/detail" "50,51")
    response ← ask (
        post_json "/wwopen/api/customApp/price/SetStandardPriceInfoForCA"
          (field "corpappid" (str app_id) (
            field "base_price_info"
              (obj (
                field "try_rule_info"
                  (obj (
                    field "try_rule_type" (int (pos 2)) (
                      field "try_time" (int (pos 60)) (
                        field "second_try_time" (int (pos 15)) (
                          field "prove_file"
                            (obj (field "file_id" null (field "file_name" null end))) end)))))
                  end))
              (field "clear_base_price_info" (bool false) end)))
          "/sass/customApp/app/detail" "50,51")
    lift (validate_trial_rule_response repr response)
    Logged.pure response

  unfoldable pub set_sso_redirect_domain : ℤ → String → String → String → Asks Fields
  set_sso_redirect_domain suiteid app_id aes_app_id redirect_domain = do
    response ← ask (
        post_json "/wwopen/developer/customApp/tpl/corpApp"
          (field "suiteid" (str (show_ℤ suiteid)) (
            field "corpapp"
              (obj (
                field "app_id" (str app_id) (
                  field "sdk_auth"
                    (obj (
                      field "aes_app_id" (str aes_app_id) (
                        field "redirect_domain2" (str redirect_domain) (
                          field "bundleid" (str "") (
                            field "signature_android" (str "") (
                              field "packagename" (str "") (
                                field "b_ios" (bool false)
                                  (field "b_android" (bool false) end))))))))
                    end)))
              end))
          "/sass/customApp/app/detail/sso" "50")
    corpapp ← lift (extract_corpapp repr response)
    lift (validate_sso_response repr corpapp aes_app_id redirect_domain)
    Logged.pure corpapp

  unfoldable pub create_online_order : ℤ → String → Asks WecomOnlineOrder
  create_online_order suiteid app_id = do
    answer ← ask (
        post_json "/wwopen/developer/order/add"
          (field "auditorder"
            (obj (field "suiteid" (int suiteid) (field "corpappid" (str app_id) end)))
            (field "skipNotice" (bool false) end))
          "/sass/customApp/deploy/list" "51")
    order ← lift (extract_order repr answer)
    lift (parse_online_order repr int_of order)

  unfoldable pub submit_online_order : String → Asks WecomOnlineOrder
  submit_online_order auditorderid = do
    answer ← ask (
        post_json "/wwopen/developer/order/set"
          (field "auditorder"
            (obj (field "auditorderid" (str auditorderid) (field "status" (int (pos 5)) end))) end)
          "/sass/customApp/deploy/detail" "51")
    order ← lift (extract_order repr answer)
    lift (parse_online_order repr int_of order)
