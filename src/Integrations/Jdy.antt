-- ===== src/Integrations/Jdy.antt =====
-- rpa_platform/integrations/jdy_admin_client.py. `repr` is the text that str() makes of a list or a
-- dict, and `int_of` is Python's int().
pub mod Corps
use rpa_group.Prelude.{
  String, Bool, List, [], ◌∷◌, ◌==◌, if◌then◌else◌, is_empty, select, strip, Error, attribute_error,
  missing_corp_deploy_error, ambiguous_corp_deploy_error, Result, ok, err,
}
use rpa_group.Prelude.Logged
use rpa_group.Prelude.Logged.{Logged, raise, lift, call, ◌>>=◌}
use rpa_group.Prelude.Value.{
  Value, null, bool, int, str, arr, obj, Items, nil, cons, Fields, end, field, get_or, put, truthy,
  ℤ, pos,
}
use rpa_group.Integrations.Answers.{rows_of, dict_or_empty, or_zero, text_of}

-- A request: the path and the payload.
pub record JdyRequest : Type 0 where
  pub path : String
  pub payload : Fields

pub record JdyCorpDeploy : Type 0 where
  pub deploy_id : String
  pub default_userid : String
  pub corp_id : String
  pub name : String
  pub tenant_id : String
  pub suite_name : String
  pub integrate_suite_name : String
  pub suite_id : ℤ
  pub suite_scenario : String

pub record JdyCorpDeploySearchResult : Type 0 where
  pub rows : List JdyCorpDeploy
  pub has_more : Bool

pub record JdyOwnerCheckResult : Type 0 where
  pub can_bind_corp_secret : Bool
  pub can_update_corp_secret : Bool
  pub owner_corp_id : String
  pub corp_name : String
  pub existing_token : String
  pub existing_encoding_aes_key : String

pub record JdyInstallRequest : Type 0 where
  pub corp_id : String
  pub corp_name : String
  pub tenant_id : String
  pub token : String
  pub encoding_aes_key : String
  pub suite_id : ℤ
  pub suite_scenario : String

pub record JdyInstallResult : Type 0 where
  pub tenant_id : String
  pub owner_id : String

-- The ends of both searches of `resolve_unique_corp`: the only row, or the exception for many or none.
abbrev pub only_row : List JdyCorpDeploy → String → String → Result JdyCorpDeploy
only_row [] many few = err (missing_corp_deploy_error few)
only_row (r ∷ []) many few = ok r
only_row (r ∷ q ∷ rows) many few = err (ambiguous_corp_deploy_error many)

module _ (post_json : JdyRequest → Result Fields) (repr : Value → String)
    (int_of : Value → Result ℤ) where
  abbrev pub Posts : Type 0 → Type 0
  Posts = Logged JdyRequest

  abbrev post : String → Fields → Posts Fields
  post path payload =
      let request : JdyRequest = record { path = path; payload = payload } in
      call request (post_json request)

  -- _parse_corp_row
  unfoldable pub parse_corp_row : Value → Result JdyCorpDeploy
  parse_corp_row (obj row) = elim (int_of (or_zero (get_or "suite_id" null row))) [
    | err e ↦ err e
    | ok suite_id ↦ ok (record {
      deploy_id = text_of repr "_id" row;
      default_userid = text_of repr "tenant_id" row;
      corp_id = text_of repr "corp_id" row;
      name = text_of repr "name" row;
      tenant_id = text_of repr "tenant_id" row;
      suite_name = text_of repr "suite_name" row;
      integrate_suite_name = text_of repr "integrate_suite_name" row;
      suite_id = suite_id;
      suite_scenario = text_of repr "suite_scenario" row;
    })
  ]
  parse_corp_row _ = err (attribute_error "get")

  parse_rows : Items → Result (List JdyCorpDeploy)
  parse_rows nil = ok []
  parse_rows (cons v vs) = elim (parse_corp_row v) [
    | err e ↦ err e
    | ok row ↦ elim (parse_rows vs) [ err e ↦ err e | ok rows ↦ ok (row ∷ rows) ]
  ]

  -- The rows of an answer to a search.
  unfoldable pub corp_rows : Fields → Result (List JdyCorpDeploy)
  unfolding parse_rows
  corp_rows answer = elim (rows_of (get_or "corp_deploy_list" (arr nil) answer)) [
    | err e ↦ err e
    | ok rows ↦ parse_rows rows
  ]

  -- `search_corp_deploy_list`, with the default `skip` and `limit`, which are all that is used.
  unfoldable pub search_corp_deploy_list : String → Posts JdyCorpDeploySearchResult
  search_corp_deploy_list filter_text = do
    answer ← post "/api/fx_sa/wxwork/get_corp_deploy_list" (
        field "filter" (str (strip filter_text))
          (field "skip" (int (pos 0)) (field "limit" (int (pos 10)) end)))
    rows ← lift (corp_rows answer)
    Logged.pure (record { rows = rows; has_more = truthy (get_or "has_more" null answer) })

  unfoldable pub resolve_unique_corp : String → String → Posts JdyCorpDeploy
  resolve_unique_corp plain_corp_id enterprise_name =
      let corp_id = strip plain_corp_id in
      let name = strip enterprise_name in
      if is_empty corp_id
      then if is_empty name then raise (missing_corp_deploy_error "请填写 CorpID 或企业名称后重试") else (do
        result ← search_corp_deploy_list name
        lift (
            only_row (select (λ row. row.name == name) result.rows) "根据企业名称检索到多家企业，请补充 CorpID 后重试"
              "根据企业名称未检索到企业，请检查企业名称是否填写正确"))
      else (do
        result ← search_corp_deploy_list corp_id
        lift (
            only_row result.rows "根据 CorpID 检索到多家企业，请联系管理员处理企业数据"
              "根据 CorpID 未检索到企业，请检查 CorpID 是否填写正确"))

  unfoldable pub check_wework_owner : String → ℤ → String → Posts JdyOwnerCheckResult
  check_wework_owner user_id suite_id suite_scenario =
      let payload : Fields =
        field "suite_id" (int suite_id) (field "suite_scenario" (str suite_scenario) end) in
      let user = strip user_id in
      do
        answer ←
            post "/api/fx_sa/wxwork/get_owner"
              (if is_empty user then payload else put "user_id" (str user) payload)
        let owner = dict_or_empty (get_or "owner" null answer)
        let corp = dict_or_empty (get_or "corp" null answer)
        Logged.pure (record {
          can_bind_corp_secret = truthy (get_or "can_bind_corp_secret" null answer);
          can_update_corp_secret = truthy (get_or "can_update_corp_secret" null answer);
          owner_corp_id = text_of repr "corp_id" owner;
          corp_name = text_of repr "name" corp;
          existing_token = text_of repr "token" corp;
          existing_encoding_aes_key = text_of repr "encoding_aes_key" corp;
        })

  unfoldable pub install_corp_deploy : JdyInstallRequest → Posts JdyInstallResult
  install_corp_deploy request =
      let payload : Fields = field "corp_id" (str request.corp_id) (
        field "corp_name" (str request.corp_name) (
          field "token" (str request.token) (
            field "encoding_aes_key" (str request.encoding_aes_key) (
              field "suite_id" (int request.suite_id)
                (field "suite_scenario" (str request.suite_scenario) end))))) in
      let tenant = strip request.tenant_id in
      do
        answer ← post "/api/fx_sa/wxwork/install_corp_deploy" (
            if is_empty tenant
            then payload
            else put "user_id" (str tenant) (put "tenant_id" (str tenant) payload))
        Logged.pure (record {
          tenant_id = text_of repr "tenant_id" answer;
          owner_id = text_of repr "owner_id" answer;
        })
