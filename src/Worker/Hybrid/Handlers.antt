-- ===== src/Worker/Hybrid/Handlers.antt =====
-- The handlers of the actions.
use rpa_group.Prelude.{
  String, true, none, some, if◌then◌else◌, is_empty, join2, owner_cannot_bind_error, Result,
}
use rpa_group.Prelude.Value.{
  Value, null, bool, int, str, obj, nil, Fields, end, field, get_or, truthy, str_of, ℤ,
}
use rpa_group.Domain.StateMachine.{
  TaskStatus, waiting_login, waiting_manual_intervention, waiting_wecom_review, ready_to_online,
  success, status_value,
}
use rpa_group.Store.Exec.{Exec, raise, lift, ◌>>=◌, ◌>>◌}
use rpa_group.Store.Tasks.{get_task, get_task_context, merge_task_context, set_task_current_step}
use rpa_group.Store.Tasks.Records.{append_task_step, create_manual_action}
use rpa_group.Worker.Hybrid.Base.{
  Tick, HybridResult, ReviewStatus, review_passed, online, review_value, Clients, at, dict_at,
  is_text, log_step, release,
}

unfoldable pub derive_wecom_urls : (Value → String) → Tick → String → Fields → Exec String
derive_wecom_urls repr c task_id step = do
  context ← get_task_context task_id
  jdy ← lift (dict_at "jdy" context)
  corp_secret_id ← lift (at "corp_secret_id" jdy)
  let corp = str_of repr corp_secret_id
  let output =
      field "homeurl"
        (str (join2 "https://wxwork.jiandaoyun.com/wxwork/" (join2 corp "/dashboard")))
        (field "callbackurl"
          (str (join2 "https://wxwork.jiandaoyun.com/wxwork/corp/" (join2 corp "/service")))
          (field "redirect_domain" (str "wxwork.jiandaoyun.com") end))
  merge_task_context c.merge_time task_id (field "wecom" (obj output) end)
  log_step c task_id step "success" output

-- `result.get("reason") or …`
unfoldable pub reason_or : (Value → String) → Fields → String → String
reason_or repr result default =
    let reason = get_or "reason" null result in
    if truthy reason then str_of repr reason else default

unfoldable pub pause_for_manual_action :
    Tick → String → String → Fields → TaskStatus → String → Fields → Exec HybridResult
unfolding release log_step
pause_for_manual_action c task_id robot_id step status reason output = do
  log_step c task_id step (status_value status) output
  create_manual_action c.action_uuid c.action_time task_id (status_value status) reason nil
  release c task_id robot_id status none

module _ (clients : Clients) where
  unfoldable pub jdy_resolve_corp : Tick → String → Fields → Exec String
  jdy_resolve_corp c task_id step = do
    task ← get_task task_id
    row ← lift (clients.resolve_unique_corp task.corp_id task.enterprise_name)
    let output = field "corp_secret_id" (str row.corp_id) (
        field "corp_name" (str row.name) (
          field "tenant_id" (str row.tenant_id) (
            field "original_tenant_id" (str row.tenant_id) (
              field "suite_id" (int row.suite_id) (
                field "suite_scenario" (str row.suite_scenario) (
                  field "suite_name" (str row.suite_name)
                    (field "integrate_suite_name" (str row.integrate_suite_name) end)))))))
    merge_task_context c.merge_time task_id (field "jdy" (obj output) end)
    log_step c task_id step "success" output

  -- The rest of `_wecom_configure_app` where the browser has not asked for a person.
  unfoldable pub store_app : Tick → String → Fields → Fields → Exec String
  store_app c task_id step result = do
    token ← lift (at "token" result)
    encoding_aes_key ← lift (at "encoding_aes_key" result)
    let output = field "token" token (
        field "encoding_aes_key" encoding_aes_key
          (field "review_status" (get_or "review_status" (str "配置完成") result) end))
    merge_task_context c.merge_time task_id (field "wecom" (obj output) end)
    log_step c task_id step "success" output

  -- With _pause_for_browser_result.
  unfoldable pub wecom_configure_app :
      (Value → String) → Tick → String → String → Fields → Exec HybridResult → Exec HybridResult
  wecom_configure_app repr c task_id robot_id step go_on = do
    task ← get_task task_id
    context ← get_task_context task_id
    result ← lift (clients.configure_custom_app task context)
    let status = get_or "status" null result
    if is_text status "needs_login"
        then pause_for_manual_action c task_id robot_id step waiting_login
            (reason_or repr result "浏览器登录态失效，需要重新登录") result
        else if is_text status "manual_required"
        then pause_for_manual_action c task_id robot_id step waiting_manual_intervention
            (reason_or repr result "browser-use 需要人工介入") result
        else (store_app c task_id step result >> go_on)

  unfoldable pub jdy_check_owner : (Value → Result ℤ) → Tick → String → Fields → Exec String
  jdy_check_owner int_of c task_id step = do
    task ← get_task task_id
    context ← get_task_context task_id
    jdy ← lift (dict_at "jdy" context)
    suite ← lift (at "suite_id" jdy)
    suite_id ← lift (int_of suite)
    suite_scenario ← lift (at "suite_scenario" jdy)
    can_bind ← lift (clients.check_wework_owner task.source_user_id suite_id suite_scenario)
    if can_bind
        then log_step c task_id step "success" (field "can_bind_corp_secret" (bool true) end)
        else raise (owner_cannot_bind_error "User_ID cannot bind corp secret")

  unfoldable pub jdy_install_bind : (Value → Result ℤ) → Tick → String → Fields → Exec String
  jdy_install_bind int_of c task_id step = do
    task ← get_task task_id
    context ← get_task_context task_id
    jdy ← lift (dict_at "jdy" context)
    corp_id ← lift (at "corp_secret_id" jdy)
    corp_name ← lift (at "corp_name" jdy)
    wecom ← lift (dict_at "wecom" context)
    token ← lift (at "token" wecom)
    encoding_aes_key ← lift (at "encoding_aes_key" wecom)
    suite ← lift (at "suite_id" jdy)
    suite_id ← lift (int_of suite)
    suite_scenario ← lift (at "suite_scenario" jdy)
    result ← lift (
        clients.install_corp_deploy (record {
          corp_id = corp_id;
          corp_name = corp_name;
          tenant_id = task.source_user_id;
          token = token;
          encoding_aes_key = encoding_aes_key;
          suite_id = suite_id;
          suite_scenario = suite_scenario;
        }))
    let bound_user_id = if is_empty result.owner_id then result.tenant_id else result.owner_id
    let output =
        field "original_tenant_id"
          (get_or "original_tenant_id" (get_or "tenant_id" (str "") jdy) jdy)
          (field "requested_user_id" (str task.source_user_id) (
            field "install_tenant_id" (str result.tenant_id) (
              field "install_owner_id" (str result.owner_id)
                (field "bound_user_id" (str bound_user_id) end))))
    merge_task_context c.merge_time task_id (field "jdy" (obj output) end)
    log_step c task_id step "success" output

  unfoldable pub submit_review : String → Tick → String → String → Fields → Exec HybridResult
  unfolding release
  submit_review later c task_id robot_id step = do
    task ← get_task task_id
    context ← get_task_context task_id
    result ← lift (clients.wecom_submit_review task context)
    let output = field "review_status" (get_or "review_status" (str "审核中") result) end
    merge_task_context c.merge_time task_id (field "wecom" (obj output) end)
    log_step c task_id step "success" output
    release c task_id robot_id waiting_wecom_review (some later)

  unfoldable pub after_review : String → Tick → String → String → ReviewStatus → Exec HybridResult
  after_review later c task_id robot_id review_passed =
      release c task_id robot_id ready_to_online none
  after_review later c task_id robot_id _ =
      release c task_id robot_id waiting_wecom_review (some later)

  unfoldable pub check_review : String → Tick → String → String → Exec HybridResult
  unfolding after_review
  check_review later c task_id robot_id = do
    set_task_current_step c.set_step_time task_id "wecom_wait_review"
    task ← get_task task_id
    context ← get_task_context task_id
    status ← lift (clients.check_review_status task context)
    let output = field "review_status" (str (review_value status)) end
    merge_task_context c.merge_time task_id (field "wecom" (obj output) end)
    append_task_step c.step_uuid c.step_time task_id "wecom_wait_review" "等待企微审核通过" "success" end
        output
    after_review later c task_id robot_id status

  unfoldable pub submit_online : Tick → String → String → Exec HybridResult
  submit_online c task_id robot_id = do
    set_task_current_step c.set_step_time task_id "wecom_submit_online"
    task ← get_task task_id
    context ← get_task_context task_id
    result ← lift (clients.wecom_submit_online task context)
    let output =
        field "review_status" (get_or "review_status" (str (review_value online)) result) end
    merge_task_context c.merge_time task_id (field "wecom" (obj output) end)
    append_task_step c.step_uuid c.step_time task_id "wecom_submit_online" "企微待上线后提交上线" "success"
        end output
    release c task_id robot_id success none
