-- ===== src/Worker/RecoveryHandler.antt =====
-- rpa_platform/worker/wecom_bind_recovery_handler.py. The recovery is an argument: what its `run` gives
-- for a task and a context. `repr` is the text that str() makes of a list or a dict.
pub mod Secrets
pub mod Verdicts
use rpa_group.Prelude.{
  String, Bool, true, false, List, [], ◌∷◌, ◌++◌, ◌==◌, if◌then◌else◌, one_of, join2, value_error,
  Result, ok, err, ◌>>=◌,
}
use rpa_group.Prelude.Value.{
  Value, null, bool, int, str, arr, obj, Items, nil, cons, Fields, end, field, get_or, put, str_of,
}
use rpa_group.Domain.Redaction.{mask_identifier, redact_fields}
use rpa_group.Worker.Dispatch.{or_else, task_type, payload_of, task_id_of, WorkerTaskResult}

-- `_mask_key`: a text under the key is masked, and everything else is gone through.
abbrev pub mask_entry : String → String → Value → Value → Value
mask_entry name key (str s) inside = if key == name then str (mask_identifier s) else inside
mask_entry name key child inside = inside

unfoldable mutual
  pub mask_key : String → Value → Value
  mask_key name (obj d) = obj (mask_key_fields name d)
  mask_key name (arr vs) = arr (mask_key_items name vs)
  mask_key name null = null
  mask_key name (bool b) = bool b
  mask_key name (int n) = int n
  mask_key name (str s) = str s

  pub mask_key_items : String → Items → Items
  mask_key_items name nil = nil
  mask_key_items name (cons v vs) = cons (mask_key name v) (mask_key_items name vs)

  pub mask_key_fields : String → Fields → Fields
  mask_key_fields name end = end
  mask_key_fields name (field k v d) =
      field k (mask_entry name k v (mask_key name v)) (mask_key_fields name d)

-- _redact_bind_payload
unfoldable pub redact_bind_payload : Fields → Fields
redact_bind_payload value =
    mask_key_fields "requested_user_id" (mask_key_fields "plain_corp_id" (redact_fields value))

-- `_pause_wecom_bind_queue_control` and `_resume_wecom_bind_queue_control`.
abbrev pub pause_control : Value
pause_control = obj (
    field "action" (str "pause") (
      field "scope" (str "wecom_bind_service")
        (field "resume_when" (str "wecom_login_restored") end)))

abbrev pub resume_control : Value
resume_control = obj (
    field "action" (str "resume") (
      field "scope" (str "wecom_bind_service")
        (field "resume_reason" (str "wecom_login_restored") end)))

-- A progress message.
abbrev pub note : String → String → Fields
note status message = field "status" (str status) (field "message" (str message) end)

abbrev pub started : Fields
started = note "readonly_preflight_started" "wecom bind readonly preflight started"

abbrev pub completed : Fields
completed = note "readonly_preflight_completed" "wecom bind readonly preflight completed"

-- `safe_result.get(key)` under the same key.
abbrev copied : String → Fields → Fields → Fields
copied key safe rest = field key (get_or key null safe) rest

-- The two branches that call for a person; both readers of a result have them.
unfoldable pub waiting_login_result : Fields → WorkerTaskResult
waiting_login_result result =
    let safe : Fields =
      put "queue_control" pause_control (put "manual_action" (str "scan_wecom_admin_qr") result) in
    record {
      status = "manual_action_required";
      result = safe;
      progress =
          started
          ∷ field "status" (str "waiting_login") (
              field "message" (str "wecom admin QR notification sent") (
                field "queue_control" pause_control (
                  copied "expires_at" safe (
                    copied "notify_attempts" safe (
                      copied "remaining_notify_attempts" safe
                        (copied "next_action" safe (copied "retry_after" safe end)))))))
          ∷ [];
    }

unfoldable pub exhausted_result : Fields → WorkerTaskResult
exhausted_result result =
    let safe : Fields =
      put "queue_control" pause_control
        (put "manual_action" (str "manual_escalation_required") result) in
    record {
      status = "manual_action_required";
      result = safe;
      progress =
          started
          ∷ field "status" (str "login_recovery_notify_exhausted") (
              field "message" (str "wecom admin QR notify attempts exhausted") (
                field "queue_control" pause_control (
                  copied "notify_attempts" safe
                    (copied "remaining_notify_attempts" safe (copied "next_action" safe end)))))
          ∷ [];
    }

abbrev write_started : Fields
write_started = note "real_write_started" "wecom bind unattended real write started"

-- _unattended_write_task_result
unfoldable pub unattended_result : String → Fields → WorkerTaskResult
unattended_result status safe =
    if status == "waiting_login"
    then waiting_login_result safe
    else if status == "login_recovery_notify_exhausted"
    then exhausted_result safe
    else if status == "blocked"
    then record { status = "blocked"; result = safe; progress = started ∷ completed ∷ [] }
    else if status == "business_unexecutable"
    then record {
      status = "business_unexecutable";
      result = safe;
      progress = started ∷ completed ∷ [];
    }
    else if one_of status ("success" ∷ "already_completed" ∷ [])
    then record {
      status = "success";
      result = safe;
      progress =
          started
          ∷ completed
          ∷ write_started
          ∷ note "real_write_completed" "wecom bind unattended real write completed"
          ∷ [];
    }
    else record {
      status = "failed";
      result = safe;
      progress =
          started
          ∷ completed
          ∷ write_started
          ∷ note "real_write_failed" "wecom bind unattended real write failed"
          ∷ [];
    }

-- The branches of `handle` for a result of the readonly mode.
unfoldable pub readonly_result : String → Fields → WorkerTaskResult
readonly_result status safe =
    if status == "waiting_login"
    then waiting_login_result safe
    else if status == "login_recovery_notify_exhausted"
    then exhausted_result safe
    else if one_of status ("ready_for_real_bind" ∷ "manual_confirm_required" ∷ [])
    then record {
      status = status;
      result = put "queue_control" resume_control safe;
      progress =
          started
          ∷ field "status" (str "readonly_preflight_completed") (
              field "message" (str "wecom bind readonly preflight completed")
                (field "queue_control" resume_control end))
          ∷ [];
    }
    else record {
      status = status;
      result = safe;
      progress = started ∷ note status "wecom bind readonly preflight completed" ∷ [];
    }

abbrev pub is_unattended : Value → Bool
is_unattended (str mode) = mode == "unattended_write"
is_unattended _ = false

module _ (repr : Value → String) where
  unfoldable pub task_result : Fields → WorkerTaskResult
  task_result recovery_result =
      let safe = redact_bind_payload recovery_result in
      let status = str_of repr (or_else (get_or "status" null safe) (str "failed")) in
      if is_unattended (get_or "mode" null safe)
      then unattended_result status safe
      else readonly_result status safe

  -- handle
  unfoldable pub handle_bind : (String → Fields → Result Fields) → Fields → Result WorkerTaskResult
  handle_bind run dispatch =
      let kind = task_type repr dispatch in
      if kind == "wecom_bind_service"
      then (run (task_id_of repr dispatch) (payload_of dispatch) >>= λ r. ok (task_result r))
      else err (value_error (join2 "Unsupported task_type: " kind))
