-- ===== src/Worker/UnattendedWrite/Reports.antt =====
-- What an unattended write reports (rpa_platform/worker/wecom_bind_unattended_write.py).
use rpa_group.Prelude.{
  String, ◌&&◌, List, [], ◌∷◌, ◌==◌, if◌then◌else◌, is_empty, one_of, Option, none, some,
}
use rpa_group.Prelude.Value.{
  Value, null, str, obj, Fields, end, field, get, get_or, put, truthy, str_of,
}
use rpa_group.Domain.Redaction.{redact_context}
use rpa_group.Integrations.Answers.{update}
use rpa_group.Integrations.Wecom.Answers.{dict_at}
use rpa_group.Services.Bind.{JdyWecomBindResult}
use rpa_group.Services.Preflight.Summaries.{known_public_error_msg}
use rpa_group.Worker.Dispatch.{or_else}
use rpa_group.Worker.RealRecovery.{is_in, business_unexecutable_reasons, first_text}

-- The times, and the name of the context's file.
pub record Texts : Type 0 where
  pub now : String
  pub next : String
  pub context_file : String

-- The dict under the key, or {}.
abbrev part_of : String → Fields → Fields
part_of key d = elim (dict_at key d) [ none ↦ end | some e ↦ e ]

abbrev pub locked_result : Fields
locked_result = field "mode" (str "unattended_write") (
    field "status" (str "blocked") (
      field "reason" (str "write_already_running")
        (field "detail" (str "another unattended wecom bind write is running") end)))

unfoldable pub missing_cookie_result : String → String → Fields
missing_cookie_result detail enterprise_name = field "mode" (str "unattended_write") (
    field "status" (str "blocked") (
      field "reason" (str "missing_cookie_source")
        (field "detail" (str detail) (field "enterprise_name" (str enterprise_name) end))))

-- The result of an exception.
unfoldable pub failed_result : String → Fields
failed_result detail = field "mode" (str "unattended_write") (
    field "status" (str "failed") (
      field "reason" (str "real_write_failed") (
        field "detail" (str detail) (
          if is_empty (known_public_error_msg detail)
          then end
          else field "error_msg" (str (known_public_error_msg detail)) end))))

-- `_preflight_for_write`: the preflight to report and the metadata, where the write may go on.
unfoldable pub preflight_for_write : Fields → Option (Fields × Fields)
preflight_for_write preflight =
    if is_in (get_or "status" null preflight) ("ok" ∷ "review" ∷ [])
    then some (preflight, end)
    else if is_in (get_or "status" null preflight)
        ("ready_for_real_bind" ∷ "manual_confirm_required" ∷ [])
    then elim (dict_at "preflight" preflight) [
      | none ↦ none
      | some inner ↦ some (
        inner,
        elim (get "login_recovery" preflight) [
          | none ↦ end
          | some v ↦ field "login_recovery" v end
        ],
      )
    ]
    else none

-- The keys of the preflight that are reported, where they are there.
unfoldable pub copy_keys : List String → Fields → Fields → Fields
copy_keys [] preflight result = result
copy_keys (key ∷ keys) preflight result =
    copy_keys keys preflight
      (elim (get key preflight) [ none ↦ result | some v ↦ put key (redact_context v) result ])

abbrev reported_keys : List String
reported_keys =
    "detail" ∷ "manual_action" ∷ "expires_at" ∷ "notify_attempts" ∷ "remaining_notify_attempts"
    ∷ "next_action" ∷ "retry_after" ∷ []

-- result[key] = redact_context(value), for each entry
unfoldable pub put_redacted : Fields → Fields → Fields
put_redacted end result = result
put_redacted (field key value more) result =
    put_redacted more (put key (redact_context value) result)

module _ (repr : Value → String) where
  -- _blocked_preflight_result
  unfoldable pub blocked_preflight_result : Fields → Fields
  unfolding copy_keys
  blocked_preflight_result preflight =
      let status = str_of repr (or_else (get_or "status" null preflight) (str "blocked")) in
      let reason = str_of repr (or_else (get_or "reason" null preflight) (str "")) in
      if status == "blocked" && one_of reason business_unexecutable_reasons
      then field "mode" (str "unattended_write") (
          field "status" (str "business_unexecutable")
            (field "reason" (str reason) (field "preflight" (redact_context (obj preflight)) end)))
      else (let result = field "mode" (str "unattended_write") (
            field "status"
              (str (
                if one_of status ("waiting_login" ∷ "login_recovery_notify_exhausted" ∷ [])
                then status
                else "blocked"))
              (field "reason" (str "preflight_not_ok")
                (field "preflight" (redact_context (obj preflight)) end))) in
          copy_keys reported_keys preflight (
            if truthy (get_or "reason" null preflight)
            then put "preflight_reason" (get_or "reason" null preflight) result
            else result))

  -- `str(d.get(key) or "")`
  abbrev pub text_or_blank : String → Fields → Value
  text_or_blank key d = str (str_of repr (or_else (get_or key null d) (str "")))

  abbrev source_entry_keys : List String
  source_entry_keys = "source_entry_id" ∷ "source_form_id" ∷ "entry_id" ∷ "form_id" ∷ []

  -- `_jdy_writeback_fields`. The two secrets go back only to one form.
  unfoldable pub jdy_writeback_fields : Fields → Fields → Fields
  jdy_writeback_fields context source =
      let jdy = part_of "jdy" context in
      let wecom = part_of "wecom" context in
      field "secret_corp_id" (text_or_blank "corp_secret_id" jdy) (
        field "home_url" (text_or_blank "homeurl" wecom) (
          field "webhook_url" (text_or_blank "callbackurl" wecom) (
            if first_text repr source source_entry_keys == "5e4ba3a09c38890006fbdf71"
            then field "wx_token" (text_or_blank "token" wecom)
                (field "wx_key" (text_or_blank "encoding_aes_key" wecom) end)
            else end)))

  -- _already_completed_result
  unfoldable pub already_completed_result : Texts → Fields → Fields → Fields
  unfolding jdy_writeback_fields
  already_completed_result texts existing source =
      let wecom = part_of "wecom" existing in
      update
        (field "mode" (str "unattended_write") (
          field "status" (str "already_completed") (
            field "reason" (str "context_already_has_successful_auditorder") (
              field "context_file" (str texts.context_file) (
                field "wecom"
                  (obj (
                    field "auditorderid" (str (str_of repr (get_or "auditorderid" (str "") wecom)))
                      (field "auditorder_status" (get_or "auditorder_status" null wecom) end)))
                  (field "context" (redact_context (obj existing)) end))))))
        (jdy_writeback_fields existing source)

  -- `_success_result`, with the context as it was written last and the status of the order.
  unfoldable pub success_result :
      Texts
      → Fields
      → Fields
      → JdyWecomBindResult
      → JdyWecomBindResult
      → Value
      → Fields
      → Fields
      → Fields
  unfolding jdy_writeback_fields put_redacted
  success_result texts preflight context start submitted status metadata source =
      put_redacted metadata (
        update
          (field "mode" (str "unattended_write") (
            field "status" (str submitted.status) (
              field "preflight" (redact_context (obj preflight)) (
                field "context_file" (str texts.context_file) (
                  field "wecom"
                    (obj (
                      field "auditorderid"
                        (get_or "auditorderid" (str "") (part_of "wecom" context))
                        (field "auditorder_status" status end)))
                    (field "start_result"
                      (obj (
                        field "status" (str start.status) (
                          field "next_check_at"
                            (elim start.next_check_at [ none ↦ null | some t ↦ str t ])
                            (field "context" (redact_context (obj context)) end))))
                      (field "submit_result"
                        (obj (
                          field "status" (str submitted.status)
                            (field "context" (redact_context (obj submitted.context)) end)))
                        end)))))))
          (jdy_writeback_fields context source))
