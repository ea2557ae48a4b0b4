-- ===== src/Worker/TaskHandlers.antt =====
-- rpa_platform/worker/simulated_handlers.py and c360_task_handlers.py: which handler takes a dispatch.
-- What a handler gives is a WorkerTaskResult or another value.
pub mod Consent
use rpa_group.Prelude.{
  String, Bool, true, false, ◌&&◌, ◌||◌, Option, none, some, List, [], ◌∷◌, ◌==◌, if◌then◌else◌,
  one_of, join2, strip, value_error, Result, ok, err, ◌>>=◌,
}
use rpa_group.Prelude.Text.Lower.{lower}
use rpa_group.Prelude.Value.{Value, null, bool, str, obj, Fields, end, field, get_or, str_of}
use rpa_group.Worker.Dispatch.{task_type, payload_of, WorkerTaskResult}
use rpa_group.Worker.LoginRecovery.Config.{Env}
use rpa_group.Worker.Diagnostics.{sanitize_diagnostic_payload}

pub data Outcome : Type 0 where
  task_result : WorkerTaskResult → Outcome
  plain_result : Value → Outcome

abbrev pub Handler : Type 0
Handler = Fields → Result Outcome

module _ (substitute : String → String) (repr : Value → String) where
  -- SimulatedTaskHandlers.handle
  unfoldable pub handle_simulated : Fields → Handler
  handle_simulated diagnostics dispatch =
      let kind = task_type repr dispatch in
      if kind == "runtime_health_check"
      then ok (plain_result (obj (field "ok" (bool true) (field "simulated" (bool true) end))))
      else if kind == "diagnostics"
      then (sanitize_diagnostic_payload substitute diagnostics >>= λ safe.
          ok (plain_result (obj safe)))
      else if kind == "wecom_bind_service"
      then ok (
          plain_result
            (obj (field "simulated" (bool true) (field "handler" (str "wecom_bind_service") end))))
      else err (value_error (join2 "Unsupported task_type: " kind))

  -- `_truthy`
  unfoldable pub is_on : Value → Bool
  is_on (bool b) = b
  is_on null = false
  is_on v = one_of (lower (strip (str_of repr v))) ("1" ∷ "true" ∷ "yes" ∷ "on" ∷ [])

  abbrev env_is_on : Option String → Bool
  env_is_on none = false
  env_is_on (some s) = is_on (str s)

  unfoldable pub is_unattended_write_enabled : Env → Fields → Bool
  is_unattended_write_enabled env payload =
      env_is_on (env "RPA_WORKER_ALLOW_UNATTENDED_WRITE")
      && (is_on (get_or "unattended_write" null payload)
          || is_on (get_or "confirm_write" null payload))

  -- The handler of a binding: the one that writes needs the consent of the environment and of the
  -- payload.
  unfoldable pub bind_handler : Handler → Option Handler → Env → Fields → Handler
  bind_handler attended none env payload = attended
  bind_handler attended (some unattended) env payload =
      if is_unattended_write_enabled env payload then unattended else attended

  -- C360TaskHandlers.handle
  unfoldable pub handle_task : Fields → Handler → Option Handler → Env → Handler
  handle_task diagnostics attended unattended env dispatch =
      let kind = task_type repr dispatch in
      if one_of kind ("diagnostics" ∷ "runtime_health_check" ∷ [])
      then handle_simulated diagnostics dispatch
      else if kind == "wecom_bind_service"
      then bind_handler attended unattended env (payload_of dispatch) dispatch
      else err (value_error (join2 "Unsupported task_type: " kind))
