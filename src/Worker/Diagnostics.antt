-- ===== src/Worker/Diagnostics.antt =====
-- rpa_platform/worker/diagnostics.py. What the five regular expressions of `_redact_string` make of a
-- text is the argument `substitute`.
pub mod Sanitized
use rpa_group.Prelude.{
  ℕ, String, Bool, true, false, Option, none, some, List, [], ◌∷◌, ◌++◌, ◌==◌, if◌then◌else◌,
  one_of, join2, prefix, chars, ltb, value_error, Error, Result, ok, err, ◌>>=◌, ◌>>◌,
}
use rpa_group.Prelude.Text.Lower.{lower}
use rpa_group.Prelude.Value.{
  Value, null, bool, int, str, arr, obj, Items, nil, cons, Fields, end, field, get_or, put, str_of,
  ℤ, pos,
}

-- SENSITIVE_FIELD_NAMES
abbrev pub sensitive_field_names : List String
sensitive_field_names =
    "api-key" ∷ "api_key" ∷ "authorization" ∷ "cookie" ∷ "cookies" ∷ "encoding_aes_key"
    ∷ "encodingaeskey" ∷ "headers" ∷ "kitsecret" ∷ "monitor" ∷ "password" ∷ "secret" ∷ "sid"
    ∷ "token" ∷ "vst" ∷ []

abbrev pub is_sensitive : String → Bool
is_sensitive key = one_of (lower key) sensitive_field_names

-- `_iter_sensitive_keys`, as the list of what it yields.
unfoldable mutual
  pub iter_sensitive_keys : Value → List String
  iter_sensitive_keys (obj d) = keys_of_fields d
  iter_sensitive_keys (arr vs) = keys_of_items vs
  iter_sensitive_keys null = []
  iter_sensitive_keys (bool b) = []
  iter_sensitive_keys (int n) = []
  iter_sensitive_keys (str s) = []

  pub keys_of_fields : Fields → List String
  keys_of_fields end = []
  keys_of_fields (field key child d) =
      (if is_sensitive key then lower key ∷ [] else [])
      ++ (iter_sensitive_keys child ++ keys_of_fields d)

  pub keys_of_items : Items → List String
  keys_of_items nil = []
  keys_of_items (cons v vs) = iter_sensitive_keys v ++ keys_of_items vs

abbrev pub no_key : List String → Result (Unit {0})
no_key [] = ok tt
no_key (key ∷ keys) = err (value_error (join2 "Diagnostic payload contains sensitive key: " key))

unfoldable pub ensure_diagnostic_payload_safe : Fields → Result (Unit {0})
ensure_diagnostic_payload_safe payload = no_key (iter_sensitive_keys (obj payload))

module _ (substitute : String → String) where
  -- The end of `_redact_string`.
  unfoldable pub redact_string : String → String
  redact_string value =
      let redacted = substitute value in
      if ltb 500 (chars redacted) then join2 (prefix 500 redacted) "...[truncated]" else redacted

  -- `_sanitize_value`. The keys of a dict are texts, which str() keeps.
  unfoldable mutual
    pub sanitize_value : Value → Value
    sanitize_value (obj d) = obj (sanitize_fields d)
    sanitize_value (arr vs) = arr (sanitize_items vs)
    sanitize_value (str s) = str (redact_string s)
    sanitize_value null = null
    sanitize_value (bool b) = bool b
    sanitize_value (int n) = int n

    pub sanitize_items : Items → Items
    sanitize_items nil = nil
    sanitize_items (cons v vs) = cons (sanitize_value v) (sanitize_items vs)

    pub sanitize_fields : Fields → Fields
    sanitize_fields end = end
    sanitize_fields (field key child d) = field key (sanitize_value child) (sanitize_fields d)

  unfoldable pub sanitize_diagnostic_payload : Fields → Result Fields
  sanitize_diagnostic_payload payload =
      ensure_diagnostic_payload_safe payload >> ok (sanitize_fields payload)

  -- One key of `_clean_error`: what is None is left out.
  clean_entry : (Value → String) → String → Fields → Fields → Fields
  clean_entry repr key error rest = elim (get_or key null error) [
    | null ↦ rest
    | v ↦
        field key (str (if key == "message" then redact_string (str_of repr v) else str_of repr v))
          rest
  ]

  unfoldable pub clean_error : (Value → String) → Fields → Fields
  unfolding clean_entry
  clean_error repr error = clean_entry repr "at" error (
      clean_entry repr "error_type" error
        (clean_entry repr "step_key" error (clean_entry repr "message" error end)))

  clean_errors : (Value → String) → List Fields → Items
  clean_errors repr [] = nil
  clean_errors repr (e ∷ es) = cons (obj (clean_error repr e)) (clean_errors repr es)

-- The arguments of `build_diagnostic_summary`; the ones that may be None are values.
pub record SummaryInput : Type 0 where
  pub machine_id : String
  pub robot_id : String
  pub task_id : Value
  pub mode : String
  pub hostname : String
  pub session_name : String
  pub interactive_desktop : Bool
  pub screen_resolution : String
  pub display_scaling : String
  pub pid : ℕ
  pub service_version : String
  pub started_at : String
  pub current_task_id : Value
  pub wss_connected : Bool
  pub last_heartbeat_at : Value
  pub log_path : String
  pub artifact_dir : String
  pub sqlite_path : String
  pub recent_errors : List Fields

unfoldable pub build_diagnostic_summary :
    (String → String) → (Value → String) → String → SummaryInput → Result Fields
unfolding clean_errors
build_diagnostic_summary substitute repr uuid i = sanitize_diagnostic_payload substitute (
    field "diagnostic_id" (str (join2 "diag_" uuid)) (
      field "machine_id" (str i.machine_id) (
        field "robot_id" (str i.robot_id) (
          field "task_id" i.task_id (
            field "mode" (str i.mode) (
              field "windows"
                (obj (
                  field "hostname" (str i.hostname) (
                    field "session_name" (str i.session_name) (
                      field "interactive_desktop" (bool i.interactive_desktop) (
                        field "screen_resolution" (str i.screen_resolution)
                          (field "display_scaling" (str i.display_scaling) end))))))
                (field "worker"
                  (obj (
                    field "pid" (int (pos i.pid)) (
                      field "service_version" (str i.service_version) (
                        field "started_at" (str i.started_at)
                          (field "current_task_id" i.current_task_id end)))))
                  (field "network"
                    (obj (
                      field "wss_connected" (bool i.wss_connected)
                        (field "last_heartbeat_at" i.last_heartbeat_at end)))
                    (field "local_refs"
                      (obj (
                        field "log_path_hint" (str i.log_path) (
                          field "artifact_dir_hint" (str i.artifact_dir)
                            (field "sqlite_path_hint" (str i.sqlite_path) end))))
                      (field "recent_errors" (arr (clean_errors substitute repr i.recent_errors))
                        end))))))))))
