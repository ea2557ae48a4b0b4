-- ===== src/Protocol/Envelopes.antt =====
-- rpa_platform/worker/websocket_protocol.py. The keys of a dict are texts, as in every JSON document.
pub mod Safety
use rpa_group.Prelude.{
  String, Bool, true, false, not, ◌&&◌, ◌||◌, Option, none, some, List, [], ◌∷◌, ◌==◌,
  if◌then◌else◌, is_empty, one_of, has_infix, join2, join_with, Error, value_error, Result, ok, err,
  ◌>>=◌, ◌>>◌,
}
use rpa_group.Prelude.Text.Lower.{lower}
use rpa_group.Prelude.Value.{
  Value, null, bool, int, str, arr, obj, Items, nil, cons, Fields, end, field, get_or, has_key,
  is_obj,
}

abbrev pub sensitive_keys : List String
sensitive_keys =
    "api-key" ∷ "api_key" ∷ "authorization" ∷ "cookie" ∷ "cookies" ∷ "encoding_aes_key"
    ∷ "encodingaeskey" ∷ "headers" ∷ "kitsecret" ∷ "monitor" ∷ "password" ∷ "secret" ∷ "sid"
    ∷ "token" ∷ "vst" ∷ []

abbrev pub safe_key_exceptions : List String
safe_key_exceptions = "idempotency_key" ∷ "step_key" ∷ "task_id" ∷ []

unfoldable pub is_sensitive_key : String → Bool
is_sensitive_key key =
    let normalized = lower key in
    if one_of normalized safe_key_exceptions
    then false
    else one_of normalized sensitive_keys
      || has_infix normalized "secret"
      || has_infix normalized "token"

unfoldable mutual
  pub contains_sensitive_key : Value → Bool
  contains_sensitive_key (obj d) = fields_contain d
  contains_sensitive_key (arr vs) = any_contains vs
  contains_sensitive_key null = false
  contains_sensitive_key (bool b) = false
  contains_sensitive_key (int n) = false
  contains_sensitive_key (str s) = false

  -- The loop over `value.items()`.
  pub fields_contain : Fields → Bool
  fields_contain end = false
  fields_contain (field key child d) =
      is_sensitive_key key || contains_sensitive_key child || fields_contain d

  -- any(… for item in value)
  pub any_contains : Items → Bool
  any_contains nil = false
  any_contains (cons v vs) = contains_sensitive_key v || any_contains vs

unfoldable pub refuse_sensitive : Fields → Result Fields
refuse_sensitive d =
    if contains_sensitive_key (obj d)
    then err (value_error "WebSocket envelope contains sensitive keys")
    else ok d

unfoldable pub envelope : String → String → String → Fields → String → String → Fields
envelope message_type machine_id robot_id payload message_id sent_at =
    field "type" (str message_type) (
      field "message_id" (str message_id) (
        field "sent_at" (str sent_at) (
          field "machine_id" (str machine_id)
            (field "robot_id" (str robot_id) (field "payload" (obj payload) end)))))

unfoldable pub build_envelope : String → String → String → Fields → String → String → Result Fields
unfolding envelope refuse_sensitive
build_envelope message_type machine_id robot_id payload message_id sent_at =
    refuse_sensitive (envelope message_type machine_id robot_id payload message_id sent_at)

abbrev pub required_fields : List String
required_fields = "type" ∷ "message_id" ∷ "sent_at" ∷ "machine_id" ∷ "robot_id" ∷ "payload" ∷ []

unfoldable pub missing_fields : List String → Fields → List String
missing_fields [] raw = []
missing_fields (k ∷ ks) raw =
    let rest = missing_fields ks raw in if has_key k raw then rest else k ∷ rest

unfoldable pub require_none : List String → Result (Unit {0})
require_none [] = ok tt
require_none (k ∷ ks) =
    err (value_error (join2 "Missing envelope fields: " (join_with ", " (k ∷ ks))))

unfoldable pub require_object : Bool → Result (Unit {0})
require_object true = ok tt
require_object false = err (value_error "Envelope payload must be an object")

unfoldable pub parse_envelope : Fields → Result Fields
unfolding require_none require_object refuse_sensitive
parse_envelope raw = do
  require_none (missing_fields required_fields raw)
  require_object (is_obj (get_or "payload" null raw))
  refuse_sensitive raw

-- WorkerRegisterPayload, and its to_dict.
pub record WorkerRegisterPayload : Type 0 where
  pub hostname : String
  pub service_version : String
  pub capabilities : Fields
  pub login_health : Fields
  pub current_task : Value

unfoldable pub to_dict : WorkerRegisterPayload → Fields
to_dict p = field "hostname" (str p.hostname) (
    field "service_version" (str p.service_version) (
      field "capabilities" (obj p.capabilities)
        (field "login_health" (obj p.login_health) (field "current_task" p.current_task end))))
