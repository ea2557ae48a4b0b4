-- ===== src/Domain/FlowSteps.antt =====
-- rpa_platform/domain/flow_steps.py: the checks that a list of steps passes before it is saved.
pub mod Steps
pub mod Rules
use rpa_group.Prelude.{
  ℕ, zero, suc, String, ◌≡◌, refl, Bool, true, false, ◌&&◌, not, Option, none, some, List, [], ◌∷◌,
  ◌==◌, if◌then◌else◌, is_empty, join2, strip, one_of, Error, flow_step_error, Result, ok, err,
  ◌>>=◌, ◌>>◌,
}
use rpa_group.Prelude.Value.{
  Value, null, bool, int, str, arr, obj, Items, nil, cons, Fields, end, field, get, get_or, put,
  is_obj, truthy, show_ℕ, str_of,
}

-- ALLOWED_ACTIONS
abbrev pub allowed_actions : List String
allowed_actions =
    "receive_webhook" ∷ "open_url" ∷ "click" ∷ "derive_urls" ∷ "browser_use_task"
    ∷ "jdy_resolve_corp" ∷ "derive_wecom_urls" ∷ "wecom_configure_app" ∷ "jdy_check_owner"
    ∷ "jdy_install_bind" ∷ "wecom_submit_review" ∷ "wecom_wait_review" ∷ "wecom_submit_online"
    ∷ "jdy_wecom_bind_service" ∷ "wecom_wait_online_delay" ∷ "wecom_submit_online_order" ∷ []

-- The message about a field of the step with that index.
abbrev pub step_message : ℕ → String → String → String
step_message index what name = join2 "step " (join2 (show_ℕ index) (join2 what name))

unfoldable pub raise_if : Bool → String → Result (Unit {0})
raise_if true message = err (flow_step_error message)
raise_if false message = ok tt

-- The five assignments to `normalized_step`.
unfoldable pub saved : Fields → String → String → String → Value → Bool → Fields
saved step key name action config enabled = put "enabled" (bool enabled) (
    put "config" config
      (put "action" (str action) (put "name" (str name) (put "key" (str key) step))))

-- The loop's body from the test of the action on.
unfoldable pub save_step :
    Bool → List String → Fields → String → String → String → Result (String × Fields)
unfolding raise_if
save_step enforce seen step key name action = do
  raise_if (enforce && not (one_of action allowed_actions)) (join2 "unknown action: " action)
  raise_if (one_of key seen) (join2 "duplicate step key: " key)
  let config = get_or "config" (obj end) step
  raise_if (not (is_obj config)) (join2 "step " (join2 key " config must be an object"))
  ok (key, saved step key name action config (truthy (get_or "enabled" (bool true) step)))

module _ (repr : Value → String) where
  -- _required_text: `step.get(field)` gives None for a missing key and for a null alike.
  unfoldable pub required_value : Option Value → String → ℕ → Result String
  required_value none name index =
      err (flow_step_error (step_message index " missing required field: " name))
  required_value (some null) name index =
      err (flow_step_error (step_message index " missing required field: " name))
  required_value (some v) name index =
      let stripped = strip (str_of repr v) in
      if is_empty stripped
      then err (flow_step_error (step_message index " empty required field: " name))
      else ok stripped

  unfoldable pub required_text : Fields → String → ℕ → Result String
  unfolding required_value
  required_text step name index = required_value (get name step) name index

  -- The body of the loop for a step that is a dict: the step as it is saved, and its key.
  unfoldable pub normalize_step : Bool → List String → ℕ → Fields → Result (String × Fields)
  normalize_step enforce seen index step = do
    key ← required_text step "key" index
    name ← required_text step "name" index
    action ← required_text step "action" index
    save_step enforce seen step key name action

  -- The loop, with the keys seen so far and the number of the next step.
  unfoldable pub normalize_steps : Bool → List String → ℕ → Items → Result Items
  normalize_steps enforce seen index nil = ok nil
  normalize_steps enforce seen index (cons (obj step) rest) = do
    r ← normalize_step enforce seen index step
    later ← normalize_steps enforce (r.0 ∷ seen) (suc index) rest
    ok (cons (obj r.1) later)
  normalize_steps enforce seen index (cons _ rest) =
      err (flow_step_error "each step must be an object")

  unfoldable pub validate_steps : Value → Bool → Result Items
  validate_steps (arr (cons v vs)) enforce = normalize_steps enforce [] 1 (cons v vs)
  validate_steps _ enforce = err (flow_step_error "steps must be a non-empty list")
