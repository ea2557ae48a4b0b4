-- ===== src/Domain/FlowSteps/Steps.antt =====
-- A step that a runner can take, and what the checks of one step find.
use rpa_group.Prelude.{
  ℕ, String, ◌≡◌, refl, sym, ap, ap₂, ◌∙◌, Bool, true, false, ◌&&◌, not, Option, none, some, List,
  ◌∷◌, arith, if◌then◌else◌, is_empty, strip, one_of, ◌==◌, ok, ◌>>◌, ok_injective,
}
use rpa_group.Prelude.Text.Strip.{strip_idem}
use rpa_group.Prelude.Value.{
  Value, null, bool, int, str, arr, obj, Items, nil, cons, Fields, end, get, get_or, is_obj, truthy,
  str_of,
}
use rpa_group.Prelude.Value.Dicts.{get-put, put_same, get_or_found}
use rpa_group.Domain.FlowSteps.{
  allowed_actions, raise_if, save_step, saved, required_value, required_text,
}

-- The step holds a text under `name` that is not blank and has no space around it.
abbrev pub HasText : Fields → String → String → Type 0
HasText step name s = (get name step ≡ some (str s)) × (is_empty s ≡ false) × (strip s ≡ s)

-- A step that a runner can take, with `key` its key; `seen` are the keys of the steps before it.
pub record IsRunnable (enforce : Bool) (seen : List String) (key : String) (step : Fields)
    : Type 0 where
  pub has_key : HasText step "key" key
  pub new_key : one_of key seen ≡ false
  pub name : String
  pub has_name : HasText step "name" name
  pub action : String
  pub has_action : HasText step "action" action
  pub known_action : enforce ≡ true → one_of action allowed_actions ≡ true
  pub config : Fields
  pub has_config : get "config" step ≡ some (obj config)
  pub enabled : Bool
  pub has_enabled : get "enabled" step ≡ some (bool enabled)

-- Every step can be run, and no key stands twice.
pub data AllRunnable (enforce : Bool) : List String → Items → Type 0 where
  none_left : {seen : List String} → AllRunnable enforce seen nil
  one_more :
      {seen : List String} {rest : Items} (key : String) (step : Fields)
      → IsRunnable enforce seen key step
      → AllRunnable enforce (key ∷ seen) rest
      → AllRunnable enforce seen (cons (obj step) rest)

module _ (repr : Value → String) where
  pub required_value_sound :
      (v : Option Value) (name : String) (index : ℕ) (s : String)
      → required_value repr v name index ≡ ok s
      → (is_empty s ≡ false) × (strip s ≡ s)
  unfolding required_value
  required_value_sound none name index s h = cc
  required_value_sound (some null) name index s h = cc
  required_value_sound (some v) name index s h = ground (arith, strip_idem (str_of repr v))

  -- A text that is trimmed already is what `required_text` returns.
  pub required_text_kept :
      (step : Fields) (name : String) (index : ℕ) (s : String)
      → HasText step name s
      → required_text repr step name index ≡ ok s
  unfolding required_text required_value str_of
  required_text_kept step name index s h = rw (h.0, h.2, h.1)

  pub required_text_sound :
      (step : Fields) (name : String) (index : ℕ) (s : String)
      → required_text repr step name index ≡ ok s
      → (is_empty s ≡ false) × (strip s ≡ s)
  unfolding required_text
  required_text_sound step name index s h = required_value_sound (get name step) name index s h

abbrev pub fields_of : Value → Fields
fields_of (obj d) = d
fields_of _ = end

-- A value that is reached behind three tests: none of them has raised.
pub three_tests {ℓ} :
    {A : Type ℓ} (a b c : Bool) (m n o : String) (x r : A)
    → (raise_if a m >> (raise_if b n >> (raise_if c o >> ok x))) ≡ ok r
    → (a ≡ false) × (b ≡ false) × (c ≡ false) × (r ≡ x)
unfolding raise_if
three_tests true b c m n o x r h = cc
three_tests false true c m n o x r h = cc
three_tests false false true m n o x r h = cc
three_tests false false false m n o x r h = (refl, refl, refl, sym (ok_injective h))

pub allowed_of_test :
    (enforce known : Bool) → (enforce && not known) ≡ false → enforce ≡ true → known ≡ true
allowed_of_test enforce known h e = ground arith

pub test_of_allowed :
    (enforce known : Bool) → (enforce ≡ true → known ≡ true) → (enforce && not known) ≡ false
test_of_allowed enforce known h = ground arith

pub not-false : (b : Bool) → not b ≡ false → b ≡ true
not-false b h = ground arith

-- What the tests of `save_step` have found in a step that they pass.
pub save_step_parts :
    (enforce : Bool) (seen : List String) (step : Fields) (key name action : String)
    (r : String × Fields)
    → save_step enforce seen step key name action ≡ ok r
    → let config = get_or "config" (obj end) step in
      (r ≡ (key, saved step key name action config (truthy (get_or "enabled" (bool true) step))))
      × (is_obj config ≡ true)
      × (enforce ≡ true → one_of action allowed_actions ≡ true)
      × (one_of key seen ≡ false)
unfolding save_step
save_step_parts enforce seen step key name action r h =
    let (known, fresh, is_config, same) =
      three_tests (enforce && not (one_of action allowed_actions)) (one_of key seen)
        (not (is_obj (get_or "config" (obj end) step))) _ _ _ _ r h in
    (same, not-false _ is_config, allowed_of_test enforce _ known, fresh)

pub is_obj-fields_of : (v : Value) → is_obj v ≡ true → v ≡ obj (fields_of v)
is_obj-fields_of (obj d) h = refl
is_obj-fields_of null h = cc
is_obj-fields_of (bool b) h = cc
is_obj-fields_of (int n) h = cc
is_obj-fields_of (str s) h = cc
is_obj-fields_of (arr vs) h = cc

-- The reads of a step that has been saved.
module _ (step : Fields) (key name action : String) (config : Value) (enabled : Bool) where
  pub get-saved :
      (j : String)
      → get j (saved step key name action config enabled) ≡ (
          if "enabled" == j
          then some (bool enabled)
          else if "config" == j
          then some config
          else if "action" == j
          then some (str action)
          else if "name" == j
          then some (str name)
          else if "key" == j
          then some (str key)
          else get j step)
  unfolding saved
  get-saved j = simp get-put

pub tests_pass {ℓ} :
    {A : Type ℓ} (a b c : Bool) (m n o : String) (x : A)
    → a ≡ false
    → b ≡ false
    → c ≡ false
    → (raise_if a m >> (raise_if b n >> (raise_if c o >> ok x))) ≡ ok x
unfolding raise_if
tests_pass a b c m n o x ha hb hc = rw (ha, hb, hc)

-- Writing the five entries once more changes nothing.
pub saved_same :
    {enforce : Bool} {seen : List String} {key : String} {step : Fields}
    (r : IsRunnable enforce seen key step)
    → saved step key r.name r.action (obj r.config) r.enabled ≡ step
unfolding saved
saved_same {key = key} {step = step} r = rw (
  put_same "key" (str key) step r.has_key.0,
  put_same "name" (str r.name) step r.has_name.0,
  put_same "action" (str r.action) step r.has_action.0,
  put_same "config" (obj r.config) step r.has_config,
  put_same "enabled" (bool r.enabled) step r.has_enabled,
)

pub save_step_kept :
    {enforce : Bool} {seen : List String} {key : String} {step : Fields}
    (r : IsRunnable enforce seen key step)
    → save_step enforce seen step key r.name r.action ≡ ok (key, step)
unfolding save_step
save_step_kept {enforce} {seen} {key} {step} r =
    let is_config = get_or_found "config" (obj end) (obj r.config) step r.has_config in
    let is_enabled = get_or_found "enabled" (bool true) (bool r.enabled) step r.has_enabled in
    tests_pass (enforce && not (one_of r.action allowed_actions)) (one_of key seen)
      (not (is_obj (get_or "config" (obj end) step))) _ _ _ _
      (test_of_allowed enforce _ r.known_action) r.new_key (ap (λ v. not (is_obj v)) is_config)
    ∙ ap₂ (λ c b. ok (key, saved step key r.name r.action c (truthy b))) is_config is_enabled
    ∙ ap (λ d. ok (key, d)) (saved_same r)
