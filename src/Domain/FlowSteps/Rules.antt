-- ===== src/Domain/FlowSteps/Rules.antt =====
-- What `validate_steps` lets through: steps that can be run, and that pass the checks again.
use rpa_group.Prelude.{
  ℕ, suc, String, ◌≡◌, ◌≢◌, refl, ap, subst, ◌∙◌, Bool, true, some, List, [], ◌∷◌, Result, ok, err,
  ◌>>=◌, >>=-eq-ok, ok_injective,
}
use rpa_group.Prelude.Value.{Value, bool, arr, obj, Items, nil, cons, Fields, end, get_or, truthy}
use rpa_group.Domain.FlowSteps.{
  save_step, required_text, normalize_step, normalize_steps, validate_steps,
}
use rpa_group.Domain.FlowSteps.Steps.{
  IsRunnable, AllRunnable, none_left, one_more, required_text_sound, required_text_kept,
  save_step_parts, get-saved, is_obj-fields_of, fields_of, save_step_kept,
}

module _ (repr : Value → String) where
  -- The three texts that a step which was accepted had, and the rest of the tests.
  normalize_step_parts :
      (enforce : Bool) (seen : List String) (index : ℕ) (step : Fields) (r : String × Fields)
      → normalize_step repr enforce seen index step ≡ ok r
      → (key : String) × (name : String) × (action : String) × (required_text repr step "key" index
          ≡ ok key)
        × (required_text repr step "name" index ≡ ok name)
        × (required_text repr step "action" index ≡ ok action)
        × (save_step enforce seen step key name action ≡ ok r)
  unfolding normalize_step
  normalize_step_parts enforce seen index step r h =
      go (required_text repr step "key" index) (required_text repr step "name" index)
        (required_text repr step "action" index) h
    where
      go :
          (k n a : Result String)
          → (k >>= λ key. n >>= λ name. a >>= λ action. save_step enforce seen step key name action)
            ≡ ok r
          → (key : String) × (name : String) × (action : String) × (k ≡ ok key)
            × (n ≡ ok name)
            × (a ≡ ok action)
            × (save_step enforce seen step key name action ≡ ok r)
      go (ok key) (ok name) (ok action) e = (key, name, action, refl, refl, refl, e)
      go (ok key) (ok name) (err x) e = cc
      go (ok key) (err x) a e = cc
      go (err x) n a e = cc

  normalize_step-IsRunnable :
      (enforce : Bool) (seen : List String) (index : ℕ) (step : Fields) (r : String × Fields)
      → normalize_step repr enforce seen index step ≡ ok r
      → IsRunnable enforce seen r.0 r.1
  normalize_step-IsRunnable enforce seen index step r h =
      let (key, name, action, ek, en, ea, e) = normalize_step_parts enforce seen index step r h in
      let (same, is_config, known, fresh) = save_step_parts enforce seen step key name action r e in
      let config = get_or "config" (obj end) step in
      let enabled = truthy (get_or "enabled" (bool true) step) in
      let kept = get-saved step key name action config enabled in
      let (full_key, flat_key) = required_text_sound repr step "key" index key ek in
      let (full_name, flat_name) = required_text_sound repr step "name" index name en in
      let (full_action, flat_action) = required_text_sound repr step "action" index action ea in
      rw same (record {
        has_key = (kept "key", full_key, flat_key);
        new_key = fresh;
        name = name;
        has_name = (kept "name", full_name, flat_name);
        action = action;
        has_action = (kept "action", full_action, flat_action);
        known_action = known;
        config = fields_of config;
        has_config = kept "config" ∙ ap some (is_obj-fields_of config is_config);
        enabled = enabled;
        has_enabled = kept "enabled";
      })

  normalize_steps-AllRunnable :
      (enforce : Bool) (seen : List String) (index : ℕ) (steps out : Items)
      → normalize_steps repr enforce seen index steps ≡ ok out
      → AllRunnable enforce seen out
  unfolding normalize_steps
  normalize_steps-AllRunnable enforce seen index nil out h =
      subst (AllRunnable enforce seen) (ok_injective h) none_left
  normalize_steps-AllRunnable enforce seen index (cons (obj step) rest) out h =
      let next =
        λ (r : String × Fields). normalize_steps repr enforce (r.0 ∷ seen) (suc index) rest in
      let (r, e, h') =
        >>=-eq-ok (normalize_step repr enforce seen index step)
          (λ r. next r >>= λ later. ok (cons (obj r.1) later)) h in
      let (later, e', same) = >>=-eq-ok (next r) (λ later. ok (cons (obj r.1) later)) h' in
      subst (AllRunnable enforce seen) (ok_injective same) (
        one_more r.0 r.1 (normalize_step-IsRunnable enforce seen index step r e)
          (normalize_steps-AllRunnable enforce (r.0 ∷ seen) (suc index) rest later e'))
  normalize_steps-AllRunnable enforce seen index (cons _ rest) out h = cc

  -- A step that can be run is left as it is.
  normalize_step_kept :
      {enforce : Bool} {seen : List String} {key : String} {step : Fields} (index : ℕ)
      → IsRunnable enforce seen key step
      → normalize_step repr enforce seen index step ≡ ok (key, step)
  unfolding normalize_step
  normalize_step_kept {enforce} {seen} {key} {step} index r =
      rw
        (
          required_text_kept repr step "key" index key r.has_key,
          required_text_kept repr step "name" index r.name r.has_name,
          required_text_kept repr step "action" index r.action r.has_action,
        )
        (save_step_kept r)

  normalize_steps_kept :
      {enforce : Bool} {seen : List String} {steps : Items} (index : ℕ)
      → AllRunnable enforce seen steps
      → normalize_steps repr enforce seen index steps ≡ ok steps
  unfolding normalize_steps
  normalize_steps_kept index none_left = refl
  normalize_steps_kept {enforce} {seen} index (one_more {rest = rest} key step r rs) =
      rw (normalize_step_kept index r) (rw (normalize_steps_kept (suc index) rs))

  not_cons :
      (enforce : Bool) (seen : List String) (index : ℕ) (v : Value) (vs : Items)
      → normalize_steps repr enforce seen index (cons v vs) ≢ ok nil
  unfolding normalize_steps
  not_cons enforce seen index (obj step) rest h =
      let next =
        λ (r : String × Fields). normalize_steps repr enforce (r.0 ∷ seen) (suc index) rest in
      let (r, e, h') =
        >>=-eq-ok (normalize_step repr enforce seen index step)
          (λ r. next r >>= λ later. ok (cons (obj r.1) later)) h in
      let (later, e', same) = >>=-eq-ok (next r) (λ later. ok (cons (obj r.1) later)) h' in cc
  not_cons enforce seen index _ rest h = cc

  normalize_steps_cons :
      (enforce : Bool) (seen : List String) (index : ℕ) (v : Value) (vs out : Items)
      → normalize_steps repr enforce seen index (cons v vs) ≡ ok out
      → out ≢ nil
  normalize_steps_cons enforce seen index v vs out h e =
      not_cons enforce seen index v vs (h ∙ ap ok e)

  validate_runnable :
      (enforce : Bool) (steps : Items)
      → steps ≢ nil
      → AllRunnable enforce [] steps
      → validate_steps repr (arr steps) enforce ≡ ok steps
  unfolding validate_steps
  validate_runnable enforce nil some_step runnable = absurd (some_step refl)
  validate_runnable enforce (cons v vs) some_step runnable = normalize_steps_kept 1 runnable

  -- What `validate_steps` returns can be run: at least one step; every step is a dict with a key, a
  -- name and an action that are not blank and have no space around them, with a dict as its config
  -- and a Boolean as its enabled flag; no two steps have one key; and if the allowlist is enforced
  -- every action is on it.
  pub validate_steps-AllRunnable :
      (steps : Value) (enforce : Bool) (out : Items)
      → validate_steps repr steps enforce ≡ ok out
      → (out ≢ nil) × AllRunnable enforce [] out
  unfolding validate_steps
  validate_steps-AllRunnable (arr (cons v vs)) enforce out h = (
    normalize_steps_cons enforce [] 1 v vs out h,
    normalize_steps-AllRunnable enforce [] 1 (cons v vs) out h,
  )
  validate_steps-AllRunnable _ enforce out h = cc

  -- Steps that the checks have let through pass them again, unchanged.
  pub validate_steps_idem :
      (steps : Value) (enforce : Bool) (out : Items)
      → validate_steps repr steps enforce ≡ ok out
      → validate_steps repr (arr out) enforce ≡ ok out
  validate_steps_idem steps enforce out h =
      let (some_step, runnable) = validate_steps-AllRunnable steps enforce out h in
      validate_runnable enforce out some_step runnable
