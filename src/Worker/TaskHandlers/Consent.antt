-- ===== src/Worker/TaskHandlers/Consent.antt =====
-- When a handler that writes is called.
use rpa_group.Prelude.{
  String, Bool, false, ◌||◌, Option, [], ◌∷◌, one_of, strip, Option-cases, ◌&&◌, ◌≡◌, refl, none,
  some, ◌==◌, eq_iff, if◌then◌else◌, Bool-cases, inl, inr,
}
use rpa_group.Prelude.Text.Lower.{lower}
use rpa_group.Prelude.Value.{Value, null, bool, int, str, arr, obj, Fields, get_or, str_of}
use rpa_group.Worker.Dispatch.{task_type, payload_of}
use rpa_group.Worker.LoginRecovery.Config.{Env}
use rpa_group.Worker.TaskHandlers.{
  Handler, is_on, is_unattended_write_enabled, bind_handler, handle_task,
}

-- A value that means yes: `true`, or a text or number that reads 1, true, yes or on.
abbrev pub says_yes : (Value → String) → Value → Bool
says_yes repr (bool b) = b
says_yes repr null = false
says_yes repr v = one_of (lower (strip (str_of repr v))) ("1" ∷ "true" ∷ "yes" ∷ "on" ∷ [])

-- A variable of the environment, null where it is not set.
abbrev pub setting : Option String → Value
setting none = null
setting (some s) = str s

module _ (substitute : String → String) (repr : Value → String) where
  is_on_lem : (v : Value) → is_on substitute repr v ≡ says_yes repr v
  unfolding is_on
  is_on_lem null = refl
  is_on_lem (bool b) = refl
  is_on_lem (int i) = refl
  is_on_lem (str s) = refl
  is_on_lem (arr vs) = refl
  is_on_lem (obj fs) = refl

  is_unattended_write_enabled_lem :
      (env : Env) (payload : Fields)
      → is_unattended_write_enabled substitute repr env payload ≡ (
          says_yes repr (setting (env "RPA_WORKER_ALLOW_UNATTENDED_WRITE"))
          && (says_yes repr (get_or "unattended_write" null payload)
              || says_yes repr (get_or "confirm_write" null payload)))
  unfolding is_unattended_write_enabled
  is_unattended_write_enabled_lem env payload =
      elim (Option-cases (env "RPA_WORKER_ALLOW_UNATTENDED_WRITE")) [
        | inl e ↦ rw e refl
        | inr (s, e) ↦
            rw
              (
                e,
                is_on_lem (str s),
                is_on_lem (get_or "unattended_write" null payload),
                is_on_lem (get_or "confirm_write" null payload),
              )
              refl
      ]

-- The handler that writes is called exactly for a binding for which the environment says yes under
-- RPA_WORKER_ALLOW_UNATTENDED_WRITE and the payload says yes under unattended_write or confirm_write.
-- In every other case the dispatch is handled as if there were no such handler.
pub handle_task_lem :
    (substitute : String → String) (repr : Value → String) (diagnostics : Fields)
    (attended unattended : Handler) (env : Env) (dispatch : Fields)
    → handle_task substitute repr diagnostics attended (some unattended) env dispatch ≡ (
        if (task_type repr dispatch == "wecom_bind_service")
          && (says_yes repr (setting (env "RPA_WORKER_ALLOW_UNATTENDED_WRITE"))
              && (says_yes repr (get_or "unattended_write" null (payload_of dispatch))
                  || says_yes repr (get_or "confirm_write" null (payload_of dispatch))))
        then unattended dispatch
        else handle_task substitute repr diagnostics attended none env dispatch)
unfolding handle_task bind_handler
handle_task_lem substitute repr diagnostics attended unattended env dispatch =
    elim (Bool-cases (task_type repr dispatch == "wecom_bind_service")) [
      | inl e ↦
          elim (Bool-cases
            (is_unattended_write_enabled substitute repr env (payload_of dispatch))) [
              | inl k ↦
                  rw
                    (
                      (eq_iff (task_type repr dispatch) "wecom_bind_service").0 e,
                      ← is_unattended_write_enabled_lem substitute repr env (payload_of dispatch),
                      k,
                    )
                    refl
              | inr k ↦
                  rw
                    (
                      (eq_iff (task_type repr dispatch) "wecom_bind_service").0 e,
                      ← is_unattended_write_enabled_lem substitute repr env (payload_of dispatch),
                      k,
                    )
                    refl
            ]
      | inr e ↦ rw e refl
    ]
