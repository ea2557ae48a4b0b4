-- ===== src/Worker/LoginRecovery.antt =====
-- rpa_platform/worker/wecom_login_recovery.py: the orchestrator. What it calls is an argument, the
-- n-th call of each kind having its own answer. The clock counts in whole seconds.
pub mod Sessions
pub mod Agreement
pub mod Config
pub mod Paths
pub mod Scans
pub mod Waiting
use rpa_group.Prelude.{
  ℕ, zero, suc, ◌+◌, ◌-◌, ◌/◌, String, Bool, true, false, not, ◌&&◌, ◌||◌, List, [], ◌∷◌, ◌++◌,
  ◌==◌, if◌then◌else◌, ltb, leb, is_empty, strip, join2, Option, none, some, value_error, Result,
  ok, err, class_name,
}
use rpa_group.Prelude.Logged.{Logged, pure, lift, call, ◌>>=◌, ◌>>◌}
use rpa_group.Prelude.Value.{
  Value, null, str, int, obj, Fields, end, field, get_or, put, ℤ, pos, negsuc, str_of,
}
use rpa_group.Integrations.Wecom.Answers.{is_text, dict_at}
use rpa_group.Worker.LoginRecovery.Sessions.{
  LoginSessionStatus, LoginSessionCheckResult, expired, restored, error,
}
use rpa_group.Worker.LoginRecovery.Config.{LoginRecoveryConfig, to_ℕ}

-- The calls of the orchestrator.
pub data Event : Type 0 where
  run_preflight capture_qr notify_qr refresh_session check_login close_qr : Event
  sleep : ℤ → Event

-- What they give. `refresh` is none where there is no refresher.
pub record World : Type 0 where
  pub preflight : ℕ → Result Fields
  pub capture : Result (Unit {0})
  pub now : ℤ
  pub notify : Result (Unit {0})
  pub refresh : Option (ℕ → Result Bool)
  pub check : ℕ → LoginSessionCheckResult

abbrev pub Runs : Type 0 → Type 0
Runs = Logged Event

-- _map_preflight_result
unfoldable pub map_preflight_result : Fields → Fields
map_preflight_result preflight =
    let status = get_or "status" null preflight in
    if is_text status "ok"
    then put "preflight" (obj preflight) (put "status" (str "ready_for_real_bind") preflight)
    else if is_text status "review"
    then put "preflight" (obj preflight) (put "status" (str "manual_confirm_required") preflight)
    else preflight

-- _next_login_recovery_action
unfoldable pub next_login_recovery_action : Bool → ℕ → ℕ → String → String
next_login_recovery_action qr_notify_enabled max_notify_times notify_attempts retry_action =
    if not qr_notify_enabled
    then "manual_scan_on_windows"
    else if ltb 0 max_notify_times && ltb notify_attempts max_notify_times
    then retry_action
    else "manual_escalation_required"

-- a + b on the integers, for the time of expiry.
abbrev pub plus : ℤ → ℤ → ℤ
plus (pos m) (pos n) = pos (m + n)
plus (pos m) (negsuc n) = if leb (suc n) m then pos (m - suc n) else negsuc (n - m)
plus (negsuc m) (pos n) = if leb (suc m) n then pos (n - suc m) else negsuc (m - n)
plus (negsuc m) (negsuc n) = negsuc (suc (m + n))

-- max(1, n)
abbrev pub at_least_one : ℕ → ℕ
at_least_one n = if ltb n 1 then 1 else n

-- `max(1, int(ttl / max(1, interval)))`; a quotient below zero is below one too.
abbrev pub attempts_of : LoginRecoveryConfig → ℕ
attempts_of config =
    at_least_one (to_ℕ config.ttl_seconds / at_least_one (to_ℕ config.poll_interval_seconds))

-- time.sleep
abbrev pub sleep_for : ℤ → Runs (Unit {0})
sleep_for (pos n) = call (sleep (pos n)) (ok tt)
sleep_for (negsuc n) =
    call (sleep (negsuc n)) (err (value_error "sleep length must be non-negative"))

module _ (repr : Value → String) (int_of : Value → Result ℤ) where
  -- One candidate of `_notify_attempts_from_context`.
  attempts_in : Value → Option ℕ
  attempts_in null = none
  attempts_in v =
      let given = strip (str_of repr v) in
      if is_empty given
      then none
      else elim (int_of (str given)) [ ok n ↦ some (to_ℕ n) | err e ↦ none ]

  abbrev first_of : Option ℕ → ℕ → ℕ
  first_of none n = n
  first_of (some m) n = m

  unfoldable pub notify_attempts_from_context : Fields → ℕ
  unfolding attempts_in
  notify_attempts_from_context context =
      first_of (attempts_in (get_or "notify_attempts" null context)) (
        first_of (attempts_in (get_or "wecom_login_notify_attempts" null context))
          (elim (dict_at "login_recovery" context) [
            | none ↦ 0
            | some recovery ↦ first_of (attempts_in (get_or "notify_attempts" null recovery)) 0
          ]))

module _ (config : LoginRecoveryConfig) (world : World) where
  abbrev refresh_failed : String → LoginSessionCheckResult
  refresh_failed name = record { status = error; reason = "session_refresh_failed"; detail = name }

  -- One round of the loop without its sleep. A refresh that raises stands in for the check.
  unfoldable pub check_once : ℕ → Runs LoginSessionCheckResult
  check_once attempt = elim world.refresh [
    | none ↦ call check_login (ok (world.check attempt))
    | some refresh ↦ elim (refresh attempt) [
      | err e ↦ (ok (refresh_failed (class_name e)), refresh_session ∷ [])
      | ok done ↦ (ok (world.check attempt), refresh_session ∷ check_login ∷ [])
    ]
  ]

  -- `if attempt < attempts - 1: self.sleep(…)`, where `left` rounds are left.
  abbrev pub pause : ℕ → Runs (Unit {0})
  pause zero = pure tt
  pause (suc left) = sleep_for config.poll_interval_seconds

  -- A login that is restored ends the loop.
  abbrev pub unless_restored :
      LoginSessionStatus
      → Runs (Option LoginSessionCheckResult)
      → Runs (Option LoginSessionCheckResult)
  unless_restored restored rest = pure none
  unless_restored expired rest = rest
  unless_restored error rest = rest

  -- The loop: none when the login is restored, and the last check when it is not.
  unfoldable pub poll : ℕ → ℕ → LoginSessionCheckResult → Runs (Option LoginSessionCheckResult)
  poll zero attempt last = pure (some last)
  poll (suc left) attempt last = check_once attempt >>= λ seen.
      unless_restored seen.status (pause left >> poll left (suc attempt) seen)

  -- The result where the login has not come back.
  unfoldable pub waiting_login : ℕ → LoginSessionCheckResult → Fields
  waiting_login notify_attempts last =
      let expires_at = int (plus world.now config.ttl_seconds) in
      let max_notify_times = to_ℕ config.max_notify_times in
      field "status" (str "waiting_login") (
        field "reason" (str config.login_not_restored_reason) (
          field "detail" (str (if is_empty last.detail then last.reason else last.detail)) (
            field "expires_at" expires_at (
              field "notify_attempts" (int (pos notify_attempts)) (
                field "remaining_notify_attempts" (int (pos (max_notify_times - notify_attempts))) (
                  field "next_action"
                    (str (
                      next_login_recovery_action config.qr_notify_enabled max_notify_times
                        notify_attempts config.retry_action))
                    (field "retry_after" expires_at end)))))))

  abbrev after_poll : ℕ → Option LoginSessionCheckResult → Runs Fields
  after_poll notify_attempts (some last) = pure (waiting_login notify_attempts last)
  after_poll notify_attempts none =
      call run_preflight (world.preflight 1) >>= λ again. pure (map_preflight_result again)

  abbrev pub may_notify : Bool
  may_notify = config.qr_notify_enabled && ltb 0 (to_ℕ config.max_notify_times)

  -- `if …: self.notifier.notify_qr(…)`: the number of notifications afterwards.
  abbrev pub notify : ℕ → Runs ℕ
  notify before =
      if may_notify then call notify_qr world.notify >> pure (suc before) else pure before

  -- The body of the `try`.
  unfoldable pub wait_for_login : ℕ → Runs Fields
  wait_for_login before = do
    notify_attempts ← notify before
    seen ←
        poll (attempts_of config) 0
          (record { status = expired; reason = "not_checked"; detail = "" })
    after_poll notify_attempts seen

  -- `finally`: the provider is closed, whatever the block ends in.
  abbrev pub then_close : Runs Fields → Runs Fields
  then_close (r, events) = (r, events ++ close_qr ∷ [])

  unfoldable pub exhausted : ℕ → Fields
  exhausted before = field "status" (str "login_recovery_notify_exhausted") (
      field "reason" (str config.login_not_restored_reason) (
        field "detail" (str (join2 config.trigger_reason " QR notify attempts exhausted")) (
          field "manual_action" (str "manual_escalation_required") (
            field "notify_attempts" (int (pos before)) (
              field "remaining_notify_attempts" (int (pos 0))
                (field "next_action" (str "manual_escalation_required") end))))))

  -- From the capture of the QR code on.
  unfoldable pub ask_for_scan : ℕ → Runs Fields
  ask_for_scan before =
      call capture_qr world.capture >>= λ captured. then_close (wait_for_login before)

  unfoldable pub recover_login : ℕ → Runs Fields
  recover_login before =
      if may_notify && leb (to_ℕ config.max_notify_times) before
      then pure (exhausted before)
      else ask_for_scan before

  -- `run`, where the context says how many notifications there were `before`.
  unfoldable pub run_recovery : ℕ → Runs Fields
  run_recovery before = do
    first ← call run_preflight (world.preflight 0)
    if not (is_text (get_or "reason" null first) config.trigger_reason)
        then pure (map_preflight_result first)
        else if not config.enabled
        then pure first
        else recover_login before
