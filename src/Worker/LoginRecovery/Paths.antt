-- ===== src/Worker/LoginRecovery/Paths.antt =====
-- The courses that a recovery can take, by its calls.
use rpa_group.Prelude.{
  ℕ, Bool, true, false, not, ◌&&◌, ◌≡◌, refl, List, [], ◌∷◌, ◌++◌, if◌then◌else◌, leb, Error,
  Result, ok, err,
}
use rpa_group.Prelude.Logged.{pure, call, ◌>>=◌}
use rpa_group.Prelude.Value.{null, Fields, get_or}
use rpa_group.Integrations.Wecom.Answers.{is_text}
use rpa_group.Worker.LoginRecovery.Config.{LoginRecoveryConfig, to_ℕ}
use rpa_group.Worker.LoginRecovery.{
  Event, World, run_preflight, capture_qr, close_qr, map_preflight_result, may_notify, exhausted,
  wait_for_login, then_close, ask_for_scan, recover_login, run_recovery,
}

module _ (config : LoginRecoveryConfig) (world : World) (before : ℕ) (P : List Event → Type 0)
    (stopped : P (run_preflight ∷ []))
    (no_code : (e : Error) → world.capture ≡ err e → P (run_preflight ∷ capture_qr ∷ []))
    (scanned : world.capture ≡ ok tt
      → may_notify config world && leb (to_ℕ config.max_notify_times) before ≡ false
      → P (
          run_preflight ∷ capture_qr ∷ (wait_for_login config world before).1
          ++ close_qr ∷ [])) where
  scan_path :
      may_notify config world && leb (to_ℕ config.max_notify_times) before ≡ false
      → P (run_preflight ∷ (ask_for_scan config world before).1)
  unfolding ask_for_scan
  scan_path below = go world.capture refl
    where
      go :
          (r : Result (Unit {0}))
          → world.capture ≡ r
          → P (
              run_preflight
              ∷ (call capture_qr r >>= λ _.
                  then_close config world (wait_for_login config world before)).1)
      go (err e) q = no_code e q
      go (ok a) q = scanned q below

  recover_path :
      (b : Bool)
      → may_notify config world && leb (to_ℕ config.max_notify_times) before ≡ b
      → P (
          run_preflight
          ∷ (if b
              then pure {W = Event} (exhausted config world before)
              else ask_for_scan config world before).1)
  recover_path true q = stopped
  recover_path false q = scan_path q

  enabled_path :
      (b c : Bool) (first : Fields)
      → P (
          run_preflight
          ∷ (if b
              then pure {W = Event} (map_preflight_result first)
              else if c
              then pure first
              else recover_login config world before).1)
  unfolding recover_login
  enabled_path true c first = stopped
  enabled_path false true first = stopped
  enabled_path false false first = recover_path _ refl

  -- It stops after the preflight, or it cannot get a QR code, or it has got one, which it does only
  -- where the notifications are not used up, waits for the login, and closes the browser.
  pub run_recovery_paths : P (run_recovery config world before).1
  unfolding run_recovery
  run_recovery_paths = go (world.preflight 0)
    where
      go :
          (r : Result Fields)
          → P
              (call run_preflight r >>= λ first.
                if not (is_text (get_or "reason" null first) config.trigger_reason)
                then pure {W = Event} (map_preflight_result first)
                else if not config.enabled
                then pure first
                else recover_login config world before).1
      go (err e) = stopped
      go (ok first) = enabled_path _ _ first
