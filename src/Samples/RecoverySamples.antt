-- ===== src/Samples/RecoverySamples.antt =====
-- The theorems about the handler of recoveries and about rpa_platform/worker/wecom_login_recovery.py at
-- concrete inputs.
use rpa_group.Prelude.{◌-◌, ◌≤◌, ◌≡◌, refl, true, [], ◌∷◌, none, ok, count_where}
use rpa_group.Prelude.Value.{str, obj, end, field, Fields, pos}
use rpa_group.Worker.RecoveryHandler.{task_result}
use rpa_group.Worker.RecoveryHandler.Secrets.{ShowsNoSecret, task_result-ShowsNoSecret}
use rpa_group.Worker.LoginRecovery.Sessions.{LoginSessionStatus}
use rpa_group.Worker.LoginRecovery.Config.{LoginRecoveryConfig, to_ℕ}
use rpa_group.Worker.LoginRecovery.{
  World, run_preflight, capture_qr, notify_qr, check_login, sleep, close_qr, run_recovery,
  recover_login, ask_for_scan, wait_for_login, poll, check_once,
}
use rpa_group.Worker.LoginRecovery.Waiting.{slept, run_recovery-slept}
use rpa_group.Worker.LoginRecovery.Scans.{
  is_notify, is_capture, is_close, opened, run_recovery-notified, run_recovery-closed,
}
use rpa_group.Samples.DomainSamples.{no_repr}

abbrev recovery_result : Fields
recovery_result = field "status" (str "failed") (
    field "mode" (str "unattended_write")
      (field "wecom" (obj (field "token" (str "secret-token") end)) end))

task_result-ShowsNoSecret_example : ShowsNoSecret (task_result no_repr recovery_result)
task_result-ShowsNoSecret_example = task_result-ShowsNoSecret no_repr recovery_result

-- Twelve seconds, a look every five, and one notification at most.
abbrev config : LoginRecoveryConfig
config = record {
  enabled = true;
  qr_notify_enabled = true;
  qr_notify_webhook_url = "";
  qr_notify_mode = "image";
  qr_notify_mention_mobiles = [];
  ttl_seconds = pos 12;
  poll_interval_seconds = pos 5;
  max_notify_times = pos 1;
  artifact_dir = "";
  cookie_file = "";
  browser_profile_dir = "";
  node_work_dir = "";
  login_url = "";
  qr_selector = "";
  browser_channel = "";
  trigger_reason = "wecom_session_expired";
  login_not_restored_reason = "wecom_login_not_restored";
  retry_action = "retry_wecom_login_qr";
}

-- The session has expired, and nobody logs in.
abbrev world : World
world = record {
  preflight = λ n. ok (field "reason" (str "wecom_session_expired") end);
  capture = ok tt;
  now = pos 100;
  notify = ok tt;
  refresh = none;
  check = λ n. record { status = LoginSessionStatus.expired; reason = "outsession"; detail = "" };
}

calls_made :
    (run_recovery config world 0).1
    ≡ run_preflight
      ∷ capture_qr
      ∷ notify_qr
      ∷ check_login
      ∷ sleep (pos 5)
      ∷ check_login
      ∷ close_qr
      ∷ []
unfolding run_recovery recover_login ask_for_scan wait_for_login poll check_once
calls_made = refl

run_recovery-slept_example : slept (run_recovery config world 0).1 ≤ to_ℕ config.ttl_seconds
run_recovery-slept_example = run_recovery-slept config world 0

run_recovery-notified_example :
    let sent = count_where is_notify (run_recovery config world 0).1 in
    (sent ≤ 1) × (sent ≤ to_ℕ config.max_notify_times - 0)
run_recovery-notified_example = run_recovery-notified config world 0

run_recovery-closed_example :
    let events = (run_recovery config world 0).1 in
    (count_where is_close events ≡ opened world.capture (count_where is_capture events))
    × (count_where is_capture events ≤ 1)
run_recovery-closed_example = run_recovery-closed config world 0
