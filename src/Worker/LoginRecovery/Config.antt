-- ===== src/Worker/LoginRecovery/Config.antt =====
-- LoginRecoveryConfig. The environment is an argument, and so is `int_of`, Python's int().
use rpa_group.Prelude.{
  ℕ, String, Bool, List, [], ◌∷◌, if◌then◌else◌, is_empty, strip, one_of, split_on, Option, none,
  some, Result, ok, err,
}
use rpa_group.Prelude.Text.Lower.{lower}
use rpa_group.Prelude.Value.{Value, str, ℤ, pos, negsuc}

abbrev pub Env : Type 0
Env = String → Option String

-- env.get(key, default)
abbrev pub env_or : Env → String → String → String
env_or env key default = elim (env key) [ none ↦ default | some v ↦ v ]

-- `_parse_bool`, of a text.
abbrev pub parse_bool : String → Bool
parse_bool raw = one_of (lower (strip raw)) ("1" ∷ "true" ∷ "yes" ∷ "on" ∷ [])

-- `_parse_int`. A text has no other exception than ValueError.
unfoldable pub parse_int : (Value → Result ℤ) → Option String → ℤ → ℤ
parse_int int_of none default = default
parse_int int_of (some raw) default =
    if is_empty (strip raw)
    then default
    else elim (int_of (str (strip raw))) [ ok n ↦ n | err e ↦ default ]

-- `_split_csv`
unfoldable pub stripped : List String → List String
stripped [] = []
stripped (item ∷ items) =
    let rest = stripped items in if is_empty (strip item) then rest else strip item ∷ rest

abbrev pub split_csv : String → List String
split_csv raw = stripped (split_on b',' raw)

-- max(0, n)
abbrev pub to_ℕ : ℤ → ℕ
to_ℕ (pos n) = n
to_ℕ (negsuc n) = 0

pub record LoginRecoveryConfig : Type 0 where
  pub enabled : Bool
  pub qr_notify_enabled : Bool
  pub qr_notify_webhook_url : String
  pub qr_notify_mode : String
  pub qr_notify_mention_mobiles : List String
  pub ttl_seconds : ℤ
  pub poll_interval_seconds : ℤ
  pub max_notify_times : ℤ
  pub artifact_dir : String
  pub cookie_file : String
  pub browser_profile_dir : String
  pub node_work_dir : String
  pub login_url : String
  pub qr_selector : String
  pub browser_channel : String
  pub trigger_reason : String
  pub login_not_restored_reason : String
  pub retry_action : String

abbrev default_qr_selector : String
default_qr_selector =
    "[id*='qrcode' i], [id*='qr' i], [class*='qrcode' i], [class*='qr' i], canvas, svg, img[src*='qr' i], img[src*='qrcode' i], img[src*='login' i], [class*='login' i] canvas, [class*='login' i] img"

abbrev pub non_empty_or : String → String → String
non_empty_or s t = if is_empty s then t else s

unfoldable pub from_env : (Value → Result ℤ) → Env → LoginRecoveryConfig
unfolding parse_int
from_env int_of env = record {
  enabled = parse_bool (env_or env "WECOM_LOGIN_RECOVERY_ENABLED" "false");
  qr_notify_enabled = parse_bool (env_or env "WECOM_QR_NOTIFY_ENABLED" "false");
  qr_notify_webhook_url = strip (env_or env "WECOM_QR_NOTIFY_WEBHOOK_URL" "");
  qr_notify_mode = non_empty_or (strip (env_or env "WECOM_QR_NOTIFY_MODE" "image")) "image";
  qr_notify_mention_mobiles = split_csv (env_or env "WECOM_QR_NOTIFY_MENTION_MOBILES" "");
  ttl_seconds = parse_int int_of (env "WECOM_QR_TTL_SECONDS") (pos 120);
  poll_interval_seconds = parse_int int_of (env "WECOM_QR_POLL_INTERVAL_SECONDS") (pos 5);
  max_notify_times = parse_int int_of (env "WECOM_QR_MAX_NOTIFY_TIMES") (pos 3);
  artifact_dir = env_or env "WECOM_QR_ARTIFACT_DIR" ".local/wecom-login-qr";
  cookie_file = env_or env "WECOM_ADMIN_COOKIE_FILE" ".local/wecom-admin.cookie";
  browser_profile_dir = env_or env "WECOM_BROWSER_PROFILE_DIR" ".local/wecom-bind-browser-profile";
  node_work_dir =
      env_or env "WECOM_LOGIN_RECOVERY_NODE_WORK_DIR" ".local/playwright-wecom-login-recovery";
  login_url =
      env_or env "WECOM_LOGIN_URL" "https://open.work.weixin.qq.com/wwopen/developers/tools";
  qr_selector = env_or env "WECOM_QR_SELECTOR" default_qr_selector;
  browser_channel = env_or env "WECOM_BROWSER_CHANNEL" "chrome";
  trigger_reason = "wecom_session_expired";
  login_not_restored_reason = "wecom_login_not_restored";
  retry_action = "retry_wecom_login_qr";
}
