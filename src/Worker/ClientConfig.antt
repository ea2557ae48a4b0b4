-- ===== src/Worker/ClientConfig.antt =====
-- rpa_platform/worker/c360_worker_client.py and the reading of worker.env in websocket_worker.py. The
-- environment is an argument, and so is what `urlparse` makes of an address.
use rpa_group.Prelude.{
  String, Bool, not, ◌&&◌, ◌||◌, Option, none, some, List, [], ◌∷◌, ◌==◌, if◌then◌else◌, is_empty,
  one_of, join2, strip, has_prefix, key_error, value_error, worker_config_error, Result, ok, err,
  ◌>>=◌,
}
use rpa_group.Prelude.Text.Lower.{lower}
use rpa_group.Prelude.Value.{Value, bool, str, arr, Items, nil, cons, Fields, end, field}
use rpa_group.Worker.LoginRecovery.Config.{Env, env_or, non_empty_or, split_csv, stripped}
use rpa_group.Worker.Diagnostics.{sanitize_diagnostic_payload}

-- The parts of `urlparse` that are read.
pub record Url : Type 0 where
  pub scheme : String
  pub netloc : String
  pub path : String

pub record C360WorkerConfig : Type 0 where
  pub base_url : String
  pub ws_url : String
  pub worker_token : String
  pub worker_id : String
  pub capabilities : List String
  pub simulate : Bool

-- s.rstrip("/")
abbrev keep_unless_slash : String → String → String
keep_unless_slash c String.[] = if c == "/" then "" else c
keep_unless_slash c (String.◌∷◌ d s) = join2 c (String.◌∷◌ d s)

unfoldable pub rstrip_slash : String → String
rstrip_slash String.[] = ""
rstrip_slash (String.◌∷◌ c s) = keep_unless_slash (String.◌∷◌ c "") (rstrip_slash s)

-- `build_c360_worker_ws_url`. The path of an address with a host is empty or begins with a slash, so
-- that `urlunparse` puts the parts together as they are.
unfoldable pub build_c360_worker_ws_url : (String → Url) → String → Result String
unfolding rstrip_slash
build_c360_worker_ws_url urlparse base_url =
    let parsed = urlparse (rstrip_slash base_url) in
    if not (one_of parsed.scheme ("http" ∷ "https" ∷ "ws" ∷ "wss" ∷ []))
    then err (worker_config_error "C360_BASE_URL must start with http:// or https://")
    else if is_empty parsed.netloc
    then err (worker_config_error "C360_BASE_URL must include host")
    else ok (
        join2 (if one_of parsed.scheme ("https" ∷ "wss" ∷ []) then "wss" else "ws") (
          join2 "://"
            (join2 parsed.netloc (join2 (rstrip_slash parsed.path) "/v1/rpa/workers/ws"))))

unfoldable pub required : Env → String → Result String
required env key =
    let value = strip (env_or env key "") in
    if is_empty value then err (worker_config_error (join2 key " is required")) else ok value

abbrev default_capabilities : List String
default_capabilities = "wecom_bind_service" ∷ "diagnostics" ∷ "runtime_health_check" ∷ []

abbrev or_default : List String → List String
or_default [] = default_capabilities
or_default (item ∷ items) = item ∷ items

-- _split_capabilities
unfoldable pub split_capabilities : String → List String
unfolding stripped
split_capabilities raw = or_default (split_csv raw)

-- `_parse_bool` of this file: everything but four words is true.
abbrev pub is_not_off : String → Bool
is_not_off raw = not (one_of (lower (strip raw)) ("0" ∷ "false" ∷ "no" ∷ "off" ∷ []))

unfoldable pub load_c360_worker_config_from_env : (String → Url) → Env → Result C360WorkerConfig
load_c360_worker_config_from_env urlparse env = required env "C360_BASE_URL" >>= λ base_url.
    required env "RPA_WORKER_TOKEN" >>= λ token.
    build_c360_worker_ws_url urlparse base_url >>= λ ws_url. ok (record {
      base_url = rstrip_slash base_url;
      ws_url = ws_url;
      worker_token = token;
      worker_id =
          non_empty_or (env_or env "RPA_WORKER_ID" "")
            (non_empty_or (env_or env "RPA_ROBOT_ID" "") "win-sim-001");
      capabilities = split_capabilities (env_or env "RPA_WORKER_CAPABILITIES" "");
      simulate = is_not_off (env_or env "RPA_WORKER_SIMULATE" "true");
    })

abbrev pub texts : List String → Items
texts [] = nil
texts (t ∷ ts) = cons (str t) (texts ts)

unfoldable pub build_worker_hello : (String → String) → C360WorkerConfig → Fields → Result Fields
build_worker_hello substitute config diagnostics =
    sanitize_diagnostic_payload substitute diagnostics >>= λ safe. ok (
      field "type" (str "worker.hello") (
        field "worker_id" (str config.worker_id) (
          field "capabilities" (arr (texts config.capabilities))
            (field "simulate" (bool config.simulate) (field "diagnostics" (Value.obj safe) end)))))

-- `build_default_diagnostics`, with the name of the host and of the platform as arguments.
unfoldable pub build_default_diagnostics :
    (String → String) → C360WorkerConfig → Env → String → String → Result Fields
build_default_diagnostics substitute config env hostname platform =
    let session_name =
      non_empty_or (env_or env "SESSIONNAME" "")
        (non_empty_or (env_or env "TERM_SESSION_ID" "") "unknown") in
    sanitize_diagnostic_payload substitute (
      field "machine_id" (str config.worker_id) (
        field "hostname" (str hostname) (
          field "platform" (str platform) (
            field "interactive_desktop"
              (bool (not (is_empty session_name) && not (session_name == "unknown")))
              (field "session_name" (str session_name) (
                field "resolution" (str (env_or env "RPA_SCREEN_RESOLUTION" "unknown"))
                  (field "dpi_scale" (str (env_or env "RPA_DPI_SCALE" "unknown")) end)))))))

-- A dict of texts, as `_read_env_file` builds it: a later line wins.
abbrev Lines : Type 0
Lines = List (String × String)

-- `line.split("=", 1)` and the two targets of it.
unfoldable pub split_line : String → Option (String × String)
split_line String.[] = none
split_line (String.◌∷◌ c s) =
    let rest = split_line s in
    if String.◌∷◌ c "" == "="
    then some ("", s)
    else elim rest [ none ↦ none | some (key, value) ↦ some (String.◌∷◌ c key, value) ]

-- `_read_env_file`, on the lines of the file.
unfoldable pub read_env_lines : List String → Result Lines
unfolding split_line
read_env_lines [] = ok []
read_env_lines (raw_line ∷ lines) =
    let rest = read_env_lines lines in
    let line = strip raw_line in
    if is_empty line || has_prefix line "#" then rest else elim (split_line line) [
      | none ↦ err (value_error "not enough values to unpack (expected 2, got 1)")
      | some (key, value) ↦ rest >>= λ values. ok ((strip key, strip value) ∷ values)
    ]

-- `values.get(key)`: what the last of the lines with the key says.
unfoldable pub last_of : String → Lines → Option String
last_of key [] = none
last_of key ((k, v) ∷ values) = elim (last_of key values) [
  | some w ↦ some w
  | none ↦ if k == key then some v else none
]

pub record WorkerConfig : Type 0 where
  pub ws_url : String
  pub machine_token : String
  pub robot_id : String
  pub db_path : String
  pub machine_config : String
  pub log_path : String
  pub artifact_dir : String
  pub capabilities : List String

abbrev value_at : Lines → String → Result String
value_at values key = elim (last_of key values) [ none ↦ err (key_error key) | some v ↦ ok v ]

abbrev value_or : Lines → String → String → String
value_or values key default = elim (last_of key values) [ none ↦ default | some v ↦ v ]

-- `load_worker_config`, on the lines of the file.
unfoldable pub load_worker_config : List String → Result WorkerConfig
load_worker_config lines = read_env_lines lines >>= λ values.
    value_at values "RPA_WS_URL" >>= λ ws_url. value_at values "RPA_MACHINE_TOKEN" >>= λ token.
    value_at values "RPA_ROBOT_ID" >>= λ robot_id. value_at values "RPA_DB_PATH" >>= λ db_path.
    ok (record {
      ws_url = ws_url;
      machine_token = token;
      robot_id = robot_id;
      db_path = db_path;
      machine_config = value_or values "RPA_MACHINE_CONFIG" "C:/rpa_group/config/machine.json";
      log_path = value_or values "RPA_LOG_PATH" "C:/rpa_group/logs/worker.log";
      artifact_dir = value_or values "RPA_ARTIFACT_DIR" "C:/rpa_group/artifacts";
      capabilities = split_csv (value_or values "RPA_CAPABILITIES" "");
    })
