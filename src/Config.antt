-- ===== src/Config.antt =====
-- pkg/config: the configurations, as read from the environment, where a variable that is not set is the
-- empty string. The host's name and the process ID, as decimal digits, are arguments.
pub mod Bounds
mod Tests
use elastic_gpu_telemetry_pi.Common.{
  ℕ, zero, suc, ◌+◌, ◌*◌, ◌-◌, ◌%◌, Bool, true, false, ◌&&◌, Option, none, some, List, [], ◌∷◌,
  ◌++◌, Text, codes, is_empty, ltb, leb, ◌==◌, if◌then◌else◌,
}

pub data ℤ : Type 0 where
  pos negsuc : ℕ → ℤ

-- `strconv.Atoi`, with 64-bit integers; `none` is an error.
unfoldable pub digits : ℕ → Text → Option ℕ
digits n [] = some n
digits n (c ∷ s) =
    let rest = digits (n * 10 + (c - 48)) s in if leb 48 c && leb c 57 then rest else none

abbrev pub min_int64_magnitude : ℕ
min_int64_magnitude = 9223372036854775808

abbrev positive_int : Option ℕ → Option ℤ
positive_int none = none
positive_int (some n) = if ltb n min_int64_magnitude then some (pos n) else none

abbrev negative_int : Option ℕ → Option ℤ
negative_int none = none
negative_int (some zero) = some (pos 0)
negative_int (some (suc n)) = if ltb n min_int64_magnitude then some (negsuc n) else none

abbrev some_digits : Text → Option ℕ
some_digits [] = none
some_digits (c ∷ s) = digits 0 (c ∷ s)

-- 43 is `+` and 45 is `-`.
unfoldable pub atoi : Text → Option ℤ
atoi [] = none
atoi (c ∷ s) =
    if c == 43
    then positive_int (some_digits s)
    else if c == 45
    then negative_int (some_digits s)
    else positive_int (digits 0 (c ∷ s))

-- The integer if it can be read and is positive, and the default otherwise.
abbrev pub positive_or : ℕ → Option ℤ → ℕ
positive_or default none = default
positive_or default (some (negsuc n)) = default
positive_or default (some (pos n)) = if ltb 0 n then n else default

-- `getEnv`.
unfoldable pub get_env : (Text → Text) → Text → Text → Text
get_env env key default_value = if is_empty (env key) then default_value else env key

-- A size is read if its variable is not empty.
unfoldable pub size_of : (Text → Text) → Text → ℕ → ℕ
size_of env key default =
    let text = get_env env key [] in
    if is_empty text then default else positive_or default (atoi text)

pub record CollectorConfig : Type 0 where
  pub instance_id : Text
  pub batch_size : ℕ
  pub queue_service_url : Text
  pub storage_backend : Text
  pub storage_uri : Text

unfoldable pub load_collector_config : (Text → Text) → Text → Text → CollectorConfig
load_collector_config env hostname pid =
    let id = get_env env (codes "COLLECTOR_INSTANCE_ID") [] in
    record {
      instance_id = if is_empty id then hostname ++ codes "-collector-" ++ pid else id;
      batch_size = size_of env (codes "COLLECTOR_BATCH_SIZE") 1;
      queue_service_url = get_env env (codes "QUEUE_SERVICE_URL") (codes "http://localhost:8080");
      storage_backend = get_env env (codes "STORAGE_BACKEND") (codes "memory");
      storage_uri = get_env env (codes "STORAGE_URI") [];
    }

pub record QueueConfig : Type 0 where
  pub port : Text
  pub buffer_size : ℕ

unfoldable pub load_queue_config : (Text → Text) → QueueConfig
load_queue_config env = record {
  port = get_env env (codes "QUEUE_PORT") (codes "8080");
  buffer_size = size_of env (codes "QUEUE_BUFFER_SIZE") 1000;
}

-- `stream_interval` is the 64 bits of a `time.Duration`, in nanoseconds.
pub record StreamerConfig : Type 0 where
  pub csv_file_path : Text
  pub stream_interval : ℕ
  pub instance_id : Text
  pub queue_service_url : Text

unfoldable pub load_streamer_config : (Text → Text) → Text → Text → StreamerConfig
load_streamer_config env hostname pid =
    let id = get_env env (codes "STREAMER_INSTANCE_ID") [] in
    let interval =
      positive_or 100 (atoi (get_env env (codes "STREAM_INTERVAL_MS") (codes "100"))) in
    record {
      csv_file_path =
          get_env env (codes "CSV_FILE_PATH") (codes "./csv/dcgm_metrics_20250718_134233.csv");
      stream_interval = interval * 1000000 % 18446744073709551616;
      instance_id = if is_empty id then hostname ++ codes "-" ++ pid else id;
      queue_service_url = get_env env (codes "QUEUE_SERVICE_URL") (codes "http://localhost:8080");
    }

pub record Config : Type 0 where
  pub queue_service_url : Text
  pub storage_backend : Text
  pub storage_uri : Text
  pub csv_file_path : Text
  pub log_level : Text
  pub api_port : Text

unfoldable pub load_config : (Text → Text) → Config
load_config env = record {
  queue_service_url = get_env env (codes "QUEUE_SERVICE_URL") (codes "http://localhost:8080");
  storage_backend = get_env env (codes "STORAGE_BACKEND") (codes "memory");
  storage_uri = get_env env (codes "STORAGE_URI") [];
  csv_file_path =
      get_env env (codes "CSV_FILE_PATH") (codes "./csv/dcgm_metrics_20250718_134233.csv");
  log_level = get_env env (codes "LOG_LEVEL") (codes "info");
  api_port = get_env env (codes "API_PORT") (codes "8081");
}
