-- ===== src/Tests/ConfigTests.antt =====
-- Small environments from which the configurations load, and access keys.
use cwm_minio_tierer.Prelude.{
  ◌*◌, ◌^◌, ◌≡◌, refl, true, false, Option, none, some, List, [], ◌∷◌, All, ok, arith,
  if◌then◌else◌,
}
use cwm_minio_tierer.Prelude.Int.{wrap64, ◌+ℤ◌, ◌-ℤ◌, ◌*ℤ◌, pos, IsInt64}
use cwm_minio_tierer.Text.{Str, bytes, str_eq, has_prefix}
use cwm_minio_tierer.Text.Parse.{
  split, split_from, is_trimmed, starts_with_any, ends_with_any, parse_int, digits_from,
}
use cwm_minio_tierer.Contracts.Defs.{
  validate_retention, validate_instance_id, validate_counter_retention,
}
use cwm_minio_tierer.Updater.Env.{
  text_value, duration_value, validate_address, int_value, bool_value, int64_value,
}
use cwm_minio_tierer.Clock.{Duration, second, hour}
use cwm_minio_tierer.Settings.{Environment, HasDurations}
use cwm_minio_tierer.Updater.Config.{
  Config, load_config, load_identity, load_connection, load_statuses, load_limits, load_timeouts,
  worst_case_acknowledgement_time, acknowledgement_time, load_write_timeout,
}
use cwm_minio_tierer.Tierer.Config.{
  load_base, load_mode, load_rules, check_retention, whole_hours_duration, load_coverage,
  load_marker, load_redis, load_minio, load_budgets, load_traversal, scanner_config,
}
use cwm_minio_tierer.Tierer.Env.{
  required, optional, boolean, integer, integer64, optional_integer64, bounded_integer, duration,
  exact_list, check_parts, is_member, address,
}
use cwm_minio_tierer.Tierer.Config
use cwm_minio_tierer.Tierer
use cwm_minio_tierer.Tierer.Loaded.{load_config-accepted, Outlasts}
use cwm_minio_tierer.Scanner.Chunks.{validate, validate_aggregate_access_keys}

abbrev pub entry : {A : Type 0} → Str → List (Str × A) → Option A
entry key [] = none
entry key ((k, v) ∷ rest) = if str_eq k key then some v else entry key rest

abbrev pub durations : List (Str × Duration)
durations =
    (bytes "50ms", pos 50000000)
    ∷ (bytes "5s", pos (5 * second))
    ∷ (bytes "15s", pos (15 * second))
    ∷ (bytes "30s", pos (30 * second))
    ∷ (bytes "60s", pos (60 * second))
    ∷ (bytes "5m", pos (300 * second))
    ∷ (bytes "1h", pos hour)
    ∷ (bytes "3h", pos (3 * hour))
    ∷ []

abbrev pub addresses : List (Str × (Str × Str))
addresses =
    (bytes ":8080", (bytes "", bytes "8080"))
    ∷ (bytes ":8081", (bytes "", bytes "8081"))
    ∷ (bytes "127.0.0.1:6379", (bytes "127.0.0.1", bytes "6379"))
    ∷ []

abbrev pub environment : List (Str × Str) → Environment
environment settings = record {
  lookup = λ key. entry key settings;
  parse_duration = λ s. entry s durations;
  split_host_port = λ s. entry s addresses;
  format_time = λ layout t. layout;
  is_tag = λ key value. true;
}

abbrev pub updater_settings : List (Str × Str)
updater_settings =
    (bytes "INSTANCE_ID", bytes "a")
    ∷ (bytes "ACCESS_RETENTION", bytes "1h")
    ∷ (bytes "UPDATER_QUEUE_SIZE", bytes "2")
    ∷ []

abbrev pub updater_config : Config
updater_config = record {
  identity = record { instance_id = bytes "a"; access_retention = pos hour };
  connection = record {
    listen_address = bytes ":8080";
    redis_address = bytes "127.0.0.1:6379";
    redis_username = [];
    redis_password = [];
    redis_db = pos 0;
    redis_tls = false;
  };
  statuses = record {
    success_status = pos 200;
    failure_status = pos 500;
    data_loss_risk = false;
    duplicate_risk = false;
  };
  limits = record {
    max_body_bytes = pos (2 ^ 20);
    max_records = pos 1000;
    queue_size = pos 2;
    batch_max_events = pos 5000;
    batch_max_keys = pos 5000;
    batch_max_wait = pos (50000000);
  };
  timeouts = record {
    redis_operation_timeout = pos (5 * second);
    shutdown_timeout = pos (30 * second);
    read_header_timeout = pos (5 * second);
    read_timeout = pos (15 * second);
    idle_timeout = pos (60 * second);
    max_header_bytes = pos (2 ^ 20);
  };
  write_timeout = pos (31150000000);
}

entry-bounded :
    (table : List (Str × Duration))
    → All (λ (e : Str × Duration). IsInt64 e.1) table
    → (s : Str) (d : Duration) → entry s table ≡ some d
    → IsInt64 d
entry-bounded [] h s d e = cc
entry-bounded ((k, v) ∷ rest) (first, h) s d e = ground (arith, entry-bounded rest h s d)

pub durations-bounded : (settings : List (Str × Str)) → HasDurations (environment settings)
durations-bounded settings = entry-bounded durations (
  omega arith,
  (
    omega arith,
    (omega arith, (omega arith, (omega arith, (omega arith, (omega arith, (omega arith, tt)))))),
  ),
)

pub updater_loads : load_config (environment updater_settings) ≡ ok updater_config
unfolding load_config load_identity text_value validate_instance_id duration_value
    validate_counter_retention str_eq load_connection validate_address is_trimmed starts_with_any
    ends_with_any has_prefix parse_int digits_from int_value bool_value load_statuses load_limits
    int64_value load_timeouts worst_case_acknowledgement_time acknowledgement_time
    load_write_timeout wrap64 ◌+ℤ◌ ◌-ℤ◌ ◌*ℤ◌
updater_loads = refl

abbrev tierer_settings : List (Str × Str)
tierer_settings =
    (bytes "INSTANCE_ID", bytes "a")
    ∷ (bytes "ACCESS_RETENTION", bytes "3h")
    ∷ (bytes "TIERER_LOW_THRESHOLD", bytes "0")
    ∷ (bytes "TIERER_LOW_WINDOW_HOURS", bytes "1")
    ∷ (bytes "TIERER_HIGH_THRESHOLD", bytes "7")
    ∷ (bytes "TIERER_HIGH_WINDOW_HOURS", bytes "1")
    ∷ (bytes "TIERER_RESTORE_DAYS", bytes "2")
    ∷ (bytes "TIERER_COVERAGE_ENABLED", bytes "false")
    ∷ (bytes "TIERER_MARKER_KEY", bytes "k")
    ∷ (bytes "TIERER_MARKER_VALUE", bytes "v")
    ∷ (bytes "MINIO_ENDPOINT", bytes "127.0.0.1:6379")
    ∷ (bytes "MINIO_ACCESS_KEY", bytes "u")
    ∷ (bytes "MINIO_SECRET_KEY", bytes "p")
    ∷ (bytes "TIERER_EXCLUDE_BUCKETS", bytes "x,y")
    ∷ []

abbrev tierer_config : Tierer.Config.Config
tierer_config = record {
  base = record { instance_id = bytes "a"; access_retention = pos (3 * hour); apply = false };
  rules = record {
    policy = record {
      low_threshold = pos 0;
      low_window_hours = pos 1;
      high_threshold = pos 7;
      high_window_hours = pos 1;
      high_include_current = false;
    };
    restore_days = pos 2;
  };
  coverage = record { coverage_enabled = false; coverage_template = []; coverage_value = [] };
  marker = record { marker_key = bytes "k"; marker_value = bytes "v" };
  redis = record {
    redis_address = bytes "127.0.0.1:6379";
    redis_username = [];
    redis_password = [];
    redis_db = pos 0;
    redis_tls = false;
    redis_operation_timeout = pos (5 * second);
  };
  minio = record {
    minio_endpoint = bytes "127.0.0.1:6379";
    minio_access_key = bytes "u";
    minio_secret_key = bytes "p";
    minio_secure = true;
    minio_region = [];
    minio_operation_timeout = pos (30 * second);
  };
  budgets = record {
    transition_budget = record { attempts = pos 0; bytes_limit = pos 0 };
    restore_budget = record { attempts = pos 0; bytes_limit = pos 0 };
  };
  traversal = record {
    excluded_buckets = bytes "x" ∷ bytes "y" ∷ [];
    excluded_prefixes = [];
    chunk_size = pos 100;
    completion_delay = pos (300 * second);
    retry_delay = pos (30 * second);
    listen_address = bytes ":8081";
    shutdown_timeout = pos (30 * second);
  };
}

tierer_loads : Tierer.Config.load_config (environment tierer_settings) ≡ ok tierer_config
unfolding Tierer.Config.load_config load_base load_mode required optional boolean integer integer64
    optional_integer64 bounded_integer duration exact_list check_parts is_member address str_eq
    validate_instance_id validate_counter_retention load_rules check_retention whole_hours_duration
    validate_retention load_coverage load_marker load_redis load_minio load_budgets load_traversal
    validate_aggregate_access_keys parse_int digits_from is_trimmed starts_with_any ends_with_any
    has_prefix split split_from wrap64 ◌+ℤ◌ ◌-ℤ◌ ◌*ℤ◌
tierer_loads = refl

named : str_eq (bytes "s") [] ≡ false
unfolding str_eq
named = refl

load_config-accepted_example :
    (validate (scanner_config tierer_config (bytes "s")) ≡ ok tt)
    × Outlasts (pos (3 * hour)) (pos 1)
    × Outlasts (pos (3 * hour)) (pos 1)
load_config-accepted_example =
    load_config-accepted (environment tierer_settings) tierer_config (bytes "s") tierer_loads named
