-- ===== src/Tierer/Config.antt =====
-- `LoadConfig` and `wholeHoursDuration` of internal/tierer/config.go. The settings are read in the
-- order of the source, in the groups into which it divides them.
use cwm_minio_tierer.Prelude.{
  ◌/◌, ◌*◌, Bool, true, false, not, ◌||◌, List, [], Result, ok, err, ◌>>=◌, ◌>>◌, reject_if,
  wrap_err, if◌then◌else◌,
}
use cwm_minio_tierer.Prelude.Int.{ℤ, pos, ltb_ℤ, leb_ℤ, max_int64}
use cwm_minio_tierer.Text.{Str, bytes, str_eq}
use cwm_minio_tierer.Clock.{Duration, hour, times}
use cwm_minio_tierer.Contracts.Defs.{
  validate_instance_id, validate_counter_retention, validate_retention,
}
use cwm_minio_tierer.Contracts.Coverage.{is_coverage_template}
use cwm_minio_tierer.Evaluator.Defs.{Policy}
use cwm_minio_tierer.Scanner.Effects.{BudgetLimit, ScannerConfig}
use cwm_minio_tierer.Scanner.Chunks.{validate_aggregate_access_keys}
use cwm_minio_tierer.Settings.{
  Environment, ConfigError, at_contract, bad_mode, not_gated, no_marker, no_credentials, bad_tag,
  repeated_key, bad_window, too_many_keys, missing,
}
use cwm_minio_tierer.Tierer.Env.{
  required, optional, boolean, integer, integer64, optional_integer64, bounded_integer, duration,
  exact_list, address,
}

abbrev pub max_window_hours : ℤ
max_window_hours = pos (10 * 365 * 24)

abbrev pub max_redis_access_keys_per_chunk : ℤ
max_redis_access_keys_per_chunk = pos 10000

pub record Base : Type 0 where
  pub instance_id : Str
  pub access_retention : Duration
  pub apply : Bool

pub record Rules : Type 0 where
  pub policy : Policy
  pub restore_days : ℤ

pub record Coverage : Type 0 where
  pub coverage_enabled : Bool
  pub coverage_template : Str
  pub coverage_value : Str

pub record Marker : Type 0 where
  pub marker_key : Str
  pub marker_value : Str

pub record RedisSettings : Type 0 where
  pub redis_address : Str
  pub redis_username : Str
  pub redis_password : Str
  pub redis_db : ℤ
  pub redis_tls : Bool
  pub redis_operation_timeout : Duration

pub record MinioSettings : Type 0 where
  pub minio_endpoint : Str
  pub minio_access_key : Str
  pub minio_secret_key : Str
  pub minio_secure : Bool
  pub minio_region : Str
  pub minio_operation_timeout : Duration

pub record Budgets : Type 0 where
  pub transition_budget : BudgetLimit
  pub restore_budget : BudgetLimit

pub record Traversal : Type 0 where
  pub excluded_buckets : List Str
  pub excluded_prefixes : List Str
  pub chunk_size : ℤ
  pub completion_delay : Duration
  pub retry_delay : Duration
  pub listen_address : Str
  pub shutdown_timeout : Duration

pub record Config : Type 0 where
  pub base : Base
  pub rules : Rules
  pub coverage : Coverage
  pub marker : Marker
  pub redis : RedisSettings
  pub minio : MinioSettings
  pub budgets : Budgets
  pub traversal : Traversal

unfoldable pub whole_hours_duration : ℤ → Result ConfigError Duration
whole_hours_duration hours =
    if leb_ℤ hours (pos 0) || ltb_ℤ (pos (max_int64 / hour)) hours
    then err bad_window
    else ok (times hours hour)

unfoldable pub check_retention : Duration → Policy → Result ConfigError (Unit {0})
check_retention retention policy = do
  low ← whole_hours_duration policy.low_window_hours
  high ← whole_hours_duration policy.high_window_hours
  wrap_err (at_contract (bytes "ACCESS_RETENTION")) (validate_retention retention low high)

module _ (env : Environment) where
  abbrev pub gated : Bool → Result ConfigError Bool
  gated true = ok true
  gated false = err not_gated

  unfoldable pub load_mode : Result ConfigError Bool
  load_mode =
      let mode = optional env (bytes "TIERER_MODE") (bytes "audit") in
      if str_eq mode (bytes "audit")
      then ok false
      else if str_eq mode (bytes "apply")
      then (boolean env (bytes "TIERER_APPLY") false >>= gated)
      else err bad_mode

  unfoldable pub load_base : Result ConfigError Base
  load_base = do
    let instance_id = required env (bytes "INSTANCE_ID")
    wrap_err (at_contract (bytes "INSTANCE_ID")) (validate_instance_id instance_id)
    retention ← duration env (bytes "ACCESS_RETENTION") (bytes "") true
    wrap_err (at_contract (bytes "ACCESS_RETENTION")) (validate_counter_retention retention)
    apply ← load_mode
    ok (record { instance_id = instance_id; access_retention = retention; apply = apply })

  unfoldable pub load_rules : Result ConfigError Rules
  load_rules = do
    low ← integer64 env (bytes "TIERER_LOW_THRESHOLD") (pos 0) false
    low_hours ←
        bounded_integer env (bytes "TIERER_LOW_WINDOW_HOURS") (pos 0) (pos 1) max_window_hours false
    high ← integer64 env (bytes "TIERER_HIGH_THRESHOLD") (pos 0) false
    high_hours ←
        bounded_integer env (bytes "TIERER_HIGH_WINDOW_HOURS") (pos 0) (pos 1) max_window_hours
          false
    current ← boolean env (bytes "TIERER_HIGH_INCLUDE_CURRENT") false
    days ← integer env (bytes "TIERER_RESTORE_DAYS") (pos 1) false
    ok (record {
      policy = record {
        low_threshold = low;
        low_window_hours = low_hours;
        high_threshold = high;
        high_window_hours = high_hours;
        high_include_current = current;
      };
      restore_days = days;
    })

  abbrev pub load_coverage_keys : Bool → Result ConfigError Coverage
  load_coverage_keys false =
      ok (record { coverage_enabled = false; coverage_template = []; coverage_value = [] })
  load_coverage_keys true = do
    let template = required env (bytes "TIERER_COVERAGE_TEMPLATE")
    let value = required env (bytes "TIERER_COVERAGE_VALUE")
    reject_if (not (is_coverage_template env.format_time template)) repeated_key
    reject_if (str_eq value []) (missing (bytes "TIERER_COVERAGE_VALUE"))
    ok (record { coverage_enabled = true; coverage_template = template; coverage_value = value })

  unfoldable pub load_coverage : Result ConfigError Coverage
  load_coverage = boolean env (bytes "TIERER_COVERAGE_ENABLED") true >>= load_coverage_keys

  unfoldable pub load_marker : Result ConfigError Marker
  load_marker = do
    let key = required env (bytes "TIERER_MARKER_KEY")
    let value = required env (bytes "TIERER_MARKER_VALUE")
    reject_if (str_eq key [] || str_eq value []) no_marker
    reject_if (not (env.is_tag key value)) bad_tag
    ok (record { marker_key = key; marker_value = value })

  unfoldable pub load_redis : Result ConfigError RedisSettings
  load_redis = do
    let redis_address = optional env (bytes "REDIS_ADDR") (bytes "127.0.0.1:6379")
    address env (bytes "REDIS_ADDR") redis_address false
    db ← bounded_integer env (bytes "REDIS_DB") (pos 0) (pos 0) (pos 1000000) true
    tls ← boolean env (bytes "REDIS_TLS") false
    timeout ← duration env (bytes "REDIS_OPERATION_TIMEOUT") (bytes "5s") false
    ok (record {
      redis_address = redis_address;
      redis_username = optional env (bytes "REDIS_USERNAME") (bytes "");
      redis_password = optional env (bytes "REDIS_PASSWORD") (bytes "");
      redis_db = db;
      redis_tls = tls;
      redis_operation_timeout = timeout;
    })

  unfoldable pub load_minio : Result ConfigError MinioSettings
  load_minio = do
    let endpoint = required env (bytes "MINIO_ENDPOINT")
    let access_key = required env (bytes "MINIO_ACCESS_KEY")
    let secret_key = required env (bytes "MINIO_SECRET_KEY")
    address env (bytes "MINIO_ENDPOINT") endpoint false
    reject_if (str_eq access_key [] || str_eq secret_key []) no_credentials
    secure ← boolean env (bytes "MINIO_SECURE") true
    timeout ← duration env (bytes "MINIO_OPERATION_TIMEOUT") (bytes "30s") false
    ok (record {
      minio_endpoint = endpoint;
      minio_access_key = access_key;
      minio_secret_key = secret_key;
      minio_secure = secure;
      minio_region = optional env (bytes "MINIO_REGION") (bytes "");
      minio_operation_timeout = timeout;
    })

  -- In audit mode the budgets stay at zero.
  unfoldable pub load_budgets : Bool → Result ConfigError Budgets
  load_budgets false = ok (record {
    transition_budget = record { attempts = pos 0; bytes_limit = pos 0 };
    restore_budget = record { attempts = pos 0; bytes_limit = pos 0 };
  })
  load_budgets true = do
    attempts ← optional_integer64 env (bytes "TIERER_DAILY_TRANSITION_ATTEMPTS") (pos 1)
    size ← optional_integer64 env (bytes "TIERER_DAILY_TRANSITION_BYTES") (pos 1)
    restores ← optional_integer64 env (bytes "TIERER_DAILY_RESTORE_ATTEMPTS") (pos 1)
    restored ← optional_integer64 env (bytes "TIERER_DAILY_RESTORE_BYTES") (pos 1)
    ok (record {
      transition_budget = record { attempts = attempts; bytes_limit = size };
      restore_budget = record { attempts = restores; bytes_limit = restored };
    })

  unfoldable pub load_traversal : Policy → Result ConfigError Traversal
  load_traversal policy = do
    buckets ← exact_list env (bytes "TIERER_EXCLUDE_BUCKETS")
    prefixes ← exact_list env (bytes "TIERER_EXCLUDE_BUCKET_PREFIXES")
    chunk_size ←
        bounded_integer env (bytes "TIERER_CHUNK_SIZE") (pos 100) (pos 1) (pos 1000000) true
    reject_if
        (not (
          validate_aggregate_access_keys chunk_size policy.low_window_hours policy.high_window_hours
            max_redis_access_keys_per_chunk))
        too_many_keys
    completion ← duration env (bytes "TIERER_COMPLETION_DELAY") (bytes "5m") false
    retry ← duration env (bytes "TIERER_RETRY_DELAY") (bytes "30s") false
    let listen_address = optional env (bytes "TIERER_LISTEN_ADDR") (bytes ":8081")
    address env (bytes "TIERER_LISTEN_ADDR") listen_address true
    shutdown ← duration env (bytes "TIERER_SHUTDOWN_TIMEOUT") (bytes "30s") false
    ok (record {
      excluded_buckets = buckets;
      excluded_prefixes = prefixes;
      chunk_size = chunk_size;
      completion_delay = completion;
      retry_delay = retry;
      listen_address = listen_address;
      shutdown_timeout = shutdown;
    })

  unfoldable pub load_config : Result ConfigError Config
  load_config = do
    base ← load_base
    rules ← load_rules
    check_retention base.access_retention rules.policy
    coverage ← load_coverage
    marker ← load_marker
    redis ← load_redis
    minio ← load_minio
    budgets ← load_budgets base.apply
    traversal ← load_traversal rules.policy
    ok (record {
      base = base;
      rules = rules;
      coverage = coverage;
      marker = marker;
      redis = redis;
      minio = minio;
      budgets = budgets;
      traversal = traversal;
    })

-- What `Run` of internal/tierer/service.go hands to NewScanner.
unfoldable pub scanner_config : Config → Str → ScannerConfig
scanner_config c scope = record {
  apply = c.base.apply;
  policy = c.rules.policy;
  restore_days = c.rules.restore_days;
  marker_key = c.marker.marker_key;
  marker_value = c.marker.marker_value;
  chunk_size = c.traversal.chunk_size;
  excluded_buckets = c.traversal.excluded_buckets;
  excluded_prefixes = c.traversal.excluded_prefixes;
  scope = scope;
  transition_limit = c.budgets.transition_budget;
  restore_limit = c.budgets.restore_budget;
}
