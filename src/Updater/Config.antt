-- ===== src/Updater/Config.antt =====
-- `LoadConfig` and `worstCaseAcknowledgementTime` of internal/updater/config.go. The settings are read
-- in the order of the source, in the groups into which it divides them.
use cwm_minio_tierer.Prelude.{
  ◌/◌, ◌^◌, Bool, true, false, not, ◌&&◌, ◌||◌, Option, none, some, Result, ok, err, ◌>>=◌, ◌>>◌,
  reject_if, wrap_err, if◌then◌else◌,
}
use cwm_minio_tierer.Prelude.Int.{
  ℤ, pos, pos_part, ◌+ℤ◌, ◌-ℤ◌, ◌*ℤ◌, ltb_ℤ, leb_ℤ, wrap64, max_int64,
}
use cwm_minio_tierer.Text.{Str, bytes}
use cwm_minio_tierer.Clock.{Duration, second}
use cwm_minio_tierer.Contracts.Defs.{validate_instance_id, validate_counter_retention}
use cwm_minio_tierer.Settings.{
  Environment, ConfigError, at_contract, needs_data_loss, needs_duplicate_risk,
  request_exceeds_batch, wait_overflow, backlog_overflow, read_overflow, write_overflow,
  write_too_short, shutdown_too_short,
}
use cwm_minio_tierer.Updater.Env.{
  text_value, bool_value, int_value, int64_value, duration_value, validate_address,
}

pub record Identity : Type 0 where
  pub instance_id : Str
  pub access_retention : Duration

pub record Connection : Type 0 where
  pub listen_address : Str
  pub redis_address : Str
  pub redis_username : Str
  pub redis_password : Str
  pub redis_db : ℤ
  pub redis_tls : Bool

pub record Statuses : Type 0 where
  pub success_status : ℤ
  pub failure_status : ℤ
  pub data_loss_risk : Bool
  pub duplicate_risk : Bool

pub record Limits : Type 0 where
  pub max_body_bytes : ℤ
  pub max_records : ℤ
  pub queue_size : ℤ
  pub batch_max_events : ℤ
  pub batch_max_keys : ℤ
  pub batch_max_wait : Duration

pub record Timeouts : Type 0 where
  pub redis_operation_timeout : Duration
  pub shutdown_timeout : Duration
  pub read_header_timeout : Duration
  pub read_timeout : Duration
  pub idle_timeout : Duration
  pub max_header_bytes : ℤ

pub record Config : Type 0 where
  pub identity : Identity
  pub connection : Connection
  pub statuses : Statuses
  pub limits : Limits
  pub timeouts : Timeouts
  pub write_timeout : Duration

-- The largest time.Duration.
abbrev pub max_duration : ℤ
max_duration = pos max_int64

-- `worstCaseAcknowledgementTime` on the four settings that it reads. For positive numbers, Go's `/`
-- rounds down, as `/` does.
unfoldable pub acknowledgement_time :
    Duration → Duration → Duration → ℤ → Result ConfigError Duration
acknowledgement_time wait redis read queue =
    let per_batch = wrap64 (wait +ℤ redis) in
    let batch_count = wrap64 (queue +ℤ pos 1) in
    let backlog = wrap64 (batch_count *ℤ per_batch) in
    if ltb_ℤ per_batch wait
    then err wait_overflow
    else if ltb_ℤ (pos (max_int64 / pos_part batch_count)) per_batch
    then err backlog_overflow
    else if ltb_ℤ (wrap64 (max_duration -ℤ read)) backlog
    then err read_overflow
    else ok (wrap64 (read +ℤ backlog))

unfoldable pub worst_case_acknowledgement_time : Limits → Timeouts → Result ConfigError Duration
worst_case_acknowledgement_time limits timeouts =
    acknowledgement_time limits.batch_max_wait timeouts.redis_operation_timeout
      timeouts.read_timeout limits.queue_size

module _ (env : Environment) where
  unfoldable pub load_identity : Result ConfigError Identity
  load_identity = do
    let instance_id = text_value env (bytes "INSTANCE_ID") (bytes "")
    wrap_err (at_contract (bytes "INSTANCE_ID")) (validate_instance_id instance_id)
    access_retention ← duration_value env (bytes "ACCESS_RETENTION") (bytes "") true
    wrap_err (at_contract (bytes "ACCESS_RETENTION")) (validate_counter_retention access_retention)
    ok (record { instance_id = instance_id; access_retention = access_retention })

  unfoldable pub load_connection : Result ConfigError Connection
  load_connection = do
    let listen_address = text_value env (bytes "UPDATER_LISTEN_ADDR") (bytes ":8080")
    let redis_address = text_value env (bytes "REDIS_ADDR") (bytes "127.0.0.1:6379")
    validate_address env (bytes "UPDATER_LISTEN_ADDR") listen_address true
    validate_address env (bytes "REDIS_ADDR") redis_address false
    redis_db ← int_value env (bytes "REDIS_DB") (pos 0) (pos 0) (pos 1000000)
    redis_tls ← bool_value env (bytes "REDIS_TLS") false
    ok (record {
      listen_address = listen_address;
      redis_address = redis_address;
      redis_username = text_value env (bytes "REDIS_USERNAME") (bytes "");
      redis_password = text_value env (bytes "REDIS_PASSWORD") (bytes "");
      redis_db = redis_db;
      redis_tls = redis_tls;
    })

  abbrev pub is_not_success : ℤ → Bool
  is_not_success status = ltb_ℤ status (pos 200) || leb_ℤ (pos 300) status

  unfoldable pub load_statuses : Result ConfigError Statuses
  load_statuses = do
    success ← int_value env (bytes "UPDATER_SUCCESS_STATUS") (pos 200) (pos 200) (pos 599)
    failure ← int_value env (bytes "UPDATER_FAILURE_STATUS") (pos 500) (pos 200) (pos 599)
    data_loss ← bool_value env (bytes "UPDATER_ACCEPT_DATA_LOSS") false
    duplicates ← bool_value env (bytes "UPDATER_ACCEPT_DUPLICATE_RISK") false
    reject_if (ltb_ℤ failure (pos 500) && not data_loss) needs_data_loss
    reject_if (is_not_success success && not duplicates) needs_duplicate_risk
    ok (record {
      success_status = success;
      failure_status = failure;
      data_loss_risk = ltb_ℤ failure (pos 500) && data_loss;
      duplicate_risk = is_not_success success && duplicates;
    })

  unfoldable pub load_limits : Result ConfigError Limits
  load_limits = do
    body ← int64_value env (bytes "UPDATER_MAX_BODY_BYTES") (pos (2 ^ 20)) (pos 1) (pos (2 ^ 30))
    records ← int_value env (bytes "UPDATER_MAX_RECORDS") (pos 1000) (pos 1) (pos 1000000)
    queue ← int_value env (bytes "UPDATER_QUEUE_SIZE") (pos 128) (pos 1) (pos 1000000)
    events ← int_value env (bytes "UPDATER_BATCH_MAX_EVENTS") (pos 5000) (pos 1) (pos 1000000)
    keys ← int_value env (bytes "UPDATER_BATCH_MAX_KEYS") (pos 5000) (pos 1) (pos 1000000)
    reject_if (ltb_ℤ events records || ltb_ℤ keys records) request_exceeds_batch
    wait ← duration_value env (bytes "UPDATER_BATCH_MAX_WAIT") (bytes "50ms") false
    ok (record {
      max_body_bytes = body;
      max_records = records;
      queue_size = queue;
      batch_max_events = events;
      batch_max_keys = keys;
      batch_max_wait = wait;
    })

  unfoldable pub load_timeouts : Result ConfigError Timeouts
  load_timeouts = do
    redis ← duration_value env (bytes "REDIS_OPERATION_TIMEOUT") (bytes "5s") false
    shutdown ← duration_value env (bytes "UPDATER_SHUTDOWN_TIMEOUT") (bytes "30s") false
    read_header ← duration_value env (bytes "UPDATER_READ_HEADER_TIMEOUT") (bytes "5s") false
    read ← duration_value env (bytes "UPDATER_READ_TIMEOUT") (bytes "15s") false
    idle ← duration_value env (bytes "UPDATER_IDLE_TIMEOUT") (bytes "60s") false
    header_bytes ←
        int_value env (bytes "UPDATER_MAX_HEADER_BYTES") (pos (2 ^ 20)) (pos 1024) (pos (2 ^ 24))
    ok (record {
      redis_operation_timeout = redis;
      shutdown_timeout = shutdown;
      read_header_timeout = read_header;
      read_timeout = read;
      idle_timeout = idle;
      max_header_bytes = header_bytes;
    })

  -- UPDATER_WRITE_TIMEOUT, or a second more than the minimum.
  abbrev pub write_timeout_of : Option Str → Duration → Result ConfigError Duration
  write_timeout_of (some raw) minimum =
      duration_value env (bytes "UPDATER_WRITE_TIMEOUT") (bytes "") true
  write_timeout_of none minimum =
      if ltb_ℤ (max_duration -ℤ pos second) minimum
      then err write_overflow
      else ok (wrap64 (minimum +ℤ pos second))

  unfoldable pub load_write_timeout : Duration → Result ConfigError Duration
  load_write_timeout minimum = write_timeout_of (env.lookup (bytes "UPDATER_WRITE_TIMEOUT")) minimum

  unfoldable pub load_config : Result ConfigError Config
  load_config = do
    identity ← load_identity
    connection ← load_connection
    statuses ← load_statuses
    limits ← load_limits
    timeouts ← load_timeouts
    minimum ← worst_case_acknowledgement_time limits timeouts
    write_timeout ← load_write_timeout minimum
    reject_if (leb_ℤ write_timeout minimum) write_too_short
    reject_if (ltb_ℤ timeouts.shutdown_timeout timeouts.redis_operation_timeout) shutdown_too_short
    ok (record {
      identity = identity;
      connection = connection;
      statuses = statuses;
      limits = limits;
      timeouts = timeouts;
      write_timeout = write_timeout;
    })
