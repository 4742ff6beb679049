-- ===== src/Settings.antt =====
-- The environment from which both programs load their configuration: internal/updater/config.go and
-- internal/tierer/config.go. time.ParseDuration, net.SplitHostPort and what other packages check are
-- parameters.
use cwm_minio_tierer.Prelude.{Option, some, ◌≡◌, Bool}
use cwm_minio_tierer.Prelude.Int.{IsInt64}
use cwm_minio_tierer.Text.{Str}
use cwm_minio_tierer.Clock.{Time, Duration}
use cwm_minio_tierer.Contracts.Defs.{ContractError}

pub record Environment : Type 0 where
  -- the settings; `none` is an unset one
  pub lookup : Str → Option Str
  -- time.ParseDuration
  pub parse_duration : Str → Option Duration
  -- net.SplitHostPort: host and port
  pub split_host_port : Str → Option (Str × Str)
  -- Format of an instant by a layout, as contracts.CoverageKey uses it
  pub format_time : Str → Time → Str
  -- whether tags.NewTags takes the one tag
  pub is_tag : Str → Str → Bool

-- A time.Duration is an int64.
abbrev pub HasDurations : Environment → Type 0
HasDurations env = (s : Str) (d : Duration) → env.parse_duration s ≡ some d → IsInt64 d

-- The setting at fault; its last part, what is wrong.
pub data ConfigError : Type 0 where
  missing malformed bad_address bad_port : Str → ConfigError
  at_contract : Str → ContractError → ConfigError
  -- tierer
  bad_mode not_gated no_marker no_credentials bad_tag repeated_key bad_window too_many_keys :
      ConfigError
  blank_part duplicate_part : Str → ConfigError
  -- updater
  needs_data_loss needs_duplicate_risk request_exceeds_batch : ConfigError
  wait_overflow backlog_overflow read_overflow write_overflow write_too_short shutdown_too_short :
      ConfigError
