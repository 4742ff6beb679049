-- ===== src/Updater/Env.antt =====
-- How internal/updater/config.go reads one setting.
use cwm_minio_tierer.Prelude.{
  Bool, true, false, not, ◌&&◌, ◌||◌, Option, none, some, [], Result, ok, err, if◌then◌else◌,
}
use cwm_minio_tierer.Prelude.Int.{ℤ, pos, ltb_ℤ, leb_ℤ}
use cwm_minio_tierer.Text.{Str, bytes, str_eq}
use cwm_minio_tierer.Text.Parse.{parse_int, is_trimmed}
use cwm_minio_tierer.Clock.{Duration}
use cwm_minio_tierer.Settings.{Environment, ConfigError, missing, malformed, bad_address, bad_port}

module _ (env : Environment) where
  open env use {lookup, parse_duration, split_host_port}

  abbrev pub or_fallback : Option Str → Str → Str
  or_fallback none fallback = fallback
  or_fallback (some raw) fallback = raw

  -- `value`
  unfoldable pub text_value : Str → Str → Str
  text_value key fallback = or_fallback (lookup key) fallback

  abbrev pub bool_of : Str → Option Str → Bool → Result ConfigError Bool
  bool_of key none fallback = ok fallback
  bool_of key (some raw) fallback =
      if str_eq raw (bytes "true")
      then ok true
      else if str_eq raw (bytes "false")
      then ok false
      else err (malformed key)

  unfoldable pub bool_value : Str → Bool → Result ConfigError Bool
  bool_value key fallback = bool_of key (lookup key) fallback

  abbrev pub in_range : Str → Option ℤ → ℤ → ℤ → Result ConfigError ℤ
  in_range key none minimum maximum = err (malformed key)
  in_range key (some parsed) minimum maximum =
      if ltb_ℤ parsed minimum || ltb_ℤ maximum parsed then err (malformed key) else ok parsed

  abbrev pub int_of : Str → Option Str → ℤ → ℤ → ℤ → Result ConfigError ℤ
  int_of key none fallback minimum maximum = ok fallback
  int_of key (some raw) fallback minimum maximum = in_range key (parse_int raw) minimum maximum

  unfoldable pub int_value : Str → ℤ → ℤ → ℤ → Result ConfigError ℤ
  int_value key fallback minimum maximum = int_of key (lookup key) fallback minimum maximum

  unfoldable pub int64_value : Str → ℤ → ℤ → ℤ → Result ConfigError ℤ
  int64_value key fallback minimum maximum = int_of key (lookup key) fallback minimum maximum

  abbrev pub positive_duration : Str → Option Duration → Result ConfigError Duration
  positive_duration key none = err (malformed key)
  positive_duration key (some parsed) =
      if leb_ℤ parsed (pos 0) then err (malformed key) else ok parsed

  unfoldable pub duration_value : Str → Str → Bool → Result ConfigError Duration
  duration_value key fallback required =
      let raw = or_fallback (lookup key) fallback in
      if required && str_eq raw []
      then err (missing key)
      else positive_duration key (parse_duration raw)

  abbrev pub checked_port : Str → Option ℤ → Result ConfigError (Unit {0})
  checked_port key none = err (bad_port key)
  checked_port key (some port) =
      if ltb_ℤ port (pos 1) || ltb_ℤ (pos 65535) port then err (bad_port key) else ok tt

  abbrev pub checked_host : Str → Option (Str × Str) → Bool → Result ConfigError (Unit {0})
  checked_host key none allow_empty_host = err (bad_address key)
  checked_host key (some (host, port)) allow_empty_host =
      if not allow_empty_host && str_eq host []
      then err (bad_address key)
      else checked_port key (parse_int port)

  unfoldable pub validate_address : Str → Str → Bool → Result ConfigError (Unit {0})
  validate_address key address allow_empty_host =
      if str_eq address [] || not (is_trimmed address)
      then err (bad_address key)
      else checked_host key (split_host_port address) allow_empty_host
