-- ===== src/Tierer/Env.antt =====
-- How internal/tierer/config.go reads one setting.
use cwm_minio_tierer.Prelude.{
  Bool, true, false, not, ◌&&◌, ◌||◌, Option, none, some, List, [], ◌∷◌, Result, ok, err,
  if◌then◌else◌,
}
use cwm_minio_tierer.Prelude.Int.{ℤ, pos, ltb_ℤ, leb_ℤ}
use cwm_minio_tierer.Text.{Str, bytes, str_eq}
use cwm_minio_tierer.Text.Parse.{parse_int, is_trimmed, split}
use cwm_minio_tierer.Clock.{Duration}
use cwm_minio_tierer.Settings.{
  Environment, ConfigError, missing, malformed, bad_address, bad_port, blank_part, duplicate_part,
}

-- What a lookup gives besides whether it is set.
abbrev pub raw_of : Option Str → Str
raw_of none = []
raw_of (some raw) = raw

module _ (env : Environment) where
  open env use {lookup, parse_duration, split_host_port}

  unfoldable pub required : Str → Str
  required key = raw_of (lookup key)

  abbrev pub or_fallback : Option Str → Str → Str
  or_fallback none fallback = fallback
  or_fallback (some value) fallback = value

  unfoldable pub optional : Str → Str → Str
  optional key fallback = or_fallback (lookup key) fallback

  abbrev pub boolean_of : Str → Option Str → Bool → Result ConfigError Bool
  boolean_of key none fallback = ok fallback
  boolean_of key (some raw) fallback =
      if str_eq raw (bytes "true")
      then ok true
      else if str_eq raw (bytes "false")
      then ok false
      else err (malformed key)

  unfoldable pub boolean : Str → Bool → Result ConfigError Bool
  boolean key fallback = boolean_of key (lookup key) fallback

  abbrev pub at_least : Str → Option ℤ → ℤ → Result ConfigError ℤ
  at_least key none minimum = err (malformed key)
  at_least key (some value) minimum = if ltb_ℤ value minimum then err (malformed key) else ok value

  abbrev pub is_set : Option Str → Bool
  is_set none = false
  is_set (some raw) = true

  unfoldable pub integer : Str → ℤ → Bool → Result ConfigError ℤ
  integer key minimum allow_missing =
      if not (is_set (lookup key)) && not allow_missing
      then err (missing key)
      else at_least key (parse_int (raw_of (lookup key))) minimum

  unfoldable pub integer64 : Str → ℤ → Bool → Result ConfigError ℤ
  integer64 key minimum allow_missing =
      if not (is_set (lookup key)) && not allow_missing
      then err (missing key)
      else at_least key (parse_int (raw_of (lookup key))) minimum

  unfoldable pub optional_integer64 : Str → ℤ → Result ConfigError ℤ
  optional_integer64 key minimum =
      if str_eq (raw_of (lookup key)) []
      then ok (pos 0)
      else at_least key (parse_int (raw_of (lookup key))) minimum

  abbrev pub between : Str → Option ℤ → ℤ → ℤ → Result ConfigError ℤ
  between key none minimum maximum = err (malformed key)
  between key (some value) minimum maximum =
      if ltb_ℤ value minimum || ltb_ℤ maximum value then err (malformed key) else ok value

  unfoldable pub bounded_integer : Str → ℤ → ℤ → ℤ → Bool → Result ConfigError ℤ
  bounded_integer key fallback minimum maximum allow_missing =
      if not (is_set (lookup key)) && allow_missing
      then ok fallback
      else between key (parse_int (raw_of (lookup key))) minimum maximum

  abbrev pub positive : Str → Option Duration → Result ConfigError Duration
  positive key none = err (malformed key)
  positive key (some value) = if leb_ℤ value (pos 0) then err (malformed key) else ok value

  unfoldable pub duration : Str → Str → Bool → Result ConfigError Duration
  duration key fallback must_set =
      if not (is_set (lookup key)) && must_set
      then err (missing key)
      else positive key (parse_duration (or_fallback (lookup key) fallback))

  unfoldable pub is_member : Str → List Str → Bool
  is_member part [] = false
  is_member part (p ∷ seen) = str_eq p part || is_member part seen

  -- The loop of `exactList`: what is wrong with the parts, if anything is.
  unfoldable pub check_parts : Str → List Str → List Str → Result ConfigError (Unit {0})
  check_parts key seen [] = ok tt
  check_parts key seen (part ∷ rest) =
      let later = check_parts key (part ∷ seen) rest in
      if str_eq part [] || not (is_trimmed part)
      then err (blank_part key)
      else if is_member part seen
      then err (duplicate_part key)
      else later

  abbrev pub when_ok : Result ConfigError (Unit {0}) → List Str → Result ConfigError (List Str)
  when_ok (err e) parts = err e
  when_ok (ok _) parts = ok parts

  unfoldable pub exact_list : Str → Result ConfigError (List Str)
  exact_list key =
      let raw = raw_of (lookup key) in
      let parts = split b',' raw in
      if str_eq raw [] then ok [] else when_ok (check_parts key [] parts) parts

  abbrev pub checked_port : Str → Option ℤ → Result ConfigError (Unit {0})
  checked_port key none = err (bad_port key)
  checked_port key (some n) =
      if ltb_ℤ n (pos 1) || ltb_ℤ (pos 65535) n then err (bad_port key) else ok tt

  abbrev pub checked_parts : Str → Str → Option (Str × Str) → Bool → Result ConfigError (Unit {0})
  checked_parts key raw none allow_empty_host = err (bad_address key)
  checked_parts key raw (some (host, port)) allow_empty_host =
      if (not allow_empty_host && str_eq host []) || not (is_trimmed raw)
      then err (bad_address key)
      else checked_port key (parse_int port)

  unfoldable pub address : Str → Str → Bool → Result ConfigError (Unit {0})
  address key raw allow_empty_host = checked_parts key raw (split_host_port raw) allow_empty_host
