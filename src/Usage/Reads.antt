-- ===== src/Usage/Reads.antt =====
-- `ReadCounts`, `ReadCoverage`, `ReadChunk` and `decodeCounts` of internal/tierer/redis.go. Eval runs
-- the script on the server, unless `failure` says that the call fails by itself.
use cwm_minio_tierer.Prelude.{
  ℕ, Bool, true, false, not, ◌||◌, Option, none, some, List, [], ◌∷◌, ◌++◌, length, take, drop,
  replicate, is_nil, Result, ok, err, ◌>>=◌, ◌>>◌, wrap_err, reject_if, ◌==◌, if◌then◌else◌,
}
use cwm_minio_tierer.Prelude.Int.{ℤ, pos, ltb_ℤ, int_length}
use cwm_minio_tierer.Text.{Str, str_eq}
use cwm_minio_tierer.Text.Parse.{parse_int}
use cwm_minio_tierer.Clock.{Time}
use cwm_minio_tierer.Contracts.Keys.{KeyError, access_key}
use cwm_minio_tierer.Contracts.Coverage.{coverage_key}
use cwm_minio_tierer.Minio.Defs.{Object}
use cwm_minio_tierer.Redis.{Redis, Value, nil, int64, text}
use cwm_minio_tierer.Scanner.Effects.{ObjectUsage}
use cwm_minio_tierer.Scanner.Chunks.{validate_aggregate_access_keys}
use cwm_minio_tierer.Usage.Script.{ScriptError, read_unsigned, read_optional}

pub data ReadError : Type 0 where
  empty_window too_many_keys unexpected_response unexpected_value malformed_count : ReadError
  bad_key : KeyError → ReadError
  client_failed : Str → ReadError
  rejected : ScriptError → ReadError

-- The fields of RedisStore besides its client.
pub record ReadSettings : Type 0 where
  pub instance_id : Str
  pub coverage_template : Str
  pub coverage_value : Str
  pub coverage_enabled : Bool

-- text[0] == '0' of a longer text
abbrev pub has_leading_zero : Str → Bool
has_leading_zero [] = false
has_leading_zero (c ∷ []) = false
has_leading_zero (c ∷ d ∷ s) = c == b'0'

abbrev pub checked_count : Str → Option ℤ → Result ReadError ℤ
checked_count s none = err malformed_count
checked_count s (some count) =
    if ltb_ℤ count (pos 0) || has_leading_zero s then err malformed_count else ok count

unfoldable pub decode_count : Value → Result ReadError ℤ
decode_count (text s) = checked_count s (parse_int s)
decode_count (int64 n) = err unexpected_value
decode_count nil = err unexpected_value

unfoldable pub decode_counts : List Value → Result ReadError (List ℤ)
decode_counts [] = ok []
decode_counts (value ∷ values) = do
  count ← decode_count value
  counts ← decode_counts values
  ok (count ∷ counts)

-- `redisArray`
unfoldable pub redis_array : List Value → ℕ → Result ReadError (List Value)
redis_array values size = if length values == size then ok values else err unexpected_response

-- The loop over the objects, on the values that are left.
unfoldable pub decode_usage : List Object → ℕ → ℕ → List Value → Result ReadError (List ObjectUsage)
decode_usage [] low_hours high_hours values = ok []
decode_usage (object ∷ objects) low_hours high_hours values = do
  low ← decode_counts (take low_hours values)
  high ← decode_counts (take high_hours (drop low_hours values))
  usage ← decode_usage objects low_hours high_hours (drop high_hours (drop low_hours values))
  ok (record { low = low; high = high } ∷ usage)

unfoldable pub decode_coverage : Str → List Value → Result ReadError (List Bool)
decode_coverage expected [] = ok []
decode_coverage expected (nil ∷ values) = do
  covered ← decode_coverage expected values
  ok (false ∷ covered)
decode_coverage expected (text s ∷ values) = do
  covered ← decode_coverage expected values
  ok (str_eq s expected ∷ covered)
decode_coverage expected (int64 n ∷ values) = err unexpected_value

abbrev pub answered : Option Str → Result ScriptError (List Value) → Result ReadError (List Value)
answered none reply = wrap_err rejected reply
answered (some why) reply = err (client_failed why)

module _ (format_time : Str → Time → Str) (settings : ReadSettings) where
  unfoldable pub hour_keys : Str → Str → List Time → Result ReadError (List Str)
  hour_keys bucket object [] = ok []
  hour_keys bucket object (hour ∷ hours) = do
    key ← wrap_err bad_key (access_key format_time settings.instance_id bucket object hour)
    keys ← hour_keys bucket object hours
    ok (key ∷ keys)

  unfoldable pub chunk_keys : List Object → List Time → List Time → Result ReadError (List Str)
  chunk_keys [] low_hours high_hours = ok []
  chunk_keys (object ∷ objects) low_hours high_hours = do
    low ← hour_keys object.bucket object.name low_hours
    high ← hour_keys object.bucket object.name high_hours
    keys ← chunk_keys objects low_hours high_hours
    ok (low ++ (high ++ keys))

  unfoldable pub coverage_keys : List Time → List Str
  coverage_keys [] = []
  coverage_keys (hour ∷ hours) =
      coverage_key format_time settings.coverage_template hour ∷ coverage_keys hours

  module _ (redis : Redis) (s : redis.State) (failure : List Str → Option Str) where
    abbrev pub eval :
        (List Str → Result ScriptError (List Value)) → List Str → Result ReadError (List Value)
    eval script keys = answered (failure keys) (script keys)

    unfoldable pub read_counts : Str → Str → List Time → Result ReadError (List ℤ)
    read_counts bucket object hours = do
      reject_if (is_nil hours) empty_window
      keys ← hour_keys bucket object hours
      raw ← eval (read_unsigned redis s) keys
      values ← redis_array raw (length keys)
      decode_counts values

    unfoldable pub read_enabled_coverage : List Time → Result ReadError (List Bool)
    read_enabled_coverage hours = do
      let keys = coverage_keys hours
      raw ← eval (read_optional redis s) keys
      values ← redis_array raw (length keys)
      decode_coverage settings.coverage_value values

    unfoldable pub read_coverage : List Time → Result ReadError (List Bool)
    read_coverage hours = do
      reject_if (is_nil hours) empty_window
      if not settings.coverage_enabled
          then ok (replicate (length hours) true)
          else read_enabled_coverage hours

    unfoldable pub read_chunk :
        List Object → List Time → List Time → Result ReadError (List ObjectUsage × List Bool)
    read_chunk objects low_hours high_hours = do
      reject_if (is_nil objects || is_nil low_hours || is_nil high_hours) empty_window
      reject_if
          (not (
            validate_aggregate_access_keys (int_length objects) (int_length low_hours)
              (int_length high_hours) (pos 10000)))
          too_many_keys
      keys ← chunk_keys objects low_hours high_hours
      raw ← eval (read_unsigned redis s) keys
      values ← redis_array raw (length keys)
      usage ← decode_usage objects (length low_hours) (length high_hours) values
      coverage ← read_coverage low_hours
      ok (usage, coverage)
