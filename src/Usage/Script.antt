-- ===== src/Usage/Script.antt =====
-- readUnsignedStringsScript and readOptionalStringsScript of internal/tierer/redis.go.
use cwm_minio_tierer.Prelude.{
  not, ◌&&◌, ◌||◌, List, [], ◌∷◌, length, Result, ok, err, ◌>>=◌, ltb, ◌==◌, if◌then◌else◌,
}
use cwm_minio_tierer.Text.{Str, str_eq, str_lt}
use cwm_minio_tierer.Decimal.Defs.{is_positive_form, zero_text, max_int64_text}
use cwm_minio_tierer.Redis.{Redis, Kind, Value, nil, text}

pub data ScriptError : Type 0 where
  wrong_counter_type malformed_counter counter_overflow wrong_coverage_type : ScriptError

-- The second and the third test of a counter that is there.
unfoldable pub check_counter : Str → Result ScriptError Str
check_counter value =
    if not (str_eq value zero_text) && not (is_positive_form value)
    then err malformed_counter
    else if ltb (length max_int64_text) (length value)
        || (length value == length max_int64_text && str_lt max_int64_text value)
    then err counter_overflow
    else ok value

module _ (redis : Redis) (s : redis.State) where
  open redis use {type_of, get}

  unfoldable pub unsigned_at : Str → Result ScriptError Str
  unsigned_at key = elim (type_of s key) [
    | Kind.absent ↦ ok zero_text
    | Kind.string ↦ check_counter (get s key)
    | Kind.other ↦ err wrong_counter_type
  ]

  -- The loop over KEYS. The commands change nothing.
  unfoldable pub read_unsigned : List Str → Result ScriptError (List Value)
  read_unsigned [] = ok []
  read_unsigned (key ∷ keys) = do
    value ← unsigned_at key
    out ← read_unsigned keys
    ok (text value ∷ out)

  -- Lua's `false` is a nil reply.
  unfoldable pub optional_at : Str → Result ScriptError Value
  optional_at key = elim (type_of s key) [
    | Kind.absent ↦ ok nil
    | Kind.string ↦ ok (text (get s key))
    | Kind.other ↦ err wrong_coverage_type
  ]

  unfoldable pub read_optional : List Str → Result ScriptError (List Value)
  read_optional [] = ok []
  read_optional (key ∷ keys) = do
    value ← optional_at key
    out ← read_optional keys
    ok (value ∷ out)
