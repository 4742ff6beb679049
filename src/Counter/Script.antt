-- ===== src/Counter/Script.antt =====
-- counterScript of internal/redisstore/store.go.
use cwm_minio_tierer.Prelude.{
  ℕ, not, ◌||◌, Option, none, some, List, [], ◌∷◌, length, Result, ok, err, if◌then◌else◌,
}
use cwm_minio_tierer.Text.{Str, str_eq}
use cwm_minio_tierer.Decimal.Defs.{valid_uint, add_uint, zero_text}
use cwm_minio_tierer.Redis.{Redis, stored}

pub data ScriptError : Type 0 where
  invalid_delta invalid_expiry wrong_key_type malformed_counter counter_overflow : ScriptError
  -- a command of the script failed, which ends it at that point
  command_failed : ScriptError

module _ (redis : Redis) where
  open redis use {State, incrby, expireat}

  -- What is wrong with the stored value, or with its sum.
  unfoldable pub check_current : Option Str → Str → Result ScriptError (Unit {0})
  check_current none delta = err wrong_key_type
  check_current (some current) delta =
      if not (valid_uint current)
      then err malformed_counter
      else elim (add_uint current delta) [ none ↦ err counter_overflow | some sum ↦ ok tt ]

  -- One round of the first loop.
  unfoldable pub check_key : State → Str → Str → Str → Result ScriptError (Unit {0})
  check_key s key delta expiry =
      if not (valid_uint delta) || str_eq delta zero_text
      then err invalid_delta
      else if not (valid_uint expiry)
      then err invalid_expiry
      else check_current (stored redis s key) delta

  -- The first loop, which changes nothing. ARGV holds a delta and an expiry for each key; an argument
  -- that is missing is nil, which is no valid number.
  unfoldable pub check_all : State → List Str → List Str → Result ScriptError (Unit {0})
  check_all s [] args = ok tt
  check_all s (key ∷ keys) [] = err invalid_delta
  check_all s (key ∷ keys) (delta ∷ []) =
      if not (valid_uint delta) || str_eq delta zero_text
      then err invalid_delta
      else err invalid_expiry
  check_all s (key ∷ keys) (delta ∷ expiry ∷ args) =
      let rest = check_all s keys args in
      elim (check_key s key delta expiry) [ err e ↦ err e | ok _ ↦ rest ]

  -- The second loop: INCRBY and EXPIREAT for each key.
  unfoldable pub write_all : State → List Str → List Str → State × Result ScriptError (Unit {0})
  write_all s (key ∷ keys) (delta ∷ expiry ∷ args) = elim (incrby s key delta) [
    | none ↦ (s, err command_failed)
    | some (t, reply) ↦ write_all (expireat t key expiry) keys args
  ]
  write_all s (key ∷ keys) (delta ∷ []) = (s, err command_failed)
  write_all s (key ∷ keys) [] = (s, err command_failed)
  write_all s [] args = (s, ok tt)

  unfoldable pub counted : ℕ → State × Result ScriptError (Unit {0}) → State × Result ScriptError ℕ
  counted n (s, ok _) = (s, ok n)
  counted n (s, err e) = (s, err e)

  -- The script: its reply is the number of keys.
  unfoldable pub counter_script : State → List Str → List Str → State × Result ScriptError ℕ
  counter_script s keys args = elim (check_all s keys args) [
    | err e ↦ (s, err e)
    | ok _ ↦ counted (length keys) (write_all s keys args)
  ]
