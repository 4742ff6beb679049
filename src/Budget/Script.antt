-- ===== src/Budget/Script.antt =====
-- reserveBudgetScript of internal/tierer/redis.go.
use cwm_minio_tierer.Prelude.{
  Bool, false, not, ◌||◌, Option, none, some, List, [], ◌∷◌, Result, ok, err, if◌then◌else◌,
}
use cwm_minio_tierer.Prelude.Int.{ℤ, pos}
use cwm_minio_tierer.Text.{Str, bytes, str_eq}
use cwm_minio_tierer.Decimal.Defs.{valid_uint, add_uint, less_or_equal, zero_text}
use cwm_minio_tierer.Redis.{Redis, Value, int64, text, stored}

pub data BudgetError : Type 0 where
  malformed_budget invalid_budget_arguments command_failed : BudgetError

abbrev pub one_text : Str
one_text = bytes "1"

-- The sum is there and is within the limit.
abbrev pub within : Option Str → Str → Bool
within none limit = false
within (some sum) limit = less_or_equal sum limit

abbrev pub bad_arguments : Str → Str → Str → Bool
bad_arguments attempt_limit byte_limit byte_delta =
    not (valid_uint attempt_limit)
    || str_eq attempt_limit zero_text
    || not (valid_uint byte_limit)
    || str_eq byte_limit zero_text
    || not (valid_uint byte_delta)

module _ (redis : Redis) where
  open redis use {State, incrby, expireat}

  abbrev check_uint : Option Str → Option Str
  check_uint none = none
  check_uint (some raw) = if not (valid_uint raw) then none else some raw

  -- local function current(key)
  unfoldable pub current : State → Str → Option Str
  current s key = check_uint (stored redis s key)

  abbrev pub Outcome : Type 0
  Outcome = State × Result BudgetError (List Value)

  -- The second increment, which is left out for no bytes.
  unfoldable pub add_bytes : State → Str → Str → Str → Str → ℤ → Outcome
  add_bytes s bytes_key bytes_used delta expires new_attempts =
      if str_eq delta zero_text
      then (s, ok (int64 (pos 1) ∷ int64 new_attempts ∷ text bytes_used ∷ []))
      else elim (incrby s bytes_key delta) [
        | none ↦ (s, err command_failed)
        | some (t, new_bytes) ↦ (
          expireat t bytes_key expires,
          ok (int64 (pos 1) ∷ int64 new_attempts ∷ int64 new_bytes ∷ []),
        )
      ]

  unfoldable pub charge : State → Str → Str → Str → Str → Str → Outcome
  charge s attempts_key bytes_key bytes_used delta expires = elim (incrby s attempts_key one_text) [
    | none ↦ (s, err command_failed)
    | some (t, new_attempts) ↦
        add_bytes (expireat t attempts_key expires) bytes_key bytes_used delta expires new_attempts
  ]

  -- From the arguments on, with both counters read.
  unfoldable pub decide : State → Str → Str → Str → Str → Str → Str → Str → Str → Outcome
  decide s attempts_key bytes_key attempts bytes_used attempt_limit byte_limit byte_delta expires =
      if bad_arguments attempt_limit byte_limit byte_delta
      then (s, err invalid_budget_arguments)
      else if not (within (add_uint attempts one_text) attempt_limit)
          || not (within (add_uint bytes_used byte_delta) byte_limit)
      then (s, ok (int64 (pos 0) ∷ text attempts ∷ text bytes_used ∷ []))
      else charge s attempts_key bytes_key bytes_used byte_delta expires

  unfoldable pub with_counters :
      State → Str → Str → Option Str → Option Str → Str → Str → Str → Str → Outcome
  with_counters s attempts_key bytes_key (some attempts) (some bytes_used) al bl delta expires =
      decide s attempts_key bytes_key attempts bytes_used al bl delta expires
  with_counters s attempts_key bytes_key _ _ al bl delta expires = (s, err malformed_budget)

  unfoldable pub reserve_script : State → Str → Str → Str → Str → Str → Str → Outcome
  reserve_script s attempts_key bytes_key attempt_limit byte_limit byte_delta expires =
      with_counters s attempts_key bytes_key (current s attempts_key) (current s bytes_key)
        attempt_limit byte_limit byte_delta expires
