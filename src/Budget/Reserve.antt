-- ===== src/Budget/Reserve.antt =====
-- `Reserve` of internal/tierer/redis.go, with `redisArray` and `redisInt64`. The formats of numbers and
-- days and strconv.ParseInt are parameters, and Eval runs the script and does not fail by itself.
use cwm_minio_tierer.Prelude.{
  ◌*◌, true, ◌&&◌, ◌||◌, Option, none, some, List, [], ◌∷◌, ◌++◌, Result, ok, err, ◌>>=◌,
  if◌then◌else◌,
}
use cwm_minio_tierer.Prelude.Int.{ℤ, pos, ◌+ℤ◌, ltb_ℤ, eqb_ℤ, max_int64}
use cwm_minio_tierer.Text.{Str, bytes}
use cwm_minio_tierer.Clock.{Time, hour, truncate, unix_seconds}
use cwm_minio_tierer.Redis.{Redis, Value, nil, int64, text}
use cwm_minio_tierer.Budget.Script.{BudgetError, Outcome, reserve_script}
use cwm_minio_tierer.Scanner.Effects.{
  BudgetKind, transition_budget, restore_budget, BudgetLimit, BudgetReservation,
}

pub data ReserveError : Type 0 where
  invalid_reservation unexpected_response malformed_integer : ReserveError
  script_failed : BudgetError → ReserveError

abbrev pub kind_text : BudgetKind → Str
kind_text transition_budget = bytes "transition"
kind_text restore_budget = bytes "restore"

-- A limit of 0 is no limit.
abbrev pub limit_or_max : ℤ → ℤ
limit_or_max limit = if eqb_ℤ limit (pos 0) then pos max_int64 else limit

module _ (parse_int : Str → Option ℤ) where
  abbrev pub parsed : Option ℤ → Result ReserveError ℤ
  parsed none = err malformed_integer
  parsed (some n) = ok n

  -- `redisInt64`
  unfoldable pub redis_int64 : Value → Result ReserveError ℤ
  redis_int64 (int64 n) = ok n
  redis_int64 (text s) = parsed (parse_int s)
  redis_int64 nil = err malformed_integer

  -- `redisArray` for three values, and what is read of them.
  unfoldable pub read_reply : List Value → Result ReserveError BudgetReservation
  read_reply (a ∷ b ∷ c ∷ []) = do
    allowed ← redis_int64 a
    used_attempts ← redis_int64 b
    used_bytes ← redis_int64 c
    ok (record {
      allowed = eqb_ℤ allowed (pos 1);
      used_attempts = used_attempts;
      used_bytes = used_bytes;
    })
  read_reply [] = err unexpected_response
  read_reply (a ∷ []) = err unexpected_response
  read_reply (a ∷ b ∷ []) = err unexpected_response
  read_reply (a ∷ b ∷ c ∷ d ∷ rest) = err unexpected_response

  module _ (redis : Redis) (decimal : ℤ → Str) (day : Time → Str) (instance_id : Str) where
    open redis use {State}

    abbrev pub budget_prefix : Time → BudgetKind → Str
    budget_prefix now kind =
        bytes "cwm-minio-tierer:v1:"
        ++ instance_id
        ++ bytes ":budget:"
        ++ day now
        ++ bytes ":"
        ++ kind_text kind

    abbrev pub decode : Outcome redis → State × Result ReserveError BudgetReservation
    decode (s, err e) = (s, err (script_failed e))
    decode (s, ok values) = (s, read_reply values)

    unfoldable pub reserve :
        State → Time → BudgetKind → BudgetLimit → ℤ → State × Result ReserveError BudgetReservation
    reserve s now kind limit size =
        if ltb_ℤ limit.attempts (pos 0) || ltb_ℤ limit.bytes_limit (pos 0) || ltb_ℤ size (pos 0)
        then (s, err invalid_reservation)
        else if eqb_ℤ limit.attempts (pos 0) && eqb_ℤ limit.bytes_limit (pos 0)
        then (s, ok (record { allowed = true; used_attempts = pos 0; used_bytes = pos 0 }))
        else decode (
            reserve_script redis s (budget_prefix now kind ++ bytes "-attempts")
              (budget_prefix now kind ++ bytes "-bytes") (decimal (limit_or_max limit.attempts))
              (decimal (limit_or_max limit.bytes_limit)) (decimal size)
              (decimal (unix_seconds (truncate now (24 * hour) +ℤ pos (72 * hour)))))
