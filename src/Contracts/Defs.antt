-- ===== src/Contracts/Defs.antt =====
-- `HourWindow`, `CounterExpiry`, `ValidateInstanceID`, `ValidateCounterRetention` and
-- `ValidateRetention` of internal/contracts/contracts.go.
use cwm_minio_tierer.Prelude.{
  ℕ, zero, suc, Bool, not, ◌&&◌, ◌||◌, List, [], ◌∷◌, all, Result, ok, err, ◌>>◌, reject_if, leb,
  ◌==◌, if◌then◌else◌,
}
use cwm_minio_tierer.Prelude.Int.{ℤ, pos, pos_part, ◌+ℤ◌, ltb_ℤ, leb_ℤ, wrap64}
use cwm_minio_tierer.Text.{Str}
use cwm_minio_tierer.Clock.{Time, Duration, hour, second, times, negate, truncate, floor_mod}

pub data ContractError : Type 0 where
  window_not_positive retention_not_positive retention_not_whole retention_too_short : ContractError
  invalid_instance : ContractError

-- The loop that fills `result`, for `left` more hours from the i-th.
unfoldable pub window_from : Time → ℕ → ℕ → List Time
window_from start i zero = []
window_from start i (suc left) = (start +ℤ times (pos i) hour) ∷ window_from start (suc i) left

abbrev pub window_end : Time → Bool → Time
window_end evaluation include_current =
    let end = truncate evaluation hour in if include_current then end +ℤ pos hour else end

unfoldable pub hour_window : Time → ℤ → Bool → Result ContractError (List Time)
hour_window evaluation hours include_current =
    if leb_ℤ hours (pos 0)
    then err window_not_positive
    else ok (
        window_from (window_end evaluation include_current +ℤ times (negate hours) hour) 0
          (pos_part hours))

unfoldable pub counter_expiry : Time → Duration → Time
counter_expiry event_hour retention = truncate event_hour hour +ℤ pos hour +ℤ retention

-- The bytes of [A-Za-z0-9._-].
abbrev pub is_instance_byte : ℕ → Bool
is_instance_byte c =
    (leb b'A' c && leb c b'Z')
    || (leb b'a' c && leb c b'z')
    || (leb b'0' c && leb c b'9')
    || c == b'.'
    || c == b'_'
    || c == b'-'

unfoldable pub validate_instance_id : Str → Result ContractError (Unit {0})
validate_instance_id [] = err invalid_instance
validate_instance_id (c ∷ s) = reject_if (not (all is_instance_byte (c ∷ s))) invalid_instance

unfoldable pub validate_counter_retention : Duration → Result ContractError (Unit {0})
validate_counter_retention retention = do
  reject_if (leb_ℤ retention (pos 0)) retention_not_positive
  reject_if (not (floor_mod retention second == 0)) retention_not_whole

abbrev pub max_ℤ : ℤ → ℤ → ℤ
max_ℤ a b = if ltb_ℤ a b then b else a

unfoldable pub validate_retention : Duration → Duration → Duration → Result ContractError (Unit {0})
validate_retention retention low_window high_window = do
  reject_if (leb_ℤ retention (pos 0) || leb_ℤ low_window (pos 0) || leb_ℤ high_window (pos 0))
      retention_not_positive
  reject_if (leb_ℤ retention (wrap64 (max_ℤ low_window high_window +ℤ pos hour)))
      retention_too_short
