-- ===== src/Evaluator/Defs.antt =====
-- internal/tierer/evaluator.go: `Evaluate`, `sumCounts` and `DecideAction`, with their types.
use cwm_minio_tierer.Prelude.{
  Bool, true, false, not, ◌&&◌, ◌||◌, Option, none, some, List, [], ◌∷◌, Result, ok, err, ◌>>=◌,
  ◌>>◌, reject_if, wrap_err, if◌then◌else◌,
}
use cwm_minio_tierer.Prelude.Int.{
  ℤ, int_length, pos, ◌+ℤ◌, ◌-ℤ◌, ltb_ℤ, leb_ℤ, eqb_ℤ, max_int64, wrap64,
}
use cwm_minio_tierer.Clock.{Time, after, truncate, times, negate, hour}

pub record Policy : Type 0 where
  pub low_threshold : ℤ
  pub low_window_hours : ℤ
  pub high_threshold : ℤ
  pub high_window_hours : ℤ
  pub high_include_current : Bool

pub record Evaluation : Type 0 where
  pub evaluation_hour : Time
  pub last_modified : Time
  pub low_counts : List ℤ
  pub low_coverage : List Bool
  pub high_counts : List ℤ

pub record UsageResult : Type 0 where
  pub low : Bool
  pub high : Bool
  pub coverage_complete : Bool

pub data SumError : Type 0 where
  negative_count count_overflow : SumError

pub data EvaluateError : Type 0 where
  invalid_policy window_mismatch : EvaluateError
  low_window high_window : SumError → EvaluateError

-- The loop of `sumCounts`, with its running total.
unfoldable pub sum_from : ℤ → List ℤ → Result SumError ℤ
sum_from total [] = ok total
sum_from total (count ∷ counts) =
    let rest = sum_from (wrap64 (total +ℤ count)) counts in
    if ltb_ℤ count (pos 0)
    then err negative_count
    else if ltb_ℤ (wrap64 (pos max_int64 -ℤ total)) count
    then err count_overflow
    else rest

unfoldable pub sum_counts : List ℤ → Result SumError ℤ
unfolding sum_from
sum_counts counts = sum_from (pos 0) counts

-- complete = complete && covered
unfoldable pub coverage_from : Bool → List Bool → Bool
coverage_from complete [] = complete
coverage_from complete (covered ∷ rest) = coverage_from (complete && covered) rest

abbrev pub bad_policy : Policy → Bool
bad_policy p =
    ltb_ℤ p.low_threshold (pos 0)
    || ltb_ℤ p.high_threshold (pos 0)
    || leb_ℤ p.low_window_hours (pos 0)
    || leb_ℤ p.high_window_hours (pos 0)

abbrev pub bad_windows : Evaluation → Policy → Bool
bad_windows input p =
    not (eqb_ℤ (int_length input.low_counts) p.low_window_hours)
    || not (eqb_ℤ (int_length input.low_coverage) p.low_window_hours)
    || not (eqb_ℤ (int_length input.high_counts) p.high_window_hours)

abbrev pub old_enough : Evaluation → Policy → Bool
old_enough input p = not (
    after input.last_modified
      (truncate input.evaluation_hour hour +ℤ times (negate p.low_window_hours) hour))

unfoldable pub evaluate : Evaluation → Policy → Result EvaluateError UsageResult
evaluate input policy = do
  reject_if (bad_policy policy) invalid_policy
  reject_if (bad_windows input policy) window_mismatch
  low_sum ← wrap_err low_window (sum_counts input.low_counts)
  high_sum ← wrap_err high_window (sum_counts input.high_counts)
  let complete = coverage_from true input.low_coverage
  ok (record {
    low = complete && old_enough input policy && ltb_ℤ low_sum policy.low_threshold;
    high = ltb_ℤ policy.high_threshold high_sum;
    coverage_complete = complete;
  })

pub record RestoreState : Type 0 where
  pub ongoing : Bool
  pub expires : Time

pub record ObjectState : Type 0 where
  pub transitioned : Bool
  pub restore : Option RestoreState

pub data Action : Type 0 where
  no_action mark restore renew : Action

-- state.Restore != nil && state.Restore.Ongoing
abbrev pub is_ongoing : Option RestoreState → Bool
is_ongoing none = false
is_ongoing (some r) = r.ongoing

-- state.Restore != nil && state.Restore.Expires.After(now)
abbrev pub is_unexpired : Option RestoreState → Time → Bool
is_unexpired none now = false
is_unexpired (some r) now = after r.expires now

unfoldable pub decide_action : ObjectState → Bool → Bool → Time → Action
decide_action state low high now =
    if not state.transitioned
    then (if low then mark else no_action)
    else if not high || is_ongoing state.restore
    then no_action
    else if is_unexpired state.restore now
    then renew
    else restore
