-- ===== src/Evaluator/Policies.antt =====
-- What the verdicts of `Evaluate` mean, and when it gives one.
use cwm_minio_tierer.Prelude.{
  ℕ, ◌*◌, ◌≡◌, ◌↔◌, Bool, true, false, ◌&&◌, List, [], ◌∷◌, All, ok, reject_if, wrap_err, >>=-ok,
  reject_if-eq-ok, wrap_err-eq-ok, arith,
}
use cwm_minio_tierer.Prelude.Int.{ℤ, pos, pos_part, ◌+ℤ◌, ◌≤ℤ◌, ◌<ℤ◌, +ℤ_parts, -ℤ_parts, ltb_ℤ}
use cwm_minio_tierer.Clock.{truncate, hour, times-negate}
use cwm_minio_tierer.Evaluator.Defs.{
  Policy, Evaluation, UsageResult, evaluate, coverage_from, bad_policy, bad_windows, old_enough,
  sum_counts, invalid_policy, window_mismatch, low_window, high_window,
}
use cwm_minio_tierer.Evaluator.Sums.{exact_sum, sum_counts_lem}

-- Ten years of hours: `maxWindowHours` of internal/tierer/config.go.
abbrev pub max_window_hours : ℕ
max_window_hours = 10 * 365 * 24

abbrev pub IsCovered : Bool → Type 0
IsCovered b = b ≡ true

coverage_from_lem :
    (b : Bool) (xs : List Bool) → (coverage_from b xs ≡ true) ↔ ((b ≡ true) × All IsCovered xs)
unfolding coverage_from
coverage_from_lem b [] = (λ e. (e, tt), λ p. p.0)
coverage_from_lem b (x ∷ xs) = (
  λ e. let p = (coverage_from_lem (b && x) xs).0 e in (ground arith, (ground arith, p.1)),
  λ p. (coverage_from_lem (b && x) xs).1 (ground arith, p.1.1),
)

-- The object was last modified no later than the start of the low window.
abbrev pub IsOld : Evaluation → Policy → Type 0
IsOld input p =
    input.last_modified +ℤ pos (pos_part p.low_window_hours * hour)
    ≤ℤ truncate input.evaluation_hour hour

module _ (input : Evaluation) (p : Policy) where
  old_enough_lem :
      pos 0 <ℤ p.low_window_hours
      → p.low_window_hours ≤ℤ pos max_window_hours
      → (old_enough input p ≡ true) ↔ IsOld input p
  old_enough_lem h k =
      rw (times-negate p.low_window_hours (omega arith) (omega arith))
        (grind (arith, +ℤ_parts, -ℤ_parts))

  -- The sums of an accepted evaluation, and what its tests found.
  record Accepted (r : UsageResult) : Type 0 where
    low_sum : ℤ
    high_sum : ℤ
    low_counted : sum_counts input.low_counts ≡ ok low_sum
    high_counted : sum_counts input.high_counts ≡ ok high_sum
    good_policy : bad_policy p ≡ false
    good_windows : bad_windows input p ≡ false
    low_is : r.low ≡ (
        coverage_from true input.low_coverage
        && old_enough input p
        && ltb_ℤ low_sum p.low_threshold)
    high_is : r.high ≡ ltb_ℤ p.high_threshold high_sum
    complete_is : r.coverage_complete ≡ coverage_from true input.low_coverage

  evaluate-Accepted : (r : UsageResult) → evaluate input p ≡ ok r → Accepted r
  unfolding evaluate
  evaluate-Accepted r e =
      let (_, a, e₁) = >>=-ok (reject_if (bad_policy p) invalid_policy) _ e in
      let (_, b, e₂) = >>=-ok (reject_if (bad_windows input p) window_mismatch) _ e₁ in
      let (low_sum, c, e₃) = >>=-ok (wrap_err low_window (sum_counts input.low_counts)) _ e₂ in
      let (high_sum, d, e₄) = >>=-ok (wrap_err high_window (sum_counts input.high_counts)) _ e₃ in
      record {
        low_sum = low_sum;
        high_sum = high_sum;
        low_counted = wrap_err-eq-ok low_window _ c;
        high_counted = wrap_err-eq-ok high_window _ d;
        good_policy = reject_if-eq-ok _ _ a;
        good_windows = reject_if-eq-ok _ _ b;
        low_is = ground arith;
        high_is = ground arith;
        complete_is = ground arith;
      }

  -- An accepted evaluation gives these verdicts: low exactly when every hour of the low window is
  -- covered, the object is older than the window and the exact sum is below the threshold; high exactly
  -- when the exact sum of the high window is above its threshold, whatever the coverage.
  pub evaluate_lem :
      (r : UsageResult)
      → p.low_window_hours ≤ℤ pos max_window_hours
      → evaluate input p ≡ ok r
      → ((r.low ≡ true) ↔ (
          All IsCovered input.low_coverage
          × IsOld input p
          × (exact_sum input.low_counts <ℤ p.low_threshold)))
        × ((r.high ≡ true) ↔ (p.high_threshold <ℤ exact_sum input.high_counts))
        × ((r.coverage_complete ≡ true) ↔ All IsCovered input.low_coverage)
  evaluate_lem r k e = (low_means, high_means, complete_means)
    where
      a : Accepted r
      a = evaluate-Accepted r e

      complete_means : (r.coverage_complete ≡ true) ↔ All IsCovered input.low_coverage
      complete_means = ground (arith, a.complete_is, coverage_from_lem true input.low_coverage)

      window_positive : pos 0 <ℤ p.low_window_hours
      window_positive = ground (arith, a.good_policy)

      high_means : (r.high ≡ true) ↔ (p.high_threshold <ℤ exact_sum input.high_counts)
      high_means =
          ground (arith, a.high_is, (sum_counts_lem input.high_counts a.high_sum).0 a.high_counted)

      low_means : (r.low ≡ true) ↔ (
          All IsCovered input.low_coverage
          × IsOld input p
          × (exact_sum input.low_counts <ℤ p.low_threshold))
      low_means = ground (
        arith,
        a.low_is,
        (sum_counts_lem input.low_counts a.low_sum).0 a.low_counted,
        old_enough_lem window_positive k,
        coverage_from_lem true input.low_coverage,
      )
