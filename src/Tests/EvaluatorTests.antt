-- ===== src/Tests/EvaluatorTests.antt =====
-- internal/tierer/evaluator.go on concrete inputs.
use cwm_minio_tierer.Prelude.{◌*◌, ◌≡◌, ◌↔◌, refl, true, false, some, [], ◌∷◌, All, ok, arith}
use cwm_minio_tierer.Prelude.Int.{pos, wrap64, ◌+ℤ◌, ◌-ℤ◌, ◌*ℤ◌, ◌≤ℤ◌, ◌<ℤ◌, max_int64}
use cwm_minio_tierer.Clock.{hour, truncate}
use cwm_minio_tierer.Evaluator.Defs.{
  Policy, Evaluation, UsageResult, evaluate, sum_counts, sum_from, coverage_from, ObjectState,
  decide_action, mark, restore, renew,
}
use cwm_minio_tierer.Evaluator.Sums.{exact_sum, sum_counts_lem, IsNonneg}
use cwm_minio_tierer.Evaluator.Policies.{evaluate_lem, IsCovered, IsOld}
use cwm_minio_tierer.Evaluator.Actions.{decide_action_lem, NeedsRestore, HasCopy}

abbrev policy : Policy
policy = record {
  low_threshold = pos 5;
  low_window_hours = pos 2;
  high_threshold = pos 10;
  high_window_hours = pos 1;
  high_include_current = false;
}

abbrev quiet : Evaluation
quiet = record {
  evaluation_hour = pos (100 * hour);
  last_modified = pos (98 * hour);
  low_counts = pos 1 ∷ pos 3 ∷ [];
  low_coverage = true ∷ true ∷ [];
  high_counts = pos 3 ∷ [];
}

abbrev quiet_result : UsageResult
quiet_result = record { low = true; high = false; coverage_complete = true }

evaluate-quiet : evaluate quiet policy ≡ ok quiet_result
unfolding evaluate sum_counts sum_from coverage_from truncate wrap64 ◌+ℤ◌ ◌-ℤ◌ ◌*ℤ◌
evaluate-quiet = refl

evaluate_lem_example :
    ((true ≡ true) ↔ (
      All IsCovered (true ∷ true ∷ [])
      × IsOld quiet policy
      × (exact_sum (pos 1 ∷ pos 3 ∷ []) <ℤ pos 5)))
    × ((false ≡ true) ↔ (pos 10 <ℤ exact_sum (pos 3 ∷ [])))
    × ((true ≡ true) ↔ All IsCovered (true ∷ true ∷ []))
evaluate_lem_example = evaluate_lem quiet policy quiet_result (omega arith) evaluate-quiet

sum_counts_lem_example : (sum_counts (pos 1 ∷ pos max_int64 ∷ []) ≡ ok (pos 0)) ↔ (
    All IsNonneg (pos 1 ∷ pos max_int64 ∷ [])
    × (pos 0 ≡ exact_sum (pos 1 ∷ pos max_int64 ∷ []))
    × (pos 0 ≤ℤ pos max_int64))
sum_counts_lem_example = sum_counts_lem (pos 1 ∷ pos max_int64 ∷ []) (pos 0)

abbrev remote : ObjectState
remote = record {
  transitioned = true;
  restore = some (record { ongoing = false; expires = pos 9 });
}

decide_action_lem_example :
    ((decide_action remote false true (pos 9) ≡ mark)
      ↔ ((remote.transitioned ≡ false) × (false ≡ true)))
    × ((decide_action remote false true (pos 9) ≡ restore)
        ↔ ((remote.transitioned ≡ true) × (true ≡ true) × NeedsRestore remote (pos 9)))
    × ((decide_action remote false true (pos 9) ≡ renew)
        ↔ ((remote.transitioned ≡ true) × (true ≡ true) × HasCopy remote (pos 9)))
decide_action_lem_example = decide_action_lem remote false true (pos 9)
