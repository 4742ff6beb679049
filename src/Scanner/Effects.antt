-- ===== src/Scanner/Effects.antt =====
-- What `Scanner` of internal/tierer/scanner.go works with: its configuration, the interfaces
-- `inventory`, `usageReader` and `stateStore`, the clock and the context, and the record of what it
-- has called and told its observer, newest first.
use cwm_minio_tierer.Prelude.{Bool, Option, List, Result}
use cwm_minio_tierer.Prelude.Int.{ℤ}
use cwm_minio_tierer.Text.{Str}
use cwm_minio_tierer.Clock.{Time}
use cwm_minio_tierer.Contracts.Defs.{ContractError}
use cwm_minio_tierer.Evaluator.Defs.{Policy, Action, EvaluateError}
use cwm_minio_tierer.Minio.Defs.{Object, MarkerPlan, MarkerOutcome}

pub data BudgetKind : Type 0 where
  transition_budget restore_budget : BudgetKind

pub record BudgetLimit : Type 0 where
  pub attempts : ℤ
  pub bytes_limit : ℤ

pub record BudgetReservation : Type 0 where
  pub allowed : Bool
  pub used_attempts : ℤ
  pub used_bytes : ℤ

pub record Cursor : Type 0 where
  pub bucket : Str
  pub object : Str
  pub updated_at : Time

pub record ObjectUsage : Type 0 where
  pub low : List ℤ
  pub high : List ℤ

pub record ScannerConfig : Type 0 where
  pub apply : Bool
  pub policy : Policy
  pub restore_days : ℤ
  pub marker_key : Str
  pub marker_value : Str
  pub chunk_size : ℤ
  pub excluded_buckets : List Str
  pub excluded_prefixes : List Str
  pub scope : Str
  pub transition_limit : BudgetLimit
  pub restore_limit : BudgetLimit

-- The words that the observer is told of an object.
pub data Handled : Type 0 where
  directory_skipped no_action_taken stat_error identity_changed marker_error : Handled
  audit_mark transition_budget_exhausted marked : Handled
  restore_budget_exhausted restore_error restore_pending : Handled
  -- "marker_" + plan.Outcome
  marker_left : MarkerOutcome → Handled
  -- "audit_" + action, and the action itself
  audited performed : Action → Handled

pub data Trace : Type 0 where
  object_handled : Handled → Trace
  dependency_failure : Trace
  -- an answered Stat: the object that was listed, and what it is now
  checked : Object → Object → Trace
  -- an answered Reserve: kind, bytes, and whether it was allowed
  reserved : BudgetKind → ℤ → Bool → Trace
  -- calls of ApplyMarker and of Restore
  put_marker : Object → MarkerPlan → Trace
  requested_restore : Object → Trace
  cursor_saved : Cursor → Trace
  cursor_reset : Trace

pub data ScanError : Type 0 where
  invalid_scanner_config negative_budgets too_many_access_keys : ScanError
  listing_inactive empty_object_name usage_mismatch index_out_of_range : ScanError
  context_ended load_failed buckets_failed listing_failed usage_failed : Str → ScanError
  reserve_failed save_failed reset_failed : Str → ScanError
  window_failed : ContractError → ScanError
  evaluate_failed : EvaluateError → ScanError

-- What `scanBucket` receives, in order: an object, an error of the listing, the inactivity timer, or
-- the end of the context. A closed stream is the end of the list.
pub data Arrival : Type 0 where
  item : Object → Arrival
  item_error : Str → Arrival
  inactivity : Arrival
  done : Str → Arrival

-- Everything outside the scanner, with a world that each call may change. An error is its text.
pub record Deps : Type 1 where
  pub World : Type 0
  pub now : World → World × Time
  -- ctx.Err()
  pub context_error : World → World × Option Str
  -- errors.Is(err, context.Canceled)
  pub is_canceled : Str → Bool
  pub stat : World → Object → World × Result Str Object
  pub read_marker_plan : World → Object → Str → Str → World × Result Str MarkerPlan
  pub apply_marker : World → Object → MarkerPlan → World × Result Str (Unit {0})
  pub restore : World → Object → ℤ → World × Result Str Bool
  pub reserve : World → Time → BudgetKind → BudgetLimit → ℤ → World × Result Str BudgetReservation
  pub read_chunk :
      World
      → List Object
      → List Time
      → List Time
      → World × Result Str (List ObjectUsage × List Bool)
  pub save_cursor : World → Str → Cursor → World × Result Str (Unit {0})
  pub reset_cursor : World → Str → World × Result Str (Unit {0})
  pub load_cursor : World → Str → World × Result Str (Option Cursor)
  pub buckets : World → World × Result Str (List Str)
  pub objects : World → Str → Str → World × List Arrival
