-- ===== src/Scanner/Objects.antt =====
-- `handleObject`, `handleMarker` and `handleRestore` of internal/tierer/scanner.go.
use cwm_minio_tierer.Prelude.{
  Bool, true, false, not, ◌&&◌, ◌||◌, Option, none, some, List, ◌∷◌, Result, ok, err, if◌then◌else◌,
}
use cwm_minio_tierer.Prelude.Int.{ℤ, pos}
use cwm_minio_tierer.Text.{Str}
use cwm_minio_tierer.Clock.{Time}
use cwm_minio_tierer.Evaluator.Defs.{
  UsageResult, Action, no_action, mark, restore, renew, decide_action,
}
use cwm_minio_tierer.Minio.Defs.{Object, MarkerPlan, same_identity}
use cwm_minio_tierer.Scanner.Effects.{
  BudgetKind, transition_budget, restore_budget, BudgetLimit, BudgetReservation, ScannerConfig,
  Trace, object_handled, dependency_failure, checked, reserved, put_marker, requested_restore,
  Handled, no_action_taken, stat_error, identity_changed, marker_error, marker_left, audit_mark,
  transition_budget_exhausted, marked, audited, restore_budget_exhausted, restore_error,
  restore_pending, performed, ScanError, reserve_failed, Deps,
}

module _ (deps : Deps) where
  open deps use {World}

  pub record Scan : Type 0 where
    pub world : World
    pub trace : List Trace

  abbrev pub Outcome : Type 0
  Outcome = Scan × Result ScanError (Unit {0})

  abbrev pub note : Scan → Trace → Scan
  note s t = record s { trace = t ∷ s.trace }

  -- s.observer.ObjectHandled(h); return nil
  abbrev pub handled : Scan → Handled → Outcome
  handled s h = (note s (object_handled h), ok tt)

  abbrev pub failure_unless_ended : Scan → Option Str → Scan
  failure_unless_ended s none = note s dependency_failure
  failure_unless_ended s (some ended) = s

  unfoldable pub dependency_error : Scan → Str → Scan
  dependency_error s error =
      if deps.is_canceled error
      then (let (w, ended) = deps.context_error s.world in
          failure_unless_ended (record s { world = w }) ended)
      else note s dependency_failure

module _ (deps : Deps) (config : ScannerConfig) where
  open deps use {World}

  -- The end of `handleRestore`, on what Restore answered.
  unfoldable pub after_restore : Scan deps → Action → Result Str Bool → Outcome deps
  after_restore s asked (err e) = handled deps (dependency_error deps s e) restore_error
  after_restore s asked (ok true) = handled deps s restore_pending
  after_restore s asked (ok false) = handled deps s (performed asked)

  unfoldable pub call_restore : Scan deps → Object → Action → Outcome deps
  call_restore s object action =
      let (w, answer) = deps.restore s.world object config.restore_days in
      after_restore (record { world = w; trace = requested_restore object ∷ s.trace }) action answer

  unfoldable pub after_apply_marker : Scan deps → Result Str (Unit {0}) → Outcome deps
  after_apply_marker s (err e) = handled deps (dependency_error deps s e) marker_error
  after_apply_marker s (ok _) = handled deps s marked

  unfoldable pub call_apply_marker : Scan deps → Object → MarkerPlan → Outcome deps
  call_apply_marker s object plan =
      let (w, answer) = deps.apply_marker s.world object plan in
      after_apply_marker (record { world = w; trace = put_marker object plan ∷ s.trace }) answer

  -- From Reserve on: an error ends the scan, a refusal the object, and otherwise the mutation runs.
  unfoldable pub after_reserve :
      Scan deps
      → BudgetKind
      → ℤ
      → Handled
      → (Scan deps → Outcome deps)
      → Result Str BudgetReservation
      → Outcome deps
  after_reserve s kind bytes exhausted mutate (err e) =
      (dependency_error deps s e, err (reserve_failed e))
  after_reserve s kind bytes exhausted mutate (ok reservation) =
      if not reservation.allowed
      then handled deps (note deps s (reserved kind bytes false)) exhausted
      else mutate (note deps s (reserved kind bytes true))

  -- s.state.Reserve(opCtx, s.now().UTC(), kind, limit, bytes)
  unfoldable pub with_reservation :
      Scan deps → BudgetKind → BudgetLimit → ℤ → Handled → (Scan deps → Outcome deps) → Outcome deps
  with_reservation s kind limit bytes exhausted mutate =
      let (w, t) = deps.now s.world in
      let (v, answer) = deps.reserve w t kind limit bytes in
      after_reserve (record s { world = v }) kind bytes exhausted mutate answer

  -- bytes := object.Size, and 0 for a renewal
  abbrev pub restore_bytes : Object → Action → ℤ
  restore_bytes object renew = pos 0
  restore_bytes object restore = object.size
  restore_bytes object mark = object.size
  restore_bytes object no_action = object.size

  unfoldable pub handle_restore : Scan deps → Object → Action → Outcome deps
  handle_restore s object action =
      if not config.apply
      then handled deps s (audited action)
      else with_reservation s restore_budget config.restore_limit (restore_bytes object action)
          restore_budget_exhausted (λ t. call_restore t object action)

  unfoldable pub after_plan : Scan deps → Object → Result Str MarkerPlan → Outcome deps
  after_plan s object (err e) = handled deps (dependency_error deps s e) marker_error
  after_plan s object (ok plan) =
      if not plan.required
      then handled deps s (marker_left plan.outcome)
      else if not config.apply
      then handled deps s audit_mark
      else with_reservation s transition_budget config.transition_limit object.size
          transition_budget_exhausted (λ t. call_apply_marker t object plan)

  unfoldable pub handle_marker : Scan deps → Object → Outcome deps
  handle_marker s object =
      let (w, answer) =
        deps.read_marker_plan s.world object config.marker_key config.marker_value in
      after_plan (record s { world = w }) object answer

  unfoldable pub perform : Scan deps → Object → Action → Outcome deps
  perform s object no_action = handled deps s no_action_taken
  perform s object mark = handle_marker s object
  perform s object restore = handle_restore s object restore
  perform s object renew = handle_restore s object renew

  unfoldable pub after_stat :
      Scan deps → Object → UsageResult → Time → Result Str Object → Outcome deps
  after_stat s listed result chunk_now (err e) = handled deps (dependency_error deps s e) stat_error
  after_stat s listed result chunk_now (ok current) =
      let t = note deps s (checked listed current) in
      if not (same_identity listed current)
      then handled deps t identity_changed
      else perform t current (decide_action current.state result.low result.high chunk_now)

  abbrev pub is_some_action : Action → Bool
  is_some_action no_action = false
  is_some_action mark = true
  is_some_action restore = true
  is_some_action renew = true

  -- The action by the state that the listing shows, if it shows one.
  abbrev pub listed_action : Object → UsageResult → Time → Action
  listed_action listed result chunk_now =
      if listed.state_known
      then decide_action listed.state result.low result.high chunk_now
      else no_action

  unfoldable pub handle_object : Scan deps → Object → UsageResult → Time → Outcome deps
  handle_object s listed result chunk_now =
      if (not listed.state_known && (result.low || result.high))
        || is_some_action (listed_action listed result chunk_now)
      then (let (w, answer) = deps.stat s.world listed in
          after_stat (record s { world = w }) listed result chunk_now answer)
      else perform s listed (listed_action listed result chunk_now)
