-- ===== src/Scanner/Progress.antt =====
-- How far a scan has come: the objects that were handled and the cursors that were saved.
use cwm_minio_tierer.Prelude.{
  ℕ, suc, ◌+◌, ◌≡◌, refl, Bool, true, false, not, Option, none, some, List, [], ◌∷◌, Result, ok,
  err, if◌then◌else◌, ◌||◌, ◌&&◌, arith, Bool-cases, inl, inr,
}
use cwm_minio_tierer.Prelude.Int.{ℤ}
use cwm_minio_tierer.Text.{Str}
use cwm_minio_tierer.Clock.{Time}
use cwm_minio_tierer.Evaluator.Defs.{UsageResult, Action, no_action, mark, restore, renew}
use cwm_minio_tierer.Minio.Defs.{Object, MarkerPlan, same_identity}
use cwm_minio_tierer.Scanner.Effects.{
  BudgetKind, transition_budget, restore_budget, BudgetReservation, ScannerConfig, Trace, Handled,
  Deps, object_handled, dependency_failure, checked, reserved, put_marker, requested_restore,
  cursor_saved, cursor_reset, transition_budget_exhausted, restore_budget_exhausted,
}
use cwm_minio_tierer.Scanner.Objects.{
  Scan, Outcome, dependency_error, failure_unless_ended, after_restore, call_restore,
  after_apply_marker, call_apply_marker, after_reserve, with_reservation, handle_restore,
  after_plan, handle_marker, perform, after_stat, handle_object, is_some_action, listed_action,
  restore_bytes,
}

abbrev pub handled_count : List Trace → ℕ
handled_count [] = 0
handled_count (object_handled h ∷ t) = suc (handled_count t)
handled_count (dependency_failure ∷ t) = handled_count t
handled_count (checked o p ∷ t) = handled_count t
handled_count (reserved k b a ∷ t) = handled_count t
handled_count (put_marker o p ∷ t) = handled_count t
handled_count (requested_restore o ∷ t) = handled_count t
handled_count (cursor_saved c ∷ t) = handled_count t
handled_count (cursor_reset ∷ t) = handled_count t

abbrev pub saved_count : List Trace → ℕ
saved_count [] = 0
saved_count (object_handled h ∷ t) = saved_count t
saved_count (dependency_failure ∷ t) = saved_count t
saved_count (checked o p ∷ t) = saved_count t
saved_count (reserved k b a ∷ t) = saved_count t
saved_count (put_marker o p ∷ t) = saved_count t
saved_count (requested_restore o ∷ t) = saved_count t
saved_count (cursor_saved c ∷ t) = suc (saved_count t)
saved_count (cursor_reset ∷ t) = saved_count t

module _ (deps : Deps) (config : ScannerConfig) where
  -- From `t` on no object was handled and no cursor saved.
  abbrev pub IsStill : List Trace → Scan deps → Type 0
  IsStill t s = (handled_count s.trace ≡ handled_count t) × (saved_count s.trace ≡ saved_count t)

  -- From `t` on, no cursor was saved, and n objects were handled if the outcome is no error.
  abbrev pub Handles : ℕ → List Trace → Outcome deps → Type 0
  Handles n t (s, err e) = saved_count s.trace ≡ saved_count t
  Handles n t (s, ok _) =
      (handled_count s.trace ≡ n + handled_count t) × (saved_count s.trace ≡ saved_count t)

  if_Handles :
      (n : ℕ) (t : List Trace) (b : Bool) (x y : Outcome deps)
      → Handles n t x
      → Handles n t y
      → Handles n t (if b then x else y)
  if_Handles n t true x y h k = h
  if_Handles n t false x y h k = k

  failure_unless_ended-IsStill :
      (t : List Trace) (s : Scan deps) (ended : Option Str)
      → IsStill t s
      → IsStill t (failure_unless_ended deps s ended)
  failure_unless_ended-IsStill t s none h = h
  failure_unless_ended-IsStill t s (some e) h = h

  pub dependency_error-IsStill :
      (t : List Trace) (s : Scan deps) (e : Str)
      → IsStill t s
      → IsStill t (dependency_error deps s e)
  unfolding dependency_error
  dependency_error-IsStill t s e h = elim (Bool-cases (deps.is_canceled e)) [
    | inl c ↦ rw c (failure_unless_ended-IsStill t _ ((deps.context_error s.world).1) h)
    | inr c ↦ rw c h
  ]

  one_more : {a b c d : ℕ} → (a ≡ b) × (c ≡ d) → (suc a ≡ 1 + b) × (c ≡ d)
  one_more (e, f) = (omega (arith, e), f)

  after_restore-Handles :
      (t : List Trace) (s : Scan deps) (asked : Action) (r : Result Str Bool)
      → IsStill t s
      → Handles 1 t (after_restore deps config s asked r)
  unfolding after_restore
  after_restore-Handles t s asked (err e) h = one_more (dependency_error-IsStill t s e h)
  after_restore-Handles t s asked (ok true) h = one_more h
  after_restore-Handles t s asked (ok false) h = one_more h

  after_apply_marker-Handles :
      (t : List Trace) (s : Scan deps) (r : Result Str Unit)
      → IsStill t s
      → Handles 1 t (after_apply_marker deps config s r)
  unfolding after_apply_marker
  after_apply_marker-Handles t s (err e) h = one_more (dependency_error-IsStill t s e h)
  after_apply_marker-Handles t s (ok _) h = one_more h

  after_reserve-Handles :
      (t : List Trace) (s : Scan deps) (kind : BudgetKind) (bytes : ℤ) (exhausted : Handled)
      (mutate : Scan deps → Outcome deps) (r : Result Str BudgetReservation)
      → IsStill t s
      → ((u : Scan deps) → IsStill t u → Handles 1 t (mutate u))
      → Handles 1 t (after_reserve deps config s kind bytes exhausted mutate r)
  unfolding after_reserve
  after_reserve-Handles t s kind bytes exhausted mutate (err e) h next =
      (dependency_error-IsStill t s e h).1
  after_reserve-Handles t s kind bytes exhausted mutate (ok reservation) h next =
      if_Handles 1 t (not reservation.allowed) _ _ (one_more h) (next _ h)

  handle_restore-Handles :
      (t : List Trace) (s : Scan deps) (object : Object) (asked : Action)
      → IsStill t s
      → Handles 1 t (handle_restore deps config s object asked)
  unfolding handle_restore with_reservation call_restore
  handle_restore-Handles t s object asked h = if_Handles 1 t (not config.apply) _ _ (one_more h) (
      after_reserve-Handles t _ restore_budget (restore_bytes deps config object asked)
        restore_budget_exhausted (λ u. call_restore deps config u object asked) _ h
        (λ u k. after_restore-Handles t _ asked _ k))

  after_plan-Handles :
      (t : List Trace) (s : Scan deps) (object : Object) (r : Result Str MarkerPlan)
      → IsStill t s
      → Handles 1 t (after_plan deps config s object r)
  unfolding after_plan with_reservation call_apply_marker
  after_plan-Handles t s object (err e) h = one_more (dependency_error-IsStill t s e h)
  after_plan-Handles t s object (ok plan) h = if_Handles 1 t (not plan.required) _ _ (one_more h) (
      if_Handles 1 t (not config.apply) _ _ (one_more h) (
        after_reserve-Handles t _ transition_budget object.size transition_budget_exhausted
          (λ u. call_apply_marker deps config u object plan) _ h
          (λ u k. after_apply_marker-Handles t _ _ k)))

  perform-Handles :
      (t : List Trace) (s : Scan deps) (object : Object) (asked : Action)
      → IsStill t s
      → Handles 1 t (perform deps config s object asked)
  unfolding perform handle_marker
  perform-Handles t s object no_action h = one_more h
  perform-Handles t s object mark h = after_plan-Handles t _ object _ h
  perform-Handles t s object restore h = handle_restore-Handles t s object restore h
  perform-Handles t s object renew h = handle_restore-Handles t s object renew h

  after_stat-Handles :
      (t : List Trace) (s : Scan deps) (listed : Object) (result : UsageResult) (now : Time)
      (r : Result Str Object)
      → IsStill t s
      → Handles 1 t (after_stat deps config s listed result now r)
  unfolding after_stat
  after_stat-Handles t s listed result now (err e) h = one_more (dependency_error-IsStill t s e h)
  after_stat-Handles t s listed result now (ok current) h =
      if_Handles 1 t (not (same_identity listed current)) _ _ (one_more h)
        (perform-Handles t _ current _ h)

  -- An object is handled once, unless its reservation fails; no cursor is saved.
  pub handle_object-Handles :
      (s : Scan deps) (listed : Object) (result : UsageResult) (now : Time)
      → Handles 1 s.trace (handle_object deps config s listed result now)
  unfolding handle_object
  handle_object-Handles s listed result now =
      let asked = listed_action deps config listed result now in
      if_Handles 1 s.trace
        ((not listed.state_known && (result.low || result.high))
          || is_some_action deps config asked)
        _ _ (after_stat-Handles s.trace _ listed result now _ (refl, refl))
        (perform-Handles s.trace s listed asked (refl, refl))
