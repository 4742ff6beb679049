-- ===== src/Scanner/Safety.antt =====
-- What `handleObject` of internal/tierer/scanner.go may do before, and for, a mutation.
use cwm_minio_tierer.Prelude.{
  ◌≡◌, ◌⊎◌, refl, inl, inr, Bool, true, false, Option, none, some, List, [], ◌∷◌, Result, ok, err,
  arith, if◌then◌else◌, Bool-cases, ap, ◌∙◌, not, ◌&&◌, ◌||◌,
}
use cwm_minio_tierer.Prelude.Int.{ℤ, pos}
use cwm_minio_tierer.Text.{Str}
use cwm_minio_tierer.Clock.{Time}
use cwm_minio_tierer.Evaluator.Defs.{
  UsageResult, Action, no_action, mark, restore, renew, decide_action,
}
use cwm_minio_tierer.Evaluator.Actions.{decide_action_lem, NeedsRestore, HasCopy}
use cwm_minio_tierer.Minio.Defs.{Object, MarkerPlan, same_identity}
use cwm_minio_tierer.Scanner.Effects.{
  BudgetKind, transition_budget, restore_budget, BudgetReservation, ScannerConfig, Trace,
  object_handled, dependency_failure, checked, reserved, put_marker, requested_restore, Handled,
  restore_budget_exhausted, transition_budget_exhausted, cursor_saved, cursor_reset, Deps,
}
use cwm_minio_tierer.Scanner.Objects.{
  Scan, Outcome, dependency_error, failure_unless_ended, restore_bytes, after_restore, call_restore,
  after_apply_marker, call_apply_marker, after_reserve, with_reservation, handle_restore,
  after_plan, handle_marker, perform, after_stat, handle_object, is_some_action, listed_action,
}

-- The last two calls before a mutation of `object`: a Stat that found the same object again, in this
-- state, and then an allowed reservation of these bytes.
abbrev pub Granted : BudgetKind → ℤ → Object → List Trace → Type 0
Granted kind bytes object t =
    (listed : Object) × (rest : List Trace) × (t
      ≡ reserved kind bytes true ∷ checked listed object ∷ rest)
    × (same_identity listed object ≡ true)

-- What a restore of the object reserves: its size if it has no copy, and nothing if it has one.
abbrev pub IsRestoreCost : Object → ℤ → Type 0
IsRestoreCost object bytes =
    (now : Time) × (object.state.transitioned ≡ true)
    × ((NeedsRestore object.state now × (bytes ≡ object.size))
        ⊎ (HasCopy object.state now × (bytes ≡ pos 0)))

module _ (apply : Bool) where
  -- May this happen, when `t` has happened before it, newest first?
  abbrev pub MayFollow : Trace → List Trace → Type 0
  MayFollow (object_handled h) t = Unit
  MayFollow dependency_failure t = Unit
  MayFollow (checked listed current) t = Unit
  MayFollow (cursor_saved c) t = Unit
  MayFollow cursor_reset t = Unit
  MayFollow (reserved kind bytes allowed) t = apply ≡ true
  MayFollow (put_marker object plan) t =
      Granted transition_budget object.size object t
      × (plan.required ≡ true)
      × (object.state.transitioned ≡ false)
  MayFollow (requested_restore object) t =
      (bytes : ℤ) × Granted restore_budget bytes object t × IsRestoreCost object bytes

  abbrev pub IsSafe : List Trace → Type 0
  IsSafe [] = Unit
  IsSafe (e ∷ t) = MayFollow e t × IsSafe t

module _ (deps : Deps) (config : ScannerConfig) where
  abbrev Safe : Scan deps → Type 0
  Safe s = IsSafe config.apply s.trace

  -- What an outcome has done is safe.
  abbrev pub IsSafeOutcome : Outcome deps → Type 0
  IsSafeOutcome o = Safe o.0

  pub if_IsSafe :
      (b : Bool) (x y : Outcome deps)
      → (b ≡ true → IsSafeOutcome x)
      → (b ≡ false → IsSafeOutcome y)
      → IsSafeOutcome (if b then x else y)
  if_IsSafe true x y h k = h refl
  if_IsSafe false x y h k = k refl

  failure_unless_ended-IsSafe :
      (s : Scan deps) (ended : Option Str) → Safe s → Safe (failure_unless_ended deps s ended)
  failure_unless_ended-IsSafe s none h = (tt, h)
  failure_unless_ended-IsSafe s (some e) h = h

  pub dependency_error-IsSafe :
      (s : Scan deps) (e : Str) → Safe s → Safe (dependency_error deps s e)
  unfolding dependency_error
  dependency_error-IsSafe s e h = elim (Bool-cases (deps.is_canceled e)) [
    | inl c ↦ rw c (failure_unless_ended-IsSafe _ ((deps.context_error s.world).1) h)
    | inr c ↦ rw c (tt, h)
  ]

  after_restore-IsSafe :
      (s : Scan deps) (asked : Action) (r : Result Str Bool)
      → Safe s
      → IsSafeOutcome (after_restore deps config s asked r)
  unfolding after_restore
  after_restore-IsSafe s asked (err e) h = (tt, dependency_error-IsSafe s e h)
  after_restore-IsSafe s asked (ok true) h = (tt, h)
  after_restore-IsSafe s asked (ok false) h = (tt, h)

  after_apply_marker-IsSafe :
      (s : Scan deps) (r : Result Str Unit)
      → Safe s
      → IsSafeOutcome (after_apply_marker deps config s r)
  unfolding after_apply_marker
  after_apply_marker-IsSafe s (err e) h = (tt, dependency_error-IsSafe s e h)
  after_apply_marker-IsSafe s (ok _) h = (tt, h)

  -- A mutation that may follow its allowed reservation is safe behind it.
  after_reserve-IsSafe :
      (s : Scan deps) (kind : BudgetKind) (bytes : ℤ) (exhausted : Handled)
      (mutate : Scan deps → Outcome deps) (r : Result Str BudgetReservation)
      → config.apply ≡ true
      → Safe s
      → ((t : Scan deps)
          → t.trace ≡ reserved kind bytes true ∷ s.trace
          → Safe t
          → IsSafeOutcome (mutate t))
      → IsSafeOutcome (after_reserve deps config s kind bytes exhausted mutate r)
  unfolding after_reserve
  after_reserve-IsSafe s kind bytes exhausted mutate (err e) a h safe =
      dependency_error-IsSafe s e h
  after_reserve-IsSafe s kind bytes exhausted mutate (ok reservation) a h safe =
      if_IsSafe (not reservation.allowed) _ _ (λ e. (tt, (a, h))) (λ e. safe _ refl (a, h))

  handle_restore-IsSafe :
      (s : Scan deps) (object listed : Object) (rest : List Trace) (asked : Action)
      → s.trace ≡ checked listed object ∷ rest
      → same_identity listed object ≡ true
      → IsRestoreCost object (restore_bytes deps config object asked)
      → Safe s
      → IsSafeOutcome (handle_restore deps config s object asked)
  unfolding handle_restore with_reservation call_restore
  handle_restore-IsSafe s object listed rest asked e same cost h =
      let bytes = restore_bytes deps config object asked in
      if_IsSafe (not config.apply) _ _ (λ a. (tt, h))
        (λ a.
          after_reserve-IsSafe _ restore_budget bytes restore_budget_exhausted
            (λ t. call_restore deps config t object asked) _ (ground (arith, a)) h
            (λ t traced safe.
              let paid =
                traced ∙ ap (λ (u : List Trace). reserved restore_budget bytes true ∷ u) e in
              after_restore-IsSafe _ asked _ ((bytes, (listed, rest, paid, same), cost), safe)))

  after_plan-IsSafe :
      (s : Scan deps) (object listed : Object) (rest : List Trace) (r : Result Str MarkerPlan)
      → s.trace ≡ checked listed object ∷ rest
      → same_identity listed object ≡ true
      → object.state.transitioned ≡ false
      → Safe s
      → IsSafeOutcome (after_plan deps config s object r)
  unfolding after_plan with_reservation call_apply_marker
  after_plan-IsSafe s object listed rest (err e) eq same local h =
      (tt, dependency_error-IsSafe s e h)
  after_plan-IsSafe s object listed rest (ok plan) e same local h =
      if_IsSafe (not plan.required) _ _ (λ r. (tt, h))
        (λ r.
          if_IsSafe (not config.apply) _ _ (λ a. (tt, h))
            (λ a.
              after_reserve-IsSafe _ transition_budget object.size transition_budget_exhausted
                (λ t. call_apply_marker deps config t object plan) _ (ground (arith, a)) h
                (λ t traced safe.
                  let paid =
                    traced
                    ∙ ap (λ (u : List Trace). reserved transition_budget object.size true ∷ u) e in
                  after_apply_marker-IsSafe _ _
                    (((listed, rest, paid, same), ground (arith, r), local), safe))))

  -- An action that is decided on an object that was just found to be the same.
  perform-IsSafe :
      (s : Scan deps) (object listed : Object) (rest : List Trace) (low high : Bool) (now : Time)
      (asked : Action)
      → s.trace ≡ checked listed object ∷ rest
      → same_identity listed object ≡ true
      → decide_action object.state low high now ≡ asked
      → Safe s
      → IsSafeOutcome (perform deps config s object asked)
  unfolding perform handle_marker
  perform-IsSafe s object listed rest low high now no_action e same decided h = (tt, h)
  perform-IsSafe s object listed rest low high now mark e same decided h =
      let (marks, restores, renews) = decide_action_lem object.state low high now in
      after_plan-IsSafe _ object listed rest _ e same ((marks.0 decided).0) h
  perform-IsSafe s object listed rest low high now restore e same decided h =
      let (marks, restores, renews) = decide_action_lem object.state low high now in
      let (remote, wanted, needs) = restores.0 decided in
      handle_restore-IsSafe s object listed rest restore e same (now, remote, inl (needs, refl)) h
  perform-IsSafe s object listed rest low high now renew e same decided h =
      let (marks, restores, renews) = decide_action_lem object.state low high now in
      let (remote, wanted, kept) = renews.0 decided in
      handle_restore-IsSafe s object listed rest renew e same (now, remote, inr (kept, refl)) h

  after_stat-IsSafe :
      (s : Scan deps) (listed : Object) (result : UsageResult) (now : Time) (r : Result Str Object)
      → Safe s
      → IsSafeOutcome (after_stat deps config s listed result now r)
  unfolding after_stat
  after_stat-IsSafe s listed result now (err e) h = (tt, dependency_error-IsSafe s e h)
  after_stat-IsSafe s listed result now (ok current) h =
      if_IsSafe (not (same_identity listed current)) _ _ (λ e. (tt, (tt, h)))
        (λ e.
          perform-IsSafe _ current listed s.trace result.low result.high now _ refl
            (ground (arith, e)) refl (tt, h))

  idle_perform-IsSafe :
      (s : Scan deps) (object : Object) (asked : Action)
      → is_some_action deps config asked ≡ false
      → Safe s
      → IsSafeOutcome (perform deps config s object asked)
  unfolding perform
  idle_perform-IsSafe s object no_action e h = (tt, h)
  idle_perform-IsSafe s object mark e h = cc
  idle_perform-IsSafe s object restore e h = cc
  idle_perform-IsSafe s object renew e h = cc

  -- Handling an object keeps a history safe.
  pub handle_object-IsSafe :
      (s : Scan deps) (listed : Object) (result : UsageResult) (now : Time)
      → Safe s
      → IsSafeOutcome (handle_object deps config s listed result now)
  unfolding handle_object
  handle_object-IsSafe s listed result now h =
      let asked = listed_action deps config listed result now in
      if_IsSafe
        ((not listed.state_known && (result.low || result.high))
          || is_some_action deps config asked)
        _ _ (λ e. after_stat-IsSafe _ listed result now _ h)
        (λ e. idle_perform-IsSafe s listed asked (ground (arith, e)) h)
