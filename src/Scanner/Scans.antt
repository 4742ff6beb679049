-- ===== src/Scanner/Scans.antt =====
-- The safety of histories through `processChunk`, `scanBucket` and `ScanOnce`.
use cwm_minio_tierer.Prelude.{
  ◌≡◌, refl, sym, subst, Bool, not, ◌||◌, Option, none, some, List, [], ◌∷◌, ◌++◌, length, Result,
  ok, err, ◌==◌,
}
use cwm_minio_tierer.Prelude.Int.{pos, eqb_ℤ}
use cwm_minio_tierer.Text.{Str, str_eq}
use cwm_minio_tierer.Clock.{Time, truncate, hour}
use cwm_minio_tierer.Evaluator.Defs.{UsageResult}
use cwm_minio_tierer.Minio.Defs.{Object}
use cwm_minio_tierer.Scanner.Effects.{
  ScannerConfig, Trace, Cursor, ObjectUsage, Arrival, item, item_error, inactivity, done, ScanError,
  Deps,
}
use cwm_minio_tierer.Scanner.Objects.{Scan, Outcome}
use cwm_minio_tierer.Scanner.Safety.{
  IsSafe, IsSafeOutcome, dependency_error-IsSafe, handle_object-IsSafe, if_IsSafe,
}
use cwm_minio_tierer.Scanner.Chunks.{
  continue, Evaluated, evaluate_one, after_validate, Verdicts, evaluate_all, handle_all, after_save,
  save_last, after_evaluation, after_read, after_windows, windows, process_chunk, process_some,
  is_directory, scan_items, scan_bucket, slices_sort, scan_buckets, after_reset, reset, after_list,
  after_load, scan_once, validate, excluded, is_before, resume_after,
}

module _ (deps : Deps) (config : ScannerConfig) where
  abbrev Safe : Scan deps → Type 0
  Safe s = IsSafe config.apply s.trace

  abbrev SafeOut : Outcome deps → Type 0
  SafeOut = IsSafeOutcome deps config

  continue-IsSafe :
      (o : Outcome deps) (next : Scan deps → Outcome deps)
      → SafeOut o
      → ((s : Scan deps) → Safe s → SafeOut (next s))
      → SafeOut (continue deps config o next)
  continue-IsSafe (s, err e) next h k = h
  continue-IsSafe (s, ok _) next h k = k s h

  evaluate_one-trace :
      (s : Scan deps) (o : Object) (ended : Option Str) (answer : Result ScanError UsageResult)
      (later : Evaluated deps config)
      → later.0.trace ≡ s.trace
      → (evaluate_one deps config s o ended answer later).0.trace ≡ s.trace
  evaluate_one-trace s o (some e) answer later h = refl
  evaluate_one-trace s o none (err e) later h = refl
  evaluate_one-trace s o none (ok r) (t, err e) h = h
  evaluate_one-trace s o none (ok r) (t, ok items) h = h

  -- Evaluating only asks the context: the trace stays as it is.
  pub evaluate_all-trace :
      (s : Scan deps) (os : List Object) (us : List ObjectUsage) (coverage : List Bool) (t : Time)
      → (evaluate_all deps config s os us coverage t).0.trace ≡ s.trace
  unfolding evaluate_all
  evaluate_all-trace s [] us coverage t = refl
  evaluate_all-trace s (o ∷ os) [] coverage t = refl
  evaluate_all-trace s (o ∷ os) (u ∷ us) coverage t =
      let (w, ended) = deps.context_error s.world in
      evaluate_one-trace (record s { world = w }) o ended _ _
        (evaluate_all-trace (record s { world = w }) os us coverage t)

  handle_all-IsSafe :
      (s : Scan deps) (items : Verdicts deps config) (now : Time)
      → Safe s
      → SafeOut (handle_all deps config s items now)
  unfolding handle_all
  handle_all-IsSafe s [] now h = h
  handle_all-IsSafe s ((o, r) ∷ items) now h =
      continue-IsSafe _ _ (handle_object-IsSafe deps config s o r now h)
        (λ t k. handle_all-IsSafe t items now k)

  after_save-IsSafe :
      (s : Scan deps) (cursor : Cursor) (r : Result Str Unit)
      → Safe s
      → SafeOut (after_save deps config s cursor r)
  after_save-IsSafe s cursor (err e) h = dependency_error-IsSafe deps config s e h
  after_save-IsSafe s cursor (ok _) h = (tt, h)

  save_last-IsSafe :
      (s : Scan deps) (last : Object) (now : Time)
      → Safe s
      → SafeOut (save_last deps config s last now)
  unfolding save_last
  save_last-IsSafe s last now h =
      let cursor : Cursor = record { bucket = last.bucket; object = last.name; updated_at = now } in
      let (w, answer) = deps.save_cursor s.world config.scope cursor in
      after_save-IsSafe (record s { world = w }) cursor answer h

  after_evaluation-IsSafe :
      (e : Evaluated deps config) (last : Object) (now : Time)
      → Safe e.0
      → SafeOut (after_evaluation deps config e last now)
  after_evaluation-IsSafe (s, err e) last now h = h
  after_evaluation-IsSafe (s, ok items) last now h =
      continue-IsSafe (handle_all deps config s items now) (λ t. save_last deps config t last now)
        (handle_all-IsSafe s items now h) (λ t k. save_last-IsSafe t last now k)

  after_read-IsSafe :
      (s : Scan deps) (o : Object) (os : List Object) (now : Time)
      (r : Result Str (List ObjectUsage × List Bool))
      → Safe s
      → SafeOut (after_read deps config s o os now r)
  after_read-IsSafe s o os now (err e) h = dependency_error-IsSafe deps config s e h
  after_read-IsSafe s o os now (ok (usage, coverage)) h =
      if_IsSafe deps config (not (length usage == length (o ∷ os))) _ _ (λ e. h)
        (λ e.
          after_evaluation-IsSafe
            (evaluate_all deps config s (o ∷ os) usage coverage (truncate now hour)) _ _
            (subst (λ (t : List Trace). IsSafe config.apply t)
              (sym (evaluate_all-trace s (o ∷ os) usage coverage (truncate now hour))) h))

  after_windows-IsSafe :
      (s : Scan deps) (o : Object) (os : List Object) (now : Time)
      (r : Result ScanError (List Time × List Time))
      → Safe s
      → SafeOut (after_windows deps config s o os now r)
  after_windows-IsSafe s o os now (err e) h = h
  after_windows-IsSafe s o os now (ok (low, high)) h = after_read-IsSafe _ o os now _ h

  process_some-IsSafe :
      (s : Scan deps) (os : List Object) → Safe s → SafeOut (process_some deps config s os)
  unfolding process_some process_chunk
  process_some-IsSafe s [] h = h
  process_some-IsSafe s (o ∷ os) h =
      after_windows-IsSafe _ o os _ (windows deps config (truncate ((deps.now s.world).1) hour)) h

  scan_items-IsSafe :
      (s : Scan deps) (chunk : List Object) (arrivals : List Arrival)
      → Safe s
      → SafeOut (scan_items deps config s chunk arrivals)
  unfolding scan_items
  scan_items-IsSafe s chunk [] h = process_some-IsSafe s chunk h
  scan_items-IsSafe s chunk (done e ∷ rest) h = h
  scan_items-IsSafe s chunk (inactivity ∷ rest) h = (tt, h)
  scan_items-IsSafe s chunk (item_error e ∷ rest) h = dependency_error-IsSafe deps config s e h
  scan_items-IsSafe s chunk (item o ∷ rest) h =
      if_IsSafe deps config (str_eq o.name []) _ _ (λ e. h)
        (λ e.
          if_IsSafe deps config (is_directory deps config o) _ _
            (λ d. scan_items-IsSafe _ chunk rest (tt, h))
            (λ d.
              if_IsSafe deps config (eqb_ℤ (pos (length (chunk ++ (o ∷ [])))) config.chunk_size) _ _
                (λ f.
                  continue-IsSafe (process_some deps config s (chunk ++ (o ∷ [])))
                    (λ t. scan_items deps config t [] rest) (process_some-IsSafe s _ h)
                    (λ t k. scan_items-IsSafe t [] rest k))
                (λ f. scan_items-IsSafe s _ rest h)))

  scan_bucket-IsSafe :
      (s : Scan deps) (b after : Str) → Safe s → SafeOut (scan_bucket deps config s b after)
  unfolding scan_bucket
  scan_bucket-IsSafe s b after h =
      let (w, arrivals) = deps.objects s.world b after in
      scan_items-IsSafe (record s { world = w }) [] arrivals h

  scan_buckets-IsSafe :
      (s : Scan deps) (cursor : Option Cursor) (names : List Str)
      → Safe s
      → SafeOut (scan_buckets deps config s cursor names)
  unfolding scan_buckets
  scan_buckets-IsSafe s cursor [] h = h
  scan_buckets-IsSafe s cursor (b ∷ rest) h =
      if_IsSafe deps config (excluded config b || is_before deps config b cursor) _ _
        (λ e. scan_buckets-IsSafe s cursor rest h)
        (λ e.
          continue-IsSafe (scan_bucket deps config s b (resume_after deps config b cursor))
            (λ t. scan_buckets deps config t cursor rest) (scan_bucket-IsSafe s b _ h)
            (λ t k. scan_buckets-IsSafe t cursor rest k))

  after_reset-IsSafe :
      (s : Scan deps) (r : Result Str Unit) → Safe s → SafeOut (after_reset deps config s r)
  after_reset-IsSafe s (err e) h = dependency_error-IsSafe deps config s e h
  after_reset-IsSafe s (ok _) h = (tt, h)

  reset-IsSafe : (s : Scan deps) → Safe s → SafeOut (reset deps config s)
  unfolding reset
  reset-IsSafe s h =
      let (w, answer) = deps.reset_cursor s.world config.scope in
      after_reset-IsSafe (record s { world = w }) answer h

  after_list-IsSafe :
      (s : Scan deps) (cursor : Option Cursor) (r : Result Str (List Str))
      → Safe s
      → SafeOut (after_list deps config s cursor r)
  after_list-IsSafe s cursor (err e) h = dependency_error-IsSafe deps config s e h
  after_list-IsSafe s cursor (ok names) h =
      continue-IsSafe (scan_buckets deps config s cursor (slices_sort names)) (reset deps config)
        (scan_buckets-IsSafe s cursor _ h) reset-IsSafe

  after_load-IsSafe :
      (s : Scan deps) (r : Result Str (Option Cursor))
      → Safe s
      → SafeOut (after_load deps config s r)
  after_load-IsSafe s (err e) h = dependency_error-IsSafe deps config s e h
  after_load-IsSafe s (ok cursor) h = after_list-IsSafe _ cursor _ h

  after_validate-IsSafe :
      (s : Scan deps) (r : Result ScanError Unit)
      → Safe s
      → SafeOut (after_validate deps config s r)
  after_validate-IsSafe s (err e) h = h
  after_validate-IsSafe s (ok _) h = after_load-IsSafe _ _ h

  pub scan_once-IsSafe :
      (s : Scan deps)
      → IsSafe config.apply s.trace
      → IsSafe config.apply (scan_once deps config s).0.trace
  unfolding scan_once
  scan_once-IsSafe s h = after_validate-IsSafe s (validate config) h
