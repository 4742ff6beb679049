-- ===== src/Scanner/Chunks.antt =====
-- `validate`, `excluded`, `processChunk`, `scanBucket` and `ScanOnce` of internal/tierer/scanner.go,
-- with `validateAggregateAccessKeys` of internal/tierer/config.go, and `slicesSort` of
-- internal/tierer/redis.go. `ScanOnce` is modelled from the taken lock on.
use mathlib.Core.List.{reverse, ◌++◌}
use cwm_minio_tierer.Prelude.{
  ◌/◌, Bool, true, false, not, ◌&&◌, ◌||◌, Option, none, some, List, [], ◌∷◌, length, Result, ok,
  err, ◌==◌, leb, ◌>>◌, ◌>>=◌, reject_if, wrap_err, if◌then◌else◌,
}
use cwm_minio_tierer.Prelude.Int.{ℤ, pos, pos_part, ◌+ℤ◌, ◌-ℤ◌, ltb_ℤ, leb_ℤ, eqb_ℤ, max_int64}
use cwm_minio_tierer.Text.{Str, str_eq, str_lt, has_prefix, ends_with}
use cwm_minio_tierer.Clock.{Time, hour, truncate}
use cwm_minio_tierer.Contracts.Defs.{hour_window}
use cwm_minio_tierer.Evaluator.Defs.{UsageResult, evaluate}
use cwm_minio_tierer.Minio.Defs.{Object}
use cwm_minio_tierer.Scanner.Effects.{
  ScannerConfig, object_handled, directory_skipped, cursor_saved, dependency_failure, cursor_reset,
  Cursor, ObjectUsage, Arrival, item, item_error, inactivity, done, ScanError,
  invalid_scanner_config, negative_budgets, too_many_access_keys, listing_inactive,
  empty_object_name, usage_mismatch, index_out_of_range, context_ended, load_failed, buckets_failed,
  listing_failed, usage_failed, save_failed, reset_failed, window_failed, evaluate_failed, Deps,
}
use cwm_minio_tierer.Scanner.Objects.{Scan, Outcome, note, dependency_error, handle_object}

-- For positive `objects` and `limit`, Go's `limit/totalHours` rounds down, as `/` does.
unfoldable pub validate_aggregate_access_keys : ℤ → ℤ → ℤ → ℤ → Bool
validate_aggregate_access_keys objects low_hours high_hours limit =
    if leb_ℤ objects (pos 0)
      || leb_ℤ low_hours (pos 0)
      || leb_ℤ high_hours (pos 0)
      || leb_ℤ limit (pos 0)
    then false
    else if ltb_ℤ (pos max_int64 -ℤ high_hours) low_hours
    then false
    else leb (pos_part objects) (pos_part limit / pos_part (low_hours +ℤ high_hours))

unfoldable pub validate : ScannerConfig → Result ScanError (Unit {0})
validate c = do
  reject_if
      (leb_ℤ c.chunk_size (pos 0)
        || leb_ℤ c.policy.low_window_hours (pos 0)
        || leb_ℤ c.policy.high_window_hours (pos 0)
        || leb_ℤ c.restore_days (pos 0)
        || str_eq c.marker_key []
        || str_eq c.marker_value []
        || str_eq c.scope [])
      invalid_scanner_config
  reject_if
      (c.apply
        && (ltb_ℤ c.transition_limit.attempts (pos 0)
            || ltb_ℤ c.transition_limit.bytes_limit (pos 0)
            || ltb_ℤ c.restore_limit.attempts (pos 0)
            || ltb_ℤ c.restore_limit.bytes_limit (pos 0)))
      negative_budgets
  reject_if
      (not (
        validate_aggregate_access_keys c.chunk_size c.policy.low_window_hours
          c.policy.high_window_hours (pos 10000)))
      too_many_access_keys

unfoldable pub is_listed : Str → List Str → Bool
is_listed bucket [] = false
is_listed bucket (exact ∷ rest) = if str_eq bucket exact then true else is_listed bucket rest

unfoldable pub has_some_prefix : Str → List Str → Bool
has_some_prefix bucket [] = false
has_some_prefix bucket (prefix ∷ rest) =
    if has_prefix bucket prefix then true else has_some_prefix bucket rest

unfoldable pub excluded : ScannerConfig → Str → Bool
excluded c bucket =
    is_listed bucket c.excluded_buckets || has_some_prefix bucket c.excluded_prefixes

-- The inner loop of `slicesSort`: `v` sinks into the part before it, which is sorted and stands
-- last first.
unfoldable pub sink : Str → List Str → List Str
sink v [] = v ∷ []
sink v (u ∷ before) = if str_lt v u then u ∷ sink v before else v ∷ u ∷ before

unfoldable pub sort_from : List Str → List Str → List Str
sort_from before [] = reverse before
sort_from before (v ∷ vs) = sort_from (sink v before) vs

unfoldable pub slices_sort : List Str → List Str
slices_sort vs = sort_from [] vs

module _ (deps : Deps) (config : ScannerConfig) where
  open deps use {World}

  abbrev pub Step : Type 0
  Step = Scan deps → Outcome deps

  -- `if err := ...; err != nil { return err }`
  abbrev pub continue : Outcome deps → Step → Outcome deps
  continue (s, err e) next = (s, err e)
  continue (s, ok _) next = next s

  unfoldable pub verdict : Object → ObjectUsage → List Bool → Time → Result ScanError UsageResult
  verdict object usage coverage evaluation = wrap_err evaluate_failed (
      evaluate
        (record {
          evaluation_hour = evaluation;
          last_modified = object.last_modified;
          low_counts = usage.low;
          low_coverage = coverage;
          high_counts = usage.high;
        })
        config.policy)

  abbrev pub Verdicts : Type 0
  Verdicts = List (Object × UsageResult)

  abbrev pub Evaluated : Type 0
  Evaluated = Scan deps × Result ScanError Verdicts

  abbrev pub add_verdict : Object → UsageResult → Evaluated → Evaluated
  add_verdict o r (s, err e) = (s, err e)
  add_verdict o r (s, ok items) = (s, ok ((o, r) ∷ items))

  -- One turn of the loop that evaluates: what the context answers, the verdict on `o`, and the later
  -- turns.
  abbrev pub evaluate_one :
      Scan deps → Object → Option Str → Result ScanError UsageResult → Evaluated → Evaluated
  evaluate_one s o (some e) answer later = (s, err (context_ended e))
  evaluate_one s o none (err e) later = (s, err e)
  evaluate_one s o none (ok r) later = add_verdict o r later

  unfoldable pub evaluate_all :
      Scan deps → List Object → List ObjectUsage → List Bool → Time → Evaluated
  evaluate_all s [] usage coverage evaluation = (s, ok [])
  evaluate_all s (o ∷ os) [] coverage evaluation = (s, err index_out_of_range)
  evaluate_all s (o ∷ os) (u ∷ us) coverage evaluation =
      let (w, ended) = deps.context_error s.world in
      let t : Scan deps = record s { world = w } in
      evaluate_one t o ended (verdict o u coverage evaluation)
        (evaluate_all t os us coverage evaluation)

  unfoldable pub handle_all : Scan deps → Verdicts → Time → Outcome deps
  handle_all s [] chunk_now = (s, ok tt)
  handle_all s ((o, r) ∷ items) chunk_now =
      continue (handle_object deps config s o r chunk_now) (λ t. handle_all t items chunk_now)

  unfoldable pub last_object : Object → List Object → Object
  last_object o [] = o
  last_object o (p ∷ ps) = last_object p ps

  abbrev pub after_save : Scan deps → Cursor → Result Str (Unit {0}) → Outcome deps
  after_save s cursor (err e) = (dependency_error deps s e, err (save_failed e))
  after_save s cursor (ok _) = (note deps s (cursor_saved cursor), ok tt)

  unfoldable pub save_last : Scan deps → Object → Time → Outcome deps
  save_last s last chunk_now =
      let cursor : Cursor = record {
        bucket = last.bucket;
        object = last.name;
        updated_at = chunk_now;
      } in
      let (w, answer) = deps.save_cursor s.world config.scope cursor in
      after_save (record s { world = w }) cursor answer

  abbrev pub after_evaluation : Evaluated → Object → Time → Outcome deps
  after_evaluation (s, err e) last chunk_now = (s, err e)
  after_evaluation (s, ok items) last chunk_now =
      continue (handle_all s items chunk_now) (λ t. save_last t last chunk_now)

  abbrev pub after_read :
      Scan deps
      → Object
      → List Object
      → Time
      → Result Str (List ObjectUsage × List Bool)
      → Outcome deps
  after_read s o os chunk_now (err e) = (dependency_error deps s e, err (usage_failed e))
  after_read s o os chunk_now (ok (usage, coverage)) =
      if not (length usage == length (o ∷ os))
      then (s, err usage_mismatch)
      else after_evaluation (evaluate_all s (o ∷ os) usage coverage (truncate chunk_now hour))
          (last_object o os) chunk_now

  abbrev pub after_windows :
      Scan deps
      → Object
      → List Object
      → Time
      → Result ScanError (List Time × List Time)
      → Outcome deps
  after_windows s o os chunk_now (err e) = (s, err e)
  after_windows s o os chunk_now (ok (low, high)) =
      let (w, answer) = deps.read_chunk s.world (o ∷ os) low high in
      after_read (record s { world = w }) o os chunk_now answer

  abbrev pub windows : Time → Result ScanError (List Time × List Time)
  windows evaluation = do
    low ← wrap_err window_failed (hour_window evaluation config.policy.low_window_hours false)
    high ←
        wrap_err window_failed (
          hour_window evaluation config.policy.high_window_hours config.policy.high_include_current)
    ok (low, high)

  -- `processChunk`; it is called on chunks that are not empty.
  unfoldable pub process_chunk : Scan deps → Object → List Object → Outcome deps
  process_chunk s o os =
      let (w, chunk_now) = deps.now s.world in
      after_windows (record s { world = w }) o os chunk_now (windows (truncate chunk_now hour))

  unfoldable pub process_some : Scan deps → List Object → Outcome deps
  process_some s [] = (s, ok tt)
  process_some s (o ∷ os) = process_chunk s o os

  abbrev pub is_directory : Object → Bool
  is_directory o = eqb_ℤ o.size (pos 0) && ends_with b'/' o.name

  -- The loop of `scanBucket`, on what it is still to receive, with the chunk so far.
  unfoldable pub scan_items : Scan deps → List Object → List Arrival → Outcome deps
  scan_items s chunk [] = process_some s chunk
  scan_items s chunk (done e ∷ rest) = (s, err (context_ended e))
  scan_items s chunk (inactivity ∷ rest) = (note deps s dependency_failure, err listing_inactive)
  scan_items s chunk (item_error e ∷ rest) = (dependency_error deps s e, err (listing_failed e))
  scan_items s chunk (item o ∷ rest) =
      if str_eq o.name []
      then (s, err empty_object_name)
      else if is_directory o
      then scan_items (note deps s (object_handled directory_skipped)) chunk rest
      else if eqb_ℤ (pos (length (chunk ++ (o ∷ [])))) config.chunk_size
      then continue (process_some s (chunk ++ (o ∷ []))) (λ t. scan_items t [] rest)
      else scan_items s (chunk ++ (o ∷ [])) rest

  unfoldable pub scan_bucket : Scan deps → Str → Str → Outcome deps
  scan_bucket s bucket start_after =
      let (w, arrivals) = deps.objects s.world bucket start_after in
      scan_items (record s { world = w }) [] arrivals

  abbrev pub is_before : Str → Option Cursor → Bool
  is_before bucket none = false
  is_before bucket (some cursor) = str_lt bucket cursor.bucket

  abbrev pub resume_after : Str → Option Cursor → Str
  resume_after bucket none = []
  resume_after bucket (some cursor) = if str_eq bucket cursor.bucket then cursor.object else []

  unfoldable pub scan_buckets : Scan deps → Option Cursor → List Str → Outcome deps
  scan_buckets s cursor [] = (s, ok tt)
  scan_buckets s cursor (bucket ∷ rest) =
      if excluded config bucket || is_before bucket cursor
      then scan_buckets s cursor rest
      else continue (scan_bucket s bucket (resume_after bucket cursor))
          (λ t. scan_buckets t cursor rest)

  abbrev pub after_reset : Scan deps → Result Str (Unit {0}) → Outcome deps
  after_reset s (err e) = (dependency_error deps s e, err (reset_failed e))
  after_reset s (ok _) = (note deps s cursor_reset, ok tt)

  unfoldable pub reset : Step
  reset s =
      let (w, answer) = deps.reset_cursor s.world config.scope in
      after_reset (record s { world = w }) answer

  abbrev pub after_list : Scan deps → Option Cursor → Result Str (List Str) → Outcome deps
  after_list s cursor (err e) = (dependency_error deps s e, err (buckets_failed e))
  after_list s cursor (ok names) = continue (scan_buckets s cursor (slices_sort names)) reset

  abbrev pub after_load : Scan deps → Result Str (Option Cursor) → Outcome deps
  after_load s (err e) = (dependency_error deps s e, err (load_failed e))
  after_load s (ok cursor) =
      let (w, answer) = deps.buckets s.world in after_list (record s { world = w }) cursor answer

  abbrev pub after_validate : Scan deps → Result ScanError (Unit {0}) → Outcome deps
  after_validate s (err e) = (s, err e)
  after_validate s (ok _) =
      let (w, answer) = deps.load_cursor s.world config.scope in
      after_load (record s { world = w }) answer

  unfoldable pub scan_once : Step
  scan_once s = after_validate s (validate config)
