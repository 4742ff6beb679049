-- ===== src/Scanner/Cursors.antt =====
-- `processChunk` of internal/tierer/scanner.go: the objects that it handles and its cursor.
use cwm_minio_tierer.Prelude.{
  ℕ, suc, ◌+◌, ◌≡◌, refl, ◌∙◌, ap, subst, Bool, true, false, not, Option, none, some, List, [], ◌∷◌,
  length, Result, ok, err, if◌then◌else◌, ◌==◌, arith,
}
use cwm_minio_tierer.Text.{Str}
use cwm_minio_tierer.Clock.{Time, truncate, hour}
use cwm_minio_tierer.Evaluator.Defs.{UsageResult}
use cwm_minio_tierer.Minio.Defs.{Object}
use cwm_minio_tierer.Scanner.Effects.{
  ScannerConfig, Trace, Cursor, ObjectUsage, ScanError, Deps, cursor_saved,
}
use cwm_minio_tierer.Scanner.Objects.{Scan, Outcome, handle_object}
use cwm_minio_tierer.Scanner.Chunks.{
  continue, Evaluated, evaluate_one, Verdicts, evaluate_all, handle_all, last_object, after_save,
  save_last, after_evaluation, after_read, after_windows, windows, process_chunk,
}
use cwm_minio_tierer.Scanner.Scans.{evaluate_all-trace}
use cwm_minio_tierer.Scanner.Progress.{
  handled_count, saved_count, Handles, dependency_error-IsStill, handle_object-Handles,
}

module _ (deps : Deps) (config : ScannerConfig) where
  Handles-after :
      (n m : ℕ) (t u : List Trace) (o : Outcome deps)
      → handled_count u ≡ n + handled_count t
      → saved_count u ≡ saved_count t
      → Handles deps config m u o
      → Handles deps config (n + m) t o
  Handles-after n m t u (s, err e) h k l = l ∙ k
  Handles-after n m t u (s, ok _) h k (f, g) = (omega (arith, h, f), g ∙ k)

  continue-Handles :
      (n m : ℕ) (t : List Trace) (o : Outcome deps) (next : Scan deps → Outcome deps)
      → Handles deps config n t o
      → ((s : Scan deps) → Handles deps config m s.trace (next s))
      → Handles deps config (n + m) t (continue deps config o next)
  continue-Handles n m t (s, err e) next h k = h
  continue-Handles n m t (s, ok _) next (f, g) k = Handles-after n m t s.trace (next s) f g (k s)

  handle_all-Handles :
      (s : Scan deps) (items : Verdicts deps config) (now : Time)
      → Handles deps config (length items) s.trace (handle_all deps config s items now)
  unfolding handle_all
  handle_all-Handles s [] now = (omega arith, refl)
  handle_all-Handles s ((o, r) ∷ items) now =
      subst
        (λ (n : ℕ). Handles deps config n s.trace (handle_all deps config s ((o, r) ∷ items) now))
        (omega arith)
        (continue-Handles 1 (length items) s.trace (handle_object deps config s o r now)
          (λ t. handle_all deps config t items now) (handle_object-Handles deps config s o r now)
          (λ t. handle_all-Handles t items now))

  -- As many verdicts as objects.
  abbrev IsWhole : ℕ → Evaluated deps config → Type 0
  IsWhole n (s, err e) = Unit
  IsWhole n (s, ok items) = length items ≡ n

  evaluate_one-IsWhole :
      (n : ℕ) (s : Scan deps) (o : Object) (ended : Option Str)
      (answer : Result ScanError UsageResult) (later : Evaluated deps config)
      → IsWhole n later
      → IsWhole (suc n) (evaluate_one deps config s o ended answer later)
  evaluate_one-IsWhole n s o (some e) answer later h = tt
  evaluate_one-IsWhole n s o none (err e) later h = tt
  evaluate_one-IsWhole n s o none (ok r) (t, err e) h = tt
  evaluate_one-IsWhole n s o none (ok r) (t, ok items) h = ap suc h

  evaluate_all-IsWhole :
      (s : Scan deps) (os : List Object) (us : List ObjectUsage) (coverage : List Bool) (t : Time)
      → IsWhole (length os) (evaluate_all deps config s os us coverage t)
  unfolding evaluate_all
  evaluate_all-IsWhole s [] us coverage t = refl
  evaluate_all-IsWhole s (o ∷ os) [] coverage t = tt
  evaluate_all-IsWhole s (o ∷ os) (u ∷ us) coverage t =
      let (w, ended) = deps.context_error s.world in
      evaluate_one-IsWhole (length os) (record s { world = w }) o ended _ _
        (evaluate_all-IsWhole (record s { world = w }) os us coverage t)

  -- From `t` on: if there is no error, n objects were handled and then, last of all, the cursor of
  -- `last` was saved; otherwise no cursor was saved.
  abbrev pub IsChunkDone : ℕ → Object → List Trace → Outcome deps → Type 0
  IsChunkDone n last t (s, err e) = saved_count s.trace ≡ saved_count t
  IsChunkDone n last t (s, ok _) =
      (cursor : Cursor) × (rest : List Trace) × (s.trace ≡ cursor_saved cursor ∷ rest)
      × (cursor.bucket ≡ last.bucket)
      × (cursor.object ≡ last.name)
      × (handled_count rest ≡ n + handled_count t)
      × (saved_count rest ≡ saved_count t)

  after_save-IsChunkDone :
      (n : ℕ) (last : Object) (t : List Trace) (s : Scan deps) (now : Time) (r : Result Str Unit)
      → handled_count s.trace ≡ n + handled_count t
      → saved_count s.trace ≡ saved_count t
      → IsChunkDone n last t (
          after_save deps config s
            (record { bucket = last.bucket; object = last.name; updated_at = now })
            r)
  after_save-IsChunkDone n last t s now (err e) h k =
      (dependency_error-IsStill deps config s.trace s e (refl, refl)).1 ∙ k
  after_save-IsChunkDone n last t s now (ok _) h k = (_, s.trace, refl, refl, refl, h, k)

  save_after :
      (n : ℕ) (last : Object) (t : List Trace) (o : Outcome deps) (now : Time)
      → Handles deps config n t o
      → IsChunkDone n last t (continue deps config o (λ u. save_last deps config u last now))
  unfolding save_last
  save_after n last t (s, err e) now h = h
  save_after n last t (s, ok _) now (h, k) = after_save-IsChunkDone n last t _ now _ h k

  after_evaluation-IsChunkDone :
      (n : ℕ) (last : Object) (t : List Trace) (now : Time) (e : Evaluated deps config)
      → e.0.trace ≡ t
      → IsWhole n e
      → IsChunkDone n last t (after_evaluation deps config e last now)
  after_evaluation-IsChunkDone n last t now (s, err e) h k = ap saved_count h
  after_evaluation-IsChunkDone n last t now (s, ok items) h k =
      subst
        (λ (u : List Trace).
          IsChunkDone n last u (after_evaluation deps config (s, ok items) last now))
        h
        (subst
          (λ (m : ℕ).
            IsChunkDone m last s.trace (after_evaluation deps config (s, ok items) last now))
          k
          (save_after (length items) last s.trace (handle_all deps config s items now) now
            (handle_all-Handles s items now)))

  if_IsChunkDone :
      (n : ℕ) (last : Object) (t : List Trace) (b : Bool) (x y : Outcome deps)
      → IsChunkDone n last t x
      → IsChunkDone n last t y
      → IsChunkDone n last t (if b then x else y)
  if_IsChunkDone n last t true x y h k = h
  if_IsChunkDone n last t false x y h k = k

  after_read-IsChunkDone :
      (s : Scan deps) (o : Object) (os : List Object) (now : Time)
      (r : Result Str (List ObjectUsage × List Bool))
      → IsChunkDone
          (suc (length os))
          (last_object deps config o os)
          s.trace
          (after_read deps config s o os now r)
  after_read-IsChunkDone s o os now (err e) =
      (dependency_error-IsStill deps config s.trace s e (refl, refl)).1
  after_read-IsChunkDone s o os now (ok (usage, coverage)) =
      let t = truncate now hour in
      let e = evaluate_all deps config s (o ∷ os) usage coverage t in
      if_IsChunkDone (suc (length os)) (last_object deps config o os) s.trace
        (not (length usage == length (o ∷ os))) _ _ refl
        (after_evaluation-IsChunkDone (suc (length os)) (last_object deps config o os) s.trace now e
          (evaluate_all-trace deps config s (o ∷ os) usage coverage t)
          (evaluate_all-IsWhole s (o ∷ os) usage coverage t))

  after_windows-IsChunkDone :
      (s : Scan deps) (o : Object) (os : List Object) (now : Time)
      (r : Result ScanError (List Time × List Time))
      → IsChunkDone
          (suc (length os))
          (last_object deps config o os)
          s.trace
          (after_windows deps config s o os now r)
  after_windows-IsChunkDone s o os now (err e) = refl
  after_windows-IsChunkDone s o os now (ok (low, high)) = after_read-IsChunkDone _ o os now _

  pub process_chunk-IsChunkDone :
      (s : Scan deps) (o : Object) (os : List Object)
      → IsChunkDone
          (suc (length os))
          (last_object deps config o os)
          s.trace
          (process_chunk deps config s o os)
  unfolding process_chunk
  process_chunk-IsChunkDone s o os =
      after_windows-IsChunkDone _ o os _
        (windows deps config (truncate ((deps.now s.world).1) hour))
