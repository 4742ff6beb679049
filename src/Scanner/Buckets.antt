-- ===== src/Scanner/Buckets.antt =====
-- The loop of `scanBucket` of internal/tierer/scanner.go and the objects that it handles.
use cwm_minio_tierer.Prelude.{
  ℕ, ◌+◌, ◌≡◌, ◌∙◌, ap, Bool, true, false, List, [], ◌∷◌, ◌++◌, length, length-append, ok, err,
  if◌then◌else◌, arith,
}
use cwm_minio_tierer.Prelude.Int.{pos, eqb_ℤ}
use cwm_minio_tierer.Text.{str_eq}
use cwm_minio_tierer.Minio.Defs.{Object}
use cwm_minio_tierer.Scanner.Effects.{
  ScannerConfig, Trace, Arrival, item, item_error, inactivity, done, Deps, object_handled,
  directory_skipped,
}
use cwm_minio_tierer.Scanner.Objects.{Scan, Outcome, note}
use cwm_minio_tierer.Scanner.Chunks.{
  continue, last_object, process_chunk, process_some, is_directory, scan_items,
}
use cwm_minio_tierer.Scanner.Progress.{handled_count}
use cwm_minio_tierer.Scanner.Cursors.{IsChunkDone, process_chunk-IsChunkDone}

module _ (deps : Deps) (config : ScannerConfig) where
  -- n objects were handled since `t`, if there is no error.
  abbrev pub Covers : ℕ → List Trace → Outcome deps → Type 0
  Covers n t (s, err e) = Unit
  Covers n t (s, ok _) = handled_count s.trace ≡ n + handled_count t

  if_Covers :
      (n : ℕ) (t : List Trace) (b : Bool) (x y : Outcome deps)
      → Covers n t x
      → Covers n t y
      → Covers n t (if b then x else y)
  if_Covers n t true x y h k = h
  if_Covers n t false x y h k = k

  done-Covers :
      (n : ℕ) (last : Object) (t : List Trace) (o : Outcome deps)
      → IsChunkDone deps config n last t o
      → Covers n t o
  done-Covers n last t (s, err e) h = tt
  done-Covers n last t (s, ok _) (cursor, rest, e, b, f, h, k) = ap handled_count e ∙ h

  process_some-Covers :
      (s : Scan deps) (os : List Object)
      → Covers (length os) s.trace (process_some deps config s os)
  unfolding process_some
  process_some-Covers s [] = omega arith
  process_some-Covers s (o ∷ os) =
      done-Covers _ (last_object deps config o os) s.trace (process_chunk deps config s o os)
        (process_chunk-IsChunkDone deps config s o os)

  Covers-from :
      (n m k : ℕ) (t u : List Trace) (o : Outcome deps)
      → handled_count u ≡ n + handled_count t
      → n + m ≡ k
      → Covers m u o
      → Covers k t o
  Covers-from n m k t u (s, err e) h l c = tt
  Covers-from n m k t u (s, ok _) h l c = omega (arith, h, l, c)

  continue-Covers :
      (n m k : ℕ) (t : List Trace) (o : Outcome deps) (next : Scan deps → Outcome deps)
      → n + m ≡ k
      → Covers n t o
      → ((s : Scan deps) → Covers m s.trace (next s))
      → Covers k t (continue deps config o next)
  continue-Covers n m k t (s, err e) next l h c = tt
  continue-Covers n m k t (s, ok _) next l h c = Covers-from n m k t s.trace (next s) h l (c s)

  -- If the loop of `scanBucket` ends without an error, as many objects were handled as there were in
  -- the chunk so far and among the items that it received, directories included.
  pub scan_items-Covers :
      (s : Scan deps) (chunk : List Object) (arrivals : List Arrival)
      → Covers (length chunk + length arrivals) s.trace (scan_items deps config s chunk arrivals)
  unfolding scan_items
  scan_items-Covers s chunk [] =
      Covers-from 0 (length chunk) _ s.trace s.trace (process_some deps config s chunk)
        (omega arith) (omega arith) (process_some-Covers s chunk)
  scan_items-Covers s chunk (done e ∷ rest) = tt
  scan_items-Covers s chunk (inactivity ∷ rest) = tt
  scan_items-Covers s chunk (item_error e ∷ rest) = tt
  scan_items-Covers s chunk (item o ∷ rest) =
      let n = length chunk + length (item o ∷ rest) in
      let longer = chunk ++ (o ∷ []) in
      let skipped = note deps s (object_handled directory_skipped) in
      let grown = length-append chunk (o ∷ []) in
      if_Covers n s.trace (str_eq o.name []) _ _ tt (
        if_Covers n s.trace (is_directory deps config o) _ _
          (Covers-from 1 (length chunk + length rest) n s.trace skipped.trace
            (scan_items deps config skipped chunk rest) (omega arith) (omega arith)
            (scan_items-Covers skipped chunk rest))
          (if_Covers n s.trace (eqb_ℤ (pos (length longer)) config.chunk_size) _ _
            (continue-Covers (length longer) (length rest) n s.trace
              (process_some deps config s longer) (λ t. scan_items deps config t [] rest)
              (omega (arith, grown)) (process_some-Covers s longer)
              (λ t.
                Covers-from 0 (length {A = Object} [] + length rest) (length rest) t.trace t.trace
                  (scan_items deps config t [] rest) (omega arith) (omega arith)
                  (scan_items-Covers t [] rest)))
            (Covers-from 0 (length longer + length rest) n s.trace s.trace
              (scan_items deps config s longer rest) (omega arith) (omega (arith, grown))
              (scan_items-Covers s longer rest))))
