-- ===== src/Scanner/Audit.antt =====
-- Scans of internal/tierer/scanner.go that are not to apply changes.
use cwm_minio_tierer.Prelude.{◌≡◌, subst, sym, Bool, false, List, [], ◌∷◌, All}
use cwm_minio_tierer.Prelude.Int.{ℤ}
use cwm_minio_tierer.Scanner.Effects.{
  BudgetKind, ScannerConfig, Trace, object_handled, dependency_failure, checked, reserved,
  put_marker, requested_restore, cursor_saved, cursor_reset, Deps,
}
use cwm_minio_tierer.Scanner.Objects.{Scan}
use cwm_minio_tierer.Scanner.Safety.{IsSafe}
use cwm_minio_tierer.Scanner.Chunks.{scan_once}
use cwm_minio_tierer.Scanner.Scans.{scan_once-IsSafe}

-- No reservation and no mutation.
abbrev pub IsAudit : Trace → Type 0
IsAudit (object_handled h) = Unit
IsAudit dependency_failure = Unit
IsAudit (checked listed current) = Unit
IsAudit (reserved kind bytes allowed) = ⊥
IsAudit (put_marker object plan) = ⊥
IsAudit (requested_restore object) = ⊥
IsAudit (cursor_saved c) = Unit
IsAudit cursor_reset = Unit

IsSafe-unpaid :
    (t u : List Trace) {kind : BudgetKind} {bytes : ℤ} {allowed : Bool}
    → t ≡ reserved kind bytes allowed ∷ u
    → IsSafe false t
    → ⊥
IsSafe-unpaid t u e h = let (paid, rest) = subst (IsSafe false) e h in cc

IsSafe-IsAudit : (t : List Trace) → IsSafe false t → All IsAudit t
IsSafe-IsAudit [] h = tt
IsSafe-IsAudit (object_handled w ∷ t) (m, h) = (tt, IsSafe-IsAudit t h)
IsSafe-IsAudit (dependency_failure ∷ t) (m, h) = (tt, IsSafe-IsAudit t h)
IsSafe-IsAudit (checked listed current ∷ t) (m, h) = (tt, IsSafe-IsAudit t h)
IsSafe-IsAudit (reserved kind bytes allowed ∷ t) (m, h) = cc
IsSafe-IsAudit (put_marker object plan ∷ t) (((listed, rest, e, same), required, local), h) =
    elim (IsSafe-unpaid t _ e h) [ ]
IsSafe-IsAudit (requested_restore object ∷ t) ((bytes, (listed, rest, e, same), cost), h) =
    elim (IsSafe-unpaid t _ e h) [ ]
IsSafe-IsAudit (cursor_saved c ∷ t) (m, h) = (tt, IsSafe-IsAudit t h)
IsSafe-IsAudit (cursor_reset ∷ t) (m, h) = (tt, IsSafe-IsAudit t h)

-- If changes are not to be applied, a scan with nothing behind it reserves nothing, sets no marker and
-- requests no restore.
pub scan_once-IsAudit :
    (deps : Deps) (config : ScannerConfig) (s : Scan deps)
    → config.apply ≡ false
    → s.trace ≡ []
    → All IsAudit (scan_once deps config s).0.trace
scan_once-IsAudit deps config s a e = IsSafe-IsAudit _ (
    subst (λ (b : Bool). IsSafe b (scan_once deps config s).0.trace) a
      (scan_once-IsSafe deps config s
        (subst (λ (t : List Trace). IsSafe config.apply t) (sym e) tt)))
