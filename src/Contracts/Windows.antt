-- ===== src/Contracts/Windows.antt =====
-- `HourWindow` of internal/contracts/contracts.go and the hours that it gives.
use cwm_minio_tierer.Prelude.{ℕ, zero, suc, ◌*◌, ◌≤◌, ◌≡◌, List, [], ◌∷◌}
use cwm_minio_tierer.Prelude.Int.{pos, ◌+ℤ◌, ◌*ℤ◌, wrap64_of_range, int_laws, *ℤ-pos_parts}
use cwm_minio_tierer.Clock.{Time, hour, times}

-- time.Duration(i) * time.Hour is exact for up to 2562047 hours.
pub times-hour : (i : ℕ) → i ≤ 2562047 → times (pos i) hour ≡ pos (i * hour)
times-hour i h =
    let exact : pos i *ℤ pos hour ≡ pos (i * hour) = omega (int_laws, *ℤ-pos_parts (pos i) hour) in
    rw exact (wrap64_of_range _ (omega int_laws, omega int_laws))

-- The hours from t on, n of them.
unfoldable pub hours_from : Time → ℕ → List Time
hours_from t zero = []
hours_from t (suc n) = t ∷ hours_from (t +ℤ pos hour) n
