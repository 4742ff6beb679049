-- ===== src/Contracts/Coverage.antt =====
-- `CoverageKey` and `ValidateCoverageTemplate` of internal/contracts/contracts.go. Format is a
-- parameter.
use cwm_minio_tierer.Prelude.{
  ℕ, zero, suc, ◌+◌, ◌*◌, Bool, true, false, ◌||◌, List, [], ◌∷◌, if◌then◌else◌,
}
use cwm_minio_tierer.Prelude.Int.{pos, ◌+ℤ◌}
use cwm_minio_tierer.Text.{Str, str_eq}
use cwm_minio_tierer.Clock.{Time, hour, times}

-- time.Date(2001, 2, 3, 4, 0, 0, 0, time.UTC): 730518 days and four hours.
abbrev pub reference : Time
reference = pos ((730518 * 24 + 4) * hour)

module _ (format_time : Str → Time → Str) where
  unfoldable pub coverage_key : Str → Time → Str
  coverage_key template at_hour = format_time template at_hour

  -- The key of the hour with this offset.
  abbrev pub rendered_key : Str → ℕ → Str
  rendered_key template offset = coverage_key template (reference +ℤ times (pos offset) hour)

  unfoldable pub is_rendered : Str → List Str → Bool
  is_rendered key [] = false
  is_rendered key (k ∷ rendered) = str_eq k key || is_rendered key rendered

  -- The loop, for `left` more hours from `offset` on: whether no key is repeated.
  unfoldable pub renders_distinct : Str → ℕ → ℕ → List Str → Bool
  renders_distinct template offset zero rendered = true
  renders_distinct template offset (suc left) rendered =
      let key = rendered_key template offset in
      let rest = renders_distinct template (suc offset) left (key ∷ rendered) in
      if is_rendered key rendered then false else rest

  unfoldable pub is_coverage_template : Str → Bool
  is_coverage_template template =
      if str_eq template [] then false else renders_distinct template 0 (24 * 400) []
