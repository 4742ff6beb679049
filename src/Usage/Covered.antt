-- ===== src/Usage/Covered.antt =====
-- The coverage of the hours of a window.
use cwm_minio_tierer.Prelude.{
  suc, ◌≡◌, ◌↔◌, ◌⊎◌, inl, inr, refl, sym, ap, ◌∙◌, Bool, true, false, not, Option, List, [], ◌∷◌,
  length, replicate, is_nil, All2, Result, ok, err, >>=-ok_elim, >>=-cases, reject_if-cases,
  ok-injective, arith, if◌then◌else◌,
}
use cwm_minio_tierer.Text.{Str, str_eq, str_eq_iff}
use cwm_minio_tierer.Clock.{Time}
use cwm_minio_tierer.Contracts.Coverage.{coverage_key}
use cwm_minio_tierer.Redis.{Redis, Kind, Value, nil, text}
use cwm_minio_tierer.Usage.Script.{read_optional, optional_at}
use cwm_minio_tierer.Usage.Reads.{
  ReadError, ReadSettings, empty_window, decode_coverage, coverage_keys, eval, read_coverage,
  read_enabled_coverage,
}
use cwm_minio_tierer.Usage.Failures.{
  IsOutside, whole_reply, outside, answered-FailsOutside, answered-ok,
}

length-read_optional :
    (redis : Redis) (s : redis.State) (keys : List Str) (values : List Value)
    → read_optional redis s keys ≡ ok values
    → length keys ≡ length values
unfolding read_optional
length-read_optional redis s [] values h = ap length (ok-injective h)
length-read_optional redis s (key ∷ keys) values h =
    >>=-ok_elim (optional_at redis s key) _ h λ v e h1.
      >>=-ok_elim (read_optional redis s keys) _ h1 λ rest e' h2.
        ap suc (length-read_optional redis s keys rest e') ∙ ap length (ok-injective h2)

optional_at-cases :
    (redis : Redis) (s : redis.State) (key : Str) (v : Value)
    → optional_at redis s key ≡ ok v
    → ((v ≡ nil) × (redis.type_of s key ≡ Kind.absent))
      ⊎ ((v ≡ text (redis.get s key)) × (redis.type_of s key ≡ Kind.string))
unfolding optional_at
optional_at-cases redis s key v h = ground arith

module _ (format_time : Str → Time → Str) (settings : ReadSettings) (redis : Redis)
    (s : redis.State) where
  -- An hour is covered if the coverage value stands under its key, or if coverage is not asked for.
  pub record IsCoverageOf (hour : Time) (covered : Bool) : Type 0 where
    pub covers : (covered ≡ true) ↔ (
        (settings.coverage_enabled ≡ false)
        ⊎ ((redis.type_of s (coverage_key format_time settings.coverage_template hour)
              ≡ Kind.string)
            × (redis.get s (coverage_key format_time settings.coverage_template hour)
                ≡ settings.coverage_value)))

  not_asked :
      (hours : List Time)
      → settings.coverage_enabled ≡ false
      → All2 IsCoverageOf hours (replicate (length hours) true)
  not_asked [] h = tt
  not_asked (hour ∷ hours) h = (record { covers = (λ e. inl h, λ e. refl) }, not_asked hours h)

  decode_coverage-AreCoverage :
      (hours : List Time) (values : List Value)
      → settings.coverage_enabled ≡ true
      → read_optional redis s (coverage_keys format_time settings hours) ≡ ok values
      → (coverage : List Bool) × (decode_coverage settings.coverage_value values ≡ ok coverage)
        × All2 IsCoverageOf hours coverage
  unfolding read_optional coverage_keys decode_coverage
  decode_coverage-AreCoverage [] [] on h = ([], refl, tt)
  decode_coverage-AreCoverage [] (v ∷ values) on h = cc
  decode_coverage-AreCoverage (hour ∷ hours) values on h =
      let key = coverage_key format_time settings.coverage_template hour in
      >>=-ok_elim (optional_at redis s key) _ h λ v e h1.
        >>=-ok_elim (read_optional redis s (coverage_keys format_time settings hours)) _ h1
          λ rest e' h2.
            let (coverage, decoded, are) = decode_coverage-AreCoverage hours rest on e' in
            elim (optional_at-cases redis s key v e) [
              | inl (is_nil, absent) ↦ (
                false ∷ coverage,
                ap (decode_coverage settings.coverage_value)
                      (sym (ok-injective h2) ∙ ap (λ v. v ∷ rest) is_nil)
                    ∙ rw decoded refl,
                (
                  record {
                    covers = (λ f. cc, λ f. elim f [ inl off ↦ cc | inr (string, _) ↦ cc ]);
                  },
                  are,
                ),
              )
              | inr (is_text, string) ↦ (
                str_eq (redis.get s key) settings.coverage_value ∷ coverage,
                ap (decode_coverage settings.coverage_value)
                      (sym (ok-injective h2) ∙ ap (λ v. v ∷ rest) is_text)
                    ∙ rw decoded refl,
                (
                  record {
                    covers = (
                      λ f. inr (string, (str_eq_iff (redis.get s key) settings.coverage_value).0 f),
                      λ f. elim f [
                        | inl off ↦ cc
                        | inr (_, same) ↦
                            (str_eq_iff (redis.get s key) settings.coverage_value).1 same
                      ],
                    );
                  },
                  are,
                ),
              )
            ]

  abbrev pub IsCoverageRead : List Time → Result ReadError (List Bool) → Type 0
  IsCoverageRead hours (err e) = IsOutside e
  IsCoverageRead hours (ok coverage) = All2 IsCoverageOf hours coverage

  module _ (failure : List Str → Option Str) where
    enabled_coverage :
        (hours : List Time)
        → settings.coverage_enabled ≡ true
        → IsCoverageRead hours (read_enabled_coverage format_time settings redis s failure hours)
    unfolding read_enabled_coverage
    enabled_coverage hours on =
        let keys = coverage_keys format_time settings hours in
        >>=-cases (IsCoverageRead hours)
          (eval format_time settings redis s failure (read_optional redis s) keys) _
          (λ e h. outside _ e (answered-FailsOutside (failure keys) (read_optional redis s keys)) h)
          λ values h.
            let read = answered-ok (failure keys) (read_optional redis s keys) values h in
            let (coverage, decoded, are) = decode_coverage-AreCoverage hours values on read in
            rw (whole_reply keys values (length-read_optional redis s keys values read), decoded)
              are

    pub read_coverage-IsCoverageRead :
        (hours : List Time)
        → IsCoverageRead hours (read_coverage format_time settings redis s failure hours)
    unfolding read_coverage
    read_coverage-IsCoverageRead hours =
        reject_if-cases (IsCoverageRead hours) (is_nil hours) empty_window _ tt
          λ _. choose settings.coverage_enabled refl
      where
        choose :
            (on : Bool)
            → settings.coverage_enabled ≡ on
            → IsCoverageRead hours (
                if not on
                then ok (replicate (length hours) true)
                else read_enabled_coverage format_time settings redis s failure hours)
        choose false off = not_asked hours off
        choose true on = enabled_coverage hours on
