-- ===== src/Tierer/Loaded.antt =====
-- What `LoadConfig` of internal/tierer/config.go guarantees, and the scanner that it configures.
use cwm_minio_tierer.Prelude.{
  ◌+◌, ◌*◌, ◌≤◌, ◌≡◌, refl, subst, true, false, ok, arith, >>=-ok_elim, >>-ok, ok-injective, [],
}
use cwm_minio_tierer.Prelude.Int.{ℤ, pos, negsuc, pos_part, ◌≤ℤ◌, ◌<ℤ◌}
use cwm_minio_tierer.Text.{Str, str_eq}
use cwm_minio_tierer.Clock.{Duration, hour}
use cwm_minio_tierer.Evaluator.Defs.{Policy}
use cwm_minio_tierer.Scanner.Chunks.{validate, validate_aggregate_access_keys}
use cwm_minio_tierer.Settings.{Environment}
use cwm_minio_tierer.Tierer.Config.{
  Config, load_base, load_rules, load_coverage, load_marker, load_redis, load_minio, load_budgets,
  load_traversal, check_retention, load_config, scanner_config, max_redis_access_keys_per_chunk,
  max_window_hours,
}
use cwm_minio_tierer.Tierer.Settled.{
  AreRules, IsLimit, load_rules-AreRules, load_budgets-bounds, load_marker-named,
  load_traversal-bounded, check_retention_lem,
}

-- The hours of a window and one more are over before a counter of its first hour expires.
abbrev pub Outlasts : Duration → ℤ → Type 0
Outlasts retention hours = pos (pos_part hours * hour + hour) <ℤ retention

pub record IsSettled (c : Config) : Type 0 where
  pub rules : AreRules c.rules
  pub low_kept : Outlasts c.base.access_retention c.rules.policy.low_window_hours
  pub high_kept : Outlasts c.base.access_retention c.rules.policy.high_window_hours
  pub marker_key : str_eq c.marker.marker_key [] ≡ false
  pub marker_value : str_eq c.marker.marker_value [] ≡ false
  pub transition_budget : IsLimit c.budgets.transition_budget
  pub restore_budget : IsLimit c.budgets.restore_budget
  pub chunk_size : pos 1 ≤ℤ c.traversal.chunk_size
  pub access_keys :
      validate_aggregate_access_keys c.traversal.chunk_size c.rules.policy.low_window_hours
        c.rules.policy.high_window_hours max_redis_access_keys_per_chunk
      ≡ true

kept :
    (r : Duration) (p : Policy)
    → (pos 1 ≤ℤ p.low_window_hours) × (p.low_window_hours ≤ℤ max_window_hours)
    → (pos 1 ≤ℤ p.high_window_hours) × (p.high_window_hours ≤ℤ max_window_hours)
    → check_retention r p ≡ ok tt
    → Outlasts r p.low_window_hours × Outlasts r p.high_window_hours
kept r p low high h =
    check_retention_lem r (pos_part p.low_window_hours) (pos_part p.high_window_hours) p
      (natural _ low.0) (natural _ high.0) (small _ low) (small _ high) h
  where
    natural : (n : ℤ) → pos 1 ≤ℤ n → n ≡ pos (pos_part n)
    natural (pos n) k = refl
    natural (negsuc n) k = absurd (omega arith)

    small : (n : ℤ) → (pos 1 ≤ℤ n) × (n ≤ℤ max_window_hours) → pos_part n ≤ 87600
    small (pos n) k = omega arith
    small (negsuc n) k = omega arith

module _ (env : Environment) where
  pub load_config-IsSettled : (c : Config) → load_config env ≡ ok c → IsSettled c
  unfolding load_config
  load_config-IsSettled c h = >>=-ok_elim (load_base env) _ h λ base e1 h1.
      >>=-ok_elim (load_rules env) _ h1 λ rules e2 h2.
        let (retained, h3) = >>-ok (check_retention base.access_retention rules.policy) _ h2 in
        >>=-ok_elim (load_coverage env) _ h3 λ coverage e4 h4.
          >>=-ok_elim (load_marker env) _ h4 λ marker e5 h5.
            >>=-ok_elim (load_redis env) _ h5 λ redis e6 h6.
              >>=-ok_elim (load_minio env) _ h6 λ minio e7 h7.
                >>=-ok_elim (load_budgets env base.apply) _ h7 λ budgets e8 h8.
                  >>=-ok_elim (load_traversal env rules.policy) _ h8 λ traversal e9 h9.
                    let settled = load_rules-AreRules env rules e2 in
                    let (low, high) =
                      kept base.access_retention rules.policy settled.low_hours settled.high_hours
                        retained in
                    let (named, valued) = load_marker-named env marker e5 in
                    let (transitions, restores) = load_budgets-bounds env base.apply budgets e8 in
                    let (chunk, keys) = load_traversal-bounded env rules.policy traversal e9 in
                    subst IsSettled (ok-injective h9) (record {
                      rules = settled;
                      low_kept = low;
                      high_kept = high;
                      marker_key = named;
                      marker_value = valued;
                      transition_budget = transitions;
                      restore_budget = restores;
                      chunk_size = chunk;
                      access_keys = keys;
                    })

  -- A loaded configuration gives the scanner, under any scope that is not empty, a configuration that
  -- it accepts; and no counter expires while an hour of a window still reads it: each window and one
  -- more hour are shorter than the retention, without an overflow.
  pub load_config-accepted :
      (c : Config) (scope : Str)
      → load_config env ≡ ok c
      → str_eq scope [] ≡ false
      → (validate (scanner_config c scope) ≡ ok tt)
        × Outlasts c.base.access_retention c.rules.policy.low_window_hours
        × Outlasts c.base.access_retention c.rules.policy.high_window_hours
  unfolding validate scanner_config
  load_config-accepted c scope h named =
      let s = load_config-IsSettled c h in
      let r = s.rules in (ground arith, s.low_kept, s.high_kept)
