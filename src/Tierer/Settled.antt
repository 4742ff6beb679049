-- ===== src/Tierer/Settled.antt =====
-- What the groups of settings of internal/tierer/config.go satisfy once they are loaded.
use cwm_minio_tierer.Prelude.{
  ℕ, ◌+◌, ◌*◌, ◌/◌, ◌≤◌, ◌≡◌, Bool, true, false, ◌||◌, [], Option, none, some, ok, arith,
  Bool-cases, inl, inr, >>=-ok_elim, >>-ok, reject_if, reject_if-eq-ok, wrap_err-eq-ok, if_err-ok,
  ok-injective, sym, ap, ◌∙◌, ◌⊎◌,
}
use cwm_minio_tierer.Prelude.Int.{
  ℤ, pos, add_pos, wrap_pos, ◌+ℤ◌, ◌*ℤ◌, ◌≤ℤ◌, ◌<ℤ◌, wrap64, max_int64, ltb_ℤ, leb_ℤ,
}
use cwm_minio_tierer.Text.{Str, str_eq}
use cwm_minio_tierer.Text.Parse.{parse_int}
use cwm_minio_tierer.Clock.{Duration, hour}
use cwm_minio_tierer.Contracts.Defs.{validate_retention, max_ℤ}
use cwm_minio_tierer.Contracts.Windows.{times-hour}
use cwm_minio_tierer.Evaluator.Defs.{Policy}
use cwm_minio_tierer.Scanner.Effects.{BudgetLimit}
use cwm_minio_tierer.Scanner.Chunks.{validate_aggregate_access_keys}
use cwm_minio_tierer.Settings.{Environment}
use cwm_minio_tierer.Tierer.Env.{
  raw_of, between, at_least, bounded_integer, integer, integer64, optional_integer64,
}
use cwm_minio_tierer.Tierer.Config.{
  Rules, Marker, Budgets, Traversal, load_rules, load_marker, load_budgets, load_traversal,
  check_retention, whole_hours_duration, max_window_hours, max_redis_access_keys_per_chunk,
}

pub record AreRules (r : Rules) : Type 0 where
  pub low_threshold : pos 0 ≤ℤ r.policy.low_threshold
  pub high_threshold : pos 0 ≤ℤ r.policy.high_threshold
  pub low_hours :
      (pos 1 ≤ℤ r.policy.low_window_hours) × (r.policy.low_window_hours ≤ℤ max_window_hours)
  pub high_hours :
      (pos 1 ≤ℤ r.policy.high_window_hours) × (r.policy.high_window_hours ≤ℤ max_window_hours)
  pub restore_days : pos 1 ≤ℤ r.restore_days

abbrev pub IsLimit : BudgetLimit → Type 0
IsLimit l = (pos 0 ≤ℤ l.attempts) × (pos 0 ≤ℤ l.bytes_limit)

module _ (env : Environment) where
  between_bounds :
      (key : Str) (o : Option ℤ) (low high n : ℤ)
      → between env key o low high ≡ ok n
      → (low ≤ℤ n) × (n ≤ℤ high)
  between_bounds key none low high n h = cc
  between_bounds key (some p) low high n h = ground arith

  bounded_integer_bounds :
      (key : Str) (fallback low high n : ℤ) (allow : Bool)
      → (low ≤ℤ fallback) × (fallback ≤ℤ high) ⊎ (allow ≡ false)
      → bounded_integer env key fallback low high allow ≡ ok n
      → (low ≤ℤ n) × (n ≤ℤ high)
  unfolding bounded_integer
  bounded_integer_bounds key fallback low high n allow f h =
      ground (arith, between_bounds key (parse_int (raw_of (env.lookup key))) low high n)

  at_least_bounds :
      (key : Str) (o : Option ℤ) (low n : ℤ) → at_least env key o low ≡ ok n → low ≤ℤ n
  at_least_bounds key none low n h = cc
  at_least_bounds key (some p) low n h = ground arith

  integer_bounds :
      (key : Str) (low n : ℤ) (allow : Bool) → integer env key low allow ≡ ok n → low ≤ℤ n
  unfolding integer
  integer_bounds key low n allow h =
      ground (arith, at_least_bounds key (parse_int (raw_of (env.lookup key))) low n)

  integer64_bounds :
      (key : Str) (low n : ℤ) (allow : Bool) → integer64 env key low allow ≡ ok n → low ≤ℤ n
  unfolding integer64
  integer64_bounds key low n allow h =
      ground (arith, at_least_bounds key (parse_int (raw_of (env.lookup key))) low n)

  optional_integer64_bounds :
      (key : Str) (low n : ℤ) → pos 0 ≤ℤ low → optional_integer64 env key low ≡ ok n → pos 0 ≤ℤ n
  unfolding optional_integer64
  optional_integer64_bounds key low n l h =
      ground (arith, at_least_bounds key (parse_int (raw_of (env.lookup key))) low n)

  pub load_rules-AreRules : (r : Rules) → load_rules env ≡ ok r → AreRules r
  unfolding load_rules
  load_rules-AreRules r h = record {
    low_threshold = grind (arith, integer64_bounds);
    high_threshold = grind (arith, integer64_bounds);
    low_hours = grind (arith, bounded_integer_bounds);
    high_hours = grind (arith, bounded_integer_bounds);
    restore_days = grind (arith, integer_bounds);
  }

  pub load_budgets-bounds :
      (apply : Bool) (b : Budgets)
      → load_budgets env apply ≡ ok b
      → IsLimit b.transition_budget × IsLimit b.restore_budget
  unfolding load_budgets
  load_budgets-bounds false b h = ground arith
  load_budgets-bounds true b h = grind (arith, optional_integer64_bounds)

  pub load_marker-named :
      (m : Marker)
      → load_marker env ≡ ok m
      → (str_eq m.marker_key [] ≡ false) × (str_eq m.marker_value [] ≡ false)
  unfolding load_marker
  load_marker-named m h = grind arith

  pub load_traversal-bounded :
      (p : Policy) (t : Traversal)
      → load_traversal env p ≡ ok t
      → (pos 1 ≤ℤ t.chunk_size)
        × (validate_aggregate_access_keys t.chunk_size p.low_window_hours p.high_window_hours
              max_redis_access_keys_per_chunk
            ≡ true)
  unfolding load_traversal
  load_traversal-bounded p t h = grind (arith, bounded_integer_bounds)

whole_hours_duration_lem :
    (n : ℕ) (d : Duration) → whole_hours_duration (pos n) ≡ ok d → d ≡ pos (n * hour)
unfolding whole_hours_duration
whole_hours_duration_lem n d h =
    let (fits, e) =
      if_err-ok (leb_ℤ (pos n) (pos 0) || ltb_ℤ (pos (max_int64 / hour)) (pos n)) _ _ h in
    sym (ok-injective e) ∙ times-hour n (ground arith)

-- Both windows and an hour fit into the retention, without an overflow.
abbrev pub Covers : Duration → ℤ → Type 0
Covers retention hours = hours *ℤ pos hour +ℤ pos hour <ℤ retention

hour_more : (n : ℕ) → n ≤ 87600 → wrap64 (pos (n * hour) +ℤ pos hour) ≡ pos (n * hour + hour)
hour_more n h = ap wrap64 (add_pos (n * hour) hour) ∙ wrap_pos (n * hour + hour) (omega arith)

longest_fits :
    (r : Duration) (a b : ℕ)
    → a ≤ 87600
    → b ≤ 87600
    → leb_ℤ r (wrap64 (max_ℤ (pos (a * hour)) (pos (b * hour)) +ℤ pos hour)) ≡ false
    → (pos (a * hour + hour) <ℤ r) × (pos (b * hour + hour) <ℤ r)
longest_fits r a b ha hb h = elim (Bool-cases (ltb_ℤ (pos (a * hour)) (pos (b * hour)))) [
  | inl e ↦ let k = rw (e, hour_more b hb) at h in ground arith
  | inr e ↦ let k = rw (e, hour_more a ha) at h in ground arith
]

validate_retention-longer :
    (r low high : Duration)
    → validate_retention r low high ≡ ok tt
    → leb_ℤ r (wrap64 (max_ℤ low high +ℤ pos hour)) ≡ false
unfolding validate_retention
validate_retention-longer r low high h =
    reject_if-eq-ok _ _
      (>>-ok (reject_if _ _) (reject_if (leb_ℤ r (wrap64 (max_ℤ low high +ℤ pos hour))) _) h).1

pub check_retention_lem :
    (r : Duration) (a b : ℕ) (p : Policy)
    → p.low_window_hours ≡ pos a
    → p.high_window_hours ≡ pos b
    → a ≤ 87600
    → b ≤ 87600
    → check_retention r p ≡ ok tt
    → (pos (a * hour + hour) <ℤ r) × (pos (b * hour + hour) <ℤ r)
unfolding check_retention
check_retention_lem r a b p ea eb ha hb h =
    >>=-ok_elim (whole_hours_duration p.low_window_hours) _ h λ low e1 h1.
      >>=-ok_elim (whole_hours_duration p.high_window_hours) _ h1 λ high e2 h2.
        let low_exact = whole_hours_duration_lem a low (rw ea at e1) in
        let high_exact = whole_hours_duration_lem b high (rw eb at e2) in
        let longer = validate_retention-longer r low high (wrap_err-eq-ok _ _ h2) in
        longest_fits r a b ha hb (rw (low_exact, high_exact) at longer)
