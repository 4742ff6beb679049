-- ===== src/Updater/Settled.antt =====
-- What a loaded configuration of internal/updater/config.go satisfies, group by group.
use cwm_minio_tierer.Prelude.{
  ◌^◌, ◌≡◌, ◌↔◌, refl, Bool, true, Option, none, some, ok, arith, if_err-ok,
}
use cwm_minio_tierer.Prelude.Int.{ℤ, pos, ◌≤ℤ◌, ◌<ℤ◌, max_int64, IsInt64}
use cwm_minio_tierer.Text.{Str}
use cwm_minio_tierer.Text.Parse.{parse_int}
use cwm_minio_tierer.Clock.{Duration}
use cwm_minio_tierer.Settings.{Environment, HasDurations}
use cwm_minio_tierer.Updater.Env.{
  in_range, int_of, int_value, int64_value, positive_duration, duration_value, or_fallback,
}
use cwm_minio_tierer.Updater.Config.{
  Limits, Timeouts, Statuses, load_limits, load_timeouts, load_statuses,
}

abbrev pub IsBetween : ℤ → ℤ → ℤ → Type 0
IsBetween low n high = (low ≤ℤ n) × (n ≤ℤ high)

abbrev pub IsDuration : Duration → Type 0
IsDuration d = IsBetween (pos 1) d (pos max_int64)

module _ (env : Environment) where
  in_range_bounds :
      (key : Str) (o : Option ℤ) (low high n : ℤ)
      → in_range env key o low high ≡ ok n
      → IsBetween low n high
  in_range_bounds key none low high n h = cc
  in_range_bounds key (some p) low high n h = ground arith

  int_of_bounds :
      (key : Str) (o : Option Str) (fallback low high n : ℤ)
      → IsBetween low fallback high
      → int_of env key o fallback low high ≡ ok n
      → IsBetween low n high
  int_of_bounds key none fallback low high n f h = ground (arith, h)
  int_of_bounds key (some raw) fallback low high n f h =
      in_range_bounds key (parse_int raw) low high n h

  pub int_value_bounds :
      (key : Str) (fallback low high n : ℤ)
      → IsBetween low fallback high
      → int_value env key fallback low high ≡ ok n
      → IsBetween low n high
  unfolding int_value
  int_value_bounds key fallback low high n f h =
      int_of_bounds key (env.lookup key) fallback low high n f h

  pub int64_value_bounds :
      (key : Str) (fallback low high n : ℤ)
      → IsBetween low fallback high
      → int64_value env key fallback low high ≡ ok n
      → IsBetween low n high
  unfolding int64_value
  int64_value_bounds key fallback low high n f h =
      int_of_bounds key (env.lookup key) fallback low high n f h

  positive_duration_bounds :
      (key : Str) (o : Option Duration) (d : Duration)
      → ((e : Duration) → o ≡ some e → IsInt64 e)
      → positive_duration env key o ≡ ok d
      → IsDuration d
  positive_duration_bounds key none d w h = cc
  positive_duration_bounds key (some e) d w h = ground (arith, w e refl)

  pub duration_value_bounds :
      HasDurations env
      → (key fallback : Str) (required : Bool) (d : Duration)
      → duration_value env key fallback required ≡ ok d
      → IsDuration d
  unfolding duration_value
  duration_value_bounds w key fallback required d h =
      let (present, k) = if_err-ok _ _ _ h in
      positive_duration_bounds key _ d (w (or_fallback env (env.lookup key) fallback)) k

  -- The risk flags are set exactly for the statuses that need them.
  pub record AreStatuses (s : Statuses) : Type 0 where
    pub success : IsBetween (pos 200) s.success_status (pos 599)
    pub failure : IsBetween (pos 200) s.failure_status (pos 599)
    pub loss : (s.data_loss_risk ≡ true) ↔ (s.failure_status <ℤ pos 500)
    pub duplicates : (s.duplicate_risk ≡ true) ↔ (pos 300 ≤ℤ s.success_status)

  -- One request fits into a batch.
  pub record AreLimits (l : Limits) : Type 0 where
    pub body : IsBetween (pos 1) l.max_body_bytes (pos (2 ^ 30))
    pub records : pos 1 ≤ℤ l.max_records
    pub queue : IsBetween (pos 1) l.queue_size (pos 1000000)
    pub events : IsBetween l.max_records l.batch_max_events (pos 1000000)
    pub keys : IsBetween l.max_records l.batch_max_keys (pos 1000000)
    pub wait : IsDuration l.batch_max_wait

  pub record AreTimeouts (t : Timeouts) : Type 0 where
    pub redis : IsDuration t.redis_operation_timeout
    pub shutdown : IsDuration t.shutdown_timeout
    pub read : IsDuration t.read_timeout

  pub load_statuses-AreStatuses : (s : Statuses) → load_statuses env ≡ ok s → AreStatuses s
  unfolding load_statuses
  load_statuses-AreStatuses s h = record {
    success = grind (arith, int_value_bounds);
    failure = grind (arith, int_value_bounds);
    loss = grind (arith, int_value_bounds);
    duplicates = grind (arith, int_value_bounds);
  }

  pub load_limits-AreLimits : HasDurations env → (l : Limits) → load_limits env ≡ ok l → AreLimits l
  unfolding load_limits
  load_limits-AreLimits w l h = record {
    body = grind (arith, int64_value_bounds);
    records = grind (arith, int_value_bounds);
    queue = grind (arith, int_value_bounds);
    events = grind (arith, int_value_bounds);
    keys = grind (arith, int_value_bounds);
    wait = grind (arith, duration_value_bounds w);
  }

  pub load_timeouts-AreTimeouts :
      HasDurations env → (t : Timeouts) → load_timeouts env ≡ ok t → AreTimeouts t
  unfolding load_timeouts
  load_timeouts-AreTimeouts w t h = record {
    redis = grind (arith, duration_value_bounds w);
    shutdown = grind (arith, duration_value_bounds w);
    read = grind (arith, duration_value_bounds w);
  }
