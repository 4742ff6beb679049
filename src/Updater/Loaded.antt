-- ===== src/Updater/Loaded.antt =====
-- What `LoadConfig` of internal/updater/config.go guarantees.
use cwm_minio_tierer.Prelude.{
  ◌+◌, ◌*◌, ◌≡◌, ok, arith, >>=-ok_elim, >>-ok, ok-injective, subst, reject_if, reject_if-eq-ok,
}
use cwm_minio_tierer.Prelude.Int.{
  ℤ, pos, negsuc, add_pos, mul_pos, ◌+ℤ◌, ◌*ℤ◌, ◌≤ℤ◌, ◌<ℤ◌, leb_ℤ, ltb_ℤ,
}
use cwm_minio_tierer.Clock.{Duration}
use cwm_minio_tierer.Settings.{
  Environment, HasDurations, ConfigError, write_too_short, shutdown_too_short,
}
use cwm_minio_tierer.Updater.Config.{
  Config, acknowledgement_time, worst_case_acknowledgement_time, load_config, load_identity,
  load_connection, load_statuses, load_limits, load_timeouts, load_write_timeout,
}
use cwm_minio_tierer.Updater.Settled.{
  IsDuration, IsBetween, AreStatuses, AreLimits, AreTimeouts, load_statuses-AreStatuses,
  load_limits-AreLimits, load_timeouts-AreTimeouts,
}
use cwm_minio_tierer.Updater.Waiting.{acknowledgement_time_lem}

-- Reading a request and then waiting for a full queue, each request in a batch of its own: the exact
-- sum, which no int64 bounds.
abbrev pub worst_case : Duration → Duration → Duration → ℤ → ℤ
worst_case wait redis read queue = read +ℤ (queue +ℤ pos 1) *ℤ (wait +ℤ redis)

worst_case-exact :
    (wait redis read queue d : ℤ)
    → IsDuration wait
    → IsDuration redis
    → IsDuration read
    → IsBetween (pos 1) queue (pos 1000000)
    → acknowledgement_time wait redis read queue ≡ ok d
    → d ≡ worst_case wait redis read queue
worst_case-exact (pos a) (pos b) (pos c) (pos q) d ha hb hc hq h =
    let found =
      acknowledgement_time_lem a b c q d (omega arith) (omega arith) (omega arith) (omega arith)
        h in
    rw (add_pos q 1, add_pos a b, mul_pos (q + 1) (a + b), add_pos c ((q + 1) * (a + b))) found
worst_case-exact (negsuc a) redis read queue d ha hb hc hq h = absurd (omega arith)
worst_case-exact (pos a) (negsuc b) read queue d ha hb hc hq h = absurd (omega arith)
worst_case-exact (pos a) (pos b) (negsuc c) queue d ha hb hc hq h = absurd (omega arith)
worst_case-exact (pos a) (pos b) (pos c) (negsuc q) d ha hb hc hq h = absurd (omega arith)

pub record IsSettled (env : Environment) (c : Config) : Type 0 where
  pub statuses : AreStatuses env c.statuses
  pub limits : AreLimits env c.limits
  pub timeouts : AreTimeouts env c.timeouts
  -- a request is answered before its connection times out
  pub answered :
      worst_case c.limits.batch_max_wait c.timeouts.redis_operation_timeout c.timeouts.read_timeout
        c.limits.queue_size
      <ℤ c.write_timeout
  pub drained : c.timeouts.redis_operation_timeout ≤ℤ c.timeouts.shutdown_timeout

later : (a b : ℤ) (e : ConfigError) → reject_if (leb_ℤ a b) e ≡ ok tt → b <ℤ a
later a b e h = ground (arith, reject_if-eq-ok (leb_ℤ a b) e h)

later_or_equal : (a b : ℤ) (e : ConfigError) → reject_if (ltb_ℤ a b) e ≡ ok tt → b ≤ℤ a
later_or_equal a b e h = ground (arith, reject_if-eq-ok (ltb_ℤ a b) e h)

module _ (env : Environment) where
  pub load_config-IsSettled :
      HasDurations env → (c : Config) → load_config env ≡ ok c → IsSettled env c
  unfolding load_config worst_case_acknowledgement_time
  load_config-IsSettled w c h = >>=-ok_elim (load_identity env) _ h λ identity e1 h1.
      >>=-ok_elim (load_connection env) _ h1 λ connection e2 h2.
        >>=-ok_elim (load_statuses env) _ h2 λ statuses e3 h3.
          >>=-ok_elim (load_limits env) _ h3 λ limits e4 h4.
            >>=-ok_elim (load_timeouts env) _ h4 λ timeouts e5 h5.
              >>=-ok_elim (worst_case_acknowledgement_time limits timeouts) _ h5 λ minimum e6 h6.
                >>=-ok_elim (load_write_timeout env minimum) _ h6 λ write_timeout e7 h7.
                  let (longer, h8) =
                    >>-ok (reject_if (leb_ℤ write_timeout minimum) write_too_short) _ h7 in
                  let (drains, h9) =
                    >>-ok
                      (reject_if (ltb_ℤ timeouts.shutdown_timeout timeouts.redis_operation_timeout)
                        shutdown_too_short)
                      _ h8 in
                  let settled_limits = load_limits-AreLimits env w limits e4 in
                  let settled_timeouts = load_timeouts-AreTimeouts env w timeouts e5 in
                  let exact =
                    worst_case-exact _ _ _ _ minimum settled_limits.wait settled_timeouts.redis
                      settled_timeouts.read settled_limits.queue e6 in
                  subst (IsSettled env) (ok-injective h9) (record {
                    statuses = load_statuses-AreStatuses env statuses e3;
                    limits = settled_limits;
                    timeouts = settled_timeouts;
                    answered = rw exact at (later write_timeout minimum _ longer);
                    drained =
                        later_or_equal timeouts.shutdown_timeout timeouts.redis_operation_timeout _
                          drains;
                  })
