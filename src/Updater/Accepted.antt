-- ===== src/Updater/Accepted.antt =====
-- A request from its body to the batcher, under a loaded configuration.
use cwm_minio_tierer.Prelude.{
  ◌≤◌, ◌≡◌, refl, ap, subst, false, true, reject_if, List, [], length, ok, >>=-ok_elim, >>-ok,
  wrap_err, wrap_err-eq-ok, ok-injective, arith, ◌∙◌,
}
use cwm_minio_tierer.Prelude.Int.{max_int64, leb_ℤ, ltb_ℤ}
use cwm_minio_tierer.Text.{Str, bytes}
use cwm_minio_tierer.Clock.{Time, is_zero}
use cwm_minio_tierer.Contracts.Defs.{
  validate_instance_id, counter_expiry, validate_counter_retention,
}
use cwm_minio_tierer.Settings.{
  Environment, HasDurations, at_contract, write_too_short, shutdown_too_short,
}
use cwm_minio_tierer.Batcher.Pending.{Increment, validate_request}
use cwm_minio_tierer.Updater.Env.{text_value, duration_value}
use cwm_minio_tierer.Updater.Config.{
  Config, Identity, load_config, load_identity, load_connection, load_statuses, load_limits,
  load_timeouts, load_write_timeout, worst_case_acknowledgement_time,
}
use cwm_minio_tierer.Updater.Loaded.{load_config-IsSettled}
use cwm_minio_tierer.Updater.Decoder.{Access, Library, Body, decode_request}
use cwm_minio_tierer.Updater.Decoded.{AreRecords, Proper, decode_request-AreRecords}
use cwm_minio_tierer.Updater.Ingest.{limits_of, batcher_config, collect, batch_of}
use cwm_minio_tierer.Updater.Tally.{IsTally, collect-IsTally, validate_request-ok}

load_identity-valid :
    (env : Environment) (i : Identity)
    → load_identity env ≡ ok i
    → validate_instance_id i.instance_id ≡ ok tt
unfolding load_identity
load_identity-valid env i h =
    let instance_id = text_value env (bytes "INSTANCE_ID") (bytes "") in
    let (valid, h1) =
      >>-ok (wrap_err (at_contract (bytes "INSTANCE_ID")) (validate_instance_id instance_id)) _ h in
    >>=-ok_elim (duration_value env (bytes "ACCESS_RETENTION") (bytes "") true) _ h1
      λ retention e h2.
        let (_, h3) =
          >>-ok
            (wrap_err (at_contract (bytes "ACCESS_RETENTION"))
              (validate_counter_retention retention))
            _ h2 in
        subst (λ (j : Identity). validate_instance_id j.instance_id ≡ ok tt) (ok-injective h3)
          (wrap_err-eq-ok (at_contract (bytes "INSTANCE_ID")) (validate_instance_id instance_id)
            valid)

load_config-identity :
    (env : Environment) (c : Config) → load_config env ≡ ok c → load_identity env ≡ ok c.identity
unfolding load_config
load_config-identity env c h = >>=-ok_elim (load_identity env) _ h λ identity e1 h1.
    >>=-ok_elim (load_connection env) _ h1 λ connection e2 h2.
      >>=-ok_elim (load_statuses env) _ h2 λ statuses e3 h3.
        >>=-ok_elim (load_limits env) _ h3 λ limits e4 h4.
          >>=-ok_elim (load_timeouts env) _ h4 λ timeouts e5 h5.
            >>=-ok_elim (worst_case_acknowledgement_time limits timeouts) _ h5 λ minimum e6 h6.
              >>=-ok_elim (load_write_timeout env minimum) _ h6 λ write_timeout e7 h7.
                let (_, h8) =
                  >>-ok (reject_if (leb_ℤ write_timeout minimum) write_too_short) _ h7 in
                let (_, h9) =
                  >>-ok
                    (reject_if (ltb_ℤ timeouts.shutdown_timeout timeouts.redis_operation_timeout)
                      shutdown_too_short)
                    _ h8 in
                e1 ∙ ap (λ (d : Config). ok d.identity) (ok-injective h9)

module _ (env : Environment) (library : Library) (format_time : Str → Time → Str) where
  -- Under a loaded configuration, every request that decodes gives increments, so that no key of an
  -- access fails, and the batch that is submitted passes the batcher's validation, unless its expiry is
  -- the zero time.
  pub decode_request-submitted :
      (c : Config) (body : Body) (content_type : Str) (records : List Access) (accepted_at : Time)
      → HasDurations env
      → load_config env ≡ ok c
      → decode_request library body content_type (limits_of c) ≡ ok records
      → is_zero (counter_expiry accepted_at c.identity.access_retention) ≡ false
      → (increments : List Increment) × (collect format_time c accepted_at
            (counter_expiry accepted_at c.identity.access_retention)
            []
            records
          ≡ ok increments)
        × (validate_request (batcher_config c) (batch_of format_time c records increments) ≡ ok tt)
  decode_request-submitted c body content_type records accepted_at w loaded decoded z =
      let valid = load_identity-valid env c.identity (load_config-identity env c loaded) in
      let limits = (load_config-IsSettled env w c loaded).limits in
      let are : AreRecords (limits_of c) records =
        subst (Proper (AreRecords (limits_of c))) decoded
          (decode_request-AreRecords library body content_type (limits_of c)) in
      let small : length records ≤ max_int64 = omega (arith, are.not_too_many, limits.events) in
      let expiry = counter_expiry accepted_at c.identity.access_retention in
      let (increments, collected, tally) =
        collect-IsTally format_time c accepted_at expiry [] 0 records valid are.named (omega arith)
          refl in
      (
        increments,
        collected,
        validate_request-ok format_time c accepted_at expiry (batcher_config c) records increments z
            are.some_record small (omega (arith, are.not_too_many, limits.events))
            (omega (arith, are.not_too_many, limits.keys))
            (subst (IsTally expiry [] increments) (omega arith) tally),
      )
