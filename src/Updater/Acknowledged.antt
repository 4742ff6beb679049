-- ===== src/Updater/Acknowledged.antt =====
-- When a client is told that its records are taken.
use cwm_minio_tierer.Prelude.{
  ℕ, true, ◌↔◌, ◌≡◌, refl, false, Option, none, some, List, [], length, Result, ok, err, arith,
}
use cwm_minio_tierer.Prelude.Int.{pos, ◌<ℤ◌, ◌≤ℤ◌}
use cwm_minio_tierer.Text.{Str}
use cwm_minio_tierer.Clock.{Time}
use cwm_minio_tierer.Contracts.Defs.{counter_expiry}
use cwm_minio_tierer.Contracts.Keys.{KeyError}
use cwm_minio_tierer.Settings.{Environment, HasDurations}
use cwm_minio_tierer.Batcher.Pending.{Increment, BatchRequest}
use cwm_minio_tierer.Updater.Config.{Config, load_config}
use cwm_minio_tierer.Updater.Loaded.{load_config-IsSettled}
use cwm_minio_tierer.Updater.Decoder.{
  Access, Library, DecodeError, decode_request, validate_content_type,
}
use cwm_minio_tierer.Updater.Ingest.{
  HttpRequest, SubmitFailure, limits_of, collect, batch_of, reject, fail_batch, after_submit,
  after_collect, after_decode, after_content_type, ingest,
}

module _ (format_time : Str → Time → Str) (c : Config) (library : Library)
    (submit : BatchRequest → Option SubmitFailure) (accepted_at : Time)
    (request : HttpRequest) where
  -- The records were decoded and counted, and the batcher has taken their batch and answered no error.
  pub record IsTaken : Type 0 where
    pub records : List Access
    pub increments : List Increment
    pub decoded :
        decode_request library request.body request.content_type (limits_of c) ≡ ok records
    pub counted :
        collect format_time c accepted_at
          (counter_expiry accepted_at c.identity.access_retention)
          []
          records
        ≡ ok increments
    pub submitted : submit (batch_of format_time c records increments) ≡ none

  module _ (fails : pos 500 ≤ℤ c.statuses.failure_status) where
    fail_batch-fails : (n : ℕ) (why : Str) → (fail_batch format_time c n why).status <ℤ pos 500 → ⊥
    unfolding fail_batch
    fail_batch-fails n why h = omega arith

    reject-fails : (e : DecodeError) → (reject format_time c e).status <ℤ pos 500 → ⊥
    unfolding reject
    reject-fails e h = omega arith

    after_submit-IsTaken :
        (records : List Access) (increments : List Increment) (o : Option SubmitFailure)
        → decode_request library request.body request.content_type (limits_of c) ≡ ok records
        → collect format_time c accepted_at
            (counter_expiry accepted_at c.identity.access_retention)
            []
            records
          ≡ ok increments
        → submit (batch_of format_time c records increments) ≡ o
        → (after_submit format_time c (length records) o).status <ℤ pos 500
        → IsTaken
    after_submit-IsTaken records increments none d k s h = record {
      records = records;
      increments = increments;
      decoded = d;
      counted = k;
      submitted = s;
    }
    after_submit-IsTaken records increments (some why) d k s h =
        absurd (fail_batch-fails (length records) _ h)

    after_collect-IsTaken :
        (records : List Access) (r : Result KeyError (List Increment))
        → decode_request library request.body request.content_type (limits_of c) ≡ ok records
        → collect format_time c accepted_at
            (counter_expiry accepted_at c.identity.access_retention)
            []
            records
          ≡ r
        → (after_collect format_time c library submit records r).status <ℤ pos 500
        → IsTaken
    after_collect-IsTaken records (err e) d k h = absurd (fail_batch-fails (length records) _ h)
    after_collect-IsTaken records (ok increments) d k h =
        after_submit-IsTaken records increments _ d k refl h

    after_decode-IsTaken :
        (r : Result DecodeError (List Access))
        → decode_request library request.body request.content_type (limits_of c) ≡ r
        → (after_decode format_time c library submit accepted_at r).status <ℤ pos 500
        → IsTaken
    after_decode-IsTaken (err e) d h = absurd (reject-fails e h)
    after_decode-IsTaken (ok records) d h = after_collect-IsTaken records _ d refl h

    after_content_type-IsTaken :
        (r : Result DecodeError Str)
        → (after_content_type format_time c library submit accepted_at request r).status <ℤ pos 500
        → IsTaken
    after_content_type-IsTaken (err e) h = absurd (reject-fails e h)
    after_content_type-IsTaken (ok media_type) h = after_decode-IsTaken _ refl h

    ingest-IsTaken :
        (ingest format_time c library submit accepted_at request).status <ℤ pos 500 → IsTaken
    unfolding ingest
    ingest-IsTaken h =
        after_content_type-IsTaken (validate_content_type library request.content_type) h

  -- Under a loaded configuration that does not accept data loss, a response below 500 is given only if
  -- the records were decoded and counted, and Submit took their batch and answered no error.
  pub ingest-acknowledged :
      (env : Environment)
      → HasDurations env
      → load_config env ≡ ok c
      → c.statuses.data_loss_risk ≡ false
      → (ingest format_time c library submit accepted_at request).status <ℤ pos 500
      → IsTaken
  ingest-acknowledged env w loaded no_risk h =
      ingest-IsTaken (high_failure (load_config-IsSettled env w c loaded).statuses.loss) h
    where
      high_failure :
          ((c.statuses.data_loss_risk ≡ true) ↔ (c.statuses.failure_status <ℤ pos 500))
          → pos 500 ≤ℤ c.statuses.failure_status
      high_failure loss = ground (arith, no_risk, loss)
