-- ===== src/Updater/Ingest.antt =====
-- `ingest`, `reject`, `failBatch` and `readiness` of internal/updater/http.go. The clock's answer, and
-- what Submit and Ping answer, are arguments; the map of increments is a list in the order of
-- insertion. http.MaxBytesReader allows one byte more than the limit, which is all that the decoder
-- reads.
use cwm_minio_tierer.Prelude.{
  ℕ, Bool, not, Option, none, some, List, [], ◌∷◌, length, Result, ok, err, ◌>>=◌, if◌then◌else◌,
}
use cwm_minio_tierer.Prelude.Int.{ℤ, pos, pos_part, ◌+ℤ◌, wrap64, int_length}
use cwm_minio_tierer.Text.{Str, bytes, str_eq}
use cwm_minio_tierer.Clock.{Time}
use cwm_minio_tierer.Contracts.Defs.{counter_expiry}
use cwm_minio_tierer.Contracts.Keys.{KeyError, access_key}
use cwm_minio_tierer.Batcher.Pending.{
  Increment, BatchRequest, BatcherConfig, SubmitError, not_running, queue_full, request_too_large,
  invalid_request,
}
use cwm_minio_tierer.Updater.Config.{Config}
use cwm_minio_tierer.Updater.Decoder.{
  Access, Library, Body, DecodeLimits, DecodeError, validate_content_type, decode_request,
  rejection_reason,
}

pub record HttpRequest : Type 0 where
  pub content_type : Str
  pub body : Body

-- Why Submit fails: it refused the request, the request's context ended, or the batch failed.
pub data SubmitFailure : Type 0 where
  refused : SubmitError → SubmitFailure
  context_ended : SubmitFailure
  batch_failed : Str → SubmitFailure

-- A response: its status, and the result, the records and the reason that are observed.
pub record Response : Type 0 where
  pub status : ℤ
  pub outcome : Str
  pub records : ℕ
  pub reason : Str

-- One round of the loop over the records.
unfoldable pub count_access : Str → Time → List Increment → List Increment
count_access key expiry [] = record { key = key; delta = pos 1; expire_at = expiry } ∷ []
count_access key expiry (i ∷ is) =
    let rest = count_access key expiry is in
    if str_eq i.key key
    then record { key = key; delta = wrap64 (i.delta +ℤ pos 1); expire_at = expiry } ∷ is
    else i ∷ rest

unfoldable pub failure_reason : SubmitFailure → Str
failure_reason (refused queue_full) = bytes "queue_full"
failure_reason (refused not_running) = bytes "not_ready"
failure_reason (refused request_too_large) = bytes "batch_error"
failure_reason (refused invalid_request) = bytes "batch_error"
failure_reason context_ended = bytes "request_context"
failure_reason (batch_failed why) = bytes "batch_error"

abbrev pub limits_of : Config → DecodeLimits
limits_of config = record {
  max_body_bytes = config.limits.max_body_bytes;
  max_records = config.limits.max_records;
}

-- What `Run` of internal/updater/run.go hands to NewBatcher.
abbrev pub batcher_config : Config → BatcherConfig
batcher_config config = record {
  queue_size = pos_part config.limits.queue_size;
  max_events = config.limits.batch_max_events;
  max_keys = config.limits.batch_max_keys;
}

module _ (format_time : Str → Time → Str) (config : Config) where
  unfoldable pub collect :
      Time → Time → List Increment → List Access → Result KeyError (List Increment)
  collect accepted_at expiry increments [] = ok increments
  collect accepted_at expiry increments (a ∷ records) =
      access_key format_time config.identity.instance_id a.bucket a.object accepted_at
      >>= (λ key. collect accepted_at expiry (count_access key expiry increments) records)

  abbrev pub batch_of : List Access → List Increment → BatchRequest
  batch_of records increments = record { events = int_length records; increments = increments }

  unfoldable pub reject : DecodeError → Response
  reject e = record {
    status = config.statuses.failure_status;
    outcome = bytes "rejected";
    records = 0;
    reason = rejection_reason e;
  }

  unfoldable pub fail_batch : ℕ → Str → Response
  fail_batch records why = record {
    status = config.statuses.failure_status;
    outcome = bytes "failed";
    records = records;
    reason = why;
  }

  abbrev pub after_submit : ℕ → Option SubmitFailure → Response
  after_submit records (some why) = fail_batch records (failure_reason why)
  after_submit records none = record {
    status = config.statuses.success_status;
    outcome = bytes "success";
    records = records;
    reason = [];
  }

  module _ (library : Library) (submit : BatchRequest → Option SubmitFailure) where
    abbrev pub after_collect : List Access → Result KeyError (List Increment) → Response
    after_collect records (err e) = fail_batch (length records) (bytes "identity_error")
    after_collect records (ok increments) =
        after_submit (length records) (submit (batch_of records increments))

    abbrev pub after_decode : Time → Result DecodeError (List Access) → Response
    after_decode accepted_at (err e) = reject e
    after_decode accepted_at (ok records) = after_collect records (
        collect accepted_at (counter_expiry accepted_at config.identity.access_retention) []
          records)

    abbrev pub after_content_type : Time → HttpRequest → Result DecodeError Str → Response
    after_content_type accepted_at request (err e) = reject e
    after_content_type accepted_at request (ok media_type) =
        after_decode accepted_at
          (decode_request library request.body request.content_type (limits_of config))

    unfoldable pub ingest : Time → HttpRequest → Response
    ingest accepted_at request =
        after_content_type accepted_at request (validate_content_type library request.content_type)

-- The status of `readiness`, by Ready and what Ping would answer.
unfoldable pub readiness : Bool → Option Str → ℤ
readiness ready pinged =
    if not ready then pos 503 else elim pinged [ none ↦ pos 200 | some why ↦ pos 503 ]
