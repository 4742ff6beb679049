-- ===== src/Tests/DecoderTests.antt =====
-- A request of two lines, with a decoder that knows its lines.
use cwm_minio_tierer.Prelude.{Option, none}
use cwm_minio_tierer.Prelude.Int.{ℤ, pos}
use cwm_minio_tierer.Prelude.{
  ◌≡◌, refl, Bool, true, false, some, List, [], ◌∷◌, ◌++◌, ok, if◌then◌else◌,
}
use cwm_minio_tierer.Prelude.Int.{pos, ◌+ℤ◌, ◌-ℤ◌, wrap64}
use cwm_minio_tierer.Text.{Str, bytes, str_eq}
use cwm_minio_tierer.Text.Parse.{split, split_from}
use cwm_minio_tierer.Clock.{hour, is_zero}
use cwm_minio_tierer.Contracts.Defs.{counter_expiry}
use cwm_minio_tierer.Clock.{truncate}
use cwm_minio_tierer.Batcher.Pending.{Increment, validate_request}
use cwm_minio_tierer.Updater.Decoder.{
  Access, Token, Answer, open_brace, close_brace, string, got, end_of_input, Library, Body,
  DecodeLimits, is_seen_field, set_field, decode_field, decode_fields, decode_object, trim_return,
  decode_lines, drop_last_empty, decode_ndjson, validate_content_type, read_limited, decode_request,
}
use cwm_minio_tierer.Updater.Decoded.{Proper, AreRecords, decode_request-AreRecords}
use cwm_minio_tierer.Updater.Ingest.{limits_of, batcher_config, collect, batch_of}
use cwm_minio_tierer.Updater.Acknowledged.{IsTaken, ingest-acknowledged}
use cwm_minio_tierer.Contracts.Defs.{validate_instance_id}
use cwm_minio_tierer.Contracts.Base64.{encode_to_string, letter}
use cwm_minio_tierer.Contracts.Keys.{access_key, encode_identity, key_parts}
use cwm_minio_tierer.Batcher.Pending.{BatchRequest}
use cwm_minio_tierer.Updater.Ingest.{HttpRequest, SubmitFailure, ingest, count_access}
use cwm_minio_tierer.Prelude.{subst, sym, arith}
use cwm_minio_tierer.Prelude.Int.{◌<ℤ◌}
use cwm_minio_tierer.Updater.Accepted.{decode_request-submitted}
use cwm_minio_tierer.Tests.KeyTests.{format_unary}
use cwm_minio_tierer.Tests.ConfigTests.{
  environment, updater_settings, updater_config, updater_loads, durations-bounded,
}

abbrev next : List Token → List Token × Answer
next [] = ([], end_of_input)
next (t ∷ rest) = (rest, got t)

abbrev has_more : List Token → Bool
has_more [] = false
has_more (open_brace ∷ rest) = true
has_more (close_brace ∷ rest) = false
has_more (Token.other ∷ rest) = true
has_more (string s ∷ rest) = true

-- "a" stands for a line with the bucket b and the object o.
abbrev tokens : Str → List Token
tokens s =
    if str_eq s (bytes "a")
    then open_brace
      ∷ string (bytes "object")
      ∷ string (bytes "o")
      ∷ string (bytes "bucket")
      ∷ string (bytes "b")
      ∷ close_brace
      ∷ []
    else []

abbrev library : Library
library = record {
  Decoder = List Token;
  decoder_of = tokens;
  next_token = next;
  more = has_more;
  parse_media_type = λ s. some (s, false);
  is_utf8 = λ s. true;
  is_blank = λ s. str_eq s [];
}

-- "a\r\na\n"
abbrev body : Body
body = record { content = bytes "a" ++ (13 ∷ 10 ∷ []) ++ (bytes "a" ++ (10 ∷ [])); broken = false }

abbrev media_type : Str
media_type = bytes "application/x-ndjson"

abbrev limits : DecodeLimits
limits = record { max_body_bytes = pos 100; max_records = pos 2 }

abbrev access : Access
access = record { bucket = bytes "b"; object = bytes "o" }

decodes :
    decode_request library body media_type (limits_of updater_config) ≡ ok (access ∷ access ∷ [])
unfolding is_seen_field set_field decode_field decode_fields decode_object trim_return decode_lines
    drop_last_empty decode_ndjson validate_content_type read_limited decode_request split split_from
    str_eq ◌+ℤ◌ wrap64
decodes = refl

decode_request-AreRecords_example :
    Proper (AreRecords limits) (decode_request library body media_type limits)
decode_request-AreRecords_example = decode_request-AreRecords library body media_type limits

expires : is_zero (counter_expiry (pos hour) updater_config.identity.access_retention) ≡ false
unfolding counter_expiry truncate ◌+ℤ◌ ◌-ℤ◌ wrap64
expires = refl

decode_request-submitted_example :
    (increments : List Increment) × (collect format_unary updater_config
        (pos hour)
        (counter_expiry (pos hour) updater_config.identity.access_retention)
        []
        (access ∷ access ∷ [])
      ≡ ok increments)
    × (validate_request
          (batcher_config updater_config)
          (batch_of format_unary updater_config (access ∷ access ∷ []) increments)
        ≡ ok tt)
decode_request-submitted_example =
    decode_request-submitted (environment updater_settings) library format_unary updater_config body
      media_type (access ∷ access ∷ []) (pos hour) (durations-bounded updater_settings)
      updater_loads decodes expires

abbrev takes : BatchRequest → Option SubmitFailure
takes batch = none

abbrev request : HttpRequest
request = record { content_type = media_type; body = body }

answered : (ingest format_unary updater_config library takes (pos hour) request).status ≡ pos 200
unfolding ingest collect count_access access_key encode_identity key_parts validate_instance_id
    encode_to_string letter is_seen_field set_field decode_field decode_fields decode_object
    trim_return decode_lines drop_last_empty decode_ndjson validate_content_type read_limited
    decode_request split split_from str_eq ◌+ℤ◌ wrap64
answered = refl

below_failure :
    (ingest format_unary updater_config library takes (pos hour) request).status <ℤ pos 500
below_failure = subst (λ (n : ℤ). n <ℤ pos 500) (sym answered) (omega arith)

ingest-acknowledged_example : IsTaken format_unary updater_config library takes (pos hour) request
ingest-acknowledged_example =
    ingest-acknowledged format_unary updater_config library takes (pos hour) request
      (environment updater_settings) (durations-bounded updater_settings) updater_loads refl
      below_failure
