-- ===== src/Updater/Decoder.antt =====
-- internal/updater/decoder.go. The tokens of encoding/json, mime.ParseMediaType, utf8.Valid and
-- whether bytes.TrimSpace leaves anything are parameters.
use mathlib.Core.List.{reverse}
use cwm_minio_tierer.Prelude.{
  ℕ, zero, suc, Bool, false, not, ◌&&◌, ◌||◌, Option, none, some, List, [], ◌∷◌, length, take,
  is_nil, Result, ok, err, ◌>>=◌, ◌>>◌, reject_if, leb, ◌==◌, if◌then◌else◌,
}
use cwm_minio_tierer.Prelude.Int.{ℤ, pos, pos_part, ◌+ℤ◌, wrap64, leb_ℤ, ltb_ℤ, int_length}
use cwm_minio_tierer.Text.{Str, bytes, str_eq}
use cwm_minio_tierer.Text.Parse.{split}

-- `Access` of internal/contracts/contracts.go
pub record Access : Type 0 where
  pub bucket : Str
  pub object : Str

pub data Token : Type 0 where
  open_brace close_brace other : Token
  string : Str → Token

-- What decoder.Token answers: a token, io.EOF, or another error.
pub data Answer : Type 0 where
  got : Token → Answer
  end_of_input failed : Answer

pub record Library : Type 1 where
  pub Decoder : Type 0
  -- json.NewDecoder of the bytes, its Token and its More
  pub decoder_of : Str → Decoder
  pub next_token : Decoder → Decoder × Answer
  pub more : Decoder → Bool
  -- the media type, and whether there are parameters
  pub parse_media_type : Str → Option (Str × Bool)
  pub is_utf8 : Str → Bool
  pub is_blank : Str → Bool

-- A body is the bytes that can be read of it, and whether an error follows them.
pub record Body : Type 0 where
  pub content : Str
  pub broken : Bool

pub record DecodeLimits : Type 0 where
  pub max_body_bytes : ℤ
  pub max_records : ℤ

-- The last is no error of the program: the loop over the fields ran out of rounds.
pub data DecodeError : Type 0 where
  unsupported_media_type body_too_large too_many_records invalid_body out_of_rounds : DecodeError

-- What the loop over the fields has found.
pub record Fields : Type 0 where
  pub record_so_far : Access
  pub seen : List Str

unfoldable pub is_seen_field : Str → List Str → Bool
is_seen_field field [] = false
is_seen_field field (f ∷ seen) = str_eq f field || is_seen_field field seen

abbrev pub is_known : Str → Bool
is_known field = str_eq field (bytes "bucket") || str_eq field (bytes "object")

unfoldable pub set_field : Access → Str → Str → Access
set_field a field value =
    if str_eq field (bytes "bucket")
    then record a { bucket = value }
    else record a { object = value }

abbrev pub drop_return : Str → Str
drop_return [] = []
drop_return (c ∷ line) = if c == 13 then line else c ∷ line

-- bytes.TrimSuffix(line, []byte{'\r'})
unfoldable pub trim_return : Str → Str
trim_return line = reverse (drop_return (reverse line))

-- The lines without the last, if that is empty.
unfoldable pub drop_last_empty : List Str → List Str
drop_last_empty [] = []
drop_last_empty ([] ∷ []) = []
drop_last_empty ((c ∷ s) ∷ []) = (c ∷ s) ∷ []
drop_last_empty (line ∷ next ∷ lines) = line ∷ drop_last_empty (next ∷ lines)

abbrev pub known_type : Option (Str × Bool) → Result DecodeError Str
known_type none = err unsupported_media_type
known_type (some (media_type, has_params)) =
    if has_params
      || (not (str_eq media_type (bytes "application/json"))
          && not (str_eq media_type (bytes "application/x-ndjson")))
    then err unsupported_media_type
    else ok media_type

-- io.ReadAll(io.LimitReader(body, limit))
unfoldable pub read_limited : Body → ℕ → Result DecodeError Str
read_limited body limit =
    if leb limit (length body.content)
    then ok (take limit body.content)
    else if body.broken
    then err invalid_body
    else ok body.content

module _ (library : Library) where
  open library use {Decoder, next_token, more}

  -- The string that a token is, or the error of the branches that want one.
  abbrev pub string_of : Decoder × Answer → Result DecodeError (Decoder × Str)
  string_of (d, got (string s)) = ok (d, s)
  string_of (d, got open_brace) = err invalid_body
  string_of (d, got close_brace) = err invalid_body
  string_of (d, got other) = err invalid_body
  string_of (d, end_of_input) = err invalid_body
  string_of (d, failed) = err invalid_body

  -- One round of the loop over the fields.
  unfoldable pub decode_field : Decoder → Fields → Result DecodeError (Decoder × Fields)
  decode_field d fields = do
    (d1, field) ← string_of (next_token d)
    reject_if (is_seen_field field fields.seen) invalid_body
    reject_if (not (is_known field)) invalid_body
    (d2, value) ← string_of (next_token d1)
    reject_if (str_eq value []) invalid_body
    ok (
      d2,
      record {
        record_so_far = set_field fields.record_so_far field value;
        seen = field ∷ fields.seen;
      },
    )

  unfoldable pub decode_fields : ℕ → Decoder → Fields → Result DecodeError (Decoder × Fields)
  decode_fields zero d fields = if more d then err out_of_rounds else ok (d, fields)
  decode_fields (suc rounds) d fields =
      let next = decode_field d fields >>= (λ p. decode_fields rounds p.0 p.1) in
      if more d then next else ok (d, fields)

  abbrev pub after_open : Decoder × Answer → Result DecodeError Decoder
  after_open (d, got open_brace) = ok d
  after_open (d, got close_brace) = err invalid_body
  after_open (d, got other) = err invalid_body
  after_open (d, got (string s)) = err invalid_body
  after_open (d, end_of_input) = err invalid_body
  after_open (d, failed) = err invalid_body

  abbrev pub after_close : Decoder × Answer → Result DecodeError Decoder
  after_close (d, got close_brace) = ok d
  after_close (d, got open_brace) = err invalid_body
  after_close (d, got other) = err invalid_body
  after_close (d, got (string s)) = err invalid_body
  after_close (d, end_of_input) = err invalid_body
  after_close (d, failed) = err invalid_body

  abbrev pub at_end_of_input : Decoder × Answer → Result DecodeError (Unit {0})
  at_end_of_input (d, end_of_input) = ok tt
  at_end_of_input (d, got token) = err invalid_body
  at_end_of_input (d, failed) = err invalid_body

  -- Three rounds are enough, since only two fields are known.
  unfoldable pub decode_object : Str → Result DecodeError Access
  decode_object data_bytes = do
    d ← after_open (next_token (library.decoder_of data_bytes))
    (d1, fields) ←
        decode_fields 3 d
          (record { record_so_far = record { bucket = []; object = [] }; seen = [] })
    d2 ← after_close (next_token d1)
    let a = fields.record_so_far
    reject_if (str_eq a.bucket [] || str_eq a.object []) invalid_body
    at_end_of_input (next_token d2)
    ok a

  unfoldable pub decode_lines : List Str → Result DecodeError (List Access)
  decode_lines [] = ok []
  decode_lines (line ∷ lines) = do
    let trimmed = trim_return line
    reject_if (library.is_blank trimmed) invalid_body
    a ← decode_object trimmed
    records ← decode_lines lines
    ok (a ∷ records)

  unfoldable pub decode_ndjson : Str → ℤ → Result DecodeError (List Access)
  decode_ndjson data_bytes max_records = do
    let lines = drop_last_empty (split 10 data_bytes)
    reject_if (is_nil lines) invalid_body
    reject_if (ltb_ℤ max_records (int_length lines)) too_many_records
    decode_lines lines

  unfoldable pub validate_content_type : Str → Result DecodeError Str
  validate_content_type content_type = known_type (library.parse_media_type content_type)

  abbrev pub decode_one : Str → Result DecodeError (List Access)
  decode_one data_bytes = do a ← decode_object data_bytes; ok (a ∷ [])

  unfoldable pub decode_request : Body → Str → DecodeLimits → Result DecodeError (List Access)
  decode_request body content_type limits = do
    reject_if (leb_ℤ limits.max_body_bytes (pos 0) || leb_ℤ limits.max_records (pos 0)) invalid_body
    media_type ← validate_content_type content_type
    data_bytes ← read_limited body (pos_part (wrap64 (limits.max_body_bytes +ℤ pos 1)))
    reject_if (ltb_ℤ limits.max_body_bytes (int_length data_bytes)) body_too_large
    reject_if (is_nil data_bytes || not (library.is_utf8 data_bytes)) invalid_body
    if str_eq media_type (bytes "application/json")
        then decode_one data_bytes
        else decode_ndjson data_bytes limits.max_records

-- `RejectionReason`
unfoldable pub rejection_reason : DecodeError → Str
rejection_reason unsupported_media_type = bytes "unsupported_media_type"
rejection_reason body_too_large = bytes "body_too_large"
rejection_reason too_many_records = bytes "too_many_records"
rejection_reason invalid_body = bytes "invalid_body"
rejection_reason out_of_rounds = bytes "invalid_body"
