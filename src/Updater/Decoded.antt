-- ===== src/Updater/Decoded.antt =====
-- What `DecodeRequest` accepts.
use cwm_minio_tierer.Prelude.{
  ℕ, zero, suc, ◌+◌, ◌≤◌, ◌<◌, ◌≡◌, ◌≢◌, refl, ap, subst, Bool, true, false, not, ◌&&◌, ◌||◌,
  Option, none, some, List, [], ◌∷◌, length, is_nil, take, leb, All, Result, ok, err, >>=-cases,
  >>-cases, reject_if-cases, arith, if◌then◌else◌,
}
use cwm_minio_tierer.Prelude.Int.{pos, pos_part, ◌+ℤ◌, ◌≤ℤ◌, wrap64, leb_ℤ, ltb_ℤ, int_length}
use cwm_minio_tierer.Text.{Str, bytes, str_eq, str_eq_iff}
use cwm_minio_tierer.Text.Parse.{split}
use cwm_minio_tierer.Updater.Decoder.{
  Access, Answer, open_brace, close_brace, other, string, got, end_of_input, failed, Library, Body,
  DecodeLimits, DecodeError, unsupported_media_type, body_too_large, too_many_records, invalid_body,
  out_of_rounds, Fields, is_seen_field, is_known, string_of, decode_field, decode_fields,
  after_open, after_close, at_end_of_input, decode_object, trim_return, decode_lines,
  drop_last_empty, decode_ndjson, known_type, validate_content_type, read_limited, decode_one,
  decode_request,
}

-- An error of the program.
abbrev pub IsProper : DecodeError → Type 0
IsProper out_of_rounds = ⊥
IsProper _ = Unit

pub record IsNamed (a : Access) : Type 0 where
  pub has_bucket : a.bucket ≢ []
  pub has_object : a.object ≢ []

abbrev pub Proper {ℓ} : {A : Type ℓ} → (A → Type 0) → Result DecodeError A → Type 0
Proper P (err e) = IsProper e
Proper P (ok a) = P a

-- The known fields that were not seen.
abbrev missing : List Str → ℕ
missing seen =
    (if is_seen_field (bytes "bucket") seen then 0 else 1)
    + (if is_seen_field (bytes "object") seen then 0 else 1)

missing-seen :
    (field : Str) (seen : List Str)
    → is_seen_field field seen ≡ false
    → is_known field ≡ true
    → missing (field ∷ seen) < missing seen
unfolding is_seen_field
missing-seen field seen h k =
    let was_bucket : str_eq field (bytes "bucket") ≡ true
        → is_seen_field (bytes "bucket") seen ≡ false =
      λ e. subst (λ f. is_seen_field f seen ≡ false) ((str_eq_iff field (bytes "bucket")).0 e) h in
    let was_object : str_eq field (bytes "object") ≡ true
        → is_seen_field (bytes "object") seen ≡ false =
      λ e. subst (λ f. is_seen_field f seen ≡ false) ((str_eq_iff field (bytes "object")).0 e) h in
    ground (arith, k, was_bucket, was_object)

-- What a request holds.
pub record AreRecords (limits : DecodeLimits) (records : List Access) : Type 0 where
  pub some_record : 1 ≤ length records
  pub not_too_many : int_length records ≤ℤ limits.max_records
  pub named : All IsNamed records

module _ (library : Library) where
  open library use {more, next_token, decoder_of, is_blank}

  string_of-Proper : (p : library.Decoder × Answer) → Proper (λ _. Unit) (string_of library p)
  string_of-Proper (d, got (string s)) = tt
  string_of-Proper (d, got open_brace) = tt
  string_of-Proper (d, got close_brace) = tt
  string_of-Proper (d, got other) = tt
  string_of-Proper (d, end_of_input) = tt
  string_of-Proper (d, failed) = tt

  after_open-Proper : (p : library.Decoder × Answer) → Proper (λ _. Unit) (after_open library p)
  after_open-Proper (d, got (string s)) = tt
  after_open-Proper (d, got open_brace) = tt
  after_open-Proper (d, got close_brace) = tt
  after_open-Proper (d, got other) = tt
  after_open-Proper (d, end_of_input) = tt
  after_open-Proper (d, failed) = tt

  after_close-Proper : (p : library.Decoder × Answer) → Proper (λ _. Unit) (after_close library p)
  after_close-Proper (d, got (string s)) = tt
  after_close-Proper (d, got open_brace) = tt
  after_close-Proper (d, got close_brace) = tt
  after_close-Proper (d, got other) = tt
  after_close-Proper (d, end_of_input) = tt
  after_close-Proper (d, failed) = tt

  at_end_of_input-Proper :
      (p : library.Decoder × Answer) → Proper (λ _. Unit) (at_end_of_input library p)
  at_end_of_input-Proper (d, got (string s)) = tt
  at_end_of_input-Proper (d, got open_brace) = tt
  at_end_of_input-Proper (d, got close_brace) = tt
  at_end_of_input-Proper (d, got other) = tt
  at_end_of_input-Proper (d, end_of_input) = tt
  at_end_of_input-Proper (d, failed) = tt

  proper :
      {A : Type 0} (P : A → Type 0) (r : Result DecodeError A) (e : DecodeError)
      → Proper P r
      → r ≡ err e
      → IsProper e
  proper P r e f h = subst (Proper P) h f

  abbrev Found : Fields → Result DecodeError (library.Decoder × Fields) → Type 0
  Found fields = Proper (λ (p : library.Decoder × Fields). missing p.1.seen < missing fields.seen)

  decode_field-Found :
      (d : library.Decoder) (fields : Fields) → Found fields (decode_field library d fields)
  unfolding decode_field
  decode_field-Found d fields =
      >>=-cases (Found fields) (string_of library (library.next_token d)) _
        (λ e h. proper (λ _. Unit) _ e (string_of-Proper (library.next_token d)) h)
        λ p h.
          reject_if-cases (Found fields) (is_seen_field p.1 fields.seen) invalid_body _ tt λ new.
            reject_if-cases (Found fields) (not (is_known p.1)) invalid_body _ tt λ known.
              >>=-cases (Found fields) (string_of library (library.next_token p.0)) _
                (λ e h'. proper (λ _. Unit) _ e (string_of-Proper (library.next_token p.0)) h')
                λ q h'.
                  reject_if-cases (Found fields) (str_eq q.1 []) invalid_body _ tt
                    λ _. missing-seen p.1 fields.seen new (ground (arith, known))

  either-Proper :
      {A : Type 0} (P : A → Type 0) (b : Bool) (r t : Result DecodeError A)
      → Proper P r
      → Proper P t
      → Proper P (if b then r else t)
  either-Proper P true r t h k = h
  either-Proper P false r t h k = k

  decode_fields-Proper :
      (rounds : ℕ) (d : library.Decoder) (fields : Fields)
      → missing fields.seen < rounds
      → Proper (λ _. Unit) (decode_fields library rounds d fields)
  unfolding decode_fields
  decode_fields-Proper zero d fields h = absurd (omega arith)
  decode_fields-Proper (suc rounds) d fields h =
      let P : Result DecodeError (library.Decoder × Fields) → Type 0 = Proper (λ _. Unit) in
      let found = decode_field-Found d fields in
      either-Proper (λ _. Unit) (more d) _ _
        (>>=-cases P (decode_field library d fields) _ (λ e k. subst (Found fields) k found)
          λ p k. decode_fields-Proper rounds p.0 p.1 (fewer p (subst (Found fields) k found)))
        tt
    where
      fewer :
          (p : library.Decoder × Fields)
          → missing p.1.seen < missing fields.seen
          → missing p.1.seen < rounds
      fewer p k = omega arith

  two_missing : missing [] < 3
  unfolding is_seen_field
  two_missing = omega arith

  decode_object-IsNamed : (s : Str) → Proper IsNamed (decode_object library s)
  unfolding decode_object
  decode_object-IsNamed s =
      let P : Result DecodeError Access → Type 0 = Proper IsNamed in
      let start : Fields = record {
        record_so_far = record { bucket = []; object = [] };
        seen = [];
      } in
      >>=-cases P (after_open library (next_token (decoder_of s))) _
        (λ e h. proper (λ _. Unit) _ e (after_open-Proper (next_token (decoder_of s))) h)
        λ d h.
          >>=-cases P (decode_fields library 3 d start) _
            (λ e h'. proper (λ _. Unit) _ e (decode_fields-Proper 3 d start two_missing) h')
            λ p h'.
              >>=-cases P (after_close library (next_token p.0)) _
                (λ e k. proper (λ _. Unit) _ e (after_close-Proper (next_token p.0)) k)
                λ d2 k.
                  reject_if-cases P
                    (str_eq p.1.record_so_far.bucket [] || str_eq p.1.record_so_far.object [])
                    invalid_body _ tt
                    λ named.
                      >>-cases P (at_end_of_input library (next_token d2)) _
                        (λ e k'. proper (λ _. Unit) _ e (at_end_of_input-Proper (next_token d2)) k')
                        (record {
                          has_bucket = λ e.
                              absurd
                                (ground (arith, named, str_eq_iff p.1.record_so_far.bucket []));
                          has_object = λ e.
                              absurd
                                (ground (arith, named, str_eq_iff p.1.record_so_far.object []));
                        })

  decode_lines-AreNamed :
      (lines : List Str)
      → Proper
          (λ (records : List Access). (length records ≡ length lines) × All IsNamed records)
          (decode_lines library lines)
  unfolding decode_lines
  decode_lines-AreNamed [] = (refl, tt)
  decode_lines-AreNamed (line ∷ lines) =
      let P : Result DecodeError (List Access) → Type 0 = Proper (λ (records : List Access).
        (length records ≡ length (line ∷ lines)) × All IsNamed records) in
      let object = decode_object-IsNamed (trim_return line) in
      let rest = decode_lines-AreNamed lines in
      reject_if-cases P (is_blank (trim_return line)) invalid_body _ tt λ _.
        >>=-cases P (decode_object library (trim_return line)) _
          (λ e h. proper IsNamed _ e object h)
          λ a h.
            >>=-cases P (decode_lines library lines) _ (λ e h'. proper _ _ e rest h')
              λ records h'.
                let (same, named) = subst (Proper _) h' rest in
                (ap suc same, (subst (Proper IsNamed) h object, named))

  decode_one-AreRecords :
      (limits : DecodeLimits) (s : Str)
      → leb_ℤ limits.max_records (pos 0) ≡ false
      → Proper (AreRecords limits) (decode_one library s)
  decode_one-AreRecords limits s h =
      let object = decode_object-IsNamed s in
      >>=-cases (Proper (AreRecords limits)) (decode_object library s) _
        (λ e k. proper IsNamed _ e object k)
        λ a k. (record {
          some_record = omega arith;
          not_too_many = ground (arith, h);
          named = (subst (Proper IsNamed) k object, tt);
        })

  decode_ndjson-AreRecords :
      (limits : DecodeLimits) (s : Str)
      → Proper (AreRecords limits) (decode_ndjson library s limits.max_records)
  unfolding decode_ndjson
  decode_ndjson-AreRecords limits s =
      let P : Result DecodeError (List Access) → Type 0 = Proper (AreRecords limits) in
      let lines = drop_last_empty (split 10 s) in
      reject_if-cases P (is_nil lines) invalid_body _ tt λ some_line.
        reject_if-cases P (ltb_ℤ limits.max_records (int_length lines)) too_many_records _ tt λ few.
          of_lines lines some_line few (decode_lines library lines) (decode_lines-AreNamed lines)
    where
      of_lines :
          (lines : List Str)
          → is_nil lines ≡ false
          → ltb_ℤ limits.max_records (int_length lines) ≡ false
          → (r : Result DecodeError (List Access))
          → Proper
              (λ (records : List Access). (length records ≡ length lines) × All IsNamed records)
              r
          → Proper (AreRecords limits) r
      of_lines lines some_line few (err e) h = h
      of_lines [] some_line few (ok records) h = cc
      of_lines (line ∷ lines) some_line few (ok records) (same, named) = record {
        some_record = omega (arith, same);
        not_too_many = ground (arith, few, same);
        named = named;
      }

  known_type-Proper : (o : Option (Str × Bool)) → Proper (λ _. Unit) (known_type o)
  known_type-Proper none = tt
  known_type-Proper (some (media_type, has_params)) =
      either-Proper {A = Str} (λ _. Unit)
        (has_params
          || (not (str_eq media_type (bytes "application/json"))
              && not (str_eq media_type (bytes "application/x-ndjson"))))
        (err unsupported_media_type) (ok media_type) tt tt

  read_limited-Proper : (body : Body) (limit : ℕ) → Proper (λ _. Unit) (read_limited body limit)
  unfolding read_limited
  read_limited-Proper body limit =
      either-Proper {A = Str} (λ _. Unit) (leb limit (length body.content))
        (ok (take limit body.content)) (if body.broken then err invalid_body else ok body.content)
        tt
        (either-Proper {A = Str} (λ _. Unit) body.broken (err invalid_body) (ok body.content) tt tt)

  -- A request that is accepted has at least one record and at most as many as the limit, each with a
  -- bucket and an object; and the rounds of the loop over the fields never run out.
  pub decode_request-AreRecords :
      (body : Body) (content_type : Str) (limits : DecodeLimits)
      → Proper (AreRecords limits) (decode_request library body content_type limits)
  unfolding decode_request validate_content_type read_limited
  decode_request-AreRecords body content_type limits =
      let P : Result DecodeError (List Access) → Type 0 = Proper (AreRecords limits) in
      reject_if-cases P (leb_ℤ limits.max_body_bytes (pos 0) || leb_ℤ limits.max_records (pos 0))
        invalid_body _ tt
        λ positive.
          >>=-cases P (validate_content_type library content_type) _
            (λ e h.
              proper (λ _. Unit) _ e (known_type-Proper (library.parse_media_type content_type)) h)
            λ media_type h1.
              >>=-cases P (read_limited body (pos_part (wrap64 (limits.max_body_bytes +ℤ pos 1)))) _
                (λ e h. proper (λ _. Unit) _ e (read_limited-Proper body _) h)
                λ data_bytes h2.
                  reject_if-cases P (ltb_ℤ limits.max_body_bytes (int_length data_bytes))
                    body_too_large _ tt
                    λ _.
                      reject_if-cases P (is_nil data_bytes || not (library.is_utf8 data_bytes))
                        invalid_body _ tt
                        λ _.
                          either-Proper (AreRecords limits)
                            (str_eq media_type (bytes "application/json")) _ _
                            (decode_one-AreRecords limits data_bytes (ground (arith, positive)))
                            (decode_ndjson-AreRecords limits data_bytes)
