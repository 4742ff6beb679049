-- ===== src/Contracts/Keys.antt =====
-- `EncodeIdentity` and `AccessKey` of internal/contracts/contracts.go. Format is a parameter.
use cwm_minio_tierer.Prelude.{
  ℕ, ◌≡◌, ◌≢◌, refl, sym, ◌∙◌, true, false, not, List, [], ◌∷◌, ◌++◌, length, All, all, Result, ok,
  err, ◌>>=◌, ◌>>◌, wrap_err, wrap_err-eq-ok, reject_if-eq-ok, >>=-ok_elim, >>-ok, ok-injective,
  ◌==◌, arith,
}
use cwm_minio_tierer.Text.{Str, bytes}
use cwm_minio_tierer.Clock.{Time, hour, truncate}
use cwm_minio_tierer.Contracts.Defs.{
  ContractError, invalid_instance, is_instance_byte, validate_instance_id,
}
use cwm_minio_tierer.Contracts.Base64.{
  encode_to_string, encode_to_string_injective, encode_to_string-NoColon, AreBytes, NoColon,
}

pub data KeyError : Type 0 where
  refused : ContractError → KeyError
  blank : KeyError
  in_bucket in_object : KeyError → KeyError

unfoldable pub encode_identity : Str → Result KeyError Str
encode_identity [] = err blank
encode_identity (c ∷ s) = ok (encode_to_string (c ∷ s))

-- The parts with a colon between them, as the verbs of Sprintf are.
abbrev pub colon_separated : List Str → Str
colon_separated [] = []
colon_separated (s ∷ []) = s
colon_separated (s ∷ t ∷ parts) = s ++ (b':' ∷ colon_separated (t ∷ parts))

abbrev pub namespace : Str
namespace = bytes "cwm-minio-tierer:v1"

module _ (format_time : Str → Time → Str) where
  unfoldable pub key_parts : Str → Time → Str → Str → List Str
  key_parts instance_id at_hour encoded_bucket encoded_object =
      instance_id
      ∷ bytes "access"
      ∷ format_time (bytes "2006") at_hour
      ∷ format_time (bytes "01") at_hour
      ∷ format_time (bytes "02") at_hour
      ∷ format_time (bytes "15") at_hour
      ∷ encoded_bucket
      ∷ encoded_object
      ∷ []

  unfoldable pub access_key : Str → Str → Str → Time → Result KeyError Str
  access_key instance_id bucket object at_hour = do
    wrap_err refused (validate_instance_id instance_id)
    encoded_bucket ← wrap_err in_bucket (encode_identity bucket)
    encoded_object ← wrap_err in_object (encode_identity object)
    ok (
        namespace
        ++ (b':' ∷ colon_separated (key_parts instance_id at_hour encoded_bucket encoded_object)))

-- Format: no colon in the year, the month, the day and the hour, which tell one hour from another.
pub record FormatsHours (format_time : Str → Time → Str) : Type 0 where
  pub year-NoColon : (t : Time) → NoColon (format_time (bytes "2006") t)
  pub month-NoColon : (t : Time) → NoColon (format_time (bytes "01") t)
  pub day-NoColon : (t : Time) → NoColon (format_time (bytes "02") t)
  pub hour-NoColon : (t : Time) → NoColon (format_time (bytes "15") t)
  pub distinct :
      (t t' : Time)
      → format_time (bytes "2006") t ≡ format_time (bytes "2006") t'
      → format_time (bytes "01") t ≡ format_time (bytes "01") t'
      → format_time (bytes "02") t ≡ format_time (bytes "02") t'
      → format_time (bytes "15") t ≡ format_time (bytes "15") t'
      → truncate t hour ≡ truncate t' hour

pub past_prefix : (p s t : Str) → p ++ s ≡ p ++ t → s ≡ t
past_prefix [] s t e = e
past_prefix (c ∷ p) s t e = past_prefix p s t cc

at_colon :
    (s t u v : Str) → NoColon s → NoColon t → s ++ (b':' ∷ u) ≡ t ++ (b':' ∷ v) → (s ≡ t) × (u ≡ v)
at_colon [] [] u v h k e = (refl, cc)
at_colon [] (d ∷ t) u v h (k, _) e = absurd (k cc)
at_colon (c ∷ s) [] u v (h, _) k e = absurd (h cc)
at_colon (c ∷ s) (d ∷ t) u v (_, h) (_, k) e =
    let (same, rest) = at_colon s t u v h k cc in (cc, rest)

colon_separated_injective :
    (xs ys : List Str)
    → length xs ≡ length ys
    → All NoColon xs
    → All NoColon ys
    → colon_separated xs ≡ colon_separated ys
    → xs ≡ ys
colon_separated_injective [] [] n h k e = refl
colon_separated_injective (x ∷ []) (y ∷ []) n h k e = cc
colon_separated_injective (x ∷ x' ∷ xs) (y ∷ y' ∷ ys) n (h, hs) (k, ks) e =
    let (same, rest) = at_colon x y _ _ h k e in
    let tails = colon_separated_injective (x' ∷ xs) (y' ∷ ys) (omega arith) hs ks rest in cc
colon_separated_injective [] (y ∷ ys) n h k e = absurd (omega arith)
colon_separated_injective (x ∷ xs) [] n h k e = absurd (omega arith)
colon_separated_injective (x ∷ []) (y ∷ y' ∷ ys) n h k e = absurd (omega arith)
colon_separated_injective (x ∷ x' ∷ xs) (y ∷ []) n h k e = absurd (omega arith)

instance_byte-ne-colon : (c : ℕ) → is_instance_byte c ≡ true → c ≢ b':'
instance_byte-ne-colon c h e = ground arith

instance_bytes-NoColon : (s : Str) → all is_instance_byte s ≡ true → NoColon s
instance_bytes-NoColon [] h = tt
instance_bytes-NoColon (c ∷ s) h =
    (instance_byte-ne-colon c (ground (arith, h)), instance_bytes-NoColon s (ground (arith, h)))

validate_instance_id-NoColon : (s : Str) → validate_instance_id s ≡ ok tt → NoColon s
unfolding validate_instance_id
validate_instance_id-NoColon [] h = cc
validate_instance_id-NoColon (c ∷ s) h =
    instance_bytes-NoColon (c ∷ s)
      (ground (arith, reject_if-eq-ok (not (all is_instance_byte (c ∷ s))) invalid_instance h))

encode_identity-ok : (s e : Str) → encode_identity s ≡ ok e → encode_to_string s ≡ e
unfolding encode_identity
encode_identity-ok [] e h = cc
encode_identity-ok (c ∷ s) e h = ok-injective h

pub encode_identity-total : (s : Str) → s ≢ [] → encode_identity s ≡ ok (encode_to_string s)
unfolding encode_identity
encode_identity-total [] n = absurd (n refl)
encode_identity-total (c ∷ s) n = refl

-- What an access key is made of.
pub record IsKeyOf (format_time : Str → Time → Str) (instance_id bucket object : Str) (t : Time)
    (key : Str) : Type 0 where
  pub instance-NoColon : NoColon instance_id
  pub rendered :
      namespace
        ++ (b':'
            ∷ colon_separated (
                key_parts format_time instance_id t
                  (encode_to_string bucket)
                  (encode_to_string object)))
      ≡ key

pub access_key-IsKeyOf :
    (format_time : Str → Time → Str) (i b o : Str) (t : Time) (key : Str)
    → access_key format_time i b o t ≡ ok key
    → IsKeyOf format_time i b o t key
unfolding access_key
access_key-IsKeyOf format_time i b o t key h =
    let (valid, h1) = >>-ok (wrap_err refused (validate_instance_id i)) _ h in
    >>=-ok_elim (wrap_err in_bucket (encode_identity b)) _ h1 λ eb e1 h2.
      >>=-ok_elim (wrap_err in_object (encode_identity o)) _ h2 λ eo e2 h3.
        let same_bucket = encode_identity-ok b eb (wrap_err-eq-ok in_bucket _ e1) in
        let same_object = encode_identity-ok o eo (wrap_err-eq-ok in_object _ e2) in
        record {
          instance-NoColon = validate_instance_id-NoColon i (wrap_err-eq-ok refused _ valid);
          rendered = rw (same_bucket, same_object) (ok-injective h3);
        }

differ : (c d : ℕ) → (c == d) ≡ false → c ≢ d
differ c d h e = ground arith

access-NoColon : NoColon (bytes "access")
access-NoColon = (
  differ _ _ refl,
  (differ _ _ refl, (differ _ _ refl, (differ _ _ refl, (differ _ _ refl, (differ _ _ refl, tt))))),
)

parts-NoColon :
    (format_time : Str → Time → Str)
    → FormatsHours format_time
    → (i : Str) (t : Time) (eb eo : Str) → NoColon i
    → NoColon eb
    → NoColon eo
    → All NoColon (key_parts format_time i t eb eo)
unfolding key_parts
parts-NoColon format_time laws i t eb eo hi hb ho = (
  hi,
  (
    access-NoColon,
    (
      laws.year-NoColon t,
      (laws.month-NoColon t, (laws.day-NoColon t, (laws.hour-NoColon t, (hb, (ho, tt))))),
    ),
  ),
)

-- Two parts lists that are equal.
same_parts :
    (format_time : Str → Time → Str) (i b o i' b' o' : Str) (t t' : Time)
    → key_parts format_time i t b o ≡ key_parts format_time i' t' b' o'
    → (i ≡ i')
      × (b ≡ b')
      × (o ≡ o')
      × (format_time (bytes "2006") t ≡ format_time (bytes "2006") t')
      × (format_time (bytes "01") t ≡ format_time (bytes "01") t')
      × (format_time (bytes "02") t ≡ format_time (bytes "02") t')
      × (format_time (bytes "15") t ≡ format_time (bytes "15") t')
unfolding key_parts
same_parts format_time i b o i' b' o' t t' e = (cc, cc, cc, cc, cc, cc, cc)

-- Two accesses with one key are accesses of the same instance, bucket, object and hour.
pub access_key_injective :
    (format_time : Str → Time → Str)
    → FormatsHours format_time
    → (i i' b b' o o' : Str) (t t' : Time) (key : Str) → AreBytes b
    → AreBytes b'
    → AreBytes o
    → AreBytes o'
    → access_key format_time i b o t ≡ ok key
    → access_key format_time i' b' o' t' ≡ ok key
    → (i ≡ i') × (b ≡ b') × (o ≡ o') × (truncate t hour ≡ truncate t' hour)
unfolding key_parts
access_key_injective format_time laws i i' b b' o o' t t' key hb hb' ho ho' h h' =
    let first = access_key-IsKeyOf format_time i b o t key h in
    let second = access_key-IsKeyOf format_time i' b' o' t' key h' in
    let same = past_prefix (namespace ++ (b':' ∷ [])) _ _ (first.rendered ∙ sym second.rendered) in
    let parts =
      colon_separated_injective
        (key_parts format_time i t (encode_to_string b) (encode_to_string o))
        (key_parts format_time i' t' (encode_to_string b') (encode_to_string o')) refl
        (parts-NoColon format_time laws i t _ _ first.instance-NoColon (encode_to_string-NoColon b)
          (encode_to_string-NoColon o))
        (parts-NoColon format_time laws i' t' _ _ second.instance-NoColon
          (encode_to_string-NoColon b') (encode_to_string-NoColon o'))
        same in
    let (same_i, same_b, same_o, y, m, d, at_hour) =
      same_parts format_time i _ _ i' _ _ t t' parts in
    (
      same_i,
      encode_to_string_injective b b' hb hb' same_b,
      encode_to_string_injective o o' ho ho' same_o,
      laws.distinct t t' y m d at_hour,
    )
