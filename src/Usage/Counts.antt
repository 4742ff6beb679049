-- ===== src/Usage/Counts.antt =====
-- One count, from the server's string to the number.
use cwm_minio_tierer.Prelude.{
  ℕ, ◌+◌, ◌*◌, ◌≤◌, ◌≡◌, refl, ap, ◌∙◌, inl, inr, true, false, some, List, [], ◌∷◌, length, All2,
  ok, >>=-ok_elim, ok-injective, subst, arith,
}
use cwm_minio_tierer.Prelude.Int.{pos, max_int64}
use cwm_minio_tierer.Text.{Str, str_eq}
use cwm_minio_tierer.Text.Parse.{parse_int, digits_from}
use cwm_minio_tierer.Decimal.Defs.{is_positive_form, digit, valid_uint, zero_text}
use cwm_minio_tierer.Decimal.Value.{value, pow10, AllDigits, IsCanonical}
use cwm_minio_tierer.Decimal.Order.{IsCanonical-AllDigits, valid_uint_lem}
use cwm_minio_tierer.Redis.{Redis, Value, text, stored, Holds}
use cwm_minio_tierer.Usage.Script.{check_counter, unsigned_at, read_unsigned}
use cwm_minio_tierer.Usage.Reads.{decode_count, has_leading_zero, checked_count}

shift : (n d p v : ℕ) → (n * 10 + d) * p + v ≡ n * (10 * p) + (d * p + v)
shift n d p v = grind arith

digits_from-value :
    (n : ℕ) (s : Str) → AllDigits s → digits_from n s ≡ some (n * pow10 (length s) + value s)
unfolding digits_from value pow10
digits_from-value n [] h = ap some (omega arith)
digits_from-value n (c ∷ s) h =
    let rest = digits_from-value (n * 10 + digit c) s (ground (arith, h)) in
    ground (arith, rest, shift n (digit c) (pow10 (length s)) (value s))

pub parse_int-canonical :
    (s : Str) → IsCanonical s → value s ≤ max_int64 → parse_int s ≡ some (pos (value s))
unfolding parse_int is_positive_form value
parse_int-canonical [] (inl e) h = cc
parse_int-canonical [] (inr e) h = cc
parse_int-canonical (c ∷ s) d h =
    let digits = IsCanonical-AllDigits (c ∷ s) d in
    let parsed = digits_from-value 0 (c ∷ s) digits in ground (arith, parsed)

check_counter-valid : (s t : Str) → check_counter s ≡ ok t → (s ≡ t) × (valid_uint s ≡ true)
unfolding check_counter valid_uint
check_counter-valid s t h = ground arith

-- What the script reads under a key: the text of the number that the key holds.
pub record IsRead (redis : Redis) (s : redis.State) (key : Str) (v : Value) : Type 0 where
  pub number : ℕ
  pub digits : Str
  pub is_text : v ≡ text digits
  pub canonical : IsCanonical digits
  pub worth : value digits ≡ number
  pub small : number ≤ max_int64
  pub holds : Holds redis s key number

zero-valid : valid_uint zero_text ≡ true
unfolding valid_uint str_eq
zero-valid = refl

unsigned_at-IsRead :
    (redis : Redis) (s : redis.State) (key t : Str)
    → unsigned_at redis s key ≡ ok t
    → (stored redis s key ≡ some t) × (valid_uint t ≡ true)
unfolding unsigned_at stored
unsigned_at-IsRead redis s key t h =
    ground (arith, check_counter-valid (redis.get s key) t, zero-valid)

pub read_unsigned-IsRead :
    (redis : Redis) (s : redis.State) (keys : List Str) (values : List Value)
    → read_unsigned redis s keys ≡ ok values
    → All2 (IsRead redis s) keys values
unfolding read_unsigned
read_unsigned-IsRead redis s [] [] h = tt
read_unsigned-IsRead redis s [] (v ∷ values) h = cc
read_unsigned-IsRead redis s (key ∷ keys) values h =
    >>=-ok_elim (unsigned_at redis s key) _ h λ t e h1.
      >>=-ok_elim (read_unsigned redis s keys) _ h1 λ out e' h2.
        let (found, valid) = unsigned_at-IsRead redis s key t e in
        let (canonical, small) = (valid_uint_lem t).0 valid in
        let first : IsRead redis s key (text t) = record {
          number = value t;
          digits = t;
          is_text = refl;
          canonical = canonical;
          worth = refl;
          small = small;
          holds = record { text = t; is_stored = found; canonical = canonical; number = refl };
        } in
        subst (All2 (IsRead redis s) (key ∷ keys)) (ok-injective h2)
          (first, read_unsigned-IsRead redis s keys out e')

no_leading_zero : (s : Str) → IsCanonical s → has_leading_zero s ≡ false
unfolding is_positive_form
no_leading_zero [] d = refl
no_leading_zero (c ∷ []) d = refl
no_leading_zero (c ∷ c' ∷ s) (inl e) = cc
no_leading_zero (c ∷ c' ∷ s) (inr e) = ground (arith, e)

-- A value that the script has read decodes to the number that its key holds.
pub decode_count-IsRead :
    (redis : Redis) (s : redis.State) (key : Str) (v : Value) (r : IsRead redis s key v)
    → decode_count v ≡ ok (pos r.number)
unfolding decode_count
decode_count-IsRead redis s key v r =
    let parsed = parse_int-canonical r.digits r.canonical (omega (arith, r.worth, r.small)) in
    let decoded : checked_count r.digits (parse_int r.digits) ≡ ok (pos r.number) =
      ground (arith, parsed, r.worth, no_leading_zero r.digits r.canonical) in
    ap decode_count r.is_text ∙ decoded
