-- ===== src/Decimal/Order.antt =====
-- `less_or_equal` and the order of the numbers, `valid_uint` and the canonical decimals.
use cwm_minio_tierer.Prelude.{
  ℕ, ◌*◌, ◌≤◌, ◌<◌, ◌≡◌, ◌↔◌, inl, inr, refl, sym, subst, ap, ◌||◌, true, ◌&&◌, [], ◌∷◌, length,
  arith, Bool-cases,
}
use cwm_minio_tierer.Prelude.Int.{max_int64}
use cwm_minio_tierer.Text.{Str, str_eq, str_lt, str_eq_iff}
use cwm_minio_tierer.Text.Order.{str_lt_total}
use cwm_minio_tierer.Decimal.Defs.{
  valid_uint, is_positive_form, digit, less_or_equal, max_int64_text, zero_text,
}
use cwm_minio_tierer.Decimal.Value.{
  value, pow10, AllDigits, IsCanonical, value-lt-pow10, pow10_mono, str_lt-value, trichotomy,
}

pub IsCanonical-AllDigits : (s : Str) → IsCanonical s → AllDigits s
unfolding is_positive_form
IsCanonical-AllDigits s (inl e) = rw e refl
IsCanonical-AllDigits [] (inr h) = cc
IsCanonical-AllDigits (c ∷ s) (inr h) = ground arith

positive_form_large :
    (c : ℕ) (s : Str) → is_positive_form (c ∷ s) ≡ true → pow10 (length s) ≤ value (c ∷ s)
unfolding is_positive_form value
positive_form_large c s h =
    let one : 1 ≤ digit c = ground arith in
    let most : 1 * pow10 (length s) ≤ digit c * pow10 (length s) = grind arith in
    omega (arith, most)

-- The longer of two canonical decimals is the larger.
value-lt_of_length :
    (s t : Str) → IsCanonical s → IsCanonical t → length s < length t → value s < value t
unfolding is_positive_form
value-lt_of_length [] t (inl e) k h = cc
value-lt_of_length [] t (inr e) k h = cc
value-lt_of_length (a ∷ s) [] d k h = absurd (omega arith)
value-lt_of_length (a ∷ s) (c ∷ t) d (inl e) h = absurd (omega (arith, ap length e))
value-lt_of_length (a ∷ s) (c ∷ t) d (inr e) h = omega (
  arith,
  value-lt-pow10 (a ∷ s) (IsCanonical-AllDigits (a ∷ s) d),
  pow10_mono (length (a ∷ s)) (length t),
  positive_form_large c t e,
)

pub value-injective : (s t : Str) → IsCanonical s → IsCanonical t → value s ≡ value t → s ≡ t
value-injective s t d k e = elim (trichotomy (length s) (length t)) [
  | inl lt ↦ absurd (omega (arith, value-lt_of_length s t d k lt))
  | inr (inl eq) ↦
      let ds = IsCanonical-AllDigits s d in
      let dt = IsCanonical-AllDigits t k in
      str_lt_total s t (ground (arith, str_lt-value s t ds dt eq))
        (ground (arith, str_lt-value t s dt ds (sym eq)))
  | inr (inr gt) ↦ absurd (omega (arith, value-lt_of_length t s k d gt))
]

-- Of canonical decimals, `less_or_equal` holds exactly when the number is at most the other.
pub less_or_equal_lem :
    (s t : Str) → IsCanonical s → IsCanonical t → (less_or_equal s t ≡ true) ↔ (value s ≤ value t)
unfolding less_or_equal
less_or_equal_lem s t d k = elim (trichotomy (length s) (length t)) [
  | inl lt ↦ ground (arith, value-lt_of_length s t d k lt)
  | inr (inl eq) ↦
      ground
        (arith, str_lt-value t s (IsCanonical-AllDigits t k) (IsCanonical-AllDigits s d) (sym eq))
  | inr (inr gt) ↦ ground (arith, value-lt_of_length t s k d gt)
]

pub max_text-IsCanonical : IsCanonical max_int64_text
unfolding is_positive_form
max_text-IsCanonical = inr refl

pub value-max_text : value max_int64_text ≡ max_int64
unfolding value pow10
value-max_text = refl

pub value-zero_text : value zero_text ≡ 0
unfolding value pow10
value-zero_text = refl

-- `valid_uint` is `less_or_equal` to the largest int64, of a canonical decimal.
valid_uint-less_or_equal :
    (s : Str)
    → valid_uint s ≡ ((str_eq s zero_text || is_positive_form s) && less_or_equal s max_int64_text)
unfolding valid_uint less_or_equal str_eq str_lt is_positive_form
valid_uint-less_or_equal s = elim (Bool-cases (str_eq s zero_text)) [
  | inl e ↦ rw ((str_eq_iff s zero_text).0 e) refl
  | inr e ↦ ground (arith, e)
]

IsCanonical-test : (s : Str) → ((str_eq s zero_text || is_positive_form s) ≡ true) ↔ IsCanonical s
IsCanonical-test s = ground (arith, str_eq_iff s zero_text)

in_range :
    (s : Str) → IsCanonical s → (less_or_equal s max_int64_text ≡ true) ↔ (value s ≤ max_int64)
in_range s d =
    subst (λ m. (less_or_equal s max_int64_text ≡ true) ↔ (value s ≤ m)) value-max_text
      (less_or_equal_lem s max_int64_text d max_text-IsCanonical)

-- `valid_uint` accepts a string exactly when it is the canonical decimal of a number up to MaxInt64.
pub valid_uint_lem : (s : Str) → (valid_uint s ≡ true) ↔ (IsCanonical s × (value s ≤ max_int64))
valid_uint_lem s = rw (valid_uint-less_or_equal s) (
  λ e. let d = (IsCanonical-test s).0 (ground arith) in (d, (in_range s d).0 (ground arith)),
  λ p. ground (arith, p.0, p.1, IsCanonical-test s, (in_range s p.0).1 p.1),
)
