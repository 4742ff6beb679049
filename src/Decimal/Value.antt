-- ===== src/Decimal/Value.antt =====
-- The number that a decimal string stands for; length and byte order decide the order of numbers.
use cwm_minio_tierer.Prelude.{
  ℕ, zero, suc, ◌+◌, ◌*◌, ◌≤◌, ◌<◌, ◌≡◌, ◌↔◌, ◌⊎◌, inl, inr, Bool, true, ◌&&◌, ◌||◌, ◌==◌, [], ◌∷◌,
  length, all, arith, ltb,
}
use cwm_minio_tierer.Text.{Str, str_lt}
use cwm_minio_tierer.Decimal.Defs.{is_positive_form, is_digit, digit, zero_text}

unfoldable pub pow10 : ℕ → ℕ
pow10 zero = 1
pow10 (suc n) = 10 * pow10 n

unfoldable pub value : Str → ℕ
value [] = 0
value (c ∷ s) = digit c * pow10 (length s) + value s

abbrev pub AllDigits : Str → Type 0
AllDigits s = all is_digit s ≡ true

-- "0", or digits that do not begin with 0.
abbrev pub IsCanonical : Str → Type 0
IsCanonical s = (s ≡ zero_text) ⊎ (is_positive_form s ≡ true)

pub pow10-pos : (n : ℕ) → 0 < pow10 n
unfolding pow10
pow10-pos zero = omega arith
pow10-pos (suc n) = omega (arith, pow10-pos n)

pub pow10_mono : (m n : ℕ) → m ≤ n → pow10 m ≤ pow10 n
unfolding pow10
pow10_mono zero n h = omega (arith, pow10-pos n)
pow10_mono (suc m) zero h = absurd (omega arith)
pow10_mono (suc m) (suc n) h = omega (arith, pow10_mono m n (omega arith))

pub trichotomy : (a b : ℕ) → (a < b) ⊎ ((a ≡ b) ⊎ (b < a))
trichotomy a b = ground arith

scale : (a b k : ℕ) → a ≤ b → a * k ≤ b * k
scale a b k h = grind arith

pub value-lt-pow10 : (s : Str) → AllDigits s → value s < pow10 (length s)
unfolding value pow10
value-lt-pow10 [] h = omega arith
value-lt-pow10 (c ∷ s) h =
    let low : value s < pow10 (length s) = value-lt-pow10 s (ground arith) in
    let nine : digit c ≤ 9 = ground arith in
    omega (arith, low, scale (digit c) 9 (pow10 (length s)) nine)

-- The first digit decides, unless it is the same.
str_lt_head :
    (a b : ℕ) (rest : Bool) (v w k : ℕ)
    → is_digit a ≡ true
    → is_digit b ≡ true
    → (rest ≡ true) ↔ (v < w)
    → v < k
    → w < k
    → ((ltb a b || (a == b && rest)) ≡ true) ↔ (digit a * k + v < digit b * k + w)
str_lt_head a b rest v w k da db r p q = elim (trichotomy a b) [
  | inl lt ↦ ground (arith, scale (digit a + 1) (digit b) k)
  | inr (inl eq) ↦ rw eq (ground arith)
  | inr (inr gt) ↦ ground (arith, scale (digit b + 1) (digit a) k)
]

-- Of two digit strings of one length, the byte order is the order of the numbers.
pub str_lt-value :
    (s t : Str)
    → AllDigits s
    → AllDigits t
    → length s ≡ length t
    → (str_lt s t ≡ true) ↔ (value s < value t)
unfolding value str_lt
str_lt-value [] [] h k e = (λ p. cc, λ p. absurd (omega arith))
str_lt-value [] (b ∷ t) h k e = absurd (omega arith)
str_lt-value (a ∷ s) [] h k e = absurd (omega arith)
str_lt-value (a ∷ s) (b ∷ t) h k e =
    let tail : length s ≡ length t = omega (arith, e) in
    let ih = str_lt-value s t (ground arith) (ground arith) tail in
    let vs : value s < pow10 (length s) = value-lt-pow10 s (ground arith) in
    let vt : value t < pow10 (length s) = rw tail (value-lt-pow10 t (ground arith)) in
    rw (← tail) (
      str_lt_head a b (str_lt s t) (value s) (value t) (pow10 (length s)) (ground arith)
        (ground arith) ih vs vt)
