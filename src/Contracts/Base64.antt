-- ===== src/Contracts/Base64.antt =====
-- base64.RawURLEncoding, as `EncodeIdentity` of internal/contracts/contracts.go uses it.
use cwm_minio_tierer.Prelude.{
  ℕ, ◌+◌, ◌-◌, ◌*◌, ◌/◌, ◌%◌, ◌<◌, ◌≡◌, ◌≢◌, refl, [], ◌∷◌, All, arith, ltb, ◌==◌, if◌then◌else◌,
}
use cwm_minio_tierer.Text.{Str, bytes}

-- The letter of six bits.
unfoldable pub letter : ℕ → ℕ
letter n =
    if ltb n 26
    then b'A' + n
    else if ltb n 52
    then b'a' + (n - 26)
    else if ltb n 62
    then b'0' + (n - 52)
    else if n == 62
    then b'-'
    else b'_'

unfoldable pub encode_to_string : Str → Str
encode_to_string [] = []
encode_to_string (a ∷ []) = letter (a / 4) ∷ letter (a % 4 * 16) ∷ []
encode_to_string (a ∷ b ∷ []) =
    letter (a / 4) ∷ letter (a % 4 * 16 + b / 16) ∷ letter (b % 16 * 4) ∷ []
encode_to_string (a ∷ b ∷ c ∷ s) =
    letter (a / 4)
    ∷ letter (a % 4 * 16 + b / 16)
    ∷ letter (b % 16 * 4 + c / 64)
    ∷ letter (c % 64)
    ∷ encode_to_string s

abbrev pub AreBytes : Str → Type 0
AreBytes = All (λ (c : ℕ). c < 256)

letter_injective : (m n : ℕ) → m < 64 → n < 64 → letter m ≡ letter n → m ≡ n
unfolding letter
letter_injective m n h k e = ground arith

letter-ne-colon : (n : ℕ) → letter n ≢ b':'
unfolding letter
letter-ne-colon n e = ground arith

one_byte : (a a' : ℕ) → a < 256 → a' < 256 → a / 4 ≡ a' / 4 → a % 4 * 16 ≡ a' % 4 * 16 → a ≡ a'
one_byte a a' h k e f = omega arith

two_bytes :
    (a b a' b' : ℕ)
    → a < 256
    → b < 256
    → a' < 256
    → b' < 256
    → a / 4 ≡ a' / 4
    → a % 4 * 16 + b / 16 ≡ a' % 4 * 16 + b' / 16
    → b % 16 ≡ b' % 16
    → (a ≡ a') × (b ≡ b')
two_bytes a b a' b' h1 h2 k1 k2 e f g = (omega arith, omega arith)

three_bytes :
    (a b c a' b' c' : ℕ)
    → a < 256
    → b < 256
    → c < 256
    → a' < 256
    → b' < 256
    → c' < 256
    → a / 4 ≡ a' / 4
    → a % 4 * 16 + b / 16 ≡ a' % 4 * 16 + b' / 16
    → b % 16 * 4 + c / 64 ≡ b' % 16 * 4 + c' / 64
    → c % 64 ≡ c' % 64
    → (a ≡ a') × ((b ≡ b') × (c ≡ c'))
three_bytes a b c a' b' c' h1 h2 h3 k1 k2 k3 e f g i = (omega arith, (omega arith, omega arith))

pub encode_to_string_injective :
    (s t : Str) → AreBytes s → AreBytes t → encode_to_string s ≡ encode_to_string t → s ≡ t
unfolding encode_to_string
encode_to_string_injective [] [] h k e = refl
encode_to_string_injective (a ∷ []) (a' ∷ []) (ha, _) (ha', _) e =
    let eq =
      one_byte a a' ha ha' (letter_injective (a / 4) (a' / 4) (omega arith) (omega arith) cc)
        (letter_injective (a % 4 * 16) (a' % 4 * 16) (omega arith) (omega arith) cc) in
    cc
encode_to_string_injective (a ∷ b ∷ []) (a' ∷ b' ∷ []) (ha, (hb, _)) (ha', (hb', _)) e =
    let (eq1, eq2) =
      two_bytes a b a' b' ha hb ha' hb'
        (letter_injective (a / 4) (a' / 4) (omega arith) (omega arith) cc)
        (letter_injective (a % 4 * 16 + b / 16) (a' % 4 * 16 + b' / 16) (omega arith) (omega arith)
          cc)
        (omega
          (arith, letter_injective (b % 16 * 4) (b' % 16 * 4) (omega arith) (omega arith) cc)) in
    cc
encode_to_string_injective (a ∷ b ∷ c ∷ s) (a' ∷ b' ∷ c' ∷ t) (ha, (hb, (hc, h)))
      (ha', (hb', (hc', k))) e =
    let (eq1, (eq2, eq3)) =
      three_bytes a b c a' b' c' ha hb hc ha' hb' hc'
        (letter_injective (a / 4) (a' / 4) (omega arith) (omega arith) cc)
        (letter_injective (a % 4 * 16 + b / 16) (a' % 4 * 16 + b' / 16) (omega arith) (omega arith)
          cc)
        (letter_injective (b % 16 * 4 + c / 64) (b' % 16 * 4 + c' / 64) (omega arith) (omega arith)
          cc)
        (letter_injective (c % 64) (c' % 64) (omega arith) (omega arith) cc) in
    let rest = encode_to_string_injective s t h k cc in cc
encode_to_string_injective [] (a' ∷ []) h k e = cc
encode_to_string_injective [] (a' ∷ b' ∷ []) h k e = cc
encode_to_string_injective [] (a' ∷ b' ∷ c' ∷ t) h k e = cc
encode_to_string_injective (a ∷ []) [] h k e = cc
encode_to_string_injective (a ∷ []) (a' ∷ b' ∷ []) h k e = cc
encode_to_string_injective (a ∷ []) (a' ∷ b' ∷ c' ∷ t) h k e = cc
encode_to_string_injective (a ∷ b ∷ []) [] h k e = cc
encode_to_string_injective (a ∷ b ∷ []) (a' ∷ []) h k e = cc
encode_to_string_injective (a ∷ b ∷ []) (a' ∷ b' ∷ c' ∷ t) h k e = cc
encode_to_string_injective (a ∷ b ∷ c ∷ s) [] h k e = cc
encode_to_string_injective (a ∷ b ∷ c ∷ s) (a' ∷ []) h k e = cc
encode_to_string_injective (a ∷ b ∷ c ∷ s) (a' ∷ b' ∷ []) h k e = cc

abbrev pub NoColon : Str → Type 0
NoColon = All (λ (c : ℕ). c ≢ b':')

pub encode_to_string-NoColon : (s : Str) → NoColon (encode_to_string s)
unfolding encode_to_string
encode_to_string-NoColon [] = tt
encode_to_string-NoColon (a ∷ []) = (letter-ne-colon _, (letter-ne-colon _, tt))
encode_to_string-NoColon (a ∷ b ∷ []) =
    (letter-ne-colon _, (letter-ne-colon _, (letter-ne-colon _, tt)))
encode_to_string-NoColon (a ∷ b ∷ c ∷ s) = (
  letter-ne-colon _,
  (letter-ne-colon _, (letter-ne-colon _, (letter-ne-colon _, encode_to_string-NoColon s))),
)

hello : encode_to_string (bytes "hello~") ≡ bytes "aGVsbG9-"
unfolding encode_to_string letter
hello = refl
