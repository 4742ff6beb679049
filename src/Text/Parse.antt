-- ===== src/Text/Parse.antt =====
-- What the program uses of strconv and strings to read its settings: ParseInt and Atoi for base 10,
-- TrimSpace, and Split.
use mathlib.Core.List.{reverse}
use cwm_minio_tierer.Prelude.{
  ℕ, ◌+◌, ◌-◌, ◌*◌, ◌^◌, ◌≡◌, Bool, true, false, not, ◌&&◌, ◌||◌, Option, none, some, List, [], ◌∷◌,
  leb, ◌==◌, if◌then◌else◌, arith, refl,
}
use cwm_minio_tierer.Prelude.Int.{ℤ, pos, sub_ℕ, negsuc, max_int64, IsInt64}
use cwm_minio_tierer.Text.{Str, bytes, has_prefix}

abbrev pub is_digit : ℕ → Bool
is_digit c = leb b'0' c && leb c b'9'

-- The number of a run of digits, from `n` on.
unfoldable pub digits_from : ℕ → Str → Option ℕ
digits_from n [] = some n
digits_from n (c ∷ s) =
    let rest = digits_from (n * 10 + (c - b'0')) s in if is_digit c then rest else none

abbrev pub magnitude : Str → Option ℕ
magnitude [] = none
magnitude (c ∷ s) = digits_from 0 (c ∷ s)

abbrev pub positive_int : Option ℕ → Option ℤ
positive_int none = none
positive_int (some n) = if leb n max_int64 then some (pos n) else none

abbrev pub negative_int : Option ℕ → Option ℤ
negative_int none = none
negative_int (some n) = if leb n (2 ^ 63) then some (sub_ℕ 0 n) else none

-- strconv.ParseInt(s, 10, 64), and strconv.Atoi for an int of 64 bits; `none` is an error.
unfoldable pub parse_int : Str → Option ℤ
parse_int [] = none
parse_int (c ∷ s) =
    if c == b'-'
    then negative_int (magnitude s)
    else if c == b'+'
    then positive_int (magnitude s)
    else positive_int (magnitude (c ∷ s))

positive_int-IsInt64 : (o : Option ℕ) (n : ℤ) → positive_int o ≡ some n → IsInt64 n
positive_int-IsInt64 none n h = cc
positive_int-IsInt64 (some m) n h = ground arith

negative_int-IsInt64 : (o : Option ℕ) (n : ℤ) → negative_int o ≡ some n → IsInt64 n
negative_int-IsInt64 none n h = cc
negative_int-IsInt64 (some m) n h = ground arith

pub parse_int-IsInt64 : (s : Str) (n : ℤ) → parse_int s ≡ some n → IsInt64 n
unfolding parse_int
parse_int-IsInt64 [] n h = cc
parse_int-IsInt64 (c ∷ s) n h = ground (
  arith,
  negative_int-IsInt64 (magnitude s) n,
  positive_int-IsInt64 (magnitude s) n,
  positive_int-IsInt64 (magnitude (c ∷ s)) n,
)

-- The UTF-8 encodings of the runes of unicode.IsSpace.
abbrev pub spaces : List Str
spaces =
    (0x20 ∷ [])
    ∷ (0x09 ∷ [])
    ∷ (0x0A ∷ [])
    ∷ (0x0B ∷ [])
    ∷ (0x0C ∷ [])
    ∷ (0x0D ∷ [])
    ∷ (0xC2 ∷ 0x85 ∷ [])
    ∷ (0xC2 ∷ 0xA0 ∷ [])
    ∷ (0xE1 ∷ 0x9A ∷ 0x80 ∷ [])
    ∷ (0xE2 ∷ 0x80 ∷ 0x80 ∷ [])
    ∷ (0xE2 ∷ 0x80 ∷ 0x81 ∷ [])
    ∷ (0xE2 ∷ 0x80 ∷ 0x82 ∷ [])
    ∷ (0xE2 ∷ 0x80 ∷ 0x83 ∷ [])
    ∷ (0xE2 ∷ 0x80 ∷ 0x84 ∷ [])
    ∷ (0xE2 ∷ 0x80 ∷ 0x85 ∷ [])
    ∷ (0xE2 ∷ 0x80 ∷ 0x86 ∷ [])
    ∷ (0xE2 ∷ 0x80 ∷ 0x87 ∷ [])
    ∷ (0xE2 ∷ 0x80 ∷ 0x88 ∷ [])
    ∷ (0xE2 ∷ 0x80 ∷ 0x89 ∷ [])
    ∷ (0xE2 ∷ 0x80 ∷ 0x8A ∷ [])
    ∷ (0xE2 ∷ 0x80 ∷ 0xA8 ∷ [])
    ∷ (0xE2 ∷ 0x80 ∷ 0xA9 ∷ [])
    ∷ (0xE2 ∷ 0x80 ∷ 0xAF ∷ [])
    ∷ (0xE2 ∷ 0x81 ∷ 0x9F ∷ [])
    ∷ (0xE3 ∷ 0x80 ∷ 0x80 ∷ [])
    ∷ []

unfoldable pub starts_with_any : Str → List Str → Bool
starts_with_any s [] = false
starts_with_any s (p ∷ ps) = has_prefix s p || starts_with_any s ps

unfoldable pub ends_with_any : Str → List Str → Bool
ends_with_any s [] = false
ends_with_any s (p ∷ ps) = has_prefix (reverse s) (reverse p) || ends_with_any s ps

-- strings.TrimSpace(s) == s: no space stands at either end.
unfoldable pub is_trimmed : Str → Bool
is_trimmed s = not (starts_with_any s spaces) && not (ends_with_any s spaces)

-- strings.Split(s, sep) for one byte: never empty.
unfoldable pub split_from : ℕ → Str → Str → List Str
split_from sep part [] = reverse part ∷ []
split_from sep part (c ∷ s) = elim (c == sep) [
  | true ↦ reverse part ∷ split_from sep [] s
  | false ↦ split_from sep (c ∷ part) s
]

unfoldable pub split : ℕ → Str → List Str
split sep s = split_from sep [] s

minus : parse_int (bytes "-9223372036854775808") ≡ some (negsuc max_int64)
unfolding parse_int digits_from
minus = refl
