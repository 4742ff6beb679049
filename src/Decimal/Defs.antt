-- ===== src/Decimal/Defs.antt =====
-- The local functions that the Lua scripts share: counterScript of internal/redisstore/store.go and
-- reserveBudgetScript of internal/tierer/redis.go. A Lua string is its bytes.
use mathlib.Core.List.{reverse}
use cwm_minio_tierer.Prelude.{
  ℕ, zero, suc, ◌+◌, ◌-◌, ◌/◌, ◌%◌, Bool, true, false, not, ◌&&◌, ◌||◌, Option, none, some, List,
  [], ◌∷◌, length, all, ltb, leb, ◌==◌, if◌then◌else◌,
}
use cwm_minio_tierer.Text.{Str, bytes, str_eq, str_lt}

abbrev pub max_int64_text : Str
max_int64_text = bytes "9223372036854775807"

abbrev pub zero_text : Str
zero_text = bytes "0"

abbrev pub is_digit : ℕ → Bool
is_digit c = leb b'0' c && leb c b'9'

-- string.match(value, "^[1-9][0-9]*$") ~= nil
unfoldable pub is_positive_form : Str → Bool
is_positive_form [] = false
is_positive_form (c ∷ s) = leb b'1' c && leb c b'9' && all is_digit s

-- left <= right on strings
abbrev pub str_le : Str → Str → Bool
str_le s t = not (str_lt t s)

unfoldable pub valid_uint : Str → Bool
valid_uint value =
    if str_eq value zero_text
    then true
    else if not (is_positive_form value)
    then false
    else if ltb (length value) (length max_int64_text)
    then true
    else if ltb (length max_int64_text) (length value)
    then false
    else str_le value max_int64_text

-- tonumber of one digit, and tostring of a number below ten
abbrev pub digit : ℕ → ℕ
digit c = c - b'0'

-- The digit under the index that runs down to 0, and what is left of it; the remaining part of each
-- string is held last digit first.
abbrev pub top_digit : List ℕ → ℕ
top_digit [] = 0
top_digit (c ∷ s) = digit c

abbrev pub rest_digits : List ℕ → List ℕ
rest_digits [] = []
rest_digits (c ∷ s) = s

abbrev pub is_empty : List ℕ → Bool
is_empty [] = true
is_empty (c ∷ s) = false

-- `while i > 0 or j > 0 or carry > 0 do ... end`, with fuel; `none` means that it ran out.
unfoldable pub add_loop : ℕ → List ℕ → List ℕ → ℕ → Str → Option Str
add_loop zero left right carry result = none
add_loop (suc fuel) left right carry result =
    let sum = top_digit left + top_digit right + carry in
    let more =
      add_loop fuel (rest_digits left) (rest_digits right) (sum / 10)
        ((b'0' + sum % 10) ∷ result) in
    if not (is_empty left) || not (is_empty right) || ltb 0 carry then more else some result

-- Rounds enough for both strings, the last carry and the final test.
abbrev pub add_fuel : Str → Str → ℕ
add_fuel left right = length left + length right + 2

abbrev pub keep_valid : Option Str → Option Str
keep_valid none = none
keep_valid (some result) = if not (valid_uint result) then none else some result

unfoldable pub add_uint : Str → Str → Option Str
add_uint left right =
    keep_valid (add_loop (add_fuel left right) (reverse left) (reverse right) 0 [])

unfoldable pub less_or_equal : Str → Str → Bool
less_or_equal left right =
    if not (length left == length right)
    then ltb (length left) (length right)
    else str_le left right
