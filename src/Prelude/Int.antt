-- ===== src/Prelude/Int.antt =====
-- Signed integers over the native numbers, under the library's names, with 64-bit wrap-around.
use Prim.Native.Nat.{ℕ, suc, ◌+◌, ◌-◌, ◌*◌, ◌%◌, ◌^◌, ◌≤◌, ◌<◌}
use mathlib.Core.Path.{◌≡◌}
use mathlib.Core.Bool.{Bool}
use native.Mathlib.Omega.{arith}
use mathlib.Core.List.{List}
use cwm_minio_tierer.Prelude.Lists.{length}
use cwm_minio_tierer.Prelude.Tests.{ltb, leb, ◌==◌, if◌then◌else◌}

-- `negsuc n` is -(n + 1).
pub data ℤ : Type 0 where
  pos : ℕ → ℤ
  negsuc : ℕ → ℤ

abbrev pub pos_part : ℤ → ℕ
pos_part (pos n) = n
pos_part (negsuc n) = 0

abbrev pub neg_part : ℤ → ℕ
neg_part (pos n) = 0
neg_part (negsuc n) = suc n

-- a - b, as an integer.
abbrev pub sub_ℕ : ℕ → ℕ → ℤ
sub_ℕ a b = if leb b a then pos (a - b) else negsuc (b - a - 1)

infixl 65 ◌+ℤ◌ ◌-ℤ◌
infixl 70 ◌*ℤ◌
infix 50 ◌≤ℤ◌ ◌<ℤ◌
unfoldable pub ◌+ℤ◌ : ℤ → ℤ → ℤ
a +ℤ b = sub_ℕ (pos_part a + pos_part b) (neg_part a + neg_part b)

unfoldable pub ◌-ℤ◌ : ℤ → ℤ → ℤ
a -ℤ b = sub_ℕ (pos_part a + neg_part b) (neg_part a + pos_part b)

unfoldable pub ◌*ℤ◌ : ℤ → ℤ → ℤ
a *ℤ b =
    sub_ℕ (pos_part a * pos_part b + neg_part a * neg_part b)
      (pos_part a * neg_part b + neg_part a * pos_part b)

abbrev pub ◌≤ℤ◌ : ℤ → ℤ → Type 0
a ≤ℤ b = pos_part a + neg_part b ≤ pos_part b + neg_part a

abbrev pub ◌<ℤ◌ : ℤ → ℤ → Type 0
a <ℤ b = pos_part a + neg_part b < pos_part b + neg_part a

abbrev pub ltb_ℤ : ℤ → ℤ → Bool
ltb_ℤ a b = ltb (pos_part a + neg_part b) (pos_part b + neg_part a)

abbrev pub leb_ℤ : ℤ → ℤ → Bool
leb_ℤ a b = leb (pos_part a + neg_part b) (pos_part b + neg_part a)

abbrev pub eqb_ℤ : ℤ → ℤ → Bool
eqb_ℤ a b = pos_part a + neg_part b == pos_part b + neg_part a

-- One lemma for each operation lets `omega` work with the operations shut.
pub +ℤ_parts :
    (a b : ℤ)
    → pos_part (a +ℤ b) + neg_part a + neg_part b ≡ neg_part (a +ℤ b) + pos_part a + pos_part b
unfolding ◌+ℤ◌
+ℤ_parts a b = ground arith

pub -ℤ_parts :
    (a b : ℤ)
    → pos_part (a -ℤ b) + neg_part a + pos_part b ≡ neg_part (a -ℤ b) + pos_part a + neg_part b
unfolding ◌-ℤ◌
-ℤ_parts a b = ground arith

pub *ℤ-pos_parts :
    (a : ℤ) (k : ℕ)
    → pos_part (a *ℤ pos k) + neg_part a * k ≡ neg_part (a *ℤ pos k) + pos_part a * k
unfolding ◌*ℤ◌
*ℤ-pos_parts a k = ground arith

pub eq_of_parts : (a b : ℤ) → pos_part a + neg_part b ≡ pos_part b + neg_part a → a ≡ b
eq_of_parts a b h = ground arith

pub ruleset int_laws = (arith, +ℤ_parts, -ℤ_parts, eq_of_parts)

-- len(xs)
abbrev pub int_length {ℓ} : {A : Type ℓ} → List A → ℤ
int_length xs = pos (length xs)

-- math.MaxInt64, and the range of an int64.
abbrev pub max_int64 : ℕ
max_int64 = 2 ^ 63 - 1

abbrev pub IsInt64 : ℤ → Type 0
IsInt64 a = (a ≤ℤ pos max_int64) × (negsuc max_int64 ≤ℤ a)

-- The int64 that a 64-bit word stands for.
abbrev of_word : ℕ → ℤ
of_word w = if ltb w (2 ^ 63) then pos w else negsuc (2 ^ 64 - 1 - w)

-- Reduction of an exact result to an int64, as the machine's wrap-around does it.
unfoldable pub wrap64 : ℤ → ℤ
wrap64 (pos n) = of_word (n % 2 ^ 64)
wrap64 (negsuc n) = of_word (2 ^ 64 - 1 - n % 2 ^ 64)

pub wrap64_of_range : (a : ℤ) → IsInt64 a → wrap64 a ≡ a
unfolding wrap64
wrap64_of_range (pos n) h = ground arith
wrap64_of_range (negsuc n) h = ground arith

pub wrap64-IsInt64 : (a : ℤ) → IsInt64 (wrap64 a)
unfolding wrap64
wrap64-IsInt64 (pos n) = ground arith
wrap64-IsInt64 (negsuc n) = ground arith

-- Sums and products of numbers, and numbers that fit into an int64.
pub add_pos : (a b : ℕ) → pos a +ℤ pos b ≡ pos (a + b)
add_pos a b = omega int_laws

pub mul_pos : (a b : ℕ) → pos a *ℤ pos b ≡ pos (a * b)
mul_pos a b = omega (int_laws, *ℤ-pos_parts (pos a) b)

pub wrap_pos : (n : ℕ) → n ≤ max_int64 → wrap64 (pos n) ≡ pos n
wrap_pos n h = wrap64_of_range (pos n) (omega arith, omega arith)
