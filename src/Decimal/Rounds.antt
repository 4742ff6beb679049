-- ===== src/Decimal/Rounds.antt =====
-- The loop of `add_uint` round by round: the digits that it writes, and their value.
use mathlib.Core.List.{reverse, reverse-cons, append_assoc}
use cwm_minio_tierer.Prelude.{
  ℕ, zero, suc, ◌+◌, ◌*◌, ◌/◌, ◌%◌, ◌≤◌, ◌≡◌, refl, sym, ap, ◌∙◌, some, List, [], ◌∷◌, ◌++◌, length,
  length-append, arith, ◌==◌, if◌then◌else◌,
}
use native.Mathlib.Numerals.{add-one}
use cwm_minio_tierer.Text.{Str}
use cwm_minio_tierer.Decimal.Defs.{add_loop, digit}
use cwm_minio_tierer.Decimal.Value.{value, pow10, AllDigits}

-- The value of a string that is held last digit first.
unfoldable pub value_rev : List ℕ → ℕ
value_rev [] = 0
value_rev (c ∷ s) = digit c + 10 * value_rev s

value-snoc : (s : Str) (c : ℕ) → value (s ++ c ∷ []) ≡ 10 * value s + digit c
unfolding value pow10
value-snoc [] c = omega arith
value-snoc (a ∷ s) c =
    rw (length-append s (c ∷ []), add-one (length s), value-snoc s c) (omega arith)

pub value-reverse : (s : List ℕ) → value (reverse s) ≡ value_rev s
unfolding value value_rev
value-reverse [] = refl
value-reverse (c ∷ s) =
    rw (reverse-cons c s, value-snoc (reverse s) c, value-reverse s) (omega arith)

-- The digit that a round writes, and the carry that it leaves.
abbrev pub out : ℕ → ℕ
out sum = b'0' + sum % 10

-- The digits that the loop writes, last one first.
unfoldable pub add_rev : List ℕ → List ℕ → ℕ → List ℕ
add_rev [] [] carry = if carry == 0 then [] else out carry ∷ []
add_rev [] (y ∷ r) carry = out (0 + digit y + carry) ∷ add_rev [] r ((0 + digit y + carry) / 10)
add_rev (x ∷ l) [] carry = out (digit x + 0 + carry) ∷ add_rev l [] ((digit x + 0 + carry) / 10)
add_rev (x ∷ l) (y ∷ r) carry =
    out (digit x + digit y + carry) ∷ add_rev l r ((digit x + digit y + carry) / 10)

pub value_rev-add_rev :
    (l r : List ℕ) (carry : ℕ)
    → AllDigits l
    → AllDigits r
    → carry ≤ 1
    → value_rev (add_rev l r carry) ≡ value_rev l + value_rev r + carry
unfolding value_rev add_rev
value_rev-add_rev [] [] carry h k c = ground arith
value_rev-add_rev [] (y ∷ r) carry h k c =
    ground (arith, value_rev-add_rev [] r ((0 + digit y + carry) / 10))
value_rev-add_rev (x ∷ l) [] carry h k c =
    ground (arith, value_rev-add_rev l [] ((digit x + 0 + carry) / 10))
value_rev-add_rev (x ∷ l) (y ∷ r) carry h k c =
    ground (arith, value_rev-add_rev l r ((digit x + digit y + carry) / 10))

pub add_rev-AllDigits :
    (l r : List ℕ) (carry : ℕ)
    → AllDigits l
    → AllDigits r
    → carry ≤ 1
    → AllDigits (add_rev l r carry)
unfolding add_rev
add_rev-AllDigits [] [] carry h k c = ground arith
add_rev-AllDigits [] (y ∷ r) carry h k c =
    ground (arith, add_rev-AllDigits [] r ((0 + digit y + carry) / 10))
add_rev-AllDigits (x ∷ l) [] carry h k c =
    ground (arith, add_rev-AllDigits l [] ((digit x + 0 + carry) / 10))
add_rev-AllDigits (x ∷ l) (y ∷ r) carry h k c =
    ground (arith, add_rev-AllDigits l r ((digit x + digit y + carry) / 10))

-- No zero stands at the end, which is the front of the number.
abbrev pub TopNonzero : List ℕ → Type 0
TopNonzero [] = Unit
TopNonzero (c ∷ []) = 1 ≤ digit c
TopNonzero (c ∷ d ∷ s) = TopNonzero (d ∷ s)

pub add_rev-TopNonzero :
    (l r : List ℕ) (carry : ℕ)
    → AllDigits l
    → AllDigits r
    → carry ≤ 1
    → TopNonzero l
    → TopNonzero r
    → TopNonzero (add_rev l r carry)
unfolding add_rev
add_rev-TopNonzero [] [] carry h k c p q = ground arith
add_rev-TopNonzero [] (y ∷ []) carry h k c p q = ground arith
add_rev-TopNonzero [] (y ∷ z ∷ r) carry h k c p q =
    add_rev-TopNonzero [] (z ∷ r) ((0 + digit y + carry) / 10) refl (ground arith) (ground arith) tt
      q
add_rev-TopNonzero (x ∷ []) [] carry h k c p q = ground arith
add_rev-TopNonzero (x ∷ z ∷ l) [] carry h k c p q =
    add_rev-TopNonzero (z ∷ l) [] ((digit x + 0 + carry) / 10) (ground arith) refl (ground arith) p
      tt
add_rev-TopNonzero (x ∷ []) (y ∷ []) carry h k c p q = ground arith
add_rev-TopNonzero (x ∷ []) (y ∷ z ∷ r) carry h k c p q =
    add_rev-TopNonzero [] (z ∷ r) ((digit x + digit y + carry) / 10) refl (ground arith)
      (ground arith) tt q
add_rev-TopNonzero (x ∷ z ∷ l) (y ∷ []) carry h k c p q =
    add_rev-TopNonzero (z ∷ l) [] ((digit x + digit y + carry) / 10) (ground arith) refl
      (ground arith) p tt
add_rev-TopNonzero (x ∷ z ∷ l) (y ∷ w ∷ r) carry h k c p q =
    add_rev-TopNonzero (z ∷ l) (w ∷ r) ((digit x + digit y + carry) / 10) (ground arith)
      (ground arith) (ground arith) p q

reverse-shift : (d : ℕ) (rest acc : List ℕ) → reverse rest ++ d ∷ acc ≡ reverse (d ∷ rest) ++ acc
reverse-shift d rest acc =
    sym (append_assoc (reverse rest) (d ∷ []) acc) ∙ sym (ap (λ u. u ++ acc) (reverse-cons d rest))

-- With fuel for both strings the loop ends, and has written the digits of `add_rev`.
pub add_loop_lem :
    (fuel : ℕ) (l r : List ℕ) (carry : ℕ) (acc : Str)
    → carry ≤ 1
    → AllDigits l
    → AllDigits r
    → length l + length r + 2 ≤ fuel
    → add_loop fuel l r carry acc ≡ some (reverse (add_rev l r carry) ++ acc)
unfolding add_loop add_rev
add_loop_lem zero l r carry acc c h k f = absurd (omega arith)
add_loop_lem (suc zero) [] [] carry acc c h k f = absurd (omega arith)
add_loop_lem (suc (suc fuel)) [] [] zero acc c h k f = refl
add_loop_lem (suc (suc fuel)) [] [] (suc zero) acc c h k f = refl
add_loop_lem (suc (suc fuel)) [] [] (suc (suc carry)) acc c h k f = absurd (omega arith)
add_loop_lem (suc fuel) [] (y ∷ r) carry acc c h k f =
    add_loop_lem fuel [] r ((0 + digit y + carry) / 10) (out (0 + digit y + carry) ∷ acc)
      (ground arith) h (ground arith) (omega arith)
    ∙ ap some (reverse-shift _ (add_rev [] r ((0 + digit y + carry) / 10)) acc)
add_loop_lem (suc fuel) (x ∷ l) [] carry acc c h k f =
    add_loop_lem fuel l [] ((digit x + 0 + carry) / 10) (out (digit x + 0 + carry) ∷ acc)
      (ground arith) (ground arith) k (omega arith)
    ∙ ap some (reverse-shift _ (add_rev l [] ((digit x + 0 + carry) / 10)) acc)
add_loop_lem (suc fuel) (x ∷ l) (y ∷ r) carry acc c h k f =
    add_loop_lem fuel l r ((digit x + digit y + carry) / 10) (out (digit x + digit y + carry) ∷ acc)
      (ground arith) (ground arith) (ground arith) (omega arith)
    ∙ ap some (reverse-shift _ (add_rev l r ((digit x + digit y + carry) / 10)) acc)
