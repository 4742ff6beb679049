-- ===== src/Prelude/Lists.antt =====
-- Lists measured by native numbers, under the library's names, and predicates by recursion.
use Prim.Native.Nat.{ℕ, zero, suc, ◌+◌}
use mathlib.Core.Path.{◌≡◌, refl, ap}
use mathlib.Core.Bool.{Bool, true, false, ◌&&◌}
use mathlib.Core.List.{List, [], ◌∷◌, ◌++◌, map}
use native.Mathlib.Omega.{arith}

module _ {ℓ} {A : Type ℓ} where
  abbrev pub length : List A → ℕ
  length [] = 0
  length (x ∷ xs) = suc (length xs)

  -- The library's own test cannot be unfolded.
  abbrev pub all : (A → Bool) → List A → Bool
  all p [] = true
  all p (x ∷ xs) = p x && all p xs

  abbrev pub replicate : ℕ → A → List A
  replicate zero a = []
  replicate (suc n) a = a ∷ replicate n a

  abbrev pub is_nil : List A → Bool
  is_nil [] = true
  is_nil (x ∷ xs) = false

  abbrev pub take : ℕ → List A → List A
  take zero xs = []
  take (suc n) [] = []
  take (suc n) (x ∷ xs) = x ∷ take n xs

  abbrev pub drop : ℕ → List A → List A
  drop zero xs = xs
  drop (suc n) [] = []
  drop (suc n) (x ∷ xs) = drop n xs

  -- A predicate at each entry, which computes to a tuple.
  abbrev pub All {κ} : (A → Type κ) → List A → Type κ
  All P [] = Unit
  All P (x ∷ xs) = P x × All P xs

  pub length-append : (xs ys : List A) → length (xs ++ ys) ≡ length xs + length ys
  length-append [] ys = omega arith
  length-append (x ∷ xs) ys = omega (arith, length-append xs ys)

  pub length-replicate : (n : ℕ) (a : A) → length (replicate n a) ≡ n
  length-replicate zero a = refl
  length-replicate (suc n) a = ap suc (length-replicate n a)

pub length-map {ℓ κ} :
    {A : Type ℓ} {B : Type κ} (xs : List A) (f : A → B) → length (map f xs) ≡ length xs
length-map [] f = refl
length-map (x ∷ xs) f = ap suc (length-map xs f)

-- A relation between the entries of two lists of one length, which computes to a tuple.
abbrev pub All2 {ℓ κ} : {A : Type ℓ} {B : Type κ} → (A → B → Type 0) → List A → List B → Type 0
All2 P [] [] = Unit
All2 P [] (y ∷ ys) = ⊥
All2 P (x ∷ xs) [] = ⊥
All2 P (x ∷ xs) (y ∷ ys) = P x y × All2 P xs ys

pub length-All2 {ℓ κ} :
    {A : Type ℓ} {B : Type κ} (P : A → B → Type 0) (xs : List A) (ys : List B)
    → All2 P xs ys
    → length xs ≡ length ys
length-All2 P [] [] h = refl
length-All2 P [] (y ∷ ys) h = absurd h
length-All2 P (x ∷ xs) [] h = absurd h
length-All2 P (x ∷ xs) (y ∷ ys) (_, h) = ap suc (length-All2 P xs ys h)

pub All2-append {ℓ κ} :
    {A : Type ℓ} {B : Type κ} (P : A → B → Type 0) (n : ℕ) (xs xs' : List A) (ys : List B)
    → length xs ≡ n
    → All2 P (xs ++ xs') ys
    → All2 P xs (take n ys) × All2 P xs' (drop n ys)
All2-append P zero [] xs' ys e h = (tt, h)
All2-append P (suc n) [] xs' ys e h = absurd (omega arith)
All2-append P zero (x ∷ xs) xs' ys e h = absurd (omega arith)
All2-append P (suc n) (x ∷ xs) xs' [] e h = absurd h
All2-append P (suc n) (x ∷ xs) xs' (y ∷ ys) e (first, h) =
    let (left, right) = All2-append P n xs xs' ys (omega arith) h in ((first, left), right)
