-- ===== src/Text/Order.antt =====
-- The laws of the byte order.
use cwm_minio_tierer.Prelude.{◌≡◌, refl, true, false, [], ◌∷◌, arith}
use cwm_minio_tierer.Text.{Str, str_lt}

pub str_lt_irrefl : (s : Str) → str_lt s s ≡ false
unfolding str_lt
str_lt_irrefl [] = refl
str_lt_irrefl (a ∷ s) = ground (arith, str_lt_irrefl s)

pub str_lt_trans : (s t u : Str) → str_lt s t ≡ true → str_lt t u ≡ true → str_lt s u ≡ true
unfolding str_lt
str_lt_trans s t [] h k = ground arith
str_lt_trans s [] (c ∷ u) h k = ground arith
str_lt_trans [] (b ∷ t) (c ∷ u) h k = refl
str_lt_trans (a ∷ s) (b ∷ t) (c ∷ u) h k = ground (arith, str_lt_trans s t u)

pub str_lt_asymm : (s t : Str) → str_lt s t ≡ true → str_lt t s ≡ false
unfolding str_lt
str_lt_asymm [] [] h = refl
str_lt_asymm [] (b ∷ t) h = refl
str_lt_asymm (a ∷ s) [] h = cc
str_lt_asymm (a ∷ s) (b ∷ t) h = ground (arith, str_lt_asymm s t)

-- Two texts are equal or one is before the other.
pub str_lt_total : (s t : Str) → str_lt s t ≡ false → str_lt t s ≡ false → s ≡ t
unfolding str_lt
str_lt_total [] [] h k = refl
str_lt_total [] (b ∷ t) h k = cc
str_lt_total (a ∷ s) [] h k = cc
str_lt_total (a ∷ s) (b ∷ t) h k = ground (arith, str_lt_total s t)

-- What is before or equal to what is before `u`, is before `u`.
pub str_lt_of_not_lt : (s t u : Str) → str_lt t s ≡ false → str_lt t u ≡ true → str_lt s u ≡ true
unfolding str_lt
str_lt_of_not_lt s t [] h k = ground arith
str_lt_of_not_lt [] t (c ∷ u) h k = refl
str_lt_of_not_lt (a ∷ s) [] (c ∷ u) h k = cc
str_lt_of_not_lt (a ∷ s) (b ∷ t) (c ∷ u) h k = ground (arith, str_lt_of_not_lt s t u)
