-- ===== src/Tests/KeyTests.antt =====
-- The key of an access, with hours that are written in unary.
use cwm_minio_tierer.Prelude.{
  ℕ, zero, suc, ◌*◌, ◌/◌, ◌≡◌, ◌≢◌, refl, [], ◌∷◌, ok, arith, ap, sym, ◌+◌,
}
use cwm_minio_tierer.Prelude.Int.{ℤ, pos, negsuc, pos_part, int_laws}
use cwm_minio_tierer.Text.{Str, bytes}
use cwm_minio_tierer.Clock.{Time, hour, floor_div, truncate}
use cwm_minio_tierer.Contracts.Defs.{validate_instance_id}
use cwm_minio_tierer.Contracts.Base64.{AreBytes, NoColon, encode_to_string, letter}
use cwm_minio_tierer.Contracts.Keys.{
  FormatsHours, access_key, access_key_injective, encode_identity, key_parts,
}

abbrev pub ones : ℕ → Str
ones zero = []
ones (suc n) = b'1' ∷ ones n

abbrev pub unary : ℤ → Str
unary (pos n) = ones n
unary (negsuc n) = b'-' ∷ ones n

abbrev pub format_unary : Str → Time → Str
format_unary layout t = unary (floor_div t hour)

ones-NoColon : (n : ℕ) → NoColon (ones n)
ones-NoColon zero = tt
ones-NoColon (suc n) = (λ e. omega arith, ones-NoColon n)

unary-NoColon : (n : ℤ) → NoColon (unary n)
unary-NoColon (pos n) = ones-NoColon n
unary-NoColon (negsuc n) = (λ e. omega arith, ones-NoColon n)

ones_injective : (m n : ℕ) → ones m ≡ ones n → m ≡ n
ones_injective zero zero e = refl
ones_injective (suc m) (suc n) e = ap suc (ones_injective m n cc)
ones_injective zero (suc n) e = cc
ones_injective (suc m) zero e = cc

abbrev first : Str → ℕ
first [] = 0
first (c ∷ s) = c

minus-ne-ones : (n : ℕ) (s : Str) → b'-' ∷ s ≢ ones n
minus-ne-ones zero s e = omega (arith, ap first e)
minus-ne-ones (suc n) s e = omega (arith, ap first e)

unary_injective : (m n : ℤ) → unary m ≡ unary n → m ≡ n
unary_injective (pos m) (pos n) e = ap pos (ones_injective m n e)
unary_injective (negsuc m) (negsuc n) e = ap negsuc (ones_injective m n cc)
unary_injective (pos m) (negsuc n) e = absurd (minus-ne-ones m _ (sym e))
unary_injective (negsuc m) (pos n) e = absurd (minus-ne-ones n _ e)

abbrev below : ℤ → ℕ
below (pos n) = 0
below (negsuc n) = n

same_hour : (t u : Time) → floor_div t hour ≡ floor_div u hour → truncate t hour ≡ truncate u hour
unfolding truncate
same_hour (pos m) (pos n) e = omega (int_laws, ap pos_part e)
same_hour (negsuc m) (negsuc n) e = omega (int_laws, ap below e)
same_hour (pos m) (negsuc n) e = cc
same_hour (negsuc m) (pos n) e = cc

format_unary-FormatsHours : FormatsHours format_unary
format_unary-FormatsHours = record {
  year-NoColon = λ t. unary-NoColon (floor_div t hour);
  month-NoColon = λ t. unary-NoColon (floor_div t hour);
  day-NoColon = λ t. unary-NoColon (floor_div t hour);
  hour-NoColon = λ t. unary-NoColon (floor_div t hour);
  distinct = λ t u e1 e2 e3 e4. same_hour t u (unary_injective _ _ e1);
}

hello-AreBytes : AreBytes (bytes "hello~")
hello-AreBytes =
    (omega arith, (omega arith, (omega arith, (omega arith, (omega arith, (omega arith, tt))))))

abbrev key : Str
key = bytes "cwm-minio-tierer:v1:a.1:access:11:11:11:11:Yg:aGVsbG9-"

abbrev half_past : Time
half_past = pos (2 * hour + hour / 2)

made : access_key format_unary (bytes "a.1") (bytes "b") (bytes "hello~") (pos (2 * hour)) ≡ ok key
unfolding access_key validate_instance_id encode_identity encode_to_string letter key_parts
made = refl

made_later : access_key format_unary (bytes "a.1") (bytes "b") (bytes "hello~") half_past ≡ ok key
unfolding access_key validate_instance_id encode_identity encode_to_string letter key_parts
made_later = refl

access_key_injective_example :
    (bytes "a.1" ≡ bytes "a.1")
    × (bytes "b" ≡ bytes "b")
    × (bytes "hello~" ≡ bytes "hello~")
    × (truncate (pos (2 * hour)) hour ≡ truncate half_past hour)
access_key_injective_example =
    access_key_injective format_unary format_unary-FormatsHours (bytes "a.1") (bytes "a.1")
      (bytes "b") (bytes "b") (bytes "hello~") (bytes "hello~") (pos (2 * hour)) half_past key
      (omega arith, tt) (omega arith, tt) hello-AreBytes hello-AreBytes made made_later
