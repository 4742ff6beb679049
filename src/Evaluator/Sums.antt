-- ===== src/Evaluator/Sums.antt =====
-- `sumCounts` of internal/tierer/evaluator.go and the exact sum.
use cwm_minio_tierer.Prelude.{◌≡◌, sym, ◌∙◌, ap, ◌↔◌, List, [], ◌∷◌, All, ok, arith}
use cwm_minio_tierer.Prelude.Int.{
  ℤ, pos, ◌+ℤ◌, ◌-ℤ◌, ◌≤ℤ◌, max_int64, wrap64, wrap64_of_range, int_laws,
}
use cwm_minio_tierer.Evaluator.Defs.{sum_from, sum_counts}

-- The sum over the integers, with no bound.
unfoldable pub exact_sum : List ℤ → ℤ
exact_sum [] = pos 0
exact_sum (count ∷ counts) = count +ℤ exact_sum counts

abbrev pub IsNonneg : ℤ → Type 0
IsNonneg a = pos 0 ≤ℤ a

pub exact_sum-IsNonneg : (counts : List ℤ) → All IsNonneg counts → IsNonneg (exact_sum counts)
unfolding exact_sum
exact_sum-IsNonneg [] h = omega arith
exact_sum-IsNonneg (c ∷ cs) h = omega (int_laws, exact_sum-IsNonneg cs h.1)

+ℤ_zero : (a : ℤ) → a +ℤ pos 0 ≡ a
+ℤ_zero a = omega int_laws

+ℤ_shift : (a b c : ℤ) → a +ℤ b +ℤ c ≡ a +ℤ (b +ℤ c)
+ℤ_shift a b c = omega int_laws

-- In range, the test before the addition compares exactly.
guard_exact :
    (total : ℤ)
    → IsNonneg total
    → total ≤ℤ pos max_int64
    → wrap64 (pos max_int64 -ℤ total) ≡ pos max_int64 -ℤ total
guard_exact total h m = wrap64_of_range _ (omega int_laws, omega int_laws)

add_exact :
    (total c : ℤ)
    → IsNonneg total
    → IsNonneg c
    → c ≤ℤ pos max_int64 -ℤ total
    → wrap64 (total +ℤ c) ≡ total +ℤ c
add_exact total c h k m = wrap64_of_range _ (omega int_laws, omega int_laws)

pub sum_from_sound :
    (total : ℤ) (counts : List ℤ) (s : ℤ)
    → IsNonneg total
    → total ≤ℤ pos max_int64
    → sum_from total counts ≡ ok s
    → All IsNonneg counts × (s ≡ total +ℤ exact_sum counts) × (s ≤ℤ pos max_int64)
unfolding sum_from exact_sum
sum_from_sound total [] s h m e = ground (arith, +ℤ_zero total)
sum_from_sound total (c ∷ cs) s h m e =
    let nonneg : IsNonneg c = ground arith in
    let fits : c ≤ℤ pos max_int64 -ℤ total = ground (arith, guard_exact total h m) in
    let rest : sum_from (total +ℤ c) cs ≡ ok s = ground (arith, add_exact total c h nonneg fits) in
    let (a, b, k) = sum_from_sound (total +ℤ c) cs s (omega int_laws) (omega int_laws) rest in
    ((nonneg, a), b ∙ +ℤ_shift total c (exact_sum cs), k)

pub sum_from_complete :
    (total : ℤ) (counts : List ℤ)
    → IsNonneg total
    → All IsNonneg counts
    → total +ℤ exact_sum counts ≤ℤ pos max_int64
    → sum_from total counts ≡ ok (total +ℤ exact_sum counts)
unfolding sum_from exact_sum
sum_from_complete total [] h a m = ap ok (sym (+ℤ_zero total))
sum_from_complete total (c ∷ cs) h a m =
    let tail : IsNonneg (exact_sum cs) = exact_sum-IsNonneg cs a.1 in
    let bound : total ≤ℤ pos max_int64 = omega int_laws in
    let fits : c ≤ℤ pos max_int64 -ℤ total = omega int_laws in
    let ih =
      sum_from_complete (total +ℤ c) cs (omega int_laws) a.1
        (rw (+ℤ_shift total c (exact_sum cs)) m) in
    ground (
      arith,
      a.0,
      guard_exact total h bound,
      add_exact total c h a.0 fits,
      ih,
      +ℤ_shift total c (exact_sum cs),
    )

-- `sumCounts` returns s exactly when no count is negative and s is their exact sum, which is then an
-- int64; otherwise it returns an error.
pub sum_counts_lem :
    (counts : List ℤ) (s : ℤ)
    → (sum_counts counts ≡ ok s)
      ↔ (All IsNonneg counts × (s ≡ exact_sum counts) × (s ≤ℤ pos max_int64))
unfolding sum_counts
sum_counts_lem counts s = (
  λ e.
      let (a, b, k) = sum_from_sound (pos 0) counts s (omega arith) (omega arith) e in
      (a, b ∙ zero_+ℤ (exact_sum counts), k),
  λ (a, b, k).
      sum_from_complete (pos 0) counts (omega arith) a (rw (zero_+ℤ (exact_sum counts), ← b) k)
      ∙ ap ok (zero_+ℤ (exact_sum counts) ∙ sym b),
)
  where
    zero_+ℤ : (x : ℤ) → pos 0 +ℤ x ≡ x
    zero_+ℤ x = omega int_laws
