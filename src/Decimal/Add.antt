-- ===== src/Decimal/Add.antt =====
-- `add_uint` and the addition of numbers.
use mathlib.Core.List.{reverse, reverse-cons, reverse-reverse, append-nil}
use cwm_minio_tierer.Prelude.{
  ℕ, ◌+◌, ◌≤◌, ◌≡◌, inl, inr, refl, sym, ap, subst, ◌∙◌, true, none, some, List, [], ◌∷◌, ◌++◌,
  length, length-append, arith, leb, if◌then◌else◌,
}
use cwm_minio_tierer.Prelude.Int.{max_int64}
use cwm_minio_tierer.Text.{Str}
use cwm_minio_tierer.Decimal.Defs.{
  add_fuel, add_uint, keep_valid, is_digit, is_positive_form, digit,
}
use cwm_minio_tierer.Decimal.Value.{value, AllDigits, IsCanonical}
use cwm_minio_tierer.Decimal.Rounds.{
  value_rev, value-reverse, add_rev, value_rev-add_rev, add_rev-AllDigits, add_rev-TopNonzero,
  add_loop_lem, TopNonzero,
}
use cwm_minio_tierer.Decimal.Order.{valid_uint_lem, IsCanonical-AllDigits}

all-append : (s t : Str) → AllDigits s → AllDigits t → AllDigits (s ++ t)
all-append [] t h k = k
all-append (c ∷ s) t h k = ground (arith, all-append s t)

AllDigits-reverse : (s : Str) → AllDigits s → AllDigits (reverse s)
AllDigits-reverse [] h = refl
AllDigits-reverse (c ∷ s) h =
    rw (reverse-cons c s)
      (all-append (reverse s) (c ∷ []) (AllDigits-reverse s (ground arith)) (ground arith))

positive_form-snoc :
    (s : Str) (c : ℕ)
    → is_positive_form s ≡ true
    → is_digit c ≡ true
    → is_positive_form (s ++ c ∷ []) ≡ true
unfolding is_positive_form
positive_form-snoc [] c h k = cc
positive_form-snoc (a ∷ s) c h k = ground (arith, all-append s (c ∷ []))

positive_form-reverse :
    (c : ℕ) (s : List ℕ)
    → AllDigits (c ∷ s)
    → TopNonzero (c ∷ s)
    → is_positive_form (reverse (c ∷ s)) ≡ true
unfolding is_positive_form
positive_form-reverse c [] h p = ground arith
positive_form-reverse c (d ∷ s) h p = rw (reverse-cons c (d ∷ s)) (
    positive_form-snoc (reverse (d ∷ s)) c (positive_form-reverse d s (ground arith) p)
      (ground arith))

TopNonzero-snoc : (s : List ℕ) (c : ℕ) → 1 ≤ digit c → TopNonzero (s ++ c ∷ [])
TopNonzero-snoc [] c h = h
TopNonzero-snoc (a ∷ []) c h = h
TopNonzero-snoc (a ∷ b ∷ s) c h = TopNonzero-snoc (b ∷ s) c h

-- A positive decimal, held last digit first.
abbrev Reversed : List ℕ → Type 0
Reversed l = (c : ℕ) × (s : List ℕ) × (l ≡ c ∷ s) × AllDigits l × TopNonzero l

cons_of_snoc : (s : List ℕ) (c : ℕ) → (d : ℕ) × (t : List ℕ) × (s ++ c ∷ [] ≡ d ∷ t)
cons_of_snoc [] c = (c, [], refl)
cons_of_snoc (a ∷ s) c = (a, s ++ c ∷ [], refl)

Reversed-reverse : (s : Str) → is_positive_form s ≡ true → Reversed (reverse s)
unfolding is_positive_form
Reversed-reverse [] h = cc
Reversed-reverse (c ∷ s) h =
    let (d, t, e) = cons_of_snoc (reverse s) c in
    (
      d,
      t,
      reverse-cons c s ∙ e,
      AllDigits-reverse (c ∷ s) (ground arith),
      rw (reverse-cons c s) (TopNonzero-snoc (reverse s) c (ground arith)),
    )

IsCanonical-of_cons :
    (l : List ℕ) (c : ℕ) (s : List ℕ)
    → l ≡ c ∷ s
    → AllDigits l
    → TopNonzero l
    → IsCanonical (reverse l)
IsCanonical-of_cons l c s e h p =
    rw e (inr (positive_form-reverse c s (rw e at h) (subst TopNonzero e p)))

sum_of_right : (l : List ℕ) → Reversed l → IsCanonical (reverse (add_rev (b'0' ∷ []) l 0))
unfolding add_rev
sum_of_right l (y, r, e, h, p) =
    let h' : AllDigits (y ∷ r) = rw e at h in
    rw e (
      IsCanonical-of_cons (add_rev [] (y ∷ r) 0) _ _ refl
        (add_rev-AllDigits [] (y ∷ r) 0 refl h' (omega arith))
        (add_rev-TopNonzero [] (y ∷ r) 0 refl h' (omega arith) tt (subst TopNonzero e p)))

sum_of_left : (l : List ℕ) → Reversed l → IsCanonical (reverse (add_rev l (b'0' ∷ []) 0))
unfolding add_rev
sum_of_left l (x, r, e, h, p) =
    let h' : AllDigits (x ∷ r) = rw e at h in
    rw e (
      IsCanonical-of_cons (add_rev (x ∷ r) [] 0) _ _ refl
        (add_rev-AllDigits (x ∷ r) [] 0 h' refl (omega arith))
        (add_rev-TopNonzero (x ∷ r) [] 0 h' refl (omega arith) (subst TopNonzero e p) tt))

sum_of_both : (l r : List ℕ) → Reversed l → Reversed r → IsCanonical (reverse (add_rev l r 0))
unfolding add_rev
sum_of_both l r (x, l', e, h, p) (y, r', f, k, q) =
    let h' : AllDigits (x ∷ l') = rw e at h in
    let k' : AllDigits (y ∷ r') = rw f at k in
    rw (e, f)
      (IsCanonical-of_cons (add_rev (x ∷ l') (y ∷ r') 0) _ _ refl
        (add_rev-AllDigits (x ∷ l') (y ∷ r') 0 h' k' (omega arith))
        (add_rev-TopNonzero (x ∷ l') (y ∷ r') 0 h' k' (omega arith) (subst TopNonzero e p)
          (subst TopNonzero f q)))

-- The digits that the loop writes for two canonical decimals are a canonical decimal.
sum-IsCanonical :
    (s t : Str)
    → IsCanonical s
    → IsCanonical t
    → IsCanonical (reverse (add_rev (reverse s) (reverse t) 0))
sum-IsCanonical s t (inl d) (inl k) = rw (d, k) (unfold add_rev in inl refl)
sum-IsCanonical s t (inl d) (inr k) = rw d (sum_of_right (reverse t) (Reversed-reverse t k))
sum-IsCanonical s t (inr d) (inl k) = rw k (sum_of_left (reverse s) (Reversed-reverse s d))
sum-IsCanonical s t (inr d) (inr k) =
    sum_of_both (reverse s) (reverse t) (Reversed-reverse s d) (Reversed-reverse t k)

length-reverse : (s : List ℕ) → length (reverse s) ≡ length s
length-reverse [] = refl
length-reverse (c ∷ s) =
    rw (reverse-cons c s, length-append (reverse s) (c ∷ []), length-reverse s) (omega arith)

value_rev-reverse : (s : List ℕ) → value_rev (reverse s) ≡ value s
value_rev-reverse s = sym (value-reverse (reverse s)) ∙ ap value (reverse-reverse s)

keep_valid_lem :
    (u : Str)
    → IsCanonical u
    → keep_valid (some u) ≡ (if leb (value u) max_int64 then some u else none)
keep_valid_lem u d = ground (arith, valid_uint_lem u)

pub add_uint_lem :
    (s t : Str)
    → IsCanonical s
    → IsCanonical t
    → (u : Str) × IsCanonical u
      × (value u ≡ value s + value t)
      × (add_uint s t ≡ (if leb (value s + value t) max_int64 then some u else none))
unfolding add_uint
add_uint_lem s t d k =
    let ds = AllDigits-reverse s (IsCanonical-AllDigits s d) in
    let dt = AllDigits-reverse t (IsCanonical-AllDigits t k) in
    let u = reverse (add_rev (reverse s) (reverse t) 0) in
    let canonical : IsCanonical u = sum-IsCanonical s t d k in
    let valued : value u ≡ value s + value t =
      value-reverse (add_rev (reverse s) (reverse t) 0)
      ∙ value_rev-add_rev (reverse s) (reverse t) 0 ds dt (omega arith)
      ∙ omega (arith, value_rev-reverse s, value_rev-reverse t) in
    let loop =
      add_loop_lem (add_fuel s t) (reverse s) (reverse t) 0 [] (omega arith) ds dt
        (omega (arith, length-reverse s, length-reverse t)) in
    (
      u,
      canonical,
      valued,
      ap keep_valid (loop ∙ ap some (append-nil u))
          ∙ keep_valid_lem u canonical
          ∙ ap (λ (v : ℕ). if leb v max_int64 then some u else none) valued,
    )
