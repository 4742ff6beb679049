-- ===== src/Scanner/Sorting.antt =====
-- `slicesSort` of internal/tierer/redis.go and sorted lists.
use mathlib.Core.List.{reverse_aux}
use cwm_minio_tierer.Prelude.{
  ℕ, suc, ◌+◌, ◌≡◌, refl, false, List, [], ◌∷◌, All, arith, if◌then◌else◌, Bool-cases, inl, inr,
}
use cwm_minio_tierer.Text.{Str, str_eq, str_lt}
use cwm_minio_tierer.Text.Order.{str_lt_asymm, str_lt_of_not_lt}
use cwm_minio_tierer.Scanner.Chunks.{sink, sort_from, slices_sort}

-- No string is below one before it.
abbrev pub IsSorted : List Str → Type 0
IsSorted [] = Unit
IsSorted (v ∷ vs) = All (λ (u : Str). str_lt u v ≡ false) vs × IsSorted vs

-- How often `k` occurs.
abbrev pub count : Str → List Str → ℕ
count k [] = 0
count k (v ∷ vs) = if str_eq v k then suc (count k vs) else count k vs

-- The same, last first.
abbrev IsDescending : List Str → Type 0
IsDescending [] = Unit
IsDescending (v ∷ vs) = All (λ (u : Str). str_lt v u ≡ false) vs × IsDescending vs

All-sink :
    (P : Str → Type 0) (v : Str) (before : List Str) → P v → All P before → All P (sink v before)
unfolding sink
All-sink P v [] p h = (p, tt)
All-sink P v (u ∷ before) p (q, h) = elim (Bool-cases (str_lt v u)) [
  | inl e ↦ rw e (q, All-sink P v before p h)
  | inr e ↦ rw e (p, (q, h))
]

-- What is not below `u` stays so for all that `u` is not below.
not_below_each :
    (v u : Str) (before : List Str)
    → str_lt v u ≡ false
    → All (λ (w : Str). str_lt u w ≡ false) before
    → All (λ (w : Str). str_lt v w ≡ false) before
not_below_each v u [] e h = tt
not_below_each v u (w ∷ before) e (f, h) = (
  ground (
    arith,
    str_lt_of_not_lt u v w,
    str_lt_of_not_lt w u v,
    e,
    f,
    str_lt_asymm v w,
    str_lt_asymm u w,
  ),
  not_below_each v u before e h,
)

sink-IsDescending :
    (v : Str) (before : List Str) → IsDescending before → IsDescending (sink v before)
unfolding sink
sink-IsDescending v [] h = (tt, tt)
sink-IsDescending v (u ∷ before) (a, h) = elim (Bool-cases (str_lt v u)) [
  | inl e ↦ rw e (
    All-sink (λ (w : Str). str_lt u w ≡ false) v before (str_lt_asymm v u e) a,
    sink-IsDescending v before h,
  )
  | inr e ↦ rw e ((e, not_below_each v u before e a), (a, h))
]

count-sink : (k v : Str) (before : List Str) → count k (sink v before) ≡ count k (v ∷ before)
unfolding sink
count-sink k v [] = refl
count-sink k v (u ∷ before) = ground (arith, count-sink k v before)

-- Every string of `before` stands where none of `after` is below it.
abbrev StandsBefore : List Str → List Str → Type 0
StandsBefore before after = All (λ (b : Str). All (λ (a : Str). str_lt a b ≡ false) after) before

extend_after :
    (v : Str) (before after : List Str)
    → All (λ (b : Str). str_lt v b ≡ false) before
    → StandsBefore before after
    → StandsBefore before (v ∷ after)
extend_after v [] after h k = tt
extend_after v (b ∷ before) after (e, h) (f, k) = ((e, f), extend_after v before after h k)

reverse_aux-IsSorted :
    (before after : List Str)
    → IsDescending before
    → IsSorted after
    → StandsBefore before after
    → IsSorted (reverse_aux before after)
reverse_aux-IsSorted [] after d s h = s
reverse_aux-IsSorted (b ∷ before) after (a, d) s (e, h) =
    reverse_aux-IsSorted before (b ∷ after) d (e, s) (extend_after b before after a h)

count-reverse_aux :
    (k : Str) (before after : List Str)
    → count k (reverse_aux before after) ≡ count k before + count k after
count-reverse_aux k [] after = omega arith
count-reverse_aux k (b ∷ before) after = ground (arith, count-reverse_aux k before (b ∷ after))

StandsBefore-nil : (before : List Str) → StandsBefore before []
StandsBefore-nil [] = tt
StandsBefore-nil (b ∷ before) = (tt, StandsBefore-nil before)

sort_from_lem :
    (before vs : List Str)
    → IsDescending before
    → IsSorted (sort_from before vs)
      × ((k : Str) → count k (sort_from before vs) ≡ count k before + count k vs)
unfolding sort_from
sort_from_lem before [] d = (
  reverse_aux-IsSorted before [] d tt (StandsBefore-nil before),
  λ k. count-reverse_aux k before [],
)
sort_from_lem before (v ∷ vs) d =
    let (sorted, counts) = sort_from_lem (sink v before) vs (sink-IsDescending v before d) in
    (sorted, λ k. ground (arith, counts k, count-sink k v before))

-- `slicesSort` sorts the strings and keeps each as often as it occurred.
pub slices_sort_lem :
    (vs : List Str)
    → IsSorted (slices_sort vs) × ((k : Str) → count k (slices_sort vs) ≡ count k vs)
unfolding slices_sort
slices_sort_lem vs =
    let (sorted, counts) = sort_from_lem [] vs tt in (sorted, λ k. ground (arith, counts k))
