-- ===== src/Clock.antt =====
-- Go's `time.Time` and `time.Duration` as the program uses them. An instant is the exact number of
-- nanoseconds since Go's zero time (year 1, UTC), before it negative; a duration is an int64.
use cwm_minio_tierer.Prelude.{ℕ, ◌-◌, ◌/◌, ◌*◌, ◌%◌, ◌^◌, ◌<◌, ◌≡◌, Bool, arith}
use cwm_minio_tierer.Prelude.Int.{
  ℤ, pos, negsuc, pos_part, ◌+ℤ◌, ◌-ℤ◌, ◌*ℤ◌, ◌≤ℤ◌, ◌<ℤ◌, ltb_ℤ, eqb_ℤ, wrap64, int_laws,
  wrap64_of_range, *ℤ-pos_parts,
}

abbrev pub Time : Type 0
Time = ℤ

abbrev pub Duration : Type 0
Duration = ℤ

abbrev pub second : ℕ
second = 10 ^ 9

abbrev pub hour : ℕ
hour = 3600 * second

-- t.After(u)
abbrev pub after : Time → Time → Bool
after t u = ltb_ℤ u t

-- t.IsZero()
abbrev pub is_zero : Time → Bool
is_zero t = eqb_ℤ t (pos 0)

-- time.Duration(n) * unit, with the wrap-around of int64.
abbrev pub times : ℤ → ℕ → Duration
times n unit = wrap64 (n *ℤ pos unit)

-- The negation of an int64.
abbrev pub negate : ℤ → ℤ
negate n = wrap64 (pos 0 -ℤ n)

-- The remainder of `div` in package time, which is never negative.
abbrev pub floor_mod : ℤ → ℕ → ℕ
floor_mod (pos n) d = n % d
floor_mod (negsuc n) d = d - 1 - n % d

-- t.Unix(): the seconds since 1970, rounded down.
abbrev pub floor_div : ℤ → ℕ → ℤ
floor_div (pos n) d = pos (n / d)
floor_div (negsuc n) d = negsuc (n / d)

abbrev pub unix_seconds : Time → ℤ
unix_seconds t = floor_div t second -ℤ pos 62135596800

-- t.Truncate(d) for a positive d: down to a multiple of d since the zero time.
unfoldable pub truncate : Time → ℕ → Time
truncate t d = t -ℤ pos (floor_mod t d)

-- Truncation to the hour goes down, by less than an hour.
pub truncate-hour_bounds : (t : Time) → (truncate t hour ≤ℤ t) × (t <ℤ truncate t hour +ℤ pos hour)
unfolding truncate
truncate-hour_bounds t = (omega int_laws, omega (int_laws, floor_mod-lt t))
  where
    floor_mod-lt : (u : ℤ) → floor_mod u hour < hour
    floor_mod-lt (pos n) = omega arith
    floor_mod-lt (negsuc n) = omega arith

-- -time.Duration(n) * time.Hour is exact for up to 2562047 hours.
pub times-negate :
    (n : ℤ)
    → pos 0 ≤ℤ n
    → n ≤ℤ pos 2562047
    → times (negate n) hour ≡ pos 0 -ℤ pos (pos_part n * hour)
times-negate (pos n) h k =
    let minus : negate (pos n) ≡ pos 0 -ℤ pos n =
      wrap64_of_range _ (omega int_laws, omega int_laws) in
    let exact : (pos 0 -ℤ pos n) *ℤ pos hour ≡ pos 0 -ℤ pos (n * hour) =
      omega (int_laws, *ℤ-pos_parts (pos 0 -ℤ pos n) hour) in
    rw (minus, exact) (wrap64_of_range _ (omega int_laws, omega int_laws))
times-negate (negsuc n) h k = absurd (omega arith)
