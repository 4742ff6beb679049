-- ===== src/Counter/Arguments.antt =====
-- `commandArguments` of internal/redisstore/store.go: what it passes on to the script.
use mathlib.Core.List.{map}
use cwm_minio_tierer.Prelude.{
  ◌≡◌, ◌≢◌, refl, Bool, true, false, List, [], ◌∷◌, All, Result, ok, err, if◌then◌else◌, arith,
  >>=-ok,
}
use cwm_minio_tierer.Prelude.Int.{ℤ, pos, leb_ℤ, ◌<ℤ◌}
use cwm_minio_tierer.Text.{Str, str_eq, str_eq_iff}
use cwm_minio_tierer.Clock.{unix_seconds}
use cwm_minio_tierer.Batcher.Pending.{Increment}
use cwm_minio_tierer.Counter.Store.{
  ApplyError, Command, is_seen, add_command, check_commands, command_arguments,
}

abbrev pub keys_in : List Increment → List Str
keys_in = map (λ (i : Increment). i.key)

-- The delta and the expiry of each increment, in turn.
abbrev pub arguments_in : List Increment → List ℤ
arguments_in [] = []
arguments_in (i ∷ rest) = i.delta ∷ unix_seconds i.expire_at ∷ arguments_in rest

-- A key, a delta and an expiry that the script takes.
abbrev pub IsApplicable : Increment → Type 0
IsApplicable i = (i.key ≢ []) × (pos 0 <ℤ i.delta) × (pos 0 <ℤ unix_seconds i.expire_at)

abbrev pub AreDistinct : List Str → Type 0
AreDistinct [] = Unit
AreDistinct (k ∷ ks) = All (λ (j : Str). j ≢ k) ks × AreDistinct ks

is_seen-false :
    (key : Str) (seen : List Str) → is_seen key seen ≡ false → All (λ (j : Str). key ≢ j) seen
unfolding is_seen
is_seen-false key [] h = tt
is_seen-false key (j ∷ seen) h =
    (ground (arith, str_eq_iff j key), is_seen-false key seen (ground (arith, str_eq_iff j key)))

-- What a successful check of the increments has found, after `seen`.
abbrev IsChecked : List Str → List Increment → Command → Type 0
IsChecked seen increments (keys, args) =
    (keys ≡ keys_in increments)
    × (args ≡ arguments_in increments)
    × All IsApplicable increments
    × AreDistinct (keys_in increments)
    × All (λ (key : Str). All (λ (j : Str). key ≢ j) seen) (keys_in increments)

past_guard :
    {T : Type 0} (b : Bool) (e : ApplyError) (next : Result ApplyError T) {t : T}
    → (if b then err e else next) ≡ ok t
    → (b ≡ false) × (next ≡ ok t)
past_guard true e next h = cc
past_guard false e next h = (refl, h)

-- Avoiding a longer list is avoiding its head and its tail.
split_avoided :
    (k : Str) (seen keys : List Str)
    → All (λ (key : Str). All (λ (j : Str). key ≢ j) (k ∷ seen)) keys
    → All (λ (key : Str). key ≢ k) keys × All (λ (key : Str). All (λ (j : Str). key ≢ j) seen) keys
split_avoided k seen [] h = (tt, tt)
split_avoided k seen (key ∷ keys) ((n, a), h) =
    let (ns, rest) = split_avoided k seen keys h in ((n, ns), (a, rest))

nonempty : (key : Str) → str_eq key [] ≡ false → key ≢ []
nonempty key h = ground (arith, str_eq_iff key [])

check_commands-IsChecked :
    (seen : List Str) (increments : List Increment) (keys : List Str) (args : List ℤ)
    → check_commands seen increments ≡ ok (keys, args)
    → IsChecked seen increments (keys, args)
unfolding check_commands
check_commands-IsChecked seen [] keys args h = (cc, cc, tt, tt, tt)
check_commands-IsChecked seen (i ∷ rest) keys args h =
    let (named, h1) = past_guard (str_eq i.key []) _ _ h in
    let (fresh, h2) = past_guard (is_seen i.key seen) _ _ h1 in
    let (delta_ok, h3) = past_guard (leb_ℤ i.delta (pos 0)) _ _ h2 in
    let (expiry_ok, h4) = past_guard (leb_ℤ (unix_seconds i.expire_at) (pos 0)) _ _ h3 in
    let ((ks, vs), later, last) = >>=-ok (check_commands (i.key ∷ seen) rest) (add_command i) h4 in
    let (keys_eq, args_eq, fine, distinct, avoided) =
      check_commands-IsChecked (i.key ∷ seen) rest ks vs later in
    let (others, old) = split_avoided i.key seen (keys_in rest) avoided in
    (
      cc,
      cc,
      ((nonempty i.key named, ground (arith, delta_ok), ground (arith, expiry_ok)), fine),
      (others, distinct),
      (is_seen-false i.key seen fresh, old),
    )

-- If `commandArguments` accepts the increments, the keys and the arguments are those of the
-- increments in turn, each has a key, a positive delta and an expiry after 1970, and the keys are
-- distinct.
pub command_arguments_lem :
    (increments : List Increment) (keys : List Str) (args : List ℤ)
    → command_arguments increments ≡ ok (keys, args)
    → (keys ≡ keys_in increments)
      × (args ≡ arguments_in increments)
      × All IsApplicable increments
      × AreDistinct (keys_in increments)
unfolding command_arguments
command_arguments_lem [] keys args h = cc
command_arguments_lem (i ∷ rest) keys args h =
    let (k, a, fine, distinct, avoided) = check_commands-IsChecked [] (i ∷ rest) keys args h in
    (k, a, fine, distinct)
