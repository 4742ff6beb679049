-- ===== src/Prelude/Results.antt =====
-- Go's `(value, error)`: a result is a value or an error, and a chain of steps is a `do` block.
use mathlib.Core.Path.{◌≡◌, refl}
use mathlib.Core.Logic.{◌⊎◌, inl, inr}
use mathlib.Core.Bool.{Bool, true, false}
use cwm_minio_tierer.Prelude.Tests.{if◌then◌else◌}

pub data Result {ℓ κ} (Failure : Type ℓ) (T : Type κ) : Type (ℓ ⊔ κ) where
  err : Failure → Result Failure T
  ok : T → Result Failure T

infixl 5 ◌>>=◌ ◌>>◌
abbrev pub ◌>>=◌ {ℓ κ μ} :
    {Failure : Type ℓ} {T : Type κ} {U : Type μ}
    → Result Failure T
    → (T → Result Failure U)
    → Result Failure U
r >>= next = elim r [ err why ↦ err why | ok t ↦ next t ]

abbrev pub ◌>>◌ {ℓ κ} :
    {Failure : Type ℓ} {U : Type κ}
    → Result Failure (Unit {0})
    → Result Failure U
    → Result Failure U
r >> next = elim r [ err why ↦ err why | ok _ ↦ next ]

-- `if bad { return err }`
abbrev pub reject_if {ℓ} : {E : Type ℓ} → Bool → E → Result E (Unit {0})
reject_if true e = err e
reject_if false e = ok tt

-- `fmt.Errorf("...: %w", err)`
abbrev pub wrap_err {ℓ κ μ} :
    {E : Type ℓ} {F : Type κ} {A : Type μ} → (E → F) → Result E A → Result F A
wrap_err f (ok a) = ok a
wrap_err f (err e) = err (f e)

pub Result-cases {ℓ κ} :
    {E : Type ℓ} {A : Type κ} (r : Result E A) → ((a : A) × (r ≡ ok a)) ⊎ ((e : E) × (r ≡ err e))
Result-cases (ok a) = inl (a, refl)
Result-cases (err e) = inr (e, refl)

-- A chain that succeeds has a first step that succeeds.
pub >>=-ok {ℓ κ μ} :
    {Failure : Type ℓ} {T : Type κ} {U : Type μ} (r : Result Failure T)
    (next : T → Result Failure U) {u : U}
    → (r >>= next) ≡ ok u
    → (t : T) × (r ≡ ok t) × (next t ≡ ok u)
>>=-ok (err why) next e = cc
>>=-ok (ok t) next e = (t, refl, e)

pub reject_if-eq-ok {ℓ} :
    {E : Type ℓ} (b : Bool) (e : E) {u : Unit} → reject_if b e ≡ ok u → b ≡ false
reject_if-eq-ok true e h = cc
reject_if-eq-ok false e h = refl

pub wrap_err-eq-ok {ℓ κ μ} :
    {E : Type ℓ} {F : Type κ} {A : Type μ} (f : E → F) (r : Result E A) {a : A}
    → wrap_err f r ≡ ok a
    → r ≡ ok a
wrap_err-eq-ok f (ok a) h = cc
wrap_err-eq-ok f (err e) h = cc

pub >>-ok {ℓ κ} :
    {Failure : Type ℓ} {U : Type κ} (r : Result Failure (Unit {0})) (next : Result Failure U)
    {u : U}
    → (r >> next) ≡ ok u
    → (r ≡ ok tt) × (next ≡ ok u)
>>-ok (err why) next e = cc
>>-ok (ok _) next e = (refl, e)

-- Past `if bad { return err }`.
pub if_err-ok {ℓ κ} :
    {E : Type ℓ} {A : Type κ} (bad : Bool) (e : E) (next : Result E A) {a : A}
    → (if bad then err e else next) ≡ ok a
    → (bad ≡ false) × (next ≡ ok a)
if_err-ok true e next h = cc
if_err-ok false e next h = (refl, h)

-- The same with what follows, for long chains.
pub >>=-ok_elim {ℓ κ μ ν} :
    {Failure : Type ℓ} {T : Type κ} {U : Type μ} {P : Type ν} (r : Result Failure T)
    (next : T → Result Failure U) {u : U}
    → (r >>= next) ≡ ok u
    → ((t : T) → r ≡ ok t → next t ≡ ok u → P)
    → P
>>=-ok_elim (err why) next e k = cc
>>=-ok_elim (ok t) next e k = k t refl e

pub ok-injective {ℓ κ} :
    {E : Type ℓ} {A : Type κ} {a b : A} → ◌≡◌ {A = Result E A} (ok a) (ok b) → a ≡ b
ok-injective h = cc

-- What holds of both outcomes of a first step, holds of the chain.
pub >>=-cases {ℓ κ μ ν} :
    {Failure : Type ℓ} {T : Type κ} {U : Type μ} (P : Result Failure U → Type ν)
    (r : Result Failure T) (next : T → Result Failure U)
    → ((e : Failure) → r ≡ err e → P (err e))
    → ((t : T) → r ≡ ok t → P (next t))
    → P (r >>= next)
>>=-cases P (err e) next failed succeeded = failed e refl
>>=-cases P (ok t) next failed succeeded = succeeded t refl

pub reject_if-cases {ℓ κ ν} :
    {E : Type ℓ} {A : Type κ} (P : Result E A → Type ν) (b : Bool) (e : E) (next : Result E A)
    → P (err e)
    → (b ≡ false → P next)
    → P (reject_if b e >> next)
reject_if-cases P true e next failed passed = failed
reject_if-cases P false e next failed passed = passed refl

pub >>-cases {ℓ κ ν} :
    {E : Type ℓ} {A : Type κ} (P : Result E A → Type ν) (r : Result E (Unit {0}))
    (next : Result E A)
    → ((e : E) → r ≡ err e → P (err e))
    → P next
    → P (r >> next)
>>-cases P (err e) next failed passed = failed e refl
>>-cases P (ok _) next failed passed = passed
