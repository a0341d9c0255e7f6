-- ===== src/Prelude/Results.antt =====
-- What a call of the source may end in: a value, or the failure that it throws or runs into.
use mathlib.Core.Path.{◌≡◌, refl}
use mathlib.Core.Logic.{◌⊎◌, inl, inr}
use mathlib.Core.Bool.{Bool, true, false}
use mathlib.Core.Option.{Option, none, some}

-- `null_pointer` marks a null pointer, which the source tests for or reads through; `wild_access` is no
-- exception of the source, but an access outside the memory that the component owns.
pub data Error : Type 0 where
  precondition postcondition unavailable : Error
  null_pointer wild_access : Error
  lock_timeout exhausted lock_failed : Error
  transaction_invalid index_corrupted sanity_failed table_corrupted : Error

pub data Result {ℓ} (A : Type ℓ) : Type ℓ where
  ok : A → Result A
  err : Error → Result A

-- A read that fails where there is nothing to read.
abbrev pub or_fail {ℓ} : {A : Type ℓ} → Option A → Error → Result A
or_fail none e = err e
or_fail (some a) e = ok a

-- PRECONDITION and its like.
abbrev pub guard : Bool → Error → Result (Unit {0})
guard false failure = err failure
guard true failure = ok tt

-- The first failure ends the call. Both are `abbrev`: a call then computes in every module.
infixl 5 ◌>>=◌ ◌>>◌
abbrev pub ◌>>=◌ {ℓ κ} : {A : Type ℓ} {B : Type κ} → Result A → (A → Result B) → Result B
err e >>= next = err e
ok a >>= next = next a

abbrev pub ◌>>◌ {ℓ} : {B : Type ℓ} → Result (Unit {0}) → Result B → Result B
first >> next = first >>= λ _. next

-- The result is a value, and the value has the property.
abbrev pub Returns {ℓ κ} : {A : Type ℓ} → Result A → (A → Type κ) → Type (ℓ ⊔ κ)
Returns {A} r P = (a : A) × (r ≡ ok a) × P a

pub returned {ℓ κ} :
    {A : Type ℓ} {P : A → Type κ} {r : Result A} (x : A) → Returns r P → r ≡ ok x → P x
returned {P} {r} x (y, e, p) e' = let s : x ≡ y = cc in rw s p

-- What a chain that returns has returned before.
pub >>=-ok {ℓ κ} :
    {A : Type ℓ} {B : Type κ} (r : Result A) (f : A → Result B) (y : B)
    → (r >>= f) ≡ ok y
    → (x : A) × (r ≡ ok x) × (f x ≡ ok y)
>>=-ok (ok x) f y e = (x, refl, e)
>>=-ok (err x) f y e = absurd (cc)

pub guard-ok {ℓ} :
    {B : Type ℓ} (b : Bool) (x : Error) (r : Result B) (y : B)
    → (guard b x >> r) ≡ ok y
    → (b ≡ true) × (r ≡ ok y)
guard-ok true x r y e = (refl, e)
guard-ok false x r y e = absurd (cc)

pub or_fail-ok {ℓ} :
    {A : Type ℓ} (o : Option A) (x : Error) (y : A) → or_fail o x ≡ ok y → o ≡ some y
or_fail-ok (some a) x y e = cc
or_fail-ok none x y e = absurd (cc)

pub Result-cases {ℓ} :
    {A : Type ℓ} (r : Result A) → ((x : A) × (r ≡ ok x)) ⊎ ((e : Error) × (r ≡ err e))
Result-cases (ok x) = inl (x, refl)
Result-cases (err e) = inr (e, refl)
