-- ===== src/Common/Errors.antt =====
-- The exceptions that the core throws, as values.
use Prim.Native.String.{String}
use mathlib.Core.Path.{◌≡◌, refl, ap}
use mathlib.Core.Logic.{◌⊎◌, inl, inr, ◌≢◌}
use mathlib.Core.Bool.{Bool, true, false}
use voidwalk.Common.Tests.{if◌then◌else◌}

-- `length_error` and `runtime_error` carry their message; `file_changed` is the core's own
-- `FileChanged`, and `bad_alloc` is the allocator's. All four are a `std::exception`. `out_of_fuel` is no exception of the program: a
-- loop of the model has used up its rounds, and theorems show that this does not happen.
pub data Error : Type 0 where
  length_error : String → Error
  runtime_error : String → Error
  file_changed : Error
  bad_alloc : Error
  out_of_fuel : Error

pub data Result {ℓ} (A : Type ℓ) : Type ℓ where
  err : Error → Result A
  ok : A → Result A

-- An exception skips what comes after it.
infixl 5 ◌>>=◌
abbrev pub ◌>>=◌ {ℓ₁ ℓ₂} :
    {Before : Type ℓ₁} {After : Type ℓ₂} → Result Before → (Before → Result After) → Result After
err thrown >>= next = err thrown
ok value >>= next = next value

pub Result-cases {ℓ} :
    {A : Type ℓ} (r : Result A) → ((a : A) × (r ≡ ok a)) ⊎ ((e : Error) × (r ≡ err e))
Result-cases (ok a) = inl (a, refl)
Result-cases (err e) = inr (e, refl)

-- Inversion of a successful bind.
pub >>=-eq-ok {ℓ₁ ℓ₂} :
    {Before : Type ℓ₁} {After : Type ℓ₂} (first : Result Before) (next : Before → Result After)
    {last : After}
    → (first >>= next) ≡ ok last
    → (value : Before) × (first ≡ ok value) × (next value ≡ ok last)
>>=-eq-ok (err thrown) next h = cc
>>=-eq-ok (ok value) next h = (value, refl, h)

-- The model's loops have had the rounds that they need.
pub record Ends {ℓ} {A : Type ℓ} (r : Result A) : Type ℓ where
  pub at : r ≢ err out_of_fuel

module _ {ℓ} {A : Type ℓ} where
  pub Ends-ok : (a : A) → Ends (ok a)
  Ends-ok a = record { at = λ e. cc }

  pub Ends-length_error : (s : String) → Ends {A = A} (err (length_error s))
  Ends-length_error s = record { at = λ e. cc }

  pub Ends-runtime_error : (s : String) → Ends {A = A} (err (runtime_error s))
  Ends-runtime_error s = record { at = λ e. cc }

  pub Ends-if : (b : Bool) (m n : Result A) → Ends m → Ends n → Ends (if b then m else n)
  Ends-if true m n h k = h
  Ends-if false m n h k = k

error_of {ℓ} : {A : Type ℓ} → Result A → Error
error_of (ok a) = out_of_fuel
error_of (err e) = e

pub err_injective {ℓ} : {A : Type ℓ} {e x : Error} → ◌≡◌ {A = Result A} (err e) (err x) → e ≡ x
unfolding error_of
err_injective p = ap error_of p

pub Ends-bind {ℓ} :
    {A B : Type ℓ} (m : Result A) (f : A → Result B)
    → Ends m
    → ((a : A) → Ends (f a))
    → Ends (m >>= f)
Ends-bind (ok a) f h k = k a
Ends-bind {A} {B} (err e) f h k = record {
  at = λ p. h.at (ap {B = Result A} err (err_injective p));
}
