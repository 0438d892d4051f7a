-- ===== src/Prelude/Errors.antt =====
-- common/exception.hpp: what the code throws. A message is not modelled, its condition is.
use Prim.Native.Nat.{ℕ, zero, suc}
use mathlib.Core.Path.{◌≡◌, refl}
use mathlib.Core.Logic.{◌⊎◌, inl, inr}
use mathlib.Core.List.{List, [], ◌∷◌}

-- `ErrorCondition`.
pub data ErrorCondition : Type 0 where
  k_general k_connection k_duplicate_registration k_duplicate_resource : ErrorCondition
  k_grpc k_not_supported k_resource_not_found : ErrorCondition

-- `Exception` of the SDK, and `std::out_of_range` of a checked access `at`.
pub data Error : Type 0 where
  exception : ErrorCondition → Error
  out_of_range : Error

-- The value of a call, or what it throws.
pub data Result {ℓ} (Value : Type ℓ) : Type ℓ where
  err : (error : Error) → Result Value
  ok : (value : Value) → Result Value

-- An error ends a chain of calls.
infixl 5 ◌>>=◌ ◌>>◌
abbrev pub ◌>>=◌ {κ μ} : {V : Type κ} {W : Type μ} → Result V → (V → Result W) → Result W
err error >>= next = err error
ok value >>= next = next value

abbrev pub ◌>>◌ {μ} : {W : Type μ} → Result (Unit {0}) → Result W → Result W
err error >> next = err error
ok _ >> next = next

-- `v.at(i)`.
abbrev pub at {κ} : {V : Type κ} → List V → ℕ → Result V
at (value ∷ _) zero = ok value
at (_ ∷ values) (suc i) = at values i
at [] _ = err out_of_range

-- To split on the result of a call.
pub Result-cases {κ} :
    {V : Type κ} (r : Result V)
    → ((error : Error) × (r ≡ err error)) ⊎ ((value : V) × (r ≡ ok value))
Result-cases (err error) = inl (error, refl)
Result-cases (ok value) = inr (value, refl)

-- A call returns, throws, or follows a null pointer.
pub data Outcome {ℓ} (A : Type ℓ) : Type ℓ where
  finished : A → Outcome A
  thrown : Error → Outcome A
  crashed : Outcome A

-- To split on what a call does.
pub Outcome-cases {ℓ} :
    {A : Type ℓ} (o : Outcome A)
    → ((a : A) × (o ≡ finished a)) ⊎ ((e : Error) × (o ≡ thrown e)) ⊎ (o ≡ crashed)
Outcome-cases (finished a) = inl (a, refl)
Outcome-cases (thrown e) = inr (inl (e, refl))
Outcome-cases crashed = inr (inr refl)
