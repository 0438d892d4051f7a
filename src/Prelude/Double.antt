-- ===== src/Prelude/Double.antt =====
-- `double`: the language has no floating-point numbers here, so the type and the operations that
-- the code uses are an interface, with the laws of IEEE 754 that are relied on.
use Prim.Native.Nat.{ℕ, ◌<◌, ◌^◌}
use mathlib.Core.Path.{◌≡◌, refl}
use mathlib.Core.Bool.{Bool, true, false}
use native.Mathlib.Omega.{arith}
use viam_cpp_sdk.Prelude.Tests.{◌==◌}
use viam_cpp_sdk.Prelude.Int.{ℤ, pos, negsuc}

pub record Double : Type 1 where
  pub D : Type 0
  -- `==`, which is not an equivalence: a NaN is not equal to itself.
  pub equal : D → D → Bool
  -- `static_cast<double>(int)` and `static_cast<int>(double)`.
  pub of_int : ℤ → D
  pub to_int : D → ℤ
  -- An `int` is represented exactly.
  pub to_int-of_int : (n : ℕ) → n < 2 ^ 31 → to_int (of_int (pos n)) ≡ pos n
  pub equal-of_int : (n : ℕ) → n < 2 ^ 31 → equal (of_int (pos n)) (of_int (pos n)) ≡ true

module _ (d : Double) where
  open d use {D}

  -- common/linear_algebra.hpp
  pub record Vector3 : Type 0 where
    pub x : D
    pub y : D
    pub z : D

abbrev pub int_equal : ℤ → ℤ → Bool
int_equal (pos a) (pos b) = a == b
int_equal (negsuc a) (negsuc b) = a == b
int_equal _ _ = false

pub int_equal_refl : (n : ℕ) → int_equal (pos n) (pos n) ≡ true
int_equal_refl n = ground arith

-- An implementation of the interface: the whole numbers.
abbrev pub whole_numbers : Double
whole_numbers = record {
  D = ℤ;
  equal = int_equal;
  of_int = λ a. a;
  to_int = λ a. a;
  to_int-of_int = λ n _. refl;
  equal-of_int = λ n _. int_equal_refl n;
}
