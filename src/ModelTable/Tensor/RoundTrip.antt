-- ===== src/ModelTable/Tensor/RoundTrip.antt =====
-- A model table goes through its tensor unchanged, but for the names.
use viam_cpp_sdk.Prelude.{
  ℕ, suc, ◌+◌, ◌<◌, ◌^◌, false, List, [], ◌∷◌, length, map, ok, err, exception, k_general, ◌>>=◌,
  ◌≡◌, refl, ap, ◌∙◌, arith, ◌==◌,
}
use viam_cpp_sdk.Prelude.Int.{pos}
use viam_cpp_sdk.Prelude.Double.{Double}
use viam_cpp_sdk.ModelTable.Joint.{
  JointRow, JointType, k_revolute, k_continuous, k_prismatic, k_fixed,
}
use viam_cpp_sdk.ModelTable.Tensor.{
  type_value, type_of_value, cell_of, cells, to_tensor, read_row, read_rows, from_shape,
  from_tensor,
}

type_of_value-type_value : (t : JointType) → type_of_value (pos (type_value t)) ≡ ok t
unfolding type_of_value type_value
type_of_value-type_value k_revolute = refl
type_of_value-type_value k_continuous = refl
type_of_value-type_value k_prismatic = refl
type_of_value-type_value k_fixed = refl

type_value-lt : (t : JointType) → type_value t < 2 ^ 31
unfolding type_value
type_value-lt k_revolute = omega arith
type_value-lt _ = omega arith

module _ (d : Double) where
  open d use {D, equal, of_int, to_int, to_int-of_int, equal-of_int}

  abbrev pub unnamed : JointRow d → JointRow d
  unnamed r = record r { name = [] }

  read_row-cell_of : (r : JointRow d) → read_row d (cell_of d r) ≡ ok (unnamed r)
  unfolding read_row
  read_row-cell_of r = rw (
    to_int-of_int (type_value r.type) (type_value-lt r.type),
    equal-of_int (type_value r.type) (type_value-lt r.type),
    type_of_value-type_value r.type,
  )

  -- The rows of `cell` from `i` on are those of the list.
  read_rows-cells :
      (rows : List (JointRow d)) (cell : ℕ → ℕ → D) (i : ℕ)
      → ((k : ℕ) → cell (i + k) ≡ cells d rows k)
      → read_rows d cell i (length rows) ≡ ok (map unnamed rows)
  unfolding read_rows cells
  read_rows-cells [] cell i h = refl
  read_rows-cells (r ∷ rows) cell i h =
      let first : cell i ≡ cell_of d r = ap cell (omega arith) ∙ h 0 in
      let later : (k : ℕ) → cell (i + 1 + k) ≡ cells d rows k =
        λ k. ap cell (omega arith) ∙ h (suc k) in
      rw (first, read_row-cell_of r, read_rows-cells rows cell (i + 1) later)

  -- A table that is not empty is read back from its tensor with all its rows, each without its name;
  -- an empty one has no tensor.
  pub from_tensor-to_tensor :
      (rows : List (JointRow d))
      → (to_tensor d rows >>= from_tensor d)
        ≡ elim rows [ [] ↦ err (exception k_general) | r ∷ rest ↦ ok (map unnamed (r ∷ rest)) ]
  unfolding to_tensor from_tensor from_shape
  from_tensor-to_tensor [] = refl
  from_tensor-to_tensor (r ∷ rows) =
      let e : (suc (length rows) == 0) ≡ false = ground arith in
      rw e (
        read_rows-cells (r ∷ rows) (cells d (r ∷ rows)) 0
          (λ k. ap (cells d (r ∷ rows)) (omega arith)))
