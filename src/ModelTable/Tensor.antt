-- ===== src/ModelTable/Tensor.antt =====
-- `to_tensor` and `ModelTable::from(tensor)`. The array is a container of xtensor: its shape, and
-- a value at each pair of indices that a program writes and reads.
pub mod RoundTrip
use viam_cpp_sdk.Prelude.{
  ℕ, zero, suc, ◌+◌, Bool, true, false, Option, none, some, List, [], ◌∷◌, length, Bytes,
  if◌then◌else◌, not, ◌==◌, ite, ℕ_discrete, Result, ok, err, exception, k_general, ◌>>=◌,
}
use viam_cpp_sdk.Prelude.Int.{ℤ, pos, negsuc}
use viam_cpp_sdk.Prelude.Double.{Double, Vector3}
use viam_cpp_sdk.ModelTable.Joint.{
  JointRow, JointType, k_revolute, k_continuous, k_prismatic, k_fixed,
}

-- The values of the enumeration, and back by `switch`.
pub type_value : JointType → ℕ
type_value k_revolute = 0
type_value k_continuous = 1
type_value k_prismatic = 2
type_value k_fixed = 3

pub type_of_value : ℤ → Result JointType
type_of_value (negsuc n) = err (exception k_general)
type_of_value (pos n) =
    if n == 0
    then ok k_revolute
    else if n == 1
    then ok k_continuous
    else if n == 2
    then ok k_prismatic
    else if n == 3
    then ok k_fixed
    else err (exception k_general)

module _ (d : Double) where
  open d use {D, equal, of_int, to_int}

  pub record Tensor : Type 0 where
    pub shape : List ℕ
    pub cell : ℕ → ℕ → D

  abbrev pub cell_of : JointRow d → ℕ → D
  cell_of r zero = r.xyz.x
  cell_of r (suc zero) = r.xyz.y
  cell_of r (suc (suc zero)) = r.xyz.z
  cell_of r (suc (suc (suc zero))) = r.rpy.x
  cell_of r (suc (suc (suc (suc zero)))) = r.rpy.y
  cell_of r (suc (suc (suc (suc (suc zero))))) = r.rpy.z
  cell_of r (suc (suc (suc (suc (suc (suc zero)))))) = r.axis.x
  cell_of r (suc (suc (suc (suc (suc (suc (suc zero))))))) = r.axis.y
  cell_of r (suc (suc (suc (suc (suc (suc (suc (suc zero)))))))) = r.axis.z
  cell_of r (suc (suc (suc (suc (suc (suc (suc (suc (suc zero))))))))) =
      of_int (pos (type_value r.type))
  cell_of r _ = of_int (pos 0)

  -- Zeros, and then the loop over the rows.
  cells : List (JointRow d) → ℕ → ℕ → D
  unfolding type_value
  cells [] i k = of_int (pos 0)
  cells (r ∷ rows) zero k = cell_of r k
  cells (r ∷ rows) (suc i) k = cells rows i k

  pub to_tensor : List (JointRow d) → Result Tensor
  unfolding cells
  to_tensor [] = err (exception k_general)
  to_tensor (r ∷ rows) =
      ok (record { shape = length (r ∷ rows) ∷ 10 ∷ []; cell = cells (r ∷ rows) })

  -- One round of the loop of `from`.
  read_row : (ℕ → D) → Result (JointRow d)
  unfolding type_of_value
  read_row c =
      let type_i = to_int (c 9) in
      if not (equal (of_int type_i) (c 9)) then err (exception k_general) else do
        joint_type ← type_of_value type_i
        ok (record {
          name = [];
          xyz = record { x = c 0; y = c 1; z = c 2 };
          rpy = record { x = c 3; y = c 4; z = c 5 };
          axis = record { x = c 6; y = c 7; z = c 8 };
          type = joint_type;
        })

  -- `left` rounds are left, from the row `i` on.
  read_rows : (ℕ → ℕ → D) → ℕ → ℕ → Result (List (JointRow d))
  unfolding read_row
  read_rows cell i zero = ok []
  read_rows cell i (suc left) = do
    row ← read_row (cell i)
    rows ← read_rows cell (i + 1) left
    ok (row ∷ rows)

  from_shape : List ℕ → (ℕ → ℕ → D) → Result (List (JointRow d))
  unfolding read_rows
  from_shape (n ∷ k ∷ []) cell =
      if not (k == 10)
      then err (exception k_general)
      else if n == 0
      then err (exception k_general)
      else read_rows cell 0 n
  from_shape _ cell = err (exception k_general)

  pub from_tensor : Tensor → Result (List (JointRow d))
  unfolding from_shape
  from_tensor t = from_shape t.shape t.cell
