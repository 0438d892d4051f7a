-- ===== src/ModelTable/Joint.antt =====
-- `ParsedJoint`, `JointRow` and `to_row`.
use viam_cpp_sdk.Prelude.{
  Bool, ◌&&◌, Option, none, some, Bytes, codes, Bytes-discrete, ite, if◌then◌else◌, Result, ok, err,
  exception, k_general, k_not_supported, ◌>>=◌, List, [], ◌∷◌,
}
use viam_cpp_sdk.Prelude.Int.{pos}
use viam_cpp_sdk.Prelude.Double.{Double, Vector3}

pub data JointType : Type 0 where
  k_revolute k_continuous k_prismatic k_fixed : JointType

module _ (d : Double) where
  open d use {D, equal, of_int}

  pub record ParsedJoint : Type 0 where
    pub name : Bytes
    pub type_str : Bytes
    pub parent_link : Bytes
    pub child_link : Bytes
    pub xyz : Vector3 d
    pub rpy : Vector3 d
    pub axis_opt : Option (Vector3 d)

  pub record JointRow : Type 0 where
    pub name : Bytes
    pub xyz : Vector3 d
    pub rpy : Vector3 d
    pub axis : Vector3 d
    pub type : JointType

-- The chain of tests of `to_row` on the text of the type.
joint_type : Bytes → Result JointType
joint_type s = ite (Bytes-discrete s (codes "revolute")) (ok k_revolute) (
    ite (Bytes-discrete s (codes "continuous")) (ok k_continuous) (
      ite (Bytes-discrete s (codes "prismatic")) (ok k_prismatic)
        (ite (Bytes-discrete s (codes "fixed")) (ok k_fixed) (err (exception k_not_supported)))))

module _ (d : Double) where
  open d use {D, equal, of_int}

  vector_equal : Vector3 d → Vector3 d → Bool
  vector_equal a b = equal a.x b.x && (equal a.y b.y && equal a.z b.z)

  vector : Vector3 d
  vector = record { x = of_int (pos 0); y = of_int (pos 0); z = of_int (pos 0) }

  unit_x : Vector3 d
  unit_x = record { x = of_int (pos 1); y = of_int (pos 0); z = of_int (pos 0) }

  given_axis : Option (Vector3 d) → Result (Vector3 d)
  unfolding vector_equal vector unit_x
  given_axis (some a) = if vector_equal a vector then err (exception k_general) else ok a
  given_axis none = ok unit_x

  row_axis : JointType → Option (Vector3 d) → Result (Vector3 d)
  unfolding given_axis vector
  row_axis k_fixed a = ok vector
  row_axis _ a = given_axis a

  pub to_row : ParsedJoint d → Result (JointRow d)
  unfolding joint_type row_axis
  to_row parsed = do
    type ← joint_type parsed.type_str
    axis ← row_axis type parsed.axis_opt
    ok (record { name = parsed.name; xyz = parsed.xyz; rpy = parsed.rpy; axis = axis; type = type })

  -- The loop of `ModelTable::from`, which ends at the first exception.
  pub to_rows : List (ParsedJoint d) → Result (List (JointRow d))
  to_rows [] = ok []
  to_rows (j ∷ chain) = do row ← to_row j; rows ← to_rows chain; ok (row ∷ rows)
