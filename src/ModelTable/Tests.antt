-- ===== src/ModelTable/Tests.antt =====
-- The theorems on the model table at small arms, with whole numbers for the doubles.
use viam_cpp_sdk.Prelude.{
  [], ◌∷◌, map, Bytes, codes, none, some, ◌≡◌, ◌≢◌, refl, ok, ◌>>=◌, ℕ_discrete, Bytes-discrete,
}
use viam_cpp_sdk.Prelude.Int.{pos}
use viam_cpp_sdk.Prelude.Dict.{vector_at, push_back}
use viam_cpp_sdk.Prelude.Double.{whole_numbers, Vector3}
use viam_cpp_sdk.ModelTable.Joint.{ParsedJoint, JointRow, k_revolute}
use viam_cpp_sdk.ModelTable.Chain.{walk_urdf_chain}
use viam_cpp_sdk.ModelTable.Chain.Sound.{IsChainOf, walk_urdf_chain_total, walk_urdf_chain_sound}
use viam_cpp_sdk.ModelTable.Tensor.{to_tensor, from_tensor}
use viam_cpp_sdk.ModelTable.Tensor.RoundTrip.{unnamed, from_tensor-to_tensor}

abbrev point : Vector3 whole_numbers
point = record { x = pos 1; y = pos 2; z = pos 3 }

abbrev joint : Bytes → Bytes → ParsedJoint whole_numbers
joint parent child = record {
  name = codes "j";
  type_str = codes "revolute";
  parent_link = parent;
  child_link = child;
  xyz = point;
  rpy = point;
  axis_opt = none;
}

abbrev base_elbow : ParsedJoint whole_numbers
base_elbow = joint (codes "base") (codes "elbow")

abbrev elbow_tip : ParsedJoint whole_numbers
elbow_tip = joint (codes "elbow") (codes "tip")

abbrev row : JointRow whole_numbers
row = record { name = codes "j"; xyz = point; rpy = point; axis = point; type = k_revolute }

walk_urdf_chain_total_example : walk_urdf_chain whole_numbers (elbow_tip ∷ base_elbow ∷ []) ≢ none
walk_urdf_chain_total_example = walk_urdf_chain_total whole_numbers (elbow_tip ∷ base_elbow ∷ [])

walk_runs :
    walk_urdf_chain whole_numbers (elbow_tip ∷ base_elbow ∷ [])
    ≡ some (ok (base_elbow ∷ elbow_tip ∷ []))
unfolding walk_urdf_chain Bytes-discrete ℕ_discrete vector_at push_back
walk_runs = refl

walk_urdf_chain_sound_example :
    IsChainOf whole_numbers (elbow_tip ∷ base_elbow ∷ []) (base_elbow ∷ elbow_tip ∷ [])
walk_urdf_chain_sound_example =
    walk_urdf_chain_sound whole_numbers (elbow_tip ∷ base_elbow ∷ []) (base_elbow ∷ elbow_tip ∷ [])
      walk_runs

from_tensor-to_tensor_example :
    (to_tensor whole_numbers (row ∷ []) >>= from_tensor whole_numbers)
    ≡ ok (map (unnamed whole_numbers) (row ∷ []))
from_tensor-to_tensor_example = from_tensor-to_tensor whole_numbers (row ∷ [])
