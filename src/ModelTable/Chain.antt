-- ===== src/ModelTable/Chain.antt =====
-- `walk_urdf_chain`: the joints of a URDF description in the order of the chain.
pub mod Outgoing
pub mod Walk
pub mod Sound
use viam_cpp_sdk.Prelude.{
  ℕ, zero, suc, ◌+◌, Bool, true, false, Option, none, some, List, [], ◌∷◌, ◌++◌, length, Bytes,
  Bytes-discrete, ite, ℕ_discrete, Result, ok, err, exception, k_general, ◌>>=◌,
}
use viam_cpp_sdk.Prelude.Dict.{Dict, push_back, vector_at}
use viam_cpp_sdk.Prelude.Double.{Double}
use viam_cpp_sdk.ModelTable.Joint.{ParsedJoint, JointRow, to_rows}

pub contains : Bytes → List Bytes → Bool
contains c [] = false
contains c (x ∷ r) = ite (Bytes-discrete c x) true (contains c r)

-- `insert` into a set.
pub insert : Bytes → List Bytes → List Bytes
insert c s = elim (contains c s) [ true ↦ s | false ↦ c ∷ s ]

module _ (d : Double) where
  -- The three tables of the first loop. The order of `all_parents` is not modelled: it shows in
  -- the message of the error, and of one root alone.
  pub record Tables : Type 0 where
    pub by_parent : Dict Bytes (List (ParsedJoint d))
    pub all_parents : List Bytes
    pub all_children : List Bytes

  pub tabulate : List (ParsedJoint d) → Tables → Tables
  unfolding insert
  tabulate [] t = t
  tabulate (j ∷ joints) t = tabulate joints (record {
    by_parent = push_back Bytes-discrete j.parent_link j t.by_parent;
    all_parents = insert j.parent_link t.all_parents;
    all_children = insert j.child_link t.all_children;
  })

  pub no_tables : Tables
  no_tables = record { by_parent = []; all_parents = []; all_children = [] }

-- The parents that are no child.
pub roots_of : List Bytes → List Bytes → List Bytes
unfolding contains
roots_of [] children = []
roots_of (p ∷ parents) children =
    let rest = roots_of parents children in
    elim (contains p children) [ true ↦ rest | false ↦ p ∷ rest ]

module _ (d : Double) where
  -- The walk, on fuel; `none` means that the fuel ran out.
  pub walk :
      Dict Bytes (List (ParsedJoint d))
      → ℕ
      → Bytes
      → List Bytes
      → List (ParsedJoint d)
      → Option (Result (List (ParsedJoint d)))
  unfolding contains
  walk by_parent zero current visited ordered = none
  walk by_parent (suc fuel) current visited ordered = elim (contains current visited) [
    | true ↦ some (err (exception k_general))
    | false ↦ elim (vector_at Bytes-discrete current by_parent) [
      | [] ↦ some (ok ordered)
      | j ∷ others ↦ elim others [
        | [] ↦ walk by_parent fuel j.child_link (current ∷ visited) (ordered ++ j ∷ [])
        | _ ∷ _ ↦ some (err (exception k_general))
      ]
    ]
  ]

  -- The test after the walk.
  all_visited : List (ParsedJoint d) → List (ParsedJoint d) → Result (List (ParsedJoint d))
  all_visited joints ordered =
      ite (ℕ_discrete (length ordered) (length joints)) (ok ordered) (err (exception k_general))

  pub from_root :
      List (ParsedJoint d) → Tables d → List Bytes → Option (Result (List (ParsedJoint d)))
  unfolding walk all_visited
  from_root joints t (root ∷ []) = elim (walk t.by_parent (length joints + 2) root [] []) [
    | none ↦ none
    | some r ↦ some (r >>= all_visited joints)
  ]
  from_root joints t _ = some (err (exception k_general))

  unfoldable pub walk_urdf_chain : List (ParsedJoint d) → Option (Result (List (ParsedJoint d)))
  unfolding tabulate no_tables roots_of from_root
  walk_urdf_chain joints =
      let t = tabulate d joints (no_tables d) in
      from_root joints t (roots_of t.all_parents t.all_children)

  -- `ModelTable::from` behind `parse_urdf`.
  pub from_joints : List (ParsedJoint d) → Option (Result (List (JointRow d)))
  from_joints joints = elim (walk_urdf_chain joints) [
    | none ↦ none
    | some r ↦ some (r >>= to_rows d)
  ]
