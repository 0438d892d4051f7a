-- ===== src/ModelTable/Chain/Outgoing.antt =====
-- The joints that leave a link.
use viam_cpp_sdk.Prelude.{
  Bool, true, false, List, [], ◌∷◌, ◌++◌, Bytes, Bytes-discrete, ite, ◌≡◌, sym, arith, keep,
}
use viam_cpp_sdk.Prelude.Dict.{push_back, vector_at, vector_at-push_back}
use viam_cpp_sdk.Prelude.Double.{Double}
use viam_cpp_sdk.ModelTable.Joint.{ParsedJoint}
use viam_cpp_sdk.ModelTable.Chain.{Tables, tabulate, no_tables, insert}
use mathlib.Core.List.{append_assoc, append-nil}

module _ (d : Double) where
  unfoldable pub leaves : Bytes → ParsedJoint d → Bool
  leaves p j = ite (Bytes-discrete j.parent_link p) true false

  tabulate-outgoing :
      (p : Bytes) (joints : List (ParsedJoint d)) (t : Tables d)
      → vector_at Bytes-discrete p (tabulate d joints t).by_parent
        ≡ vector_at Bytes-discrete p t.by_parent ++ keep (leaves p) joints
  unfolding tabulate leaves keep
  tabulate-outgoing p [] t = sym (append-nil _)
  tabulate-outgoing p (j ∷ joints) t = ground (
    arith,
    tabulate-outgoing p joints (record {
      by_parent = push_back Bytes-discrete j.parent_link j t.by_parent;
      all_parents = insert j.parent_link t.all_parents;
      all_children = insert j.child_link t.all_children;
    }),
    vector_at-push_back Bytes-discrete j.parent_link p j t.by_parent,
    append_assoc (vector_at Bytes-discrete p t.by_parent) (j ∷ []) (keep (leaves p) joints),
  )

  -- The table of the code holds for a link the joints that leave it, in their order.
  pub outgoing :
      (p : Bytes) (joints : List (ParsedJoint d))
      → vector_at Bytes-discrete p (tabulate d joints (no_tables d)).by_parent
        ≡ keep (leaves p) joints
  unfolding no_tables vector_at
  outgoing p joints = tabulate-outgoing p joints (no_tables d)
