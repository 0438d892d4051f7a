-- ===== src/ModelTable/Chain/Sound.antt =====
-- The walk ends, and what it gives is the chain of all the joints.
use mathlib.Core.List.{reverse, Perm}
use mathlib.Core.List.Perm
use viam_cpp_sdk.Prelude.{
  ◌+◌, false, Option, none, some, List, [], ◌∷◌, map, length, Bytes, Result, ok, err, ◌>>=◌, ◌≡◌,
  ◌≢◌, refl, sym, ap, ◌∙◌, subst, arith, length-perm, keep_all, Bool-cases, inl, inr,
}
use viam_cpp_sdk.Prelude.Double.{Double}
use viam_cpp_sdk.ModelTable.Joint.{ParsedJoint}
use viam_cpp_sdk.ModelTable.Chain.{
  Tables, tabulate, no_tables, contains, walk, all_visited, roots_of, from_root, walk_urdf_chain,
}
use viam_cpp_sdk.ModelTable.Chain.Walk.{
  Distinct, IsPath, Walked, seen, seen_none, walk_total, Found, walk-Found,
}
use viam_cpp_sdk.ModelTable.Chain.Outgoing.{outgoing}

module _ (d : Double) where
  -- The links of the chain: where its joints begin, and where the last one ends.
  abbrev pub links_of : List (ParsedJoint d) → Bytes → List Bytes
  links_of chain last = last ∷ reverse (map (λ j. j.parent_link) chain)

  -- `chain` holds the joints, each of which begins at the link where the one before it ends; no
  -- link stands in it twice, and no joint ends at the first one.
  pub record IsChainOf (joints chain : List (ParsedJoint d)) : Type 0 where
    pub root : Bytes
    pub last : Bytes
    pub path : IsPath d root chain last
    pub all_joints : Perm chain joints
    pub distinct : Distinct (links_of chain last)
    pub is_root : contains root (tabulate d joints (no_tables d)).all_children ≡ false

  Found-chain :
      (root : Bytes) (joints chain : List (ParsedJoint d))
      → contains root (tabulate d joints (no_tables d)).all_children ≡ false
      → Found d root joints chain
      → length chain ≡ length joints
      → IsChainOf joints chain
  Found-chain root joints chain r f e = record {
    root = root;
    last = f.last;
    path = f.walked.path;
    all_joints =
        subst (Perm chain)
          (keep_all (seen d f.visited) joints (sym (length-perm f.walked.same) ∙ e)) f.walked.same;
    distinct = (
      subst (λ (v : List Bytes). contains f.last v ≡ false) f.walked.links f.fresh,
      subst Distinct f.walked.links f.walked.distinct,
    );
    is_root = r;
  }

  roots_sound :
      (ps cs rest : List Bytes) (root : Bytes)
      → roots_of ps cs ≡ root ∷ rest
      → contains root cs ≡ false
  unfolding roots_of
  roots_sound [] cs rest root h = cc
  roots_sound (p ∷ ps) cs rest root h = elim (Bool-cases (contains p cs)) [
    | inl e ↦ roots_sound ps cs rest root (ground arith)
    | inr e ↦ ground arith
  ]

  start : (root : Bytes) (joints : List (ParsedJoint d)) → Walked d root joints root [] []
  start root joints = record {
    path = refl;
    same = subst (Perm []) (sym (seen_none d joints)) (Perm.refl []);
    links = refl;
    distinct = tt;
  }

  from_root_total :
      (joints : List (ParsedJoint d)) (roots : List Bytes)
      → from_root d joints (tabulate d joints (no_tables d)) roots ≢ none
  unfolding from_root
  from_root_total joints [] = λ e. cc
  from_root_total joints (root ∷ []) =
      let t = tabulate d joints (no_tables d) in
      λ e.
        walk_total d joints t.by_parent (λ p. outgoing d p joints) (length joints + 2) root [] []
          (omega arith) (ground arith)
  from_root_total joints (root ∷ other ∷ rest) = λ e. cc

  all_visited_sound :
      (joints ordered chain : List (ParsedJoint d))
      → all_visited d joints ordered ≡ ok chain
      → (ordered ≡ chain) × (length ordered ≡ length joints)
  unfolding all_visited
  all_visited_sound joints ordered chain h = ground arith

  from_root_sound :
      (joints chain : List (ParsedJoint d)) (roots : List Bytes)
      → (let t = tabulate d joints (no_tables d) in roots_of t.all_parents t.all_children ≡ roots)
      → from_root d joints (tabulate d joints (no_tables d)) roots ≡ some (ok chain)
      → IsChainOf joints chain
  unfolding from_root
  from_root_sound joints chain [] e h = cc
  from_root_sound joints chain (root ∷ other ∷ rest) e h = cc
  from_root_sound joints chain (root ∷ []) e h =
      go (walk d t.by_parent (length joints + 2) root [] []) refl h
    where
      t : Tables d
      t = tabulate d joints (no_tables d)

      go :
          (r : Option (Result (List (ParsedJoint d))))
          → walk d t.by_parent (length joints + 2) root [] [] ≡ r
          → elim r [ none ↦ none | some x ↦ some (x >>= all_visited d joints) ] ≡ some (ok chain)
          → IsChainOf joints chain
      go none w h = cc
      go (some (err x)) w h = cc
      go (some (ok l)) w h =
          let (i, n) = all_visited_sound joints l chain (ground arith) in
          Found-chain root joints chain (roots_sound t.all_parents t.all_children [] root e)
            (subst (Found d root joints) i (
              walk-Found d root joints t.by_parent (λ p. outgoing d p joints) (length joints + 2)
                root [] [] l (start root joints) w))
            (ap length (sym i) ∙ n)

  -- Ordering any joints ends, with a chain or an error: two rounds more than there are joints are
  -- always enough.
  pub walk_urdf_chain_total : (joints : List (ParsedJoint d)) → walk_urdf_chain d joints ≢ none
  unfolding walk_urdf_chain
  walk_urdf_chain_total joints = from_root_total joints _

  -- Where the ordering of the joints succeeds, its result holds just those joints, leads from a link
  -- that is no joint's child along joints that each begin where the one before it ends, and meets no
  -- link twice.
  pub walk_urdf_chain_sound :
      (joints chain : List (ParsedJoint d))
      → walk_urdf_chain d joints ≡ some (ok chain)
      → IsChainOf joints chain
  unfolding walk_urdf_chain
  walk_urdf_chain_sound joints chain h = from_root_sound joints chain _ refl h
