-- ===== src/Names/Name/LongName.antt =====
-- `long_name_to_remote_and_short` of common/utils.cpp cuts at the last colon.
use mathlib.Core.List.{append_assoc, append-nil}
use viam_cpp_sdk.Prelude.{List, [], ◌∷◌, ◌++◌, Bytes, ◌≡◌, refl, ◌⊎◌, inl, inr, arith, Lacks}
use viam_cpp_sdk.Split.{Splitter}
use viam_cpp_sdk.Split.Reference.{split_onto, split-eq, split_onto_last, last_separator}
use viam_cpp_sdk.Names.Name.{
  Name, back_and_rest, join_onto, join, remote_and_short, long_name_to_remote_and_short, to_proto,
  from_proto,
}

back_and_rest-concat : (x y : Bytes) (r : List Bytes) → back_and_rest x (r ++ y ∷ []) ≡ (y, x ∷ r)
unfolding back_and_rest
back_and_rest-concat x y [] = refl
back_and_rest-concat x y (z ∷ r) = rw (back_and_rest-concat z y r)

-- To join the parts of a split is to undo it.
join_onto-split :
    (acc part s : Bytes) → join_onto acc (split_onto part b':' s) ≡ acc ++ b':' ∷ (part ++ s)
unfolding join_onto split_onto
join_onto-split acc part [] = ground (arith, append-nil part)
join_onto-split acc part (x ∷ s) = ground (
  arith,
  join_onto-split (acc ++ b':' ∷ part) [] s,
  join_onto-split acc (part ++ x ∷ []) s,
  append_assoc part (x ∷ []) s,
  append_assoc acc (b':' ∷ part) (b':' ∷ s),
)

join-split : (part s : Bytes) → join (split_onto part b':' s) ≡ part ++ s
unfolding join split_onto
join-split part [] = ground (arith, append-nil part)
join-split part (x ∷ s) =
    ground (
      arith,
      join_onto-split part [] s,
      join-split (part ++ x ∷ []) s,
      append_assoc part (x ∷ []) s,
    )

remote_and_short-concat :
    (ps : List Bytes) (y : Bytes) → remote_and_short (ps ++ y ∷ []) ≡ (join ps, y)
unfolding remote_and_short
remote_and_short-concat [] y = refl
remote_and_short-concat (x ∷ r) y = rw (back_and_rest-concat x y r)

module _ (b : Splitter) where
  long_name_whole : (s : Bytes) → Lacks b':' s → long_name_to_remote_and_short b s ≡ ([], s)
  unfolding long_name_to_remote_and_short
  long_name_whole s h = rw (b.split_whole b':' s h)

  long_name_cut :
      (r s : Bytes) → Lacks b':' s → long_name_to_remote_and_short b (r ++ b':' ∷ s) ≡ (r, s)
  unfolding long_name_to_remote_and_short
  long_name_cut r s h = rw (
    split-eq b b':' (r ++ b':' ∷ s),
    split_onto_last [] b':' r s h,
    remote_and_short-concat (split_onto [] b':' r) s,
    join-split [] r,
  )

  -- A long name without a colon has no remote; any other is cut at its last colon, and the parts
  -- make it up again.
  pub long_name_decides :
      (s : Bytes)
      → (Lacks b':' s × (long_name_to_remote_and_short b s ≡ ([], s)))
        ⊎ ((r : Bytes) × (t : Bytes) × (s ≡ r ++ b':' ∷ t)
            × Lacks b':' t
            × (long_name_to_remote_and_short b s ≡ (r, t)))
  long_name_decides s = elim (last_separator b':' s) [
    | inl h ↦ inl (h, long_name_whole s h)
    | inr (r, t, e, h) ↦ inr (r, t, e, h, rw e (long_name_cut r t h))
  ]

  -- A name goes through its message unchanged, under any remote, nested ones too, if the short name
  -- has no colon.
  pub from_proto-to_proto : (n : Name) → Lacks b':' n.name → from_proto b (to_proto n) ≡ n
  unfolding from_proto to_proto
  from_proto-to_proto n h =
      ground (arith, long_name_whole n.name h, long_name_cut n.remote_name n.name h)
