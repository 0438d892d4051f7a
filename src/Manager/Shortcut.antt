-- ===== src/Manager/Shortcut.antt =====
-- The shortcut of a name is what follows its last colon.
use viam_cpp_sdk.Prelude.{[], ◌∷◌, ◌++◌, Bytes, ◌≡◌, refl, ◌∙◌, arith, Lacks}
use viam_cpp_sdk.Split.{Splitter}
use viam_cpp_sdk.Split.Reference.{
  split_onto, split-eq, last_part, last_part-Lacks, last_part_whole, last_part-append,
}
use viam_cpp_sdk.Manager.{last, get_shortcut_name}

last-split :
    (x : Bytes) (part : Bytes) (s : Bytes)
    → (last (x ∷ split_onto part b':' s) ≡ last_part part b':' s)
      × (last (split_onto part b':' s) ≡ last_part part b':' s)
unfolding last split_onto last_part
last-split x part [] = (refl, refl)
last-split x part (c ∷ s) = ground (arith, last-split part [] s, last-split x (part ++ c ∷ []) s)

module _ (b : Splitter) where
  pub shortcut-eq : (s : Bytes) → get_shortcut_name b s ≡ last_part [] b':' s
  unfolding get_shortcut_name
  shortcut-eq s = rw (split-eq b b':' s) (last-split [] [] s).1

  pub shortcut-Lacks : (s : Bytes) → Lacks b':' (get_shortcut_name b s)
  shortcut-Lacks s = rw (shortcut-eq s) (last_part-Lacks [] b':' s tt)

  pub shortcut_whole : (s : Bytes) → Lacks b':' s → get_shortcut_name b s ≡ s
  shortcut_whole s h = shortcut-eq s ∙ last_part_whole [] b':' s h

  pub shortcut-append : (r s : Bytes) → Lacks b':' s → get_shortcut_name b (r ++ b':' ∷ s) ≡ s
  shortcut-append r s h = shortcut-eq (r ++ b':' ∷ s) ∙ last_part-append [] b':' r s h

  pub shortcut_idem :
      (s : Bytes) → get_shortcut_name b (get_shortcut_name b s) ≡ get_shortcut_name b s
  shortcut_idem s = shortcut_whole (get_shortcut_name b s) (shortcut-Lacks s)
