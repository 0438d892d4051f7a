-- ===== src/Manager/Coverage.antt =====
-- The shortcuts of the names that the manager has are in its table of short names, unless a name
-- without a remote was removed.
use viam_cpp_sdk.Prelude.{List, [], ◌∷◌, Bytes, Bytes-discrete, none, ◌≡◌, ◌≢◌, refl, arith}
use viam_cpp_sdk.Prelude.Dict.{Dict, find, erase, find-emplace, find-erase}
use viam_cpp_sdk.Split.{Splitter}
use viam_cpp_sdk.Names.Name.{Name, short_name}
use viam_cpp_sdk.Manager.{
  Manager, find_resource, find_short, get_shortcut_name, do_add_short, restore, restore_entry,
  do_remove, remove, kept,
}
use viam_cpp_sdk.Manager.Induction.{IsKept}
use viam_cpp_sdk.Manager.Invariant.{find-emplace_short}

-- The short name that is removed has a remote before its shortcut.
abbrev pub IsRemote : Splitter → Name → Type 0
IsRemote b n = short_name n ≢ get_shortcut_name b (short_name n)

module _ {ℓ} {R : Type ℓ} (b : Splitter) where
  pub record IsCovered (m : Manager R) : Type ℓ where
    pub covers :
        (k : Bytes)
        → find_resource k m.resources ≢ none
        → get_shortcut_name b k ≢ k
        → find_short (get_shortcut_name b k) m.short_names ≢ none

  do_add_short-IsCovered :
      (k : Bytes) (r : R) (m : Manager R) → IsCovered m → IsCovered (kept m (do_add_short b k r m))
  unfolding do_add_short
  do_add_short-IsCovered k r m v = record {
    covers = λ q h n. ground (
      arith,
      find-emplace_short b (get_shortcut_name b k) k (get_shortcut_name b q) m.short_names,
      find-emplace Bytes-discrete k q r m.resources,
      v.covers q,
    );
  }

  restore_mono :
      (c k : Bytes) (l : Dict Bytes R) (names : List (Bytes × Bytes)) (s : Bytes)
      → find_short s names ≢ none
      → find_short s (restore b c k l names) ≢ none
  unfolding restore
  restore_mono c k [] names s h = h
  restore_mono c k ((j, r) ∷ l) names s h =
      restore_mono c k l (restore_entry b c k j names) s
        (λ e. ground (arith, find-emplace_short b c j s names))

  -- The loop of `do_remove` finds a name for the shortcut, where there is one left.
  restore_covers :
      (c k q : Bytes) (l : Dict Bytes R) (names : List (Bytes × Bytes))
      → find_resource q l ≢ none
      → get_shortcut_name b q ≡ c
      → k ≢ c
      → find_short c (restore b c k l names) ≢ none
  unfolding restore find
  restore_covers c k q [] names h e n = absurd (h refl)
  restore_covers c k q ((j, r) ∷ l) names h e n = ground (
    arith,
    restore_covers c k q l (restore_entry b c k j names),
    restore_mono c k l (restore_entry b c k j names) c,
    find-emplace_short b c j c names,
  )

  remove-IsCovered :
      (n : Name) (m : Manager R) → IsRemote b n → IsCovered m → IsCovered (remove b n m)
  unfolding remove do_remove
  remove-IsCovered n m rn v = record {
    covers = λ q h ne. ground (
      arith,
      find-erase Bytes-discrete (short_name n) q m.resources,
      find-erase Bytes-discrete (get_shortcut_name b (short_name n)) (get_shortcut_name b q)
          m.short_names,
      v.covers q,
      restore_covers (get_shortcut_name b (short_name n)) (short_name n) q
          (erase Bytes-discrete (short_name n) m.resources)
          (erase Bytes-discrete (get_shortcut_name b (short_name n)) m.short_names),
      restore_mono (get_shortcut_name b (short_name n)) (short_name n)
          (erase Bytes-discrete (short_name n) m.resources)
          (erase Bytes-discrete (get_shortcut_name b (short_name n)) m.short_names)
          (get_shortcut_name b q),
    );
  }

  pub IsCovered-kept : IsKept b IsCovered (IsRemote b)
  unfolding find
  IsCovered-kept = record {
    at_start = record { covers = λ k h _. absurd (h refl) };
    by_addition = do_add_short-IsCovered;
    by_removal = remove-IsCovered;
  }
