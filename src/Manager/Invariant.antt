-- ===== src/Manager/Invariant.antt =====
-- What the table of short names says of the resources, after any history.
use viam_cpp_sdk.Prelude.{
  List, [], ◌∷◌, Bytes, Bytes-discrete, ite, none, some, ◌≡◌, ◌≢◌, arith, inl, ◌⊎◌,
}
use viam_cpp_sdk.Prelude.Dict.{Dict, find, erase, find-emplace, find-erase}
use viam_cpp_sdk.Split.{Splitter}
use viam_cpp_sdk.Names.Name.{Name, short_name}
use viam_cpp_sdk.Manager.{
  Manager, find_resource, find_short, get_shortcut_name, emplace_short, do_add_short, restore,
  do_remove, remove, kept, restore_entry,
}
use viam_cpp_sdk.Manager.Induction.{IsKept}

pub find-emplace_short :
    (b : Splitter) (c n s : Bytes) (names : List (Bytes × Bytes))
    → find_short s (emplace_short b c n names) ≡ elim (find_short c names) [
      | none ↦ ite (Bytes-discrete c s) (some n) (find_short s names)
      | some _ ↦ find_short s names
    ]
unfolding emplace_short
find-emplace_short b c n s names =
    ground
      (arith, find-emplace Bytes-discrete c s n names, find-emplace Bytes-discrete c s [] names)

module _ {ℓ} {R : Type ℓ} (b : Splitter) where
  -- An entry leads from the shortcut of a name to that name, which has a resource.
  pub record Inv (m : Manager R) : Type ℓ where
    pub named :
        (s n : Bytes)
        → find_short s m.short_names ≡ some n
        → (get_shortcut_name b n ≡ s) × (find_resource n m.resources ≢ none)

  do_add_short-Inv :
      (k : Bytes) (r : R) (m : Manager R) → Inv m → Inv (kept m (do_add_short b k r m))
  unfolding do_add_short
  do_add_short-Inv k r m v = record {
    named = λ s n h. ground (
      arith,
      find-emplace_short b (get_shortcut_name b k) k s m.short_names,
      find-emplace Bytes-discrete k n r m.resources,
      v.named s n,
    );
  }

  -- An entry that the loop of `do_remove` makes leads to a resource of the loop.
  restore-named :
      (c k : Bytes) (l : Dict Bytes R) (names : List (Bytes × Bytes)) (s n : Bytes)
      → find_short s (restore b c k l names) ≡ some n
      → (find_short s names ≡ some n)
        ⊎ ((s ≡ c) × (get_shortcut_name b n ≡ c) × (find_resource n l ≢ none))
  unfolding restore find
  restore-named c k [] names s n h = inl h
  restore-named c k ((j, r) ∷ l) names s n h = ground (
    arith,
    restore-named c k l (restore_entry b c k j names) s n h,
    find-emplace_short b c j s names,
  )

  pub remove-Inv : (n : Name) (m : Manager R) → Inv m → Inv (remove b n m)
  unfolding remove do_remove
  remove-Inv n m v = record {
    named = λ s n' h. ground (
      arith,
      restore-named (get_shortcut_name b (short_name n)) (short_name n)
          (erase Bytes-discrete (short_name n) m.resources)
          (erase Bytes-discrete (get_shortcut_name b (short_name n)) m.short_names) s n',
      find-erase Bytes-discrete (get_shortcut_name b (short_name n)) s m.short_names,
      find-erase Bytes-discrete (short_name n) n' m.resources,
      v.named s n',
    );
  }

  pub Inv-kept : IsKept b Inv (λ _. Unit {0})
  unfolding find
  Inv-kept = record {
    at_start = record { named = λ s n h. cc };
    by_addition = do_add_short-Inv;
    by_removal = λ n m _. remove-Inv n m;
  }
