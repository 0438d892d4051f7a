-- ===== src/Manager/Lookup.antt =====
-- What `resource` answers.
use viam_cpp_sdk.Prelude.{
  List, [], ◌∷◌, Bytes, Bytes-discrete, none, some, Option-cases, ◌≡◌, ◌≢◌, refl, sym, ap, ◌∙◌,
  arith, inl, inr, ◌⊎◌, All,
}
use viam_cpp_sdk.Prelude.Dict.{Dict, erase, find-emplace, find-erase}
use viam_cpp_sdk.Split.{Splitter}
use viam_cpp_sdk.Names.Name.{Name, short_name}
use viam_cpp_sdk.Manager.{
  Manager, find_resource, find_short, get_shortcut_name, resource, do_add_short, restore,
  restore_entry, do_remove, remove, kept, Operation, run, adds, adds_short, removes, replaces_one,
  replaces_all,
}
use viam_cpp_sdk.Manager.Shortcut.{shortcut_idem}
use viam_cpp_sdk.Manager.Induction.{OnRemoved, history-kept, empty_manager}
use viam_cpp_sdk.Manager.Invariant.{Inv, Inv-kept, remove-Inv, find-emplace_short}
use viam_cpp_sdk.Manager.Coverage.{IsCovered, IsCovered-kept, IsRemote}

module _ {ℓ} {R : Type ℓ} where
  OnRemoved-unit : (o : Operation R) → OnRemoved (λ _. Unit {0}) o
  OnRemoved-unit (adds n r) = tt
  OnRemoved-unit (adds_short k r) = tt
  OnRemoved-unit (removes n) = tt
  OnRemoved-unit (replaces_one n c) = tt
  OnRemoved-unit (replaces_all new) = tt

  All-unit : (os : List (Operation R)) → All (OnRemoved (λ _. Unit {0})) os
  All-unit [] = tt
  All-unit (o ∷ os) = (OnRemoved-unit o, All-unit os)

module _ {ℓ} {R : Type ℓ} (b : Splitter) where
  resource_sound :
      (m : Manager R) (q : Bytes) (r : R)
      → Inv b m
      → resource q m ≡ some r
      → (k : Bytes) × (find_resource k m.resources ≡ some r)
        × ((k ≡ q) ⊎ (get_shortcut_name b k ≡ q))
  unfolding resource
  resource_sound m q r v h = elim (Option-cases (find_resource q m.resources)) [
    | inr (x, e) ↦ (q, ground arith, inl refl)
    | inl e ↦ elim (Option-cases (find_short q m.short_names)) [
      | inl f ↦ absurd (ground arith)
      | inr (n, f) ↦ (n, ground arith, inr (v.named q n f).0)
    ]
  ]

  pub history-Inv : (os : List (Operation R)) → Inv b (run b os empty_manager)
  history-Inv os = history-kept b (Inv b) (λ _. Unit {0}) (Inv-kept b) os (All-unit os)

  -- After any history of calls, what `resource` answers stands under a name that it was asked for,
  -- in full or by its shortcut.
  pub history_sound :
      (os : List (Operation R)) (q : Bytes) (r : R)
      → resource q (run b os empty_manager) ≡ some r
      → (k : Bytes) × (find_resource k (run b os empty_manager).resources ≡ some r)
        × ((k ≡ q) ⊎ (get_shortcut_name b k ≡ q))
  history_sound os q r h = resource_sound (run b os empty_manager) q r (history-Inv os) h

  -- After any history in which only names under a remote were removed or replaced, every resource
  -- that is there is found by its name, and some resource is found by its shortcut.
  pub history_complete :
      (os : List (Operation R)) (k : Bytes) (r : R)
      → All (OnRemoved (IsRemote b)) os
      → find_resource k (run b os empty_manager).resources ≡ some r
      → (resource k (run b os empty_manager) ≡ some r)
        × (resource (get_shortcut_name b k) (run b os empty_manager) ≢ none)
  unfolding resource
  history_complete os k r h e =
      let m = run b os empty_manager in
      let v : Inv b m = history-Inv os in
      let w : IsCovered b m = history-kept b (IsCovered b) (IsRemote b) (IsCovered-kept b) os h in
      (
        ground arith,
        λ n. elim (Option-cases (find_short (get_shortcut_name b k) m.short_names)) [
          | inl f ↦ ground (arith, f, w.covers k)
          | inr (x, f) ↦ ground (arith, f, v.named (get_shortcut_name b k) x)
        ],
      )

  restore_self :
      (s : Bytes) (l : Dict Bytes R) (names : List (Bytes × Bytes)) → restore b s s l names ≡ names
  unfolding restore
  restore_self s [] names = refl
  restore_self s ((k, r) ∷ l) names =
      ground (arith, restore_self s l names, restore_self s l (restore_entry b s s k names))

  -- In a manager with the invariant, a resource that is there and is removed is not found by its name
  -- any more, not even where that is the shortcut of another name.
  pub resource-remove :
      (n : Name) (m : Manager R)
      → Inv b m
      → find_resource (short_name n) m.resources ≢ none
      → resource (short_name n) (remove b n m) ≡ none
  unfolding resource remove do_remove
  resource-remove n m v p =
      let short = short_name n in
      let left = erase Bytes-discrete short m.resources in
      elim (Bytes-discrete (get_shortcut_name b short) short) [
        | yes e ↦ ground (
          arith,
          e,
          find-erase Bytes-discrete short short m.resources,
          find-erase Bytes-discrete short short m.short_names,
          restore_self short left (erase Bytes-discrete short m.short_names),
        )
        | no ne ↦ elim (Option-cases (find_short short (remove b n m).short_names)) [
          | inl f ↦ ground (arith, f, find-erase Bytes-discrete short short m.resources)
          | inr (x, f) ↦
              let i = ((remove-Inv b n m v).named short x f).0 in
              absurd (ne (ap (get_shortcut_name b) (sym i) ∙ shortcut_idem b x ∙ i))
        ]
      ]

  -- In a manager with the invariant, where a name is removed that is the shortcut of another name with
  -- a resource, that resource is still found by its name, and the shortcut leads nowhere.
  pub remove_forgets_shortcut :
      (n : Name) (m : Manager R) (k : Bytes) (y : R)
      → Inv b m
      → find_resource (short_name n) m.resources ≢ none
      → find_resource k m.resources ≡ some y
      → k ≢ short_name n
      → get_shortcut_name b k ≡ short_name n
      → (resource k (remove b n m) ≡ some y)
        × (resource (get_shortcut_name b k) (remove b n m) ≡ none)
  unfolding resource remove do_remove
  remove_forgets_shortcut n m k y v p e ne s = (
    ground (arith, find-erase Bytes-discrete (short_name n) k m.resources),
    rw s (resource-remove n m v p),
  )

  -- In a manager with the invariant, a shortcut that is taken finds the same after any resource is
  -- added under a name other than the shortcut: it is never marked as ambiguous.
  pub taken_shortcut_kept :
      (k : Bytes) (r : R) (m : Manager R) (s n : Bytes)
      → Inv b m
      → find_short s m.short_names ≡ some n
      → k ≢ s
      → resource s (kept m (do_add_short b k r m)) ≡ resource s m
  unfolding resource do_add_short
  taken_shortcut_kept k r m s n v e ne = ground (
    arith,
    find-emplace_short b (get_shortcut_name b k) k s m.short_names,
    find-emplace Bytes-discrete k s r m.resources,
    find-emplace Bytes-discrete k n r m.resources,
    v.named s n,
  )
