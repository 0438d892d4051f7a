-- ===== src/Manager.antt =====
-- `ResourceManager` of resource/resource_manager.hpp and resource/resource_manager.cpp. A resource
-- is any type; the lock makes each method one step. The log lines are not modelled.
pub mod Shortcut
pub mod Refinement
pub mod Induction
pub mod Invariant
pub mod Coverage
pub mod Lookup
pub mod Effects
mod Tests
use viam_cpp_sdk.Prelude.{
  List, [], ◌∷◌, Bytes, Bytes-discrete, ite, Option, none, some, Result, ok, err, exception,
  k_general, k_duplicate_resource, k_resource_not_found, ◌>>=◌, Bool, true, false,
}
use viam_cpp_sdk.Prelude.Dict.{Dict, find, emplace, erase}
use viam_cpp_sdk.Split.{Splitter}
use viam_cpp_sdk.Names.Name.{Name, short_name}

pub record Manager {ℓ} (R : Type ℓ) : Type ℓ where
  pub resources : Dict Bytes R
  pub short_names : List (Bytes × Bytes)

pub data Operation {ℓ} (R : Type ℓ) : Type ℓ where
  adds : Name → R → Operation R
  adds_short : Bytes → R → Operation R
  removes : Name → Operation R
  replaces_one : Name → Result R → Operation R
  replaces_all : List (Name × R) → Operation R

-- `name_split.at(name_split.size() - 1)`; a split has a part at least.
last : List Bytes → Bytes
last [] = []
last (x ∷ []) = x
last (x ∷ y ∷ r) = last (y ∷ r)

unfoldable pub get_shortcut_name : Splitter → Bytes → Bytes
unfolding last
get_shortcut_name b name = last (b.split b':' name)

abbrev found {ℓ} : {A : Type ℓ} → Option A → Bool
found none = false
found (some _) = true

abbrev pub find_short : Bytes → List (Bytes × Bytes) → Option Bytes
find_short = find Bytes-discrete

module _ {ℓ} {R : Type ℓ} where
  abbrev pub find_resource : Bytes → Dict Bytes R → Option R
  find_resource = find Bytes-discrete

  -- `ResourceManager::resource`; `none` is the null pointer.
  unfoldable pub resource : Bytes → Manager R → Option R
  resource name m = elim (find_resource name m.resources) [
    | some r ↦ some r
    | none ↦ elim (find_short name m.short_names) [
      | some full ↦ find_resource full m.resources
      | none ↦ none
    ]
  ]

module _ (b : Splitter) where
  -- What `do_add` and the loop of `do_remove` do to the short names. Where the shortcut is taken
  -- `emplace` has no effect.
  unfoldable pub emplace_short : Bytes → Bytes → List (Bytes × Bytes) → List (Bytes × Bytes)
  emplace_short shortcut name short_names = elim (find_short shortcut short_names) [
    | some _ ↦ emplace Bytes-discrete shortcut [] short_names
    | none ↦ emplace Bytes-discrete shortcut name short_names
  ]

module _ {ℓ} {R : Type ℓ} where
  -- A method that logs the exception leaves what was done before it.
  abbrev pub kept : Manager R → Result (Manager R) → Manager R
  kept m (ok m') = m'
  kept m (err _) = m

module _ (b : Splitter) where
  -- One round of the loop of `do_remove`, at the key of a resource that is left.
  restore_entry : Bytes → Bytes → Bytes → List (Bytes × Bytes) → List (Bytes × Bytes)
  unfolding emplace_short
  restore_entry shortcut short key names =
      ite (Bytes-discrete shortcut (get_shortcut_name b key))
        (ite (Bytes-discrete short (get_shortcut_name b key)) names
          (emplace_short b shortcut key names))
        names

module _ {ℓ} {R : Type ℓ} (b : Splitter) where
  restore : Bytes → Bytes → Dict Bytes R → List (Bytes × Bytes) → List (Bytes × Bytes)
  unfolding restore_entry
  restore shortcut short [] names = names
  restore shortcut short ((key, _) ∷ rest) names =
      restore shortcut short rest (restore_entry b shortcut short key names)

module _ {ℓ} {R : Type ℓ} (b : Splitter) where
  -- `do_add(std::string, …)`.
  unfoldable pub do_add_short : Bytes → R → Manager R → Result (Manager R)
  unfolding emplace_short
  do_add_short name res m = elim (find_resource name m.resources) [
    | some _ ↦ err (exception k_duplicate_resource)
    | none ↦
        let shortcut = get_shortcut_name b name in
        ok (record {
          resources = emplace Bytes-discrete name res m.resources;
          short_names =
              ite (Bytes-discrete shortcut name) m.short_names
                (emplace_short b shortcut name m.short_names);
        })
  ]

  -- `do_add(const Name&, …)`.
  unfoldable pub do_add : Name → R → Manager R → Result (Manager R)
  unfolding do_add_short
  do_add n res m =
      ite (Bytes-discrete n.name []) (err (exception k_general)) (do_add_short (short_name n) res m)

  -- `add(const Name&, …)`.
  unfoldable pub add : Name → R → Manager R → Manager R
  add n res m = kept m (do_add n res m)

  -- `add(std::string, …)` lets the exception pass.
  unfoldable pub add_short : Bytes → R → Manager R → Result (Manager R)
  add_short = do_add_short

  unfoldable pub do_remove : Name → Manager R → Result (Manager R)
  unfolding restore
  do_remove n m =
      let short = short_name n in
      elim (find_resource short m.resources) [
        | none ↦ err (exception k_resource_not_found)
        | some _ ↦
            let left = erase Bytes-discrete short m.resources in
            let shortcut = get_shortcut_name b short in
            ok (record {
              resources = left;
              short_names =
                  restore b shortcut short left (erase Bytes-discrete shortcut m.short_names);
            })
      ]

  unfoldable pub remove : Name → Manager R → Manager R
  remove n m = kept m (do_remove n m)

  -- `create` is what the call of `create_resource` returns or throws.
  unfoldable pub replace_one : Name → Result R → Manager R → Manager R
  replace_one n create m = elim (do_remove n m) [
    | err _ ↦ m
    | ok left ↦ kept left (create >>= λ res. do_add n res left)
  ]

  -- The loop of `replace_all`, which ends at the first exception.
  add_all : List (Name × R) → Manager R → Manager R
  add_all [] m = m
  add_all ((n, res) ∷ rest) m = elim (do_add n res m) [ ok m' ↦ add_all rest m' | err _ ↦ m ]

  pub replace_all : List (Name × R) → Manager R → Manager R
  unfolding add_all
  replace_all new m = add_all new (record { resources = []; short_names = [] })

  unfoldable pub step : Operation R → Manager R → Manager R
  step (adds n r) m = add n r m
  step (adds_short k r) m = kept m (add_short k r m)
  step (removes n) m = remove n m
  step (replaces_one n create) m = replace_one n create m
  step (replaces_all new) m = replace_all new m

  unfoldable pub run : List (Operation R) → Manager R → Manager R
  unfolding step
  run [] m = m
  run (o ∷ os) m = run os (step o m)
