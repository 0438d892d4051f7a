-- ===== src/Manager/Tests.antt =====
-- Runs of the resource manager, and the theorems at such histories. A resource is a number here.
use viam_cpp_sdk.Prelude.{
  ℕ, List, [], ◌∷◌, Bytes, codes, Bytes-discrete, ℕ_discrete, none, some, ◌≡◌, ◌≢◌, refl, ◌⊎◌, ok,
  err, exception, k_general,
}
use viam_cpp_sdk.Prelude.Dict.{find, emplace, erase}
use viam_cpp_sdk.Split.Reference.{splitter, split_onto}
use viam_cpp_sdk.Names.Api.{Api}
use viam_cpp_sdk.Names.Name.{Name, short_name}
use viam_cpp_sdk.Manager.{
  Manager, Operation, adds, replaces_one, replaces_all, run, resource, get_shortcut_name,
  find_resource, kept, do_add_short, do_add, do_remove, add, remove, replace_one, replace_all,
}
use viam_cpp_sdk.Manager.Induction.{empty_manager}
use viam_cpp_sdk.Manager.Refinement.{view, run_spec, run-view}
use viam_cpp_sdk.Manager.Lookup.{
  history-Inv, history_sound, history_complete, resource-remove, remove_forgets_shortcut,
  taken_shortcut_kept,
}

abbrev arm_api : Api
arm_api = record {
  type_namespace = codes "rdk";
  resource_type = codes "component";
  resource_subtype = codes "arm";
}

abbrev name_of : Bytes → Bytes → Name
name_of remote name = record { api = arm_api; remote_name = remote; name = name }

abbrev far_arm : Name
far_arm = name_of (codes "r") (codes "a")

abbrev near_arm : Name
near_arm = name_of [] (codes "a")

abbrev both_arms : List (Operation ℕ)
both_arms = adds far_arm 1 ∷ adds near_arm 2 ∷ []

abbrev one_arm : List (Operation ℕ)
one_arm = adds far_arm 1 ∷ adds far_arm 5 ∷ []

abbrev busy : List (Operation ℕ)
busy =
    adds far_arm 1
    ∷ replaces_all ((near_arm, 3) ∷ (far_arm, 4) ∷ [])
    ∷ replaces_one near_arm (ok 5)
    ∷ replaces_one far_arm (err (exception k_general))
    ∷ []

abbrev after_calls : List (Operation ℕ) → Manager ℕ
after_calls os = run splitter os empty_manager

shortcut_runs : resource (codes "a") (after_calls one_arm) ≡ some 1
unfolding run resource splitter split_onto ℕ_discrete Bytes-discrete find emplace erase add do_add
    remove do_remove replace_one replace_all short_name get_shortcut_name
shortcut_runs = refl

busy_runs :
    (resource (codes "a") (after_calls busy) ≡ some 5)
    × (resource (codes "r:a") (after_calls busy) ≡ none)
unfolding run resource splitter split_onto ℕ_discrete Bytes-discrete find emplace erase add do_add
    remove do_remove replace_one replace_all short_name get_shortcut_name
busy_runs = (refl, refl)

run-view_example : view (after_calls busy) ≡ run_spec busy (view empty_manager)
run-view_example = run-view splitter busy empty_manager

history_sound_example :
    (k : Bytes) × (find_resource k (after_calls one_arm).resources ≡ some 1)
    × ((k ≡ codes "a") ⊎ (get_shortcut_name splitter k ≡ codes "a"))
history_sound_example = history_sound splitter one_arm (codes "a") 1 shortcut_runs

history_complete_example :
    (resource (codes "r:a") (after_calls one_arm) ≡ some 1)
    × (resource (get_shortcut_name splitter (codes "r:a")) (after_calls one_arm) ≢ none)
unfolding run resource splitter split_onto ℕ_discrete Bytes-discrete find emplace erase add do_add
    remove do_remove replace_one replace_all short_name get_shortcut_name
history_complete_example = history_complete splitter one_arm (codes "r:a") 1 (tt, (tt, tt)) refl

resource-remove_example :
    resource (short_name far_arm) (remove splitter far_arm (after_calls both_arms)) ≡ none
unfolding run resource splitter split_onto ℕ_discrete Bytes-discrete find emplace erase add do_add
    remove do_remove replace_one replace_all short_name get_shortcut_name
resource-remove_example =
    resource-remove splitter far_arm (after_calls both_arms) (history-Inv splitter both_arms)
      (λ e. cc)

remove_forgets_shortcut_example :
    (resource (codes "r:a") (remove splitter near_arm (after_calls both_arms)) ≡ some 1)
    × (resource
          (get_shortcut_name splitter (codes "r:a"))
          (remove splitter near_arm (after_calls both_arms))
        ≡ none)
unfolding run resource splitter split_onto ℕ_discrete Bytes-discrete find emplace erase add do_add
    remove do_remove replace_one replace_all short_name get_shortcut_name
remove_forgets_shortcut_example =
    remove_forgets_shortcut splitter near_arm (after_calls both_arms) (codes "r:a") 1
      (history-Inv splitter both_arms) (λ e. cc) refl (λ e. cc) refl

taken_shortcut_kept_example :
    resource
      (codes "a")
      (kept (after_calls one_arm) (do_add_short splitter (codes "q:a") 7 (after_calls one_arm)))
    ≡ resource (codes "a") (after_calls one_arm)
unfolding run resource splitter split_onto ℕ_discrete Bytes-discrete find emplace erase add do_add
    remove do_remove replace_one replace_all short_name get_shortcut_name
taken_shortcut_kept_example =
    taken_shortcut_kept splitter (codes "q:a") 7 (after_calls one_arm) (codes "a") (codes "r:a")
      (history-Inv splitter one_arm) refl (λ e. cc)
