-- ===== src/Manager/Induction.antt =====
-- All operations are made of one addition and one removal, so an invariant of both is one of all.
use viam_cpp_sdk.Prelude.{
  List, [], ◌∷◌, Bytes, Bytes-discrete, Result, ok, err, ◌>>=◌, inl, inr, All, if_pos, if_neg,
  subst,
}
use viam_cpp_sdk.Split.{Splitter}
use viam_cpp_sdk.Names.Name.{Name, short_name}
use viam_cpp_sdk.Manager.{
  Manager, do_add_short, do_add, add, remove, replace_one, add_all, replace_all, Operation, adds,
  adds_short, removes, replaces_one, replaces_all, kept, add_short, step, run,
}
use viam_cpp_sdk.Manager.Refinement.{do_remove_cases}

abbrev pub empty_manager {ℓ} : {R : Type ℓ} → Manager R
empty_manager = record { resources = []; short_names = [] }

-- What is removed or replaced fulfils `Q`.
abbrev pub OnRemoved {ℓ κ} : {R : Type ℓ} → (Name → Type κ) → Operation R → Type κ
OnRemoved Q (removes n) = Q n
OnRemoved Q (replaces_one n _) = Q n
OnRemoved Q _ = Unit

module _ {ℓ κ μ} {R : Type ℓ} (b : Splitter) (P : Manager R → Type κ) (Q : Name → Type μ) where
  pub record IsKept : Type (ℓ ⊔ κ ⊔ μ) where
    pub at_start : P empty_manager
    pub by_addition : (k : Bytes) (r : R) (m : Manager R) → P m → P (kept m (do_add_short b k r m))
    pub by_removal : (n : Name) (m : Manager R) → Q n → P m → P (remove b n m)

  module _ (rule : IsKept) where
    do_add-kept : (n : Name) (r : R) (m : Manager R) → P m → P (kept m (do_add b n r m))
    unfolding do_add
    do_add-kept n r m h = elim (Bytes-discrete n.name []) [
      | yes e ↦ rw (if_pos _ e) h
      | no e ↦ rw (if_neg _ e) (rule.by_addition (short_name n) r m h)
    ]

    created-kept :
        (n : Name) (create : Result R) (m : Manager R)
        → P m
        → P (kept m (create >>= λ r. do_add b n r m))
    created-kept n (ok r) m h = do_add-kept n r m h
    created-kept n (err e) m h = h

    replace_one-kept :
        (n : Name) (create : Result R) (m : Manager R) → Q n → P m → P (replace_one b n create m)
    unfolding replace_one
    replace_one-kept n create m q h = elim (do_remove_cases b n m) [
      | inl (_, (e, d)) ↦ rw (d, replace_one) h
      | inr (r, l, _, d, i) ↦
          rw (d, replace_one) (created-kept n create l (subst P i (rule.by_removal n m q h)))
    ]

    add_all-kept : (new : List (Name × R)) (m : Manager R) → P m → P (add_all b new m)
    unfolding add_all
    add_all-kept [] m h = h
    add_all-kept ((n, r) ∷ rest) m h = go (do_add b n r m) (add_all-kept rest) (do_add-kept n r m h)
      where
        go :
            (x : Result (Manager R))
            → ((m' : Manager R) → P m' → P (add_all b rest m'))
            → P (kept m x)
            → P (elim x [ ok m' ↦ add_all b rest m' | err _ ↦ m ])
        go (ok m') ih k = ih m' k
        go (err e) ih k = k

    pub step-kept : (o : Operation R) (m : Manager R) → OnRemoved Q o → P m → P (step b o m)
    unfolding step add add_short replace_all
    step-kept (adds n r) m q h = do_add-kept n r m h
    step-kept (adds_short k r) m q h = rule.by_addition k r m h
    step-kept (removes n) m q h = rule.by_removal n m q h
    step-kept (replaces_one n create) m q h = replace_one-kept n create m q h
    step-kept (replaces_all new) m q h = add_all-kept new empty_manager rule.at_start

    run-kept :
        (os : List (Operation R)) (m : Manager R) → All (OnRemoved Q) os → P m → P (run b os m)
    unfolding run
    run-kept [] m q h = h
    run-kept (o ∷ os) m q h = run-kept os (step b o m) q.1 (step-kept o m q.0 h)

    -- So it holds after any history.
    pub history-kept : (os : List (Operation R)) → All (OnRemoved Q) os → P (run b os empty_manager)
    history-kept os q = run-kept os empty_manager q rule.at_start
