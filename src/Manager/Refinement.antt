-- ===== src/Manager/Refinement.antt =====
-- The manager keeps a partial map from short names to resources; the short cuts are no part of it.
use mathlib.Core.Path.{fun_ext}
use viam_cpp_sdk.Prelude.{
  List, [], ◌∷◌, Bytes, Bytes-discrete, ite, Option, none, some, Option-cases, Result, ok, err,
  ◌>>=◌, ◌≡◌, refl, sym, ap, ◌∙◌, arith, inl, inr, ◌⊎◌, ◌≢◌, Error, exception, k_resource_not_found,
  k_general, k_duplicate_resource,
}
use viam_cpp_sdk.Prelude.Dict.{find, emplace, find-emplace, find-erase}
use viam_cpp_sdk.Split.{Splitter}
use viam_cpp_sdk.Names.Name.{Name, short_name}
use viam_cpp_sdk.Manager.{
  Manager, find_resource, do_add_short, do_add, add, do_remove, remove, replace_one, add_all,
  replace_all, Operation, adds, adds_short, removes, replaces_one, replaces_all, kept, add_short,
  step, run,
}

-- The abstract store.
abbrev pub Store {ℓ} : Type ℓ → Type ℓ
Store R = Bytes → Option R

module _ {ℓ} {R : Type ℓ} where
  abbrev pub view : Manager R → Store R
  view m k = find_resource k m.resources

  -- A taken name stays as it is.
  pub put : Bytes → R → Store R → Store R
  put k r f q = elim (f k) [ none ↦ ite (Bytes-discrete k q) (some r) (f q) | some _ ↦ f q ]

  pub drop : Bytes → Store R → Store R
  drop k f q = ite (Bytes-discrete k q) none (f q)

  -- A resource with an empty name is refused.
  pub put_named : Name → R → Store R → Store R
  unfolding put
  put_named n r f = ite (Bytes-discrete n.name []) f (put (short_name n) r f)

  put_created : Name → Result R → Store R → Store R
  put_created n (ok r) f = put_named n r f
  put_created n (err _) f = f

  -- Only a resource that is there is replaced; where none can be made in its place, it is gone.
  pub swap : Name → Result R → Store R → Store R
  unfolding put_created
  swap n create f = elim (f (short_name n)) [
    | none ↦ f
    | some _ ↦ put_created n create (drop (short_name n) f)
  ]

  -- The first name that is empty or taken ends it.
  pub put_all : List (Name × R) → Store R → Store R
  put_all [] f = f
  put_all ((n, r) ∷ rest) f =
      ite (Bytes-discrete n.name []) f
        (elim (f (short_name n)) [ none ↦ put_all rest (put (short_name n) r f) | some _ ↦ f ])

  pub spec : Operation R → Store R → Store R
  spec (adds n r) f = put_named n r f
  spec (adds_short k r) f = put k r f
  spec (removes n) f = drop (short_name n) f
  spec (replaces_one n create) f = swap n create f
  spec (replaces_all new) f = put_all new (λ _. none)

module _ {ℓ} {R : Type ℓ} (b : Splitter) where
  find-put :
      (k q : Bytes) (r : R) (m : Manager R)
      → find_resource q (emplace Bytes-discrete k r m.resources) ≡ put k r (view m) q
  unfolding put
  find-put k q r m = find-emplace Bytes-discrete k q r m.resources

  do_add_short-view :
      (k : Bytes) (r : R) (m : Manager R) (q : Bytes)
      → view (kept m (do_add_short b k r m)) q ≡ put k r (view m) q
  unfolding do_add_short put
  do_add_short-view k r m q = ground (arith, find-put k q r m)

  do_add-view :
      (n : Name) (r : R) (m : Manager R) (q : Bytes)
      → view (kept m (do_add b n r m)) q ≡ put_named n r (view m) q
  unfolding do_add put_named
  do_add-view n r m q = ground (arith, do_add_short-view (short_name n) r m q)

  remove-view :
      (n : Name) (m : Manager R) (q : Bytes)
      → view (remove b n m) q ≡ drop (short_name n) (view m) q
  unfolding remove do_remove drop
  remove-view n m q = ground (arith, find-erase Bytes-discrete (short_name n) q m.resources)

  pub do_remove_cases :
      (n : Name) (m : Manager R)
      → ((view m (short_name n) ≡ none) × ((e : Error) × (do_remove b n m ≡ err e)))
        ⊎ ((r : R) × (l : Manager R) × (view m (short_name n) ≡ some r)
            × (do_remove b n m ≡ ok l)
            × (remove b n m ≡ l))
  unfolding remove do_remove
  do_remove_cases n m = elim (Option-cases (find_resource (short_name n) m.resources)) [
    | inl e ↦ inl (e, (exception k_resource_not_found, ground arith))
    | inr (r, e) ↦ inr (r, remove b n m, e, ground arith, refl)
  ]

  put_created-view :
      (n : Name) (create : Result R) (m : Manager R) (q : Bytes)
      → view (kept m (create >>= λ r. do_add b n r m)) q ≡ put_created n create (view m) q
  unfolding put_created
  put_created-view n (ok r) m q = do_add-view n r m q
  put_created-view n (err e) m q = refl

  replace_one-view :
      (n : Name) (create : Result R) (m : Manager R) (q : Bytes)
      → view (replace_one b n create m) q ≡ swap n create (view m) q
  unfolding replace_one swap
  replace_one-view n create m q = elim (do_remove_cases n m) [
    | inl (e, (c, h)) ↦ ground (arith, e, h)
    | inr (r, l, e, h, i) ↦ ground (
      arith,
      e,
      h,
      put_created-view n create l q,
      ap (λ (f : Store R). put_created n create f q)
          (fun_ext (λ k. ap (λ (x : Manager R). view x k) (sym i) ∙ remove-view n m k)),
    )
  ]

  do_add_cases :
      (n : Name) (r : R) (m : Manager R)
      → ((e : Error) × (do_add b n r m ≡ err e)
          × ((n.name ≡ []) ⊎ ((s : R) × (view m (short_name n) ≡ some s))))
        ⊎ ((m' : Manager R) × (do_add b n r m ≡ ok m')
            × (n.name ≢ [])
            × (view m (short_name n) ≡ none)
            × (view m' ≡ put (short_name n) r (view m)))
  unfolding do_add add put_named
  do_add_cases n r m = elim (Bytes-discrete n.name []) [
    | yes e ↦ inl (exception k_general, ground arith, inl e)
    | no h ↦ elim (Option-cases (find_resource (short_name n) m.resources)) [
      | inr (s, e) ↦ inl (exception k_duplicate_resource, ground arith, inr (s, e))
      | inl e ↦
          inr
            (add b n r m, ground arith, h, e, fun_ext (λ q. ground (arith, h, do_add-view n r m q)))
    ]
  ]

  add_all-view :
      (new : List (Name × R)) (m : Manager R) (q : Bytes)
      → view (add_all b new m) q ≡ put_all new (view m) q
  unfolding add_all put_all
  add_all-view [] m q = refl
  add_all-view ((n, r) ∷ rest) m q = elim (do_add_cases n r m) [
    | inl (e, h, inl c) ↦ ground (arith, h, c)
    | inl (e, h, inr (s, c)) ↦ ground (arith, h, c)
    | inr (m', h, ne, c, v) ↦
        ground (arith, h, ne, c, add_all-view rest m' q, ap (λ (f : Store R). put_all rest f q) v)
  ]

  -- After any operation the manager holds what the abstract store holds, names and resources.
  pub step-view :
      (o : Operation R) (m : Manager R) (q : Bytes) → view (step b o m) q ≡ spec o (view m) q
  unfolding step spec add add_short replace_all find
  step-view (adds n r) m q = do_add-view n r m q
  step-view (adds_short k r) m q = do_add_short-view k r m q
  step-view (removes n) m q = remove-view n m q
  step-view (replaces_one n create) m q = replace_one-view n create m q
  step-view (replaces_all new) m q =
      add_all-view new (record { resources = []; short_names = [] }) q

module _ {ℓ} {R : Type ℓ} where
  pub run_spec : List (Operation R) → Store R → Store R
  unfolding spec
  run_spec [] f = f
  run_spec (o ∷ os) f = run_spec os (spec o f)

-- After any sequence of calls, those that fail included, the manager holds under each name what an
-- abstract store holds: a map of resources alone, which an addition of a new name extends, a removal
-- cuts, and a replacement of all fills anew up to its first error.
pub run-view {ℓ} :
    {R : Type ℓ} (b : Splitter) (os : List (Operation R)) (m : Manager R)
    → view (run b os m) ≡ run_spec os (view m)
unfolding run run_spec
run-view b [] m = refl
run-view b (o ∷ os) m = run-view b os (step b o m) ∙ ap (run_spec os) (fun_ext (step-view b o m))
