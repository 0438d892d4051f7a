-- ===== src/ModuleService/Managers.antt =====
-- The managers of a server as histories of calls, and what changes one of them.
use viam_cpp_sdk.Prelude.{
  finished, Bool, true, false, List, [], ◌∷◌, ◌++◌, Bytes, Option, none, some, Option-cases,
  Result-cases, ◌≡◌, refl, ap, ◌∙◌, subst, inl, inr, arith,
}
use viam_cpp_sdk.Prelude.Dict.{find, update, find-update, emplace}
use viam_cpp_sdk.Split.{Splitter}
use viam_cpp_sdk.Names.Api.{Api, Api-discrete}
use viam_cpp_sdk.Manager.{Manager, resource, add_short, Operation, adds_short, step, run}
use viam_cpp_sdk.Manager.Induction.{empty_manager}
use viam_cpp_sdk.Server.{Server, new_managers, add_resource}
use viam_cpp_sdk.ModuleService.{World, Resource}

-- The manager is what some calls have made of an empty one.
unfoldable pub IsRun : {R : Type 0} → Splitter → Manager R → Type 0
IsRun {R} b m = (os : List (Operation R)) × (run b os empty_manager ≡ m)

run-concat :
    {R : Type 0} (b : Splitter) (os : List (Operation R)) (o : Operation R) (m : Manager R)
    → run b (os ++ o ∷ []) m ≡ step b o (run b os m)
unfolding run
run-concat b [] o m = refl
run-concat b (p ∷ os) o m = run-concat b os o (step b p m)

pub step-IsRun :
    {R : Type 0} (b : Splitter) (o : Operation R) (m : Manager R) → IsRun b m → IsRun b (step b o m)
unfolding IsRun
step-IsRun b o m (os, e) = (os ++ o ∷ [], run-concat b os o empty_manager ∙ ap (step b o) e)

module _ (w : World) (b : Splitter) where
  -- All managers of a server are runs.
  abbrev pub AllRuns : Server w.class → Type 0
  AllRuns s =
      (a : Api) (m : Manager (Resource w))
      → find Api-discrete a s.managed_servers ≡ some m
      → IsRun b m

  pub update-AllRuns :
      (a : Api) (f : Manager (Resource w) → Manager (Resource w)) (s : Server w.class)
      → ((m : Manager (Resource w))
          → find Api-discrete a s.managed_servers ≡ some m
          → IsRun b m
          → IsRun b (f m))
      → AllRuns s
      → AllRuns (record s { managed_servers = update Api-discrete a f s.managed_servers })
  update-AllRuns a f s k h c m e = elim (Option-cases (find Api-discrete c s.managed_servers)) [
    | inl g ↦ absurd (ground (arith, g, e, find-update Api-discrete a c f s.managed_servers))
    | inr (n, g) ↦ elim (Api-discrete a c) [
      | yes p ↦
          let q : f n ≡ m =
            ground (arith, g, e, p, find-update Api-discrete a c f s.managed_servers) in
          subst (IsRun b) q (k n (ap (λ x. find Api-discrete x s.managed_servers) p ∙ g) (h c n g))
      | no p ↦
          let q : n ≡ m =
            ground (arith, g, e, p, find-update Api-discrete a c f s.managed_servers) in
          subst (IsRun b) q (h c n g)
    ]
  ]

  pub new_managers-IsRun :
      (l : List (Api × Bytes)) (a : Api) (m : Manager (Resource w))
      → find Api-discrete a (new_managers l) ≡ some m
      → IsRun b m
  unfolding find IsRun run emplace
  new_managers-IsRun [] a m e = cc
  new_managers-IsRun ((c, n) ∷ l) a m e =
      elim (Option-cases (find Api-discrete c (new_managers {R = Resource w} l))) [
        | inr (x, g) ↦ new_managers-IsRun l a m (ground (arith, e, g))
        | inl g ↦ elim (Api-discrete c a) [
          | yes p ↦
              let q : some empty_manager ≡ some m = ground (arith, e, g, p) in
              ([], ap (λ o. elim o [ none ↦ empty_manager | some x ↦ x ]) q)
          | no p ↦ new_managers-IsRun l a m (ground (arith, e, g, p))
        ]
      ]

  pub add_resource-AllRuns :
      (resource : Option (Resource w)) (expired : Bool) (s t : Server w.class)
      → add_resource b resource expired s ≡ finished t
      → AllRuns s
      → AllRuns t
  unfolding add_resource step
  add_resource-AllRuns resource true s t e h = cc
  add_resource-AllRuns none false s t e h = cc
  add_resource-AllRuns (some r) false s t e h =
      elim (Option-cases (find Api-discrete (w.class.api r) s.managed_servers)) [
        | inl f ↦ absurd (ground (arith, e, f))
        | inr (m, f) ↦ elim (Result-cases (add_short b (w.class.name r) r m)) [
          | inl (x, g) ↦ absurd (ground (arith, e, f, g))
          | inr (m', g) ↦
              let q : record s {
                managed_servers = update Api-discrete (w.class.api r) (λ _. m') s.managed_servers;
              }
                  ≡ t =
                ground (arith, e, f, g) in
              subst AllRuns q (
                update-AllRuns (w.class.api r) (λ _. m') s
                  (λ x p k.
                    let i : x ≡ m = ground (arith, p, f) in
                    let j : step b (adds_short (w.class.name r) r) x ≡ m' = ground (arith, g, i) in
                    subst (IsRun b) j (step-IsRun b (adds_short (w.class.name r) r) x k))
                  h)
        ]
      ]
