-- ===== src/ModuleService/Removal.antt =====
-- Requests to remove a resource, and how a request changes one manager of the server.
use viam_cpp_sdk.Prelude.{
  List, ◌∷◌, Bytes, Option, none, some, Option-cases, Result, ok, err, Error, ◌≡◌, ◌≢◌, refl, ◌⊎◌,
  subst, inl, inr, arith,
}
use viam_cpp_sdk.Prelude.Dict.{find-update}
use viam_cpp_sdk.Split.{Splitter}
use viam_cpp_sdk.Names.Api.{Api, Api-discrete}
use viam_cpp_sdk.Names.Name
use viam_cpp_sdk.Names.Name.{Name, short_name}
use viam_cpp_sdk.Manager.{Manager, resource, find_resource, remove}
use viam_cpp_sdk.Manager.Effects.{remove-resources}
use viam_cpp_sdk.Manager.Invariant.{Inv}
use viam_cpp_sdk.Manager.Lookup.{history-Inv, resource-remove}
use viam_cpp_sdk.Server.{new_server, lookup_resource_server}
use viam_cpp_sdk.ModuleService.{World, Resource, Environment, Service}
use viam_cpp_sdk.ModuleService.Managers.{IsRun}
use viam_cpp_sdk.ModuleService.WellFormed.{serve, managers_are_runs}
use viam_cpp_sdk.ModuleService.Handlers.{
  status_ok, Request, change_manager, stop_and_remove, remove_resource_handler,
}

-- The resources that have been stopped, after one whose `stop` returned, or that has none.
abbrev pub with_stopped : {R : Type 0} → Option (Result (Unit {0})) → R → List R → List R
with_stopped none res stopped = stopped
with_stopped (some _) res stopped = res ∷ stopped

module _ (w : World) (b : Splitter) where
  pub lookup-change_manager :
      (env : Environment w) (a : Api) (f : Manager (Resource w) → Manager (Resource w))
      (s : Service w) (m : Manager (Resource w))
      → lookup_resource_server a s.server ≡ some m
      → lookup_resource_server a (change_manager b env a f s).server ≡ some (f m)
  unfolding lookup_resource_server
  lookup-change_manager env a f s m h =
      ground (arith, h, find-update Api-discrete a a f s.server.managed_servers)

  lookup_other :
      (env : Environment w) (a c : Api) (f : Manager (Resource w) → Manager (Resource w))
      (s : Service w)
      → c ≢ a
      → lookup_resource_server c (change_manager b env a f s).server
        ≡ lookup_resource_server c s.server
  unfolding lookup_resource_server
  lookup_other env a c f s ne =
      ground (arith, find-update Api-discrete a c f s.server.managed_servers)

  -- A `stop` that does not throw.
  pub stop_cases :
      (res : Resource w)
      → ((x : Error) → w.stop res ≢ some (err x))
      → (w.stop res ≡ none) ⊎ (w.stop res ≡ some (ok tt))
  stop_cases res h = elim (Option-cases (w.stop res)) [
    | inl e ↦ inl e
    | inr (ok tt, e) ↦ inr e
    | inr (err x, e) ↦ absurd (h x e)
  ]

  stopped_and_removed :
      (env : Environment w) (n : Name) (res : Resource w) (s : Service w)
      → ((x : Error) → w.stop res ≢ some (err x))
      → stop_and_remove b env n (some res) s ≡ (
        change_manager b env n.api
            (remove b n)
            (record s { stopped = with_stopped (w.stop res) res s.stopped }),
        status_ok,
      )
  stopped_and_removed env n res s h = elim (stop_cases res h) [
    | inl e ↦ ground (arith, e)
    | inr e ↦ ground (arith, e)
  ]

  -- A request by a name that finds a resource.
  pub remove_resource_handler_step :
      (env : Environment w) (request : Bytes) (n : Name) (s : Service w) (m : Manager (Resource w))
      (res : Resource w)
      → Name.from_string b request ≡ ok n
      → lookup_resource_server n.api s.server ≡ some m
      → resource n.name m ≡ some res
      → ((x : Error) → w.stop res ≢ some (err x))
      → remove_resource_handler b env request s ≡ (
        change_manager b env n.api
            (remove b n)
            (record s { stopped = with_stopped (w.stop res) res s.stopped }),
        status_ok,
      )
  unfolding remove_resource_handler
  remove_resource_handler_step env request n s m res hn hs hr ht =
      rw (hn, hs, remove_resource_handler) (rw hr (stopped_and_removed env n res s ht))

  -- After any requests to a service that began with a new server, where a request to remove a resource
  -- names one that stands under its full name and that the search by the name alone finds, and whose
  -- `stop`, if it is `Stoppable`, does not throw: the resource is stopped, if it is `Stoppable`, and the
  -- reply is OK. No search finds anything by its full name any more, and every other resource of its
  -- API and the managers of all other APIs stay as they were.
  pub served_removal :
      (registered : List (Api × Bytes)) (start : Service w)
      (history : List (Environment w × Request w)) (env : Environment w) (request : Bytes)
      (n : Name) (m : Manager (Resource w)) (res : Resource w)
      → start.server ≡ new_server registered
      → Name.from_string b request ≡ ok n
      → lookup_resource_server n.api (serve w b history start).server ≡ some m
      → find_resource (short_name n) m.resources ≡ some res
      → resource n.name m ≡ some res
      → ((x : Error) → w.stop res ≢ some (err x))
      → let s = serve w b history start in
        let (s', reply) = remove_resource_handler b env request s in
        (reply ≡ status_ok)
        × (s'.stopped ≡ with_stopped (w.stop res) res s.stopped)
        × ((m' : Manager (Resource w)) × (lookup_resource_server n.api s'.server ≡ some m')
            × (resource (short_name n) m' ≡ none)
            × ((k : Bytes)
                → k ≢ short_name n
                → find_resource k m'.resources ≡ find_resource k m.resources))
        × ((a : Api)
            → a ≢ n.api
            → lookup_resource_server a s'.server ≡ lookup_resource_server a s.server)
  unfolding IsRun
  served_removal registered start history env request n m res h0 hn hs hf hr ht =
      let s = serve w b history start in
      let t = record s { stopped = with_stopped (w.stop res) res s.stopped } in
      let (os, e) = managers_are_runs w b registered start history n.api m h0 hs in
      let v : Inv b m = subst (Inv b) e (history-Inv b os) in
      rw (remove_resource_handler_step env request n s m res hn hs hr ht) (
        refl,
        refl,
        (
          remove b n m,
          lookup-change_manager env n.api (remove b n) t m hs,
          resource-remove b n m v (λ e. ground (arith, hf, e)),
          (remove-resources b n m).1,
        ),
        λ a ne. lookup_other env n.api a (remove b n) t ne,
      )
