-- ===== src/ModuleService/Failures.antt =====
-- Requests that do not do what they ask for.
use viam_cpp_sdk.Prelude.{
  false, Bytes, Option, none, some, Result, ok, err, Error, Result-cases, ◌≡◌, ◌≢◌, refl, ap, ◌∙◌,
  inl, inr, arith,
}
use viam_cpp_sdk.Split.{Splitter}
use viam_cpp_sdk.Names.Name
use viam_cpp_sdk.Names.Name.{Name, short_name}
use viam_cpp_sdk.Config.{resource_name}
use viam_cpp_sdk.Manager.{Manager, resource, find_resource, remove, replace_one}
use viam_cpp_sdk.Manager.Effects.{remove_absent, replace_one_failed, remove-resources}
use viam_cpp_sdk.Config.Message.{Config}
use viam_cpp_sdk.Registry.{ModelRegistration, lookup_model}
use viam_cpp_sdk.Server.{add_resource, lookup_resource_server}
use viam_cpp_sdk.ModuleService.{
  World, Resource, Dependencies, types, Environment, Service, get_dependencies,
}
use viam_cpp_sdk.ModuleService.WellFormed.{get_dependencies-server}
use viam_cpp_sdk.ModuleService.Removal.{
  with_stopped, lookup-change_manager, stop_cases, remove_resource_handler_step,
}
use viam_cpp_sdk.ModuleService.Outcomes.{add_resource_handler_step}
use viam_cpp_sdk.ModuleService.Handlers.{
  status_ok, crashes, ConfigRequest, config_of, construct, registration_of, add_to_server,
  add_resource_handler, change_manager, rebuild, stop_and_rebuild, reconfigure_resource_handler,
  remove_resource_handler,
}

module _ (w : World) (b : Splitter) where
  add_to_server_failed :
      (env : Environment w) (x : Result (Option (Resource w))) (s : Service w)
      → (add_to_server b env x s).1 ≢ status_ok
      → (add_to_server b env x s).0.server ≡ s.server
  add_to_server_failed env (err e) s h = refl
  add_to_server_failed env (ok res) s h = ground (arith, h)

  -- After a request to add a resource whose reply is not OK, no manager of the server and nothing else
  -- of it has changed.
  pub add_resource_failed :
      (env : Environment w) (r : ConfigRequest w) (s : Service w)
      → (add_resource_handler b env r s).1 ≢ status_ok
      → (add_resource_handler b env r s).0.server ≡ s.server
  unfolding add_resource_handler
  add_resource_failed env r s h = elim (Result-cases (config_of b env r.config)) [
    | inl (x, e) ↦ rw (e, add_resource_handler) refl
    | inr (cfg, e) ↦ elim (Result-cases (get_dependencies b env r.dependencies s).1) [
      | inl (x, f) ↦
          rw (e, f, add_resource_handler) (get_dependencies-server w b env r.dependencies s)
      | inr (ds, f) ↦
          let q = add_resource_handler_step w b env r s cfg ds e f in
          let t = (get_dependencies b env r.dependencies s).0 in
          let x = construct b env (registration_of b env cfg) ds cfg in
          let k : (add_to_server b env x t).1 ≢ status_ok = λ p. h (ap (λ y. y.1) q ∙ p) in
          ap (λ y. y.0.server) q
          ∙ add_to_server_failed env x t k
          ∙ get_dependencies-server w b env r.dependencies s
    ]
  ]

  -- A request to add a resource of a model that is not registered, with dependencies that are found
  -- and before its deadline, follows a null pointer: the failed lookup leads to no reply.
  pub unregistered_model_crashes :
      (env : Environment w) (r : ConfigRequest w) (s : Service w) (cfg : Config w.contents)
      (ds : Dependencies w)
      → config_of b env r.config ≡ ok cfg
      → (get_dependencies b env r.dependencies s).1 ≡ ok ds
      → lookup_model cfg.api cfg.model env.registry ≡ none
      → env.deadline_expired ≡ false
      → (add_resource_handler b env r s).1 ≡ crashes
  unfolding add_resource
  unregistered_model_crashes env r s cfg ds hc hd hl he =
      rw (add_resource_handler_step w b env r s cfg ds hc hd) (rw (hl, he, add_to_server) refl)

  stopped_and_rebuilt :
      (env : Environment w) (cfg : Config w.contents) (ds : Dependencies w) (n : Name)
      (res : Resource w) (s : Service w)
      → ((x : Error) → w.stop res ≢ some (err x))
      → stop_and_rebuild b env cfg ds n (some res) s
        ≡ rebuild b env cfg ds n (record s { stopped = with_stopped (w.stop res) res s.stopped })
  stopped_and_rebuilt env cfg ds n res s h = elim (stop_cases w b res h) [
    | inl e ↦ ground (arith, e)
    | inr e ↦ ground (arith, e)
  ]

  -- A request to remove a resource by a name that no resource has in full, but that is found by itself
  -- as a shortcut, and whose `stop`, if it is `Stoppable`, does not throw: the resource is stopped, if
  -- it is `Stoppable`, the reply is OK, and the manager of its API is the same as before, so that the
  -- resource stays.
  pub remote_removal :
      (env : Environment w) (request : Bytes) (n : Name) (s : Service w) (m : Manager (Resource w))
      (res : Resource w)
      → Name.from_string b request ≡ ok n
      → lookup_resource_server n.api s.server ≡ some m
      → find_resource (short_name n) m.resources ≡ none
      → resource n.name m ≡ some res
      → ((x : Error) → w.stop res ≢ some (err x))
      → let (s', reply) = remove_resource_handler b env request s in
        (reply ≡ status_ok)
        × (s'.stopped ≡ with_stopped (w.stop res) res s.stopped)
        × (lookup_resource_server n.api s'.server ≡ some m)
  remote_removal env request n s m res hn hs hf hr ht =
      let t = record s { stopped = with_stopped (w.stop res) res s.stopped } in
      rw (remove_resource_handler_step w b env request n s m res hn hs hr ht) (
        refl,
        refl,
        lookup-change_manager w b env n.api (remove b n) t m hs ∙ ap some (remove_absent b n m hf),
      )

  -- A request to reconfigure a resource that stands under its full name and that the search by the name
  -- alone finds, whose `stop`, if it is `Stoppable`, does not throw, whose dependencies are found, and
  -- whose model is registered but throws when the new resource is made: the reply is OK all the same,
  -- nothing stands under the full name any more, and every other resource of its API stays.
  pub reconfigure_loses :
      (env : Environment w) (r : ConfigRequest w) (s : Service w) (e : Error)
      (cfg : Config w.contents) (ds : Dependencies w) (n : Name) (reg : ModelRegistration (types w))
      (res : Resource w) (m : Manager (Resource w))
      → config_of b env r.config ≡ ok cfg
      → (get_dependencies b env r.dependencies s).1 ≡ ok ds
      → lookup_resource_server cfg.api s.server ≡ some m
      → resource_name b cfg ≡ ok n
      → resource n.name m ≡ some res
      → find_resource (short_name n) m.resources ≡ some res
      → ((x : Error) → w.stop res ≢ some (err x))
      → lookup_model cfg.api cfg.model env.registry ≡ some reg
      → reg.construct_resource ds cfg ≡ err e
      → let (s', reply) = reconfigure_resource_handler b env r s in
        (reply ≡ status_ok)
        × ((m' : Manager (Resource w)) × (lookup_resource_server cfg.api s'.server ≡ some m')
            × (find_resource (short_name n) m'.resources ≡ none)
            × ((k : Bytes)
                → k ≢ short_name n
                → find_resource k m'.resources ≡ find_resource k m.resources))
  unfolding reconfigure_resource_handler
  reconfigure_loses env r s e cfg ds n reg res m hc hd hs hn hr hf ht hl hx =
      let t = (get_dependencies b env r.dependencies s).0 in
      let u = record t { stopped = with_stopped (w.stop res) res t.stopped } in
      let k : lookup_resource_server cfg.api t.server ≡ some m =
        ap (lookup_resource_server cfg.api) (get_dependencies-server w b env r.dependencies s)
        ∙ hs in
      let q : reconfigure_resource_handler b env r s
          ≡ (change_manager b env cfg.api (replace_one b n (err e)) u, status_ok) =
        rw (hc, hd, reconfigure_resource_handler)
          (rw k (
            rw hn (
              rw hr
                (stopped_and_rebuilt env cfg ds n res t ht ∙ rw (hl, rebuild) (rw hx refl))))) in
      rw q (
        refl,
        (
          remove b n m,
          lookup-change_manager w b env cfg.api (replace_one b n (err e)) u m k
              ∙ ap some (replace_one_failed b n e m),
          (remove-resources b n m).0,
          (remove-resources b n m).1,
        ),
      )
