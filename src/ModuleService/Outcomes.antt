-- ===== src/ModuleService/Outcomes.antt =====
-- What a request leaves behind.
use viam_cpp_sdk.Prelude.{
  finished, false, Option, none, some, Result, ok, ◌≡◌, refl, ap, ◌∙◌, arith,
}
use viam_cpp_sdk.Prelude.Dict.{update, find-update}
use viam_cpp_sdk.Split.{Splitter}
use viam_cpp_sdk.Names.Api.{Api-discrete}
use viam_cpp_sdk.Manager.{Manager, resource, find_resource}
use viam_cpp_sdk.Manager.Effects.{add_short-resource}
use viam_cpp_sdk.Config.Message.{Config}
use viam_cpp_sdk.Registry.{ModelRegistration, lookup_model}
use viam_cpp_sdk.Server.{Server, add_resource, lookup_resource_server}
use viam_cpp_sdk.ModuleService.{
  World, Resource, Dependencies, types, Environment, Service, get_dependencies,
}
use viam_cpp_sdk.ModuleService.WellFormed.{get_dependencies-server}
use viam_cpp_sdk.ModuleService.Handlers.{
  status_ok, ConfigRequest, config_of, construct, registration_of, add_to_server,
  add_resource_handler,
}

module _ (w : World) (b : Splitter) where
  -- Where the server for the API of the resource has its name free, and the deadline is not over, the
  -- resource is added.
  add_resource_done :
      (r : Resource w) (s : Server w.class) (m : Manager (Resource w))
      → lookup_resource_server (w.class.api r) s ≡ some m
      → find_resource (w.class.name r) m.resources ≡ none
      → (s' : Server w.class) × (m' : Manager (Resource w)) × (add_resource b (some r) false s
          ≡ finished s')
        × (lookup_resource_server (w.class.api r) s' ≡ some m')
        × (resource (w.class.name r) m' ≡ some r)
  unfolding add_resource lookup_resource_server
  add_resource_done r s m h f =
      let (m', e, g) = add_short-resource b (w.class.name r) r m f in
      let s' = record s {
        managed_servers = update Api-discrete (w.class.api r) (λ _. m') s.managed_servers;
      } in
      (
        s',
        m',
        ground (arith, h, e),
        ground (
          arith,
          h,
          find-update Api-discrete (w.class.api r) (w.class.api r) (λ _. m') s.managed_servers,
        ),
        g,
      )

  -- With a configuration and dependencies, the handler constructs and adds.
  pub add_resource_handler_step :
      (env : Environment w) (r : ConfigRequest w) (s : Service w) (cfg : Config w.contents)
      (ds : Dependencies w)
      → config_of b env r.config ≡ ok cfg
      → (get_dependencies b env r.dependencies s).1 ≡ ok ds
      → add_resource_handler b env r s
        ≡ add_to_server b env
            (construct b env (registration_of b env cfg) ds cfg)
            (get_dependencies b env r.dependencies s).0
  unfolding add_resource_handler
  add_resource_handler_step env r s cfg ds hc hd = rw (hc, hd, add_resource_handler) refl

  add_to_server_done :
      (env : Environment w) (x : Result (Option (Resource w))) (res : Resource w) (s : Service w)
      (s' : Server w.class)
      → x ≡ ok (some res)
      → env.deadline_expired ≡ false
      → add_resource b (some res) false s.server ≡ finished s'
      → add_to_server b env x s ≡ (record s { server = s' }, status_ok)
  add_to_server_done env x res s s' e h a = rw (e, h, a, add_to_server) refl

  -- Where the configuration of a request to add a resource is read, its dependencies are found, its
  -- model is registered and constructs the resource, the deadline is not over, and the server has a
  -- manager for the API of the resource, in which its name is free: the reply is OK, and the resource
  -- is found by its name in the manager of its API.
  pub add_resource_registered :
      (env : Environment w) (r : ConfigRequest w) (s : Service w) (cfg : Config w.contents)
      (ds : Dependencies w) (reg : ModelRegistration (types w)) (res : Resource w)
      (m : Manager (Resource w))
      → config_of b env r.config ≡ ok cfg
      → (get_dependencies b env r.dependencies s).1 ≡ ok ds
      → lookup_model cfg.api cfg.model env.registry ≡ some reg
      → reg.construct_resource ds cfg ≡ ok res
      → env.deadline_expired ≡ false
      → lookup_resource_server (w.class.api res) s.server ≡ some m
      → find_resource (w.class.name res) m.resources ≡ none
      → let (s', reply) = add_resource_handler b env r s in
        (reply ≡ status_ok)
        × ((m' : Manager (Resource w)) × (lookup_resource_server (w.class.api res) s'.server
              ≡ some m')
            × (resource (w.class.name res) m' ≡ some res))
  add_resource_registered env r s cfg ds reg res m hc hd hl hr he hs hf =
      let k : lookup_resource_server (w.class.api res)
            (get_dependencies b env r.dependencies s).0.server
          ≡ some m =
        ap (lookup_resource_server (w.class.api res))
          (get_dependencies-server w b env r.dependencies s)
        ∙ hs in
      let (s', m', a, f, g) =
        add_resource_done res (get_dependencies b env r.dependencies s).0.server m k hf in
      let q : add_resource_handler b env r s
          ≡ (record (get_dependencies b env r.dependencies s).0 { server = s' }, status_ok) =
        add_resource_handler_step env r s cfg ds hc hd
        ∙ add_to_server_done env (construct b env (registration_of b env cfg) ds cfg) res
            (get_dependencies b env r.dependencies s).0 s' (rw (hl, hr) refl) he a in
      rw q (refl, (m', f, g))
