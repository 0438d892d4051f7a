-- ===== src/ModuleService/WellFormed.antt =====
-- What any sequence of requests does to the managers of a module.
use viam_cpp_sdk.Prelude.{
  Outcome-cases, List, [], ◌∷◌, Bytes, Bytes-discrete, Option, none, some, Option-cases, Result, ok,
  err, Result-cases, if_pos, if_neg, ◌≡◌, refl, sym, ◌∙◌, subst, inl, inr, arith,
}
use viam_cpp_sdk.Split.{Splitter}
use viam_cpp_sdk.Names.Api.{Api}
use viam_cpp_sdk.Names.Name
use viam_cpp_sdk.Names.Name.{Name}
use viam_cpp_sdk.Config.{resource_name}
use viam_cpp_sdk.Config.Message.{Config}
use viam_cpp_sdk.Manager.{Manager, resource, remove, replace_one, removes, replaces_one, step}
use viam_cpp_sdk.Server.{new_server, add_resource, lookup_resource_server}
use viam_cpp_sdk.ModuleService.{
  World, Resource, Dependencies, Environment, Service, emplace_dependency, frame_system_name,
  add_seeded, get_parent_resource, add_dependencies, get_dependencies,
}
use viam_cpp_sdk.ModuleService.Handlers.{
  ConfigRequest, ReadyRequest, Request, add_request, reconfigure_request, remove_request,
  ready_request, config_of, construct, registration_of, add_to_server, add_resource_handler,
  stop_resource, rebuild, stop_and_rebuild, reconfigure_resource_handler, stop_and_remove,
  remove_resource_handler, connect_parent, ready_handler, handle,
}
use viam_cpp_sdk.ModuleService.Managers.{
  IsRun, AllRuns, step-IsRun, update-AllRuns, new_managers-IsRun, add_resource-AllRuns,
}

module _ (w : World) (b : Splitter) where
  get_parent_resource-server :
      (env : Environment w) (n : Name) (s : Service w)
      → (get_parent_resource env n s).0.server ≡ s.server
  unfolding get_parent_resource
  get_parent_resource-server env n s = ground arith

  add_dependencies-server :
      (env : Environment w) (l : List Bytes) (deps : Dependencies w) (s : Service w)
      → (add_dependencies b env l deps s).0.server ≡ s.server
  unfolding add_dependencies
  add_dependencies-server env [] deps s = refl
  add_dependencies-server env (d ∷ l) deps s = elim (Result-cases (Name.from_string b d)) [
    | inl (x, e) ↦ rw (e, add_dependencies) refl
    | inr (n, e) ↦
        rw (e, add_dependencies)
          (elim (Result-cases (get_parent_resource env n s).1) [
            | inl (x, f) ↦ rw (f, add_dependencies) (get_parent_resource-server env n s)
            | inr (none, f) ↦ rw (f, add_dependencies) (get_parent_resource-server env n s)
            | inr (some r, f) ↦
                rw (f, add_dependencies)
                  (add_dependencies-server env l (emplace_dependency n (some r) deps)
                      (get_parent_resource env n s).0
                    ∙ get_parent_resource-server env n s)
          ])
  ]

  seeded_server :
      (env : Environment w) (l : List Bytes) (s : Service w)
      → (add_seeded b env l s).0.server ≡ s.server
  seeded_server env l s = elim (Result-cases (get_parent_resource env frame_system_name s).1) [
    | inl (x, f) ↦ rw (f, add_seeded) (get_parent_resource-server env frame_system_name s)
    | inr (r, f) ↦
        rw (f, add_seeded)
          (add_dependencies-server env l (emplace_dependency frame_system_name r [])
              (get_parent_resource env frame_system_name s).0
            ∙ get_parent_resource-server env frame_system_name s)
  ]

  pub get_dependencies-server :
      (env : Environment w) (l : List Bytes) (s : Service w)
      → (get_dependencies b env l s).0.server ≡ s.server
  unfolding get_dependencies
  get_dependencies-server env l s = elim (Bytes-discrete s.parent_addr []) [
    | yes e ↦
        rw (if_pos _ e (add_dependencies b env l [] s) (add_seeded b env l s))
          (add_dependencies-server env l [] s)
    | no e ↦
        rw (if_neg _ e (add_dependencies b env l [] s) (add_seeded b env l s))
          (seeded_server env l s)
  ]

  add_to_server-AllRuns :
      (env : Environment w) (res : Result (Option (Resource w))) (s : Service w)
      → AllRuns w b s.server
      → AllRuns w b (add_to_server b env res s).0.server
  add_to_server-AllRuns env (err x) s h = h
  add_to_server-AllRuns env (ok res) s h =
      elim (Outcome-cases (add_resource b res env.deadline_expired s.server)) [
        | inl (t, e) ↦
            rw (e, add_to_server) (add_resource-AllRuns w b res env.deadline_expired s.server t e h)
        | inr (inl (x, e)) ↦ rw (e, add_to_server) h
        | inr (inr e) ↦ rw (e, add_to_server) h
      ]

  add_resource_handler-AllRuns :
      (env : Environment w) (r : ConfigRequest w) (s : Service w)
      → AllRuns w b s.server
      → AllRuns w b (add_resource_handler b env r s).0.server
  unfolding add_resource_handler
  add_resource_handler-AllRuns env r s h =
      let k = subst (AllRuns w b) (sym (get_dependencies-server env r.dependencies s)) h in
      elim (Result-cases (config_of b env r.config)) [
        | inl (x, e) ↦ rw (e, add_resource_handler) h
        | inr (cfg, e) ↦
            rw (e, add_resource_handler)
              (elim (Result-cases (get_dependencies b env r.dependencies s).1) [
                | inl (x, f) ↦ rw (f, add_resource_handler) k
                | inr (ds, f) ↦
                    rw (f, add_resource_handler)
                      (add_to_server-AllRuns env
                        (construct b env (registration_of b env cfg) ds cfg)
                        (get_dependencies b env r.dependencies s).0 k)
              ])
      ]

  pub stop_resource-server :
      (env : Environment w) (r : Resource w) (s : Service w)
      → (stop_resource b env r s).0.server ≡ s.server
  stop_resource-server env r s = ground arith

  stop_and_remove-AllRuns :
      (env : Environment w) (n : Name) (o : Option (Resource w)) (s : Service w)
      → AllRuns w b s.server
      → AllRuns w b (stop_and_remove b env n o s).0.server
  unfolding step
  stop_and_remove-AllRuns env n none s h = h
  stop_and_remove-AllRuns env n (some r) s h =
      let k = subst (AllRuns w b) (sym (stop_resource-server env r s)) h in
      elim (Option-cases (stop_resource b env r s).1) [
        | inr (x, e) ↦ rw (e, stop_and_remove) k
        | inl e ↦
            rw (e, stop_and_remove)
              (update-AllRuns w b n.api (remove b n) (stop_resource b env r s).0.server
                (λ m _. step-IsRun b (removes n) m) k)
      ]

  rebuild-AllRuns :
      (env : Environment w) (cfg : Config w.contents) (ds : Dependencies w) (n : Name)
      (s : Service w)
      → AllRuns w b s.server
      → AllRuns w b (rebuild b env cfg ds n s).0.server
  unfolding step
  rebuild-AllRuns env cfg ds n s h = elim (Option-cases (registration_of b env cfg)) [
    | inl e ↦ rw (e, rebuild) h
    | inr (reg, e) ↦
        rw (e, rebuild)
          (update-AllRuns w b cfg.api (replace_one b n (reg.construct_resource ds cfg)) s.server
            (λ m _. step-IsRun b (replaces_one n (reg.construct_resource ds cfg)) m) h)
  ]

  stop_and_rebuild-AllRuns :
      (env : Environment w) (cfg : Config w.contents) (ds : Dependencies w) (n : Name)
      (o : Option (Resource w)) (s : Service w)
      → AllRuns w b s.server
      → AllRuns w b (stop_and_rebuild b env cfg ds n o s).0.server
  stop_and_rebuild-AllRuns env cfg ds n none s h = h
  stop_and_rebuild-AllRuns env cfg ds n (some r) s h =
      let k = subst (AllRuns w b) (sym (stop_resource-server env r s)) h in
      elim (Option-cases (stop_resource b env r s).1) [
        | inr (x, e) ↦ rw (e, stop_and_rebuild) k
        | inl e ↦
            rw (e, stop_and_rebuild) (rebuild-AllRuns env cfg ds n (stop_resource b env r s).0 k)
      ]

  connect_parent-AllRuns :
      (env : Environment w) (addr : Bytes) (s : Service w)
      → AllRuns w b s.server
      → AllRuns w b (connect_parent b env addr s).0.server
  connect_parent-AllRuns env addr s h = subst (AllRuns w b) (sym p) h
    where
      p : (connect_parent b env addr s).0.server ≡ s.server
      p = ground arith

  ready_handler-server :
      (env : Environment w) (r : ReadyRequest w) (s : Service w)
      → (ready_handler b env r s).0.server ≡ s.server
  unfolding ready_handler
  ready_handler-server env r s = ground arith

  remove_resource_handler-AllRuns :
      (env : Environment w) (n : Bytes) (s : Service w)
      → AllRuns w b s.server
      → AllRuns w b (remove_resource_handler b env n s).0.server
  unfolding remove_resource_handler
  remove_resource_handler-AllRuns env n s h = elim (Result-cases (Name.from_string b n)) [
    | inl (x, e) ↦ rw (e, remove_resource_handler) h
    | inr (name, e) ↦
        rw (e, remove_resource_handler)
          (elim (Option-cases (lookup_resource_server name.api s.server)) [
            | inl f ↦ rw f h
            | inr (m, f) ↦ rw f (stop_and_remove-AllRuns env name (resource name.name m) s h)
          ])
  ]

  reconfigure_resource_handler-AllRuns :
      (env : Environment w) (r : ConfigRequest w) (s : Service w)
      → AllRuns w b s.server
      → AllRuns w b (reconfigure_resource_handler b env r s).0.server
  unfolding reconfigure_resource_handler
  reconfigure_resource_handler-AllRuns env r s h =
      let t = (get_dependencies b env r.dependencies s).0 in
      let k : AllRuns w b t.server =
        subst (AllRuns w b) (sym (get_dependencies-server env r.dependencies s)) h in
      elim (Result-cases (config_of b env r.config)) [
        | inl (x, e) ↦ rw (e, reconfigure_resource_handler) h
        | inr (cfg, e) ↦
            rw (e, reconfigure_resource_handler)
              (elim (Result-cases (get_dependencies b env r.dependencies s).1) [
                | inl (x, f) ↦ rw f k
                | inr (ds, f) ↦
                    rw f (elim (Option-cases (lookup_resource_server cfg.api t.server)) [
                      | inl g ↦ rw g k
                      | inr (m, g) ↦ rw g (elim (Result-cases (resource_name b cfg)) [
                        | inl (x, i) ↦ rw i k
                        | inr (n, i) ↦
                            rw i (stop_and_rebuild-AllRuns env cfg ds n (resource n.name m) t k)
                      ])
                    ])
              ])
      ]

  pub handle-AllRuns :
      (env : Environment w) (r : Request w) (s : Service w)
      → AllRuns w b s.server
      → AllRuns w b (handle b env r s).0.server
  unfolding handle
  handle-AllRuns env (add_request r) s h = add_resource_handler-AllRuns env r s h
  handle-AllRuns env (reconfigure_request r) s h = reconfigure_resource_handler-AllRuns env r s h
  handle-AllRuns env (remove_request n) s h = remove_resource_handler-AllRuns env n s h
  handle-AllRuns env (ready_request r) s h =
      subst (AllRuns w b) (sym (ready_handler-server env r s)) h

  unfoldable pub serve : List (Environment w × Request w) → Service w → Service w
  serve [] s = s
  serve ((env, r) ∷ rs) s = serve rs (handle b env r s).0

  serve-AllRuns :
      (rs : List (Environment w × Request w)) (s : Service w)
      → AllRuns w b s.server
      → AllRuns w b (serve rs s).server
  unfolding serve
  serve-AllRuns [] s h = h
  serve-AllRuns ((env, r) ∷ rs) s h =
      serve-AllRuns rs (handle b env r s).0 (handle-AllRuns env r s h)

  -- From a service with a new server on, whatever requests it gets and whatever the registry, the
  -- clock and viam-server answer to each of them, every manager of the server is one that a sequence
  -- of calls of the methods of the manager makes of an empty one.
  pub managers_are_runs :
      (registered : List (Api × Bytes)) (s : Service w) (rs : List (Environment w × Request w))
      (a : Api) (m : Manager (Resource w))
      → s.server ≡ new_server registered
      → lookup_resource_server a (serve rs s).server ≡ some m
      → IsRun b m
  unfolding new_server lookup_resource_server
  managers_are_runs registered s rs a m e h =
      serve-AllRuns rs s (subst (AllRuns w b) (sym e) (new_managers-IsRun w b registered)) a m h
