-- ===== src/ModuleService/Handlers.antt =====
-- The handlers of `ModuleService::ServiceImpl`.
use viam_cpp_sdk.Prelude.{
  finished, thrown, crashed, Bool, true, false, List, [], ◌∷◌, ◌++◌, Bytes, Bytes-discrete, ite,
  Option, none, some, Result, ok, err, Error, ◌>>=◌,
}
use viam_cpp_sdk.Prelude.Dict.{update}
use viam_cpp_sdk.Split.{Splitter}
use viam_cpp_sdk.Names.Api.{Api, Api-discrete}
use viam_cpp_sdk.Names.Model.{Model}
use viam_cpp_sdk.Names.Name
use viam_cpp_sdk.Names.Name.{Name}
use viam_cpp_sdk.Config.{resource_name}
use viam_cpp_sdk.Config.Message.{Config, ComponentConfig, from_proto}
use viam_cpp_sdk.Registry.{ModelRegistration, lookup_model}
use viam_cpp_sdk.Registry as Registry
use viam_cpp_sdk.HandlerMap as HandlerMap
use viam_cpp_sdk.HandlerMap.{HandlerDefinition, add_model}
use viam_cpp_sdk.Manager.{Manager, resource, remove, replace_one}
use viam_cpp_sdk.Server.{lookup_resource_server, add_resource}
use viam_cpp_sdk.ModuleService.{
  World, Resource, Dependencies, types, Environment, Service, get_dependencies,
}

-- What a handler does in the end: it returns a status, an exception leaves it, or it follows a null
-- pointer.
pub data Reply : Type 0 where
  status_ok status_internal status_unknown : Reply
  escapes : Error → Reply
  crashes : Reply

module _ (w : World) where
  -- `AddResourceRequest` and `ReconfigureResourceRequest`.
  pub record ConfigRequest : Type 0 where
    pub config : ComponentConfig w.contents
    pub dependencies : List Bytes

  pub record ReadyRequest : Type 0 where
    pub raw_parent_address : Bytes
    pub parent_address : Bytes

  pub data Request : Type 0 where
    add_request : ConfigRequest → Request
    reconfigure_request : ConfigRequest → Request
    remove_request : Bytes → Request
    ready_request : ReadyRequest → Request

module _ {w : World} (b : Splitter) (env : Environment w) where
  abbrev pub config_of : ComponentConfig w.contents → Result (Config w.contents)
  config_of proto = from_proto w.contents b proto

  abbrev pub registration_of : Config w.contents → Option (ModelRegistration (types w))
  registration_of cfg = lookup_model cfg.api cfg.model env.registry

  -- The resource of `AddResource`; a null pointer where no model is registered. A constructor that
  -- returns a null pointer, which the handler follows, is not modelled.
  abbrev pub construct :
      Option (ModelRegistration (types w))
      → Dependencies w
      → Config w.contents
      → Result (Option (Resource w))
  construct none deps cfg = ok none
  construct (some reg) deps cfg = do res ← reg.construct_resource deps cfg; ok (some res)

  -- An exception leaves the server as it was: `Server::add_resource` and the manager throw before they
  -- change anything.
  abbrev pub add_to_server : Result (Option (Resource w)) → Service w → Service w × Reply
  add_to_server (err _) s = (s, status_internal)
  add_to_server (ok res) s = elim (add_resource b res env.deadline_expired s.server) [
    | finished server' ↦ (record s { server = server' }, status_ok)
    | thrown _ ↦ (s, status_internal)
    | crashed ↦ (s, crashes)
  ]

  unfoldable pub add_resource_handler : ConfigRequest w → Service w → Service w × Reply
  add_resource_handler request s = elim (config_of request.config) [
    | err e ↦ (s, escapes e)
    | ok cfg ↦
        let (s', deps) = get_dependencies b env request.dependencies s in
        elim deps [
          | err e ↦ (s', escapes e)
          | ok ds ↦ add_to_server (construct (registration_of cfg) ds cfg) s'
        ]
  ]

  -- `stop` on a `Stoppable`, which may throw.
  abbrev pub stop_resource : Resource w → Service w → Service w × Option Error
  stop_resource res s = elim (w.stop res) [
    | none ↦ (s, none)
    | some stopped ↦ elim stopped [
      | ok _ ↦ (record s { stopped = res ∷ s.stopped }, none)
      | err e ↦ (s, some e)
    ]
  ]

  abbrev pub change_manager :
      Api → (Manager (Resource w) → Manager (Resource w)) → Service w → Service w
  change_manager api f s = record s {
    server = record s.server {
      managed_servers = update Api-discrete api f s.server.managed_servers;
    };
  }

  -- The end of `ReconfigureResource`, behind the resource that is stopped.
  abbrev pub rebuild : Config w.contents → Dependencies w → Name → Service w → Service w × Reply
  rebuild cfg deps name s = elim (registration_of cfg) [
    | none ↦ (s, status_internal)
    | some reg ↦
        (change_manager cfg.api (replace_one b name (reg.construct_resource deps cfg)) s, status_ok)
  ]

  -- What follows the search for the resource in the manager of its API.
  abbrev pub stop_and_rebuild :
      Config w.contents
      → Dependencies w
      → Name
      → Option (Resource w)
      → Service w
      → Service w × Reply
  stop_and_rebuild cfg deps name none s = (s, status_unknown)
  stop_and_rebuild cfg deps name (some res) s =
      let (s', failure) = stop_resource res s in
      elim failure [ some e ↦ (s', escapes e) | none ↦ rebuild cfg deps name s' ]

  unfoldable pub reconfigure_resource_handler : ConfigRequest w → Service w → Service w × Reply
  reconfigure_resource_handler request s = elim (config_of request.config) [
    | err e ↦ (s, escapes e)
    | ok cfg ↦
        let (s', deps) = get_dependencies b env request.dependencies s in
        elim deps [
          | err e ↦ (s', escapes e)
          | ok ds ↦ elim (lookup_resource_server cfg.api s'.server) [
            | none ↦ (s', status_unknown)
            | some manager ↦ elim (resource_name b cfg) [
              | err e ↦ (s', escapes e)
              | ok name ↦ stop_and_rebuild cfg ds name (resource name.name manager) s'
            ]
          ]
        ]
  ]

  -- The names of the implicit dependencies are the answer of `ValidateConfig`.
  unfoldable pub validate_config_handler : ConfigRequest w → Reply × List Bytes
  validate_config_handler request = elim (config_of request.config) [
    | err e ↦ (escapes e, [])
    | ok cfg ↦ elim (registration_of cfg) [
      | none ↦ (status_unknown, [])
      | some reg ↦ elim (reg.validate cfg) [
        | err e ↦ (status_unknown, [])
        | ok implicit_deps ↦ (status_ok, implicit_deps)
      ]
    ]
  ]

  abbrev pub stop_and_remove : Name → Option (Resource w) → Service w → Service w × Reply
  stop_and_remove name none s = (s, status_unknown)
  stop_and_remove name (some res) s =
      let (s', failure) = stop_resource res s in
      elim failure [
        | some e ↦ (s', escapes e)
        | none ↦ (change_manager name.api (remove b name) s', status_ok)
      ]

  unfoldable pub remove_resource_handler : Bytes → Service w → Service w × Reply
  remove_resource_handler request s = elim (Name.from_string b request) [
    | err e ↦ (s, escapes e)
    | ok name ↦ elim (lookup_resource_server name.api s.server) [
      | none ↦ (s, status_unknown)
      | some manager ↦ stop_and_remove name (resource name.name manager) s
    ]
  ]

  -- The part of `Ready` that connects to the parent; the address is stored before the connection.
  abbrev pub connect_parent : Bytes → Service w → Service w × Option Error
  connect_parent new_parent_addr s =
      ite (Bytes-discrete s.parent_addr new_parent_addr) (s, none)
        (elim (env.at_local_socket new_parent_addr) [
          | err e ↦ (record s { parent_addr = new_parent_addr }, some e)
          | ok _ ↦ (record s { parent_addr = new_parent_addr; parent = some new_parent_addr }, none)
        ])

  abbrev pub parent_address_of : ReadyRequest w → Bytes
  parent_address_of request =
      ite (Bytes-discrete request.raw_parent_address []) request.parent_address
        request.raw_parent_address

  -- The answer of `Ready`: the handlers and whether the module is ready.
  unfoldable pub ready_handler :
      ReadyRequest w → Service w → Service w × Reply × List HandlerDefinition × Bool
  ready_handler request s =
      let (s', failure) : Service w × Option Error = elim env.no_module_parent [
        | true ↦ (s, none)
        | false ↦ connect_parent (s.grpc_conn_protocol ++ parent_address_of request) s
      ] in
      elim failure [
        | some e ↦ (s', escapes e, [], false)
        | none ↦ (s', status_ok, HandlerMap.to_proto s.handles, s'.ready)
      ]

  -- `add_model_from_registry`: the service that is registered for the API names the subtype.
  unfoldable pub add_model_from_registry : Api → Model → Service w → Service w
  add_model_from_registry api model s =
      let service : Bytes = elim (Registry.lookup_resource_server api env.registry) [
        | none ↦ []
        | some descriptor ↦ elim descriptor [ none ↦ [] | some full_name ↦ full_name ]
      ] in
      record s {
        handles = add_model model (record { api = api; proto_service_name = service }) s.handles;
      }

  -- One request that changes the service.
  unfoldable pub handle : Request w → Service w → Service w × Reply
  unfolding add_resource_handler reconfigure_resource_handler remove_resource_handler ready_handler
  handle (add_request r) s = add_resource_handler r s
  handle (reconfigure_request r) s = reconfigure_resource_handler r s
  handle (remove_request name) s = remove_resource_handler name s
  handle (ready_request r) s = let (s', reply, _, _) = ready_handler r s in (s', reply)
