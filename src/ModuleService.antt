-- ===== src/ModuleService.antt =====
-- `ModuleService` of module/service.hpp and module/service.cpp: the handlers by which viam-server
-- adds, changes, validates and removes the resources of a module.
pub mod Handlers
pub mod Managers
pub mod WellFormed
pub mod Outcomes
pub mod Removal
pub mod Failures
mod Tests
use viam_cpp_sdk.Prelude.{
  Bool, true, false, List, [], ◌∷◌, ◌++◌, Bytes, Bytes-discrete, codes, ite, Option, none, some,
  Result, ok, err, Error, exception, k_resource_not_found,
}
use viam_cpp_sdk.Prelude.Dict.{Dict, emplace}
use viam_cpp_sdk.Split.{Splitter}
use viam_cpp_sdk.Names.Api.{Api}
use viam_cpp_sdk.Names.Model.{Model}
use viam_cpp_sdk.Names.Name
use viam_cpp_sdk.Names.Name.{Name}
use viam_cpp_sdk.Config.Message.{Contents, Config}
use viam_cpp_sdk.Registry.{Types, Registry}
use viam_cpp_sdk.Registry.Resources.{frame_system}
use viam_cpp_sdk.HandlerMap.{HandlerMap}
use viam_cpp_sdk.Server.{ResourceClass, Server}

-- A resource, the attributes and the frame of its configuration, and what `stop` does to it: nothing
-- where the resource is not `Stoppable`.
pub record World : Type 1 where
  pub class : ResourceClass
  pub contents : Contents
  pub stop : class.Resource → Option (Result (Unit {0}))

module _ (w : World) where
  abbrev pub Resource : Type 0
  Resource = w.class.Resource

  -- `Dependencies`: a map by the text of a name, which its equality compares. A pointer may be null.
  abbrev pub Dependencies : Type 0
  Dependencies = Dict Bytes (Option Resource)

  -- What the registry passes on; a registered server shows the name of its service, if any.
  abbrev pub types : Types
  types = record {
    Dependencies = Dependencies;
    Config = Config w.contents;
    Resource = Resource;
    ServerRegistration = Option Bytes;
    ClientRegistration = Unit {0};
  }

  -- The rest of the machine as a call meets it: the registry of the process, the clock, and
  -- viam-server, to which a client connects at an address and which it then asks for resources.
  pub record Environment : Type 0 where
    pub registry : Registry types
    pub deadline_expired : Bool
    pub no_module_parent : Bool
    pub at_local_socket : Bytes → Result (Unit {0})
    pub resource_by_name : Bytes → Name → Result (Option Resource)

  -- `parent` is the address that the client `parent_` was connected to. `stopped` is no field of the
  -- class: the resources that have been stopped, the last one first.
  pub record Service : Type 0 where
    pub server : Server w.class
    pub handles : HandlerMap
    pub ready : Bool
    pub parent_addr : Bytes
    pub parent : Option Bytes
    pub grpc_conn_protocol : Bytes
    pub stopped : List Resource

-- `FrameSystem::public_name()`.
abbrev pub frame_system_name : Name
frame_system_name = record { api = frame_system; remote_name = []; name = codes "$framesystem" }

abbrev pub emplace_dependency :
    {R : Type 0} → Name → Option R → Dict Bytes (Option R) → Dict Bytes (Option R)
emplace_dependency name resource deps = emplace Bytes-discrete (Name.to_string name) resource deps

module _ {w : World} where
  -- `get_parent_resource_`: the client connects at the first call.
  unfoldable pub get_parent_resource :
      Environment w → Name → Service w → Service w × Result (Option (Resource w))
  get_parent_resource env name s = elim s.parent [
    | some addr ↦ (s, env.resource_by_name addr name)
    | none ↦ elim (env.at_local_socket s.parent_addr) [
      | err e ↦ (s, err e)
      | ok _ ↦ (record s { parent = some s.parent_addr }, env.resource_by_name s.parent_addr name)
    ]
  ]

  -- The loop of `get_dependencies_`.
  unfoldable pub add_dependencies :
      Splitter
      → Environment w
      → List Bytes
      → Dependencies w
      → Service w
      → Service w × Result (Dependencies w)
  unfolding get_parent_resource
  add_dependencies b env [] deps s = (s, ok deps)
  add_dependencies b env (dep ∷ rest) deps s = elim (Name.from_string b dep) [
    | err e ↦ (s, err e)
    | ok name ↦
        let (s', found) = get_parent_resource env name s in
        elim found [
          | err e ↦ (s', err e)
          | ok resource ↦ elim resource [
            | none ↦ (s', err (exception k_resource_not_found))
            | some r ↦ add_dependencies b env rest (emplace_dependency name (some r) deps) s'
          ]
        ]
  ]

  -- The client of the frame system is there unasked.
  abbrev pub add_seeded :
      Splitter → Environment w → List Bytes → Service w → Service w × Result (Dependencies w)
  add_seeded b env proto s =
      let (s', found) = get_parent_resource env frame_system_name s in
      elim found [
        | err e ↦ (s', err e)
        | ok resource ↦
            add_dependencies b env proto (emplace_dependency frame_system_name resource []) s'
      ]

  unfoldable pub get_dependencies :
      Splitter → Environment w → List Bytes → Service w → Service w × Result (Dependencies w)
  get_dependencies b env proto s =
      ite (Bytes-discrete s.parent_addr []) (add_dependencies b env proto [] s)
        (add_seeded b env proto s)
