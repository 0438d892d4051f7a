-- ===== src/Server.antt =====
-- `Server` of rpc/server.hpp and rpc/server.cpp. The builder and the server of gRPC are what has
-- been registered with them; the limits of message sizes and the credentials are not modelled.
pub mod Lifecycle
mod Tests
use viam_cpp_sdk.Prelude.{
  Outcome, finished, thrown, crashed, Bool, true, false, List, [], ◌∷◌, ◌++◌, Bytes, Option, none,
  some, Result, ok, err, Error, exception, k_general, k_resource_not_found, ◌≡◌, refl, ◌⊎◌, inl,
  inr,
}
use viam_cpp_sdk.Prelude.Dict.{Dict, find, emplace, update}
use viam_cpp_sdk.Split.{Splitter}
use viam_cpp_sdk.Names.Api.{Api, Api-discrete}
use viam_cpp_sdk.Manager.{Manager, add_short}

-- A resource as the server sees it: an object with the virtual functions `api` and `name`.
pub record ResourceClass : Type 1 where
  pub Resource : Type 0
  pub api : Resource → Api
  pub name : Resource → Bytes

pub record Builder : Type 0 where
  pub services : List Bytes
  pub ports : List Bytes

abbrev pub no_services : Builder
no_services = record { services = []; ports = [] }

module _ (c : ResourceClass) where
  -- `server` is what the server was built from.
  pub record Server : Type 0 where
    pub managed_servers : Dict Api (Manager c.Resource)
    pub builder : Option Builder
    pub server : Option Builder

-- The loop of the constructor over the APIs and the services of the registered resource servers.
abbrev pub new_managers : {R : Type 0} → List (Api × Bytes) → Dict Api (Manager R)
new_managers [] = []
new_managers ((a, _) ∷ r) =
    emplace Api-discrete a (record { resources = []; short_names = [] }) (new_managers r)

abbrev pub new_services : List (Api × Bytes) → List Bytes
new_services [] = []
new_services ((_, s) ∷ r) = s ∷ new_services r

module _ {c : ResourceClass} where
  unfoldable pub new_server : List (Api × Bytes) → Server c
  new_server registered = record {
    managed_servers = new_managers registered;
    builder = some (record { services = new_services registered; ports = [] });
    server = none;
  }

  unfoldable pub lookup_resource_server : Api → Server c → Option (Manager c.Resource)
  lookup_resource_server api s = find Api-discrete api s.managed_servers

  unfoldable pub register_service : Bytes → Server c → Outcome (Server c)
  register_service service s = elim s.builder [
    | none ↦ thrown (exception k_general)
    | some b ↦
        finished (record s { builder = some (record b { services = b.services ++ service ∷ [] }) })
  ]

  unfoldable pub add_listening_port : Bytes → Server c → Outcome (Server c)
  add_listening_port address s = elim s.builder [
    | none ↦ thrown (exception k_general)
    | some b ↦ finished (record s { builder = some (record b { ports = b.ports ++ address ∷ [] }) })
  ]

  -- `built` says whether `BuildAndStart` gives a server; it gives a null pointer where it fails.
  unfoldable pub start : Bool → Server c → Outcome (Server c)
  start built s = elim s.server [
    | some _ ↦ thrown (exception k_general)
    | none ↦ elim s.builder [
      | none ↦ crashed
      | some b ↦
          finished
            (record s { server = elim built [ true ↦ some b | false ↦ none ]; builder = none })
    ]
  ]

  -- `add_resource`; `expired` says that there is a deadline before now. The manager's exception for a
  -- name that is taken passes through.
  unfoldable pub add_resource : Splitter → Option c.Resource → Bool → Server c → Outcome (Server c)
  add_resource b resource true s = thrown (exception k_general)
  add_resource b none false s = crashed
  add_resource b (some r) false s = elim (find Api-discrete (c.api r) s.managed_servers) [
    | none ↦ thrown (exception k_resource_not_found)
    | some manager ↦ elim (add_short b (c.name r) r manager) [
      | err e ↦ thrown e
      | ok manager' ↦ finished (record s {
        managed_servers = update Api-discrete (c.api r) (λ _. manager') s.managed_servers;
      })
    ]
  ]
