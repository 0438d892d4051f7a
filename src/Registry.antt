-- ===== src/Registry.antt =====
-- `Registry` of registry/registry.hpp and registry/registry.cpp: what is known of the models, and of
-- the servers and clients of an API. The calls of constructors and the descriptors of generated
-- services are values of any type. Messages and locks are not modelled.
pub mod Resources
pub mod Keys
pub mod Lookup
mod Tests
use viam_cpp_sdk.Prelude.{
  List, [], ◌∷◌, ◌++◌, Bytes, Bytes-discrete, Option, none, some, Result, ok, err, exception,
  k_duplicate_registration, ◌>>=◌,
}
use viam_cpp_sdk.Prelude.Dict.{Dict, find, emplace}
use viam_cpp_sdk.Names.Api
use viam_cpp_sdk.Names.Api.{Api, Api-discrete}
use viam_cpp_sdk.Names.Model
use viam_cpp_sdk.Names.Model.{Model}

-- The types that the registry passes on: dependencies, configurations and resources, and the
-- registrations of servers and of clients.
pub record Types : Type 1 where
  pub Dependencies : Type 0
  pub Config : Type 0
  pub Resource : Type 0
  pub ServerRegistration : Type 0
  pub ClientRegistration : Type 0

module _ (t : Types) where
  pub record ModelRegistration : Type 0 where
    pub construct_resource : t.Dependencies → t.Config → Result t.Resource
    pub validate : t.Config → Result (List Bytes)
    pub model : Model
    pub api : Api

  -- The constructor without a validator: no dependencies are named.
  pub without_validator :
      Api → Model → (t.Dependencies → t.Config → Result t.Resource) → ModelRegistration
  without_validator api model constructor = record {
    construct_resource = constructor;
    validate = λ _. ok [];
    model = model;
    api = api;
  }

  pub record Registry : Type 0 where
    pub resources : Dict Bytes ModelRegistration
    pub client_apis : Dict Api t.ClientRegistration
    pub server_apis : Dict Api t.ServerRegistration

  abbrev pub no_registrations : Registry
  no_registrations = record { resources = []; client_apis = []; server_apis = [] }

-- The key of a model: the text of its API, a slash and its own text.
unfoldable pub key : Api → Model → Bytes
key api model = Api.to_string api ++ b'/' ∷ Model.to_string model

-- The test and the entry that the three kinds of registration share.
abbrev pub register : {K V : Type 0} → Discrete K → K → V → Dict K V → Result (Dict K V)
register dec k v m = elim (find dec k m) [
  | some _ ↦ err (exception k_duplicate_registration)
  | none ↦ ok (emplace dec k v m)
]

module _ {t : Types} where
  unfoldable pub register_model : ModelRegistration t → Registry t → Result (Registry t)
  register_model resource r = do
    resources ← register Bytes-discrete (key resource.api resource.model) resource r.resources
    ok (record { resources = resources; client_apis = r.client_apis; server_apis = r.server_apis })

  unfoldable pub register_resource_server :
      Api → t.ServerRegistration → Registry t → Result (Registry t)
  register_resource_server api registration r = do
    server_apis ← register Api-discrete api registration r.server_apis
    ok (record { resources = r.resources; client_apis = r.client_apis; server_apis = server_apis })

  unfoldable pub register_resource_client :
      Api → t.ClientRegistration → Registry t → Result (Registry t)
  register_resource_client api registration r = do
    client_apis ← register Api-discrete api registration r.client_apis
    ok (record { resources = r.resources; client_apis = client_apis; server_apis = r.server_apis })

  -- `none` is the null pointer.
  unfoldable pub lookup_model_named : Bytes → Registry t → Option (ModelRegistration t)
  lookup_model_named name r = find Bytes-discrete name r.resources

  unfoldable pub lookup_model : Api → Model → Registry t → Option (ModelRegistration t)
  unfolding lookup_model_named
  lookup_model api model r = lookup_model_named (key api model) r

  unfoldable pub lookup_resource_server : Api → Registry t → Option t.ServerRegistration
  lookup_resource_server api r = find Api-discrete api r.server_apis

  unfoldable pub lookup_resource_client : Api → Registry t → Option t.ClientRegistration
  lookup_resource_client api r = find Api-discrete api r.client_apis
