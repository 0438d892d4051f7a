-- ===== src/HandlerMap.antt =====
-- `HandlerMap_` of module/handler_map.hpp and module/handler_map.cpp, and its message. The logged
-- errors and the printing are left out.
pub mod RoundTrip
mod Tests
use viam_cpp_sdk.Prelude.{List, [], ◌∷◌, Bytes, Bytes-discrete, Result, ok, err}
use viam_cpp_sdk.Prelude.Dict.{Dict, push_back}
use viam_cpp_sdk.Split.{Splitter}
use viam_cpp_sdk.Names.Api.{Api, Api-discrete}
use viam_cpp_sdk.Names.Model
use viam_cpp_sdk.Names.Model.{Model}
use viam_cpp_sdk.Names.Name.{RpcSubtype, ResourceName}
use viam_cpp_sdk.Names.Name

-- `operator==` of `RPCSubtype` compares the API and the name of the service.
unfoldable pub RpcSubtype-discrete : Discrete RpcSubtype
unfolding Api-discrete Bytes-discrete
RpcSubtype-discrete = hlevel (Api-discrete, Bytes-discrete)

abbrev pub HandlerMap : Type 0
HandlerMap = Dict RpcSubtype (List Model)

-- `RPCSubtype(api)`.
abbrev pub subtype_of : Api → RpcSubtype
subtype_of api = record { api = api; proto_service_name = [] }

unfoldable pub add_model : Model → RpcSubtype → HandlerMap → HandlerMap
add_model model subtype hm = push_back RpcSubtype-discrete subtype model hm

-- `module::v1::HandlerDefinition` with its `robot::v1::ResourceRPCSubtype`.
pub record HandlerDefinition : Type 0 where
  pub subtype : ResourceName
  pub proto_service : Bytes
  pub models : List Bytes

abbrev pub model_texts : List Model → List Bytes
model_texts [] = []
model_texts (model ∷ models) = Model.to_string model ∷ model_texts models

unfoldable pub to_proto : HandlerMap → List HandlerDefinition
to_proto [] = []
to_proto ((h, models) ∷ rest) =
    record {
      subtype = Name.to_proto (record { api = h.api; remote_name = []; name = [] });
      proto_service = h.proto_service_name;
      models = model_texts models;
    }
    ∷ to_proto rest

module _ (b : Splitter) where
  -- A model that cannot be read is logged and left out.
  unfoldable pub add_models : RpcSubtype → List Bytes → HandlerMap → HandlerMap
  unfolding add_model
  add_models handle [] hm = hm
  add_models handle (mod_text ∷ rest) hm = elim (Model.from_str b mod_text) [
    | ok model ↦ add_models handle rest (add_model model handle hm)
    | err _ ↦ add_models handle rest hm
  ]

  unfoldable pub add_handlers : List HandlerDefinition → HandlerMap → HandlerMap
  unfolding add_models
  add_handlers [] hm = hm
  add_handlers (handler ∷ handlers) hm =
      let name = handler.subtype in
      let api : Api = record {
        type_namespace = name.namespace;
        resource_type = name.type;
        resource_subtype = name.subtype;
      } in
      add_handlers handlers (add_models (subtype_of api) handler.models hm)

  unfoldable pub from_proto : List HandlerDefinition → HandlerMap
  unfolding add_handlers
  from_proto handlers = add_handlers handlers []
