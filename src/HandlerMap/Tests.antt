-- ===== src/HandlerMap/Tests.antt =====
-- The theorem on handler maps at a map of one API under two services.
use viam_cpp_sdk.Prelude.{[], ◌∷◌, codes, ◌≡◌, refl}
use viam_cpp_sdk.Prelude.Dict.{vector_at}
use viam_cpp_sdk.Split.Reference.{splitter}
use viam_cpp_sdk.Names.Words.{is_word_byte}
use viam_cpp_sdk.Names.Api.{Api}
use viam_cpp_sdk.Names.Model.{Model, make}
use viam_cpp_sdk.Names.Model.Parse.{IsValid}
use viam_cpp_sdk.HandlerMap.{HandlerMap, RpcSubtype-discrete, subtype_of, to_proto, from_proto}
use viam_cpp_sdk.HandlerMap.RoundTrip.{models_of, handler_map-from_proto-to_proto}

abbrev sensor : Api
sensor = record {
  type_namespace = codes "rdk";
  resource_type = codes "component";
  resource_subtype = codes "sensor";
}

abbrev first : Model
first = make (codes "a") (codes "b") (codes "c")

abbrev second : Model
second = make (codes "a") (codes "b") (codes "d")

abbrev handles : HandlerMap
handles =
    (record { api = sensor; proto_service_name = codes "s" }, first ∷ [])
    ∷ (record { api = sensor; proto_service_name = codes "t" }, second ∷ [])
    ∷ []

first-IsValid : IsValid first
unfolding is_word_byte
first-IsValid = record {
  namespace_word = ((λ e. cc), (refl, tt));
  family_word = ((λ e. cc), (refl, tt));
  name_word = ((λ e. cc), (refl, tt));
}

second-IsValid : IsValid second
unfolding is_word_byte
second-IsValid = record {
  namespace_word = ((λ e. cc), (refl, tt));
  family_word = ((λ e. cc), (refl, tt));
  name_word = ((λ e. cc), (refl, tt));
}

handler_map-from_proto-to_proto_example :
    vector_at RpcSubtype-discrete (subtype_of sensor) (from_proto splitter (to_proto handles))
    ≡ models_of sensor handles
handler_map-from_proto-to_proto_example =
    handler_map-from_proto-to_proto splitter sensor handles
      ((first-IsValid, tt), ((second-IsValid, tt), tt))
