-- ===== src/HandlerMap/RoundTrip.antt =====
-- The models of an API, after the handler map is sent and read.
use mathlib.Core.List.{append_assoc, append-nil}
use mathlib.Core.Logic.{if_pos, if_neg}
use viam_cpp_sdk.Prelude.{List, [], ◌∷◌, ◌++◌, Bytes, ◌≡◌, refl, ap, ite, All, arith}
use viam_cpp_sdk.Prelude.Dict.{push_back, vector_at, vector_at-push_back}
use viam_cpp_sdk.Split.{Splitter}
use viam_cpp_sdk.Names.Api.{Api, Api-discrete}
use viam_cpp_sdk.Names.Model
use viam_cpp_sdk.Names.Model.{Model}
use viam_cpp_sdk.Names.Model.Parse.{IsValid, from_str-to_string}
use viam_cpp_sdk.Names.Name.{RpcSubtype}
use viam_cpp_sdk.Names.Name
use viam_cpp_sdk.HandlerMap.{
  HandlerMap, RpcSubtype-discrete, subtype_of, add_model, model_texts, to_proto, add_models,
  add_handlers, from_proto,
}

-- The models that the map has for an API, under any service.
unfoldable pub models_of : Api → HandlerMap → List Model
models_of api [] = []
models_of api ((h, models) ∷ rest) =
    ite (Api-discrete h.api api) (models ++ models_of api rest) (models_of api rest)

abbrev pub AllValid : HandlerMap → Type 0
AllValid = All (λ e. All IsValid (e.1))

module _ (b : Splitter) where
  add_models-valid :
      (h : RpcSubtype) (m : Model) (r : List Bytes) (hm : HandlerMap)
      → IsValid m
      → add_models b h (Model.to_string m ∷ r) hm
        ≡ add_models b h r (push_back RpcSubtype-discrete h m hm)
  unfolding add_models add_model
  add_models-valid h m r hm v = ground (arith, from_str-to_string b m v)

  add_models-vector_at :
      (k h : RpcSubtype) (models : List Model) (hm : HandlerMap)
      → All IsValid models
      → vector_at RpcSubtype-discrete k (add_models b h (model_texts models) hm)
        ≡ ite
            (RpcSubtype-discrete h k)
            (vector_at RpcSubtype-discrete k hm ++ models)
            (vector_at RpcSubtype-discrete k hm)
  unfolding add_models
  add_models-vector_at k h [] hm v = ground (arith, append-nil (vector_at RpcSubtype-discrete k hm))
  add_models-vector_at k h (m ∷ models) hm v = ground (
    arith,
    add_models-valid h m (model_texts models) hm v.0,
    add_models-vector_at k h models (push_back RpcSubtype-discrete h m hm) v.1,
    vector_at-push_back RpcSubtype-discrete h k m hm,
    append_assoc (vector_at RpcSubtype-discrete k hm) (m ∷ []) models,
  )

  same_subtype :
      {X : Type 0} (g a : Api) (x y : X)
      → ite (RpcSubtype-discrete (subtype_of g) (subtype_of a)) x y ≡ ite (Api-discrete g a) x y
  same_subtype g a x y = elim (Api-discrete g a) [
    | yes e ↦ rw (if_pos _ (ap subtype_of e), if_pos _ e) refl
    | no n ↦ rw (if_neg _ (λ e. n (ap (λ (s : RpcSubtype). s.api) e)), if_neg _ n) refl
  ]

  add_handlers-vector_at :
      (a : Api) (hm acc : HandlerMap)
      → AllValid hm
      → vector_at RpcSubtype-discrete (subtype_of a) (add_handlers b (to_proto hm) acc)
        ≡ vector_at RpcSubtype-discrete (subtype_of a) acc ++ models_of a hm
  unfolding add_handlers to_proto models_of Name.to_proto
  add_handlers-vector_at a [] acc v = rw append-nil
  add_handlers-vector_at a ((h, models) ∷ rest) acc v =
      let next = add_models b (subtype_of h.api) (model_texts models) acc in
      ground (
        arith,
        add_handlers-vector_at a rest next v.1,
        add_models-vector_at (subtype_of a) (subtype_of h.api) models acc v.0,
        same_subtype h.api a (vector_at RpcSubtype-discrete (subtype_of a) acc ++ models)
            (vector_at RpcSubtype-discrete (subtype_of a) acc),
        append_assoc (vector_at RpcSubtype-discrete (subtype_of a) acc) models (models_of a rest),
      )

  -- Where all models are valid, the map that is read has under each API, with the empty name for
  -- the service, the models of that API in their order, those under all its services together.
  pub handler_map-from_proto-to_proto :
      (a : Api) (hm : HandlerMap)
      → AllValid hm
      → vector_at RpcSubtype-discrete (subtype_of a) (from_proto b (to_proto hm)) ≡ models_of a hm
  unfolding from_proto vector_at
  handler_map-from_proto-to_proto a hm v = add_handlers-vector_at a hm [] v
