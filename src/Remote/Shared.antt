-- ===== src/Remote/Shared.antt =====
-- The calls that most components have: `do_command`, `get_status`, `get_geometries`, `is_moving` and
-- `stop`, with the same code in each client and server under components/private. What a component is,
-- on both sides of a call.
use viam_cpp_sdk.Prelude.{
  Bool, List, Bytes, map, Option, none, some, Result, ok, err, exception, k_grpc, Outcome, finished,
  thrown, ◌≡◌, refl, sym, ap, ◌∙◌,
}
use viam_cpp_sdk.Prelude.Double.{Double, Vector3}
use viam_cpp_sdk.Proto.{ProtoStruct, Struct, to_struct, from_struct}
use viam_cpp_sdk.Proto.RoundTrip.{StructIsMaps, struct-from_proto-to_proto}
use viam_cpp_sdk.Spatial.Convert.{
  to_repeated_field, from_repeated_field, from_repeated_field-to_repeated_field,
}
use viam_cpp_sdk.Spatial.Geometry as Geometry
use viam_cpp_sdk.Spatial.Geometry.{
  GeometryConfig, GeometryMessage, without_orientation, geometry-from_proto-to_proto,
}
use viam_cpp_sdk.Remote.{
  Call, Handler, service_helper, get_extra, invoke_with, invoke_plain, responds, relay,
}
use viam_cpp_sdk.Remote.Laws.{IsSendable, invoke_with-service_helper, invoke_plain-service_helper}

-- A component: the methods of its class with what they return, its gRPC service, its server and its
-- client. An object is what it does at each call of a method. `IsSent` says which arguments a request
-- carries unchanged, `IsCarried` which values a response carries, and `arrives` is what becomes of such
-- a value on its way.
pub record Component (S : Type 0) : Type 1 where
  pub Method : Type 0
  pub Answer : Method → Type 0
  pub Service : Type 0
  pub server : (Bytes → Option ((m : Method) → Call S (Answer m))) → Service
  pub client : Bytes → Service → (m : Method) → Call S (Answer m)
  pub IsSent : Method → Type 0
  pub IsCarried : (m : Method) → Answer m → Type 0
  pub arrives : (m : Method) → Answer m → Answer m

module _ {S : Type 0} (k : Component S) where
  abbrev pub Object : Type 0
  Object = (m : k.Method) → Call S (k.Answer m)

  -- The client's call of each method is the object's, where the object is served.
  abbrev pub IsRelayed : Type 0
  IsRelayed =
      (lookup : Bytes → Option Object) (name : Bytes) (object : Object) (m : k.Method) (s : S)
      → lookup name ≡ some object
      → k.IsSent m
      → ((a : k.Answer m) → (object m s).1 ≡ finished a → k.IsCarried m a)
      → k.client name (k.server lookup) m s ≡ relay (k.arrives m) (object m) s

  -- Where it is not, the client's call throws and nothing happens.
  abbrev pub IsRefused : Type 0
  IsRefused =
      (lookup : Bytes → Option Object) (name : Bytes) (m : k.Method) (s : S)
      → lookup name ≡ none
      → k.IsSent m
      → k.client name (k.server lookup) m s ≡ (s, thrown (exception k_grpc))

abbrev pub same : {A : Type 0} → A → A
same a = a

abbrev pub returned : {A : Type 0} → Result A → Outcome A
returned (ok a) = finished a
returned (err e) = thrown e

-- A conversion that may throw before the call.
abbrev pub attempt : {S A B : Type 0} → Result A → (A → Call S B) → Call S B
attempt (ok a) call s = call a s
attempt (err e) call s = (s, thrown e)

module _ (d : Double) {S C : Type 0} where
  open d use {D}

  -- `DoCommand`: the command and the result are structs.
  abbrev pub do_command_handler :
      (Bytes → Option C)
      → (ProtoStruct D → C → Call S (ProtoStruct D))
      → Handler D S (Struct D) (Struct D)
  do_command_handler lookup method =
      service_helper lookup
        (λ request c. responds to_struct (method (from_struct request.fields) c))

  abbrev pub get_status_handler :
      (Bytes → Option C) → (C → Call S (ProtoStruct D)) → Handler D S (Unit {0}) (Struct D)
  get_status_handler lookup method =
      service_helper lookup (λ request c. responds to_struct (method c))

  abbrev pub is_moving_handler :
      (Bytes → Option C) → (C → Call S Bool) → Handler D S (Unit {0}) Bool
  is_moving_handler lookup method = service_helper lookup (λ request c. responds same (method c))

  -- A method with extra parameters alone, such as `stop`.
  abbrev pub extra_handler :
      {A P : Type 0}
      → (A → P)
      → (Bytes → Option C)
      → (ProtoStruct D → C → Call S A)
      → Handler D S (Unit {0}) P
  extra_handler to_response lookup method =
      service_helper lookup (λ request c. responds to_response (method (get_extra request) c))

module _ (d : Double) {S : Type 0} where
  open d use {D}

  abbrev pub do_command_client :
      Handler D S (Struct D) (Struct D) → Bytes → ProtoStruct D → Call S (ProtoStruct D)
  do_command_client handler name command =
      invoke_plain handler name (to_struct command) (λ response. finished (from_struct response))

  abbrev pub get_status_client : Handler D S (Unit {0}) (Struct D) → Bytes → Call S (ProtoStruct D)
  get_status_client handler name =
      invoke_plain handler name tt (λ response. finished (from_struct response))

  abbrev pub is_moving_client : Handler D S (Unit {0}) Bool → Bytes → Call S Bool
  is_moving_client handler name = invoke_plain handler name tt finished

  abbrev pub extra_client :
      {A P : Type 0} → (P → Outcome A) → Handler D S (Unit {0}) P → Bytes → ProtoStruct D → Call S A
  extra_client handle handler name extra = invoke_with handler name extra tt handle

module _ (d : Double) where
  -- common/linear_algebra.cpp; `common::v1::Vector3` has the same fields.
  abbrev pub vector_to_proto : Vector3 d → Vector3 d
  vector_to_proto v = record { x = v.x; y = v.y; z = v.z }

  abbrev pub vector_from_proto : Vector3 d → Vector3 d
  vector_from_proto proto = record { x = proto.x; y = proto.y; z = proto.z }

  abbrev pub geometries_to_proto : List (GeometryConfig d) → List (GeometryMessage d)
  geometries_to_proto = to_repeated_field (Geometry.to_proto d)

  abbrev pub geometries_from_proto : List (GeometryMessage d) → Outcome (List (GeometryConfig d))
  geometries_from_proto response = returned (from_repeated_field (Geometry.from_proto d) response)

  -- What arrives of geometries: they lose their orientations.
  abbrev pub geometries_arrive : List (GeometryConfig d) → List (GeometryConfig d)
  geometries_arrive = map (without_orientation d)

  pub geometries_carried :
      (l : List (GeometryConfig d))
      → geometries_from_proto (geometries_to_proto l) ≡ finished (geometries_arrive l)
  geometries_carried l = ap returned (
      from_repeated_field-to_repeated_field (Geometry.to_proto d) (Geometry.from_proto d)
        (without_orientation d) (geometry-from_proto-to_proto d) l)

module _ (d : Double) {S C : Type 0} where
  open d use {D}

  pub do_command_relayed :
      (lookup : Bytes → Option C) (method : ProtoStruct D → C → Call S (ProtoStruct D))
      (name : Bytes) (command : ProtoStruct D) (c : C) (s : S)
      → lookup name ≡ some c
      → StructIsMaps command
      → ((r : ProtoStruct D) → (method command c s).1 ≡ finished r → StructIsMaps r)
      → do_command_client d (do_command_handler d lookup method) name command s
        ≡ relay same (method command c) s
  do_command_relayed lookup method name command c s found maps carried =
      let e = struct-from_proto-to_proto command maps in
      invoke_plain-service_helper D lookup to_struct (λ response. finished (from_struct response))
        same (λ fields _. method (from_struct fields)) name (to_struct command) c s found
        (λ r f.
          ap finished
            (struct-from_proto-to_proto r (carried r (ap (λ x. (method x c s).1) (sym e) ∙ f))))
      ∙ ap (λ x. relay same (method x c) s) e

  pub get_status_relayed :
      (lookup : Bytes → Option C) (method : C → Call S (ProtoStruct D)) (name : Bytes) (c : C)
      (s : S)
      → lookup name ≡ some c
      → ((r : ProtoStruct D) → (method c s).1 ≡ finished r → StructIsMaps r)
      → get_status_client d (get_status_handler d lookup method) name s ≡ relay same (method c) s
  get_status_relayed lookup method name c s found carried =
      invoke_plain-service_helper D lookup to_struct (λ response. finished (from_struct response))
        same (λ _ _. method) name tt c s found
        (λ r f. ap finished (struct-from_proto-to_proto r (carried r f)))

  pub is_moving_relayed :
      (lookup : Bytes → Option C) (method : C → Call S Bool) (name : Bytes) (c : C) (s : S)
      → lookup name ≡ some c
      → is_moving_client d (is_moving_handler d lookup method) name s ≡ relay same (method c) s
  is_moving_relayed lookup method name c s found =
      invoke_plain-service_helper D lookup same finished same (λ _ _. method) name tt c s found
        (λ r f. refl)

  -- A response that carries its value.
  pub extra_relayed :
      {A P : Type 0} (to_response : A → P) (handle : P → Outcome A) (arrives : A → A)
      (lookup : Bytes → Option C) (method : ProtoStruct D → C → Call S A) (name : Bytes)
      (extra : ProtoStruct D) (c : C) (s : S)
      → lookup name ≡ some c
      → IsSendable extra
      → ((a : A)
          → (method extra c s).1 ≡ finished a
          → handle (to_response a) ≡ finished (arrives a))
      → extra_client d handle (extra_handler d to_response lookup method) name extra s
        ≡ relay arrives (method extra c) s
  extra_relayed to_response handle arrives lookup method name extra c s found sent carried =
      invoke_with-service_helper lookup to_response handle arrives (λ _. method) name extra tt c s
        found sent carried
