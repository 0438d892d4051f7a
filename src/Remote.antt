-- ===== src/Remote.antt =====
-- The way of a call from a client of a component over gRPC to the component in another process:
-- `ServiceHelper` of common/private/service_helper.hpp, `ClientHelper` of common/client_helper.hpp, and
-- the calls that the components share. The metadata of a call, traces and streams are not modelled.
pub mod Int32
pub mod MotionPlans
pub mod MotionRequests
pub mod Laws
pub mod Classes
mod Tests
pub mod Maps
pub mod Shared
pub mod Motion
pub mod Arm
pub mod Camera
pub mod AudioOut
pub mod GenericService
pub mod PoseTracker
pub mod Switch
pub mod MovementSensor
pub mod Gantry
pub mod Encoder
pub mod Generic
pub mod Button
pub mod Sensor
pub mod PowerSensor
pub mod Gripper
pub mod Servo
pub mod Base
pub mod Motor
use viam_cpp_sdk.Prelude.{
  Bool, true, false, List, Bytes, codes, map, Option, none, some, Error, Result, ok, err, exception,
  k_grpc, Outcome, finished, thrown, crashed,
}
use viam_cpp_sdk.Prelude.Double.{Double}
use viam_cpp_sdk.Proto.{
  ProtoValue, null, boolean, number, text, list, structure, ProtoStruct, end, field, Struct, find,
  to_struct, from_struct,
}
use viam_cpp_sdk.Manager.{Manager, resource}

-- A call of a method changes the state of the world, and returns or throws.
abbrev pub Call : Type 0 → Type 0 → Type 0
Call S A = S → S × Outcome A

-- The codes of a `grpc::Status` other than OK.
pub data StatusCode : Type 0 where
  invalid_argument not_found internal unavailable : StatusCode

-- The status of a remote call, with the response where it is OK.
pub data Reply (P : Type 0) : Type 0 where
  replied : P → Reply P
  failed : StatusCode → Reply P

module _ (D : Type 0) where
  -- A request: the name of the resource, the extra parameters, which it may lack, and its own fields.
  pub record Request (F : Type 0) : Type 0 where
    pub name : Bytes
    pub extra : Option (Struct D)
    pub fields : F

  -- What a handler is called with: gRPC gives the pointers of the context and the request, and
  -- `observed` says that the thread has an observer of a context already.
  pub record Incoming (F : Type 0) : Type 0 where
    pub has_context : Bool
    pub request : Option (Request F)
    pub observed : Bool

  abbrev pub Handler : Type 0 → Type 0 → Type 0 → Type 0
  Handler S F P = Incoming F → S → S × Reply P

  -- A stub calls the handler of the other process, with a context and a request, on a thread of its
  -- own.
  abbrev pub stub : {S F P : Type 0} → Handler S F P → Request F → S → S × Reply P
  stub handler request =
      handler (record { has_context = true; request = some request; observed = false })

-- `resource<T>(name)`; `cast` is `std::dynamic_pointer_cast<T>`.
unfoldable pub resource_as : {R C : Type 0} → (R → Option C) → Manager R → Bytes → Option C
resource_as cast manager name = elim (resource name manager) [ none ↦ none | some r ↦ cast r ]

-- What is left of the response where the call of the resource returns or throws.
abbrev pub reply_of : {P : Type 0} → Outcome P → Reply P
reply_of (finished p) = replied p
reply_of (thrown _) = failed internal
reply_of crashed = failed unavailable

-- The call of a resource, and its value set in the response.
abbrev pub set_response : {S A P : Type 0} → (A → P) → S × Outcome A → S × Outcome P
set_response to_response (s, finished a) = (s, finished (to_response a))
set_response to_response (s, thrown e) = (s, thrown e)
set_response to_response (s, crashed) = (s, crashed)

abbrev pub responds : {S A P : Type 0} → (A → P) → Call S A → Call S P
responds to_response call s = set_response to_response (call s)

abbrev pub debug_map_key : Bytes
debug_map_key = codes "com.viam.debug_key_internal"

module _ {D : Type 0} where
  -- `ServiceHelper::operator()`.
  unfoldable pub service_helper :
      {S F P C : Type 0} → (Bytes → Option C) → (Request D F → C → Call S P) → Handler D S F P
  service_helper resource callable incoming s = elim incoming.has_context [
    | false ↦ (s, failed invalid_argument)
    | true ↦ elim incoming.request [
      | none ↦ (s, failed invalid_argument)
      | some request ↦ elim (resource request.name) [
        | none ↦ (s, failed not_found)
        | some c ↦ elim incoming.observed [
          | true ↦ (s, failed internal)
          | false ↦ let (s', o) = callable request c s in (s', reply_of o)
        ]
      ]
    ]
  ]

  -- `getExtra`.
  unfoldable pub get_extra : {F : Type 0} → Request D F → ProtoStruct D
  get_extra request = elim request.extra [ none ↦ end | some extra ↦ from_struct extra ]

  -- `debug_map_value`; a value that is no string is taken for one unchecked.
  unfoldable pub debug_map_value : ProtoStruct D → Outcome (Option Bytes)
  debug_map_value extra = elim (find debug_map_key extra) [
    | none ↦ finished none
    | some v ↦ elim v [ text key ↦ finished (some key) | _ ↦ crashed ]
  ]

  -- `invoke`: the response goes to the handler of the client, and a status that is not OK becomes a
  -- `GRPCException`.
  unfoldable pub invoke :
      {S F P A : Type 0} → Handler D S F P → Request D F → (P → Outcome A) → Call S A
  invoke handler request response_handler s =
      let (s', reply) = stub D handler request s in
      elim reply [
        | replied response ↦ (s', response_handler response)
        | failed _ ↦ (s', thrown (exception k_grpc))
      ]

  -- `with(extra, …)` and `invoke`.
  unfoldable pub invoke_with :
      {S F P A : Type 0} → Handler D S F P → Bytes → ProtoStruct D → F → (P → Outcome A) → Call S A
  unfolding invoke
  invoke_with handler name extra fields response_handler s = elim (debug_map_value extra) [
    | finished _ ↦
        invoke handler (record { name = name; extra = some (to_struct extra); fields = fields })
          response_handler s
    | thrown e ↦ (s, thrown e)
    | crashed ↦ (s, crashed)
  ]

  -- `with(…)`, if need be, and `invoke`, for a request without extra parameters.
  unfoldable pub invoke_plain :
      {S F P A : Type 0} → Handler D S F P → Bytes → F → (P → Outcome A) → Call S A
  unfolding invoke
  invoke_plain handler name fields response_handler =
      invoke handler (record { name = name; extra = none; fields = fields }) response_handler

-- What a remote call does where a call of the resource itself does the given: the value arrives, and
-- every failure is a `GRPCException`.
abbrev pub relayed : {A : Type 0} → (A → A) → Outcome A → Outcome A
relayed arrives (finished a) = finished (arrives a)
relayed arrives (thrown _) = thrown (exception k_grpc)
relayed arrives crashed = thrown (exception k_grpc)

abbrev pub relay : {S A : Type 0} → (A → A) → Call S A → Call S A
relay arrives call s = let (s', o) = call s in (s', relayed arrives o)
