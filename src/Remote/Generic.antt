-- ===== src/Remote/Generic.antt =====
-- `GenericComponent` of components/generic.hpp, and its client and server,
-- components/private/generic_client.cpp and components/private/generic_server.cpp.
pub mod Relayed
use viam_cpp_sdk.Prelude.{List, Bytes, Option}
use viam_cpp_sdk.Prelude.Double.{Double}
use viam_cpp_sdk.Proto.{ProtoStruct, Struct}
use viam_cpp_sdk.Proto.RoundTrip.{StructIsMaps}
use viam_cpp_sdk.Spatial.Geometry.{GeometryConfig, GeometryMessage}
use viam_cpp_sdk.Remote.{Call, Handler}
use viam_cpp_sdk.Remote.Laws.{IsSendable}
use viam_cpp_sdk.Remote.Shared.{
  Component, do_command_handler, do_command_client, get_status_handler, get_status_client,
  extra_handler, extra_client, geometries_to_proto, geometries_from_proto, geometries_arrive,
}

module _ (d : Double) where
  open d use {D}

  -- The virtual methods; an overload without `extra` calls one with `{}`.
  pub data Method : Type 0 where
    do_command : (command : ProtoStruct D) → Method
    get_status : Method
    get_geometries : (extra : ProtoStruct D) → Method

  abbrev pub Answer : Method → Type 0
  Answer (do_command _) = ProtoStruct D
  Answer get_status = ProtoStruct D
  Answer (get_geometries _) = List (GeometryConfig d)

  abbrev pub IsSent : Method → Type 0
  IsSent (do_command c) = StructIsMaps c
  IsSent (get_geometries e) = IsSendable e
  IsSent _ = Unit

  abbrev pub IsCarried : (m : Method) → Answer m → Type 0
  IsCarried (do_command _) r = StructIsMaps r
  IsCarried get_status r = StructIsMaps r
  IsCarried _ r = Unit

  abbrev pub arrives : (m : Method) → Answer m → Answer m
  arrives (get_geometries _) a = geometries_arrive d a
  arrives _ a = a

  module _ (S : Type 0) where
    abbrev pub GenericComponent : Type 0
    GenericComponent = (m : Method) → Call S (Answer m)

    -- `GenericComponentService`.
    pub record Service : Type 0 where
      pub do_command_rpc : Handler D S (Struct D) (Struct D)
      pub get_status_rpc : Handler D S (Unit {0}) (Struct D)
      pub get_geometries_rpc : Handler D S (Unit {0}) (List (GeometryMessage d))

    unfoldable pub generic_server : (Bytes → Option GenericComponent) → Service
    generic_server lookup = record {
      do_command_rpc =
          do_command_handler d lookup (λ command generic. generic (do_command command));
      get_status_rpc = get_status_handler d lookup (λ generic. generic get_status);
      get_geometries_rpc =
          extra_handler d (geometries_to_proto d) lookup
            (λ extra generic. generic (get_geometries extra));
    }

    -- `GenericComponentClient` is a `GenericComponent`.
    unfoldable pub generic_client : Bytes → Service → GenericComponent
    generic_client name stub (do_command command) =
        do_command_client d stub.do_command_rpc name command
    generic_client name stub get_status = get_status_client d stub.get_status_rpc name
    generic_client name stub (get_geometries extra) =
        extra_client d (geometries_from_proto d) stub.get_geometries_rpc name extra

    abbrev pub generic_component : Component S
    generic_component = record {
      Method = Method;
      Answer = Answer;
      Service = Service;
      server = generic_server;
      client = generic_client;
      IsSent = IsSent;
      IsCarried = IsCarried;
      arrives = arrives;
    }
