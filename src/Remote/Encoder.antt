-- ===== src/Remote/Encoder.antt =====
-- `Encoder` of components/encoder.hpp, its conversions, components/private/encoder.cpp, and its client
-- and server, components/private/encoder_client.cpp and components/private/encoder_server.cpp.
pub mod Relayed
use viam_cpp_sdk.Prelude.{
  Bool, List, Bytes, Option, Outcome, finished, Result, ok, err, exception, k_not_supported,
}
use viam_cpp_sdk.Prelude.Int.{ℤ}
use viam_cpp_sdk.Prelude.Double.{Double}
use viam_cpp_sdk.Proto.{ProtoStruct, Struct}
use viam_cpp_sdk.Proto.RoundTrip.{StructIsMaps}
use viam_cpp_sdk.Spatial.Geometry.{GeometryConfig, GeometryMessage}
use viam_cpp_sdk.Remote.Shared.{attempt}
use viam_cpp_sdk.Remote.{Call, Handler, service_helper, get_extra, invoke_with, responds}
use viam_cpp_sdk.Remote.Laws.{IsSendable}
use viam_cpp_sdk.Remote.Shared.{
  Component, same, returned, do_command_handler, do_command_client, get_status_handler,
  get_status_client, extra_handler, extra_client, geometries_to_proto, geometries_from_proto,
  geometries_arrive,
}

module _ (d : Double) where
  open d use {D}

  pub data PositionType : Type 0 where
    unspecified ticks_count angle_degrees : PositionType

  -- The enumeration of the message; a message may hold any other number.
  pub data PositionTypeMessage : Type 0 where
    position_type_unspecified position_type_ticks_count position_type_angle_degrees :
        PositionTypeMessage
    other_position_type : ℤ → PositionTypeMessage

  pub record Position : Type 0 where
    pub value : D
    pub position_type : PositionType

  pub record Properties : Type 0 where
    pub ticks_count_supported : Bool
    pub angle_degrees_supported : Bool

  pub record GetPosition : Type 0 where
    pub value : D
    pub position_type : PositionTypeMessage

  pub record GetProperties : Type 0 where
    pub ticks_count_supported : Bool
    pub angle_degrees_supported : Bool

  abbrev pub type_to_proto : PositionType → PositionTypeMessage
  type_to_proto unspecified = position_type_unspecified
  type_to_proto ticks_count = position_type_ticks_count
  type_to_proto angle_degrees = position_type_angle_degrees

  abbrev pub type_from_proto : PositionTypeMessage → Result PositionType
  type_from_proto position_type_unspecified = ok unspecified
  type_from_proto position_type_ticks_count = ok ticks_count
  type_from_proto position_type_angle_degrees = ok angle_degrees
  type_from_proto (other_position_type _) = err (exception k_not_supported)

  abbrev pub position_to_proto : Position → GetPosition
  position_to_proto position = record {
    value = position.value;
    position_type = type_to_proto position.position_type;
  }

  abbrev pub read_position : D → Result PositionType → Result Position
  read_position value (ok t) = ok (record { value = value; position_type = t })
  read_position value (err e) = err e

  abbrev pub position_from_proto : GetPosition → Outcome Position
  position_from_proto proto =
      returned (read_position proto.value (type_from_proto proto.position_type))

  -- The virtual methods; an overload without `extra` calls one with `{}`.
  pub data Method : Type 0 where
    get_position : (type : PositionType) (extra : ProtoStruct D) → Method
    reset_position : (extra : ProtoStruct D) → Method
    get_properties : (extra : ProtoStruct D) → Method
    get_geometries : (extra : ProtoStruct D) → Method
    do_command : (command : ProtoStruct D) → Method
    get_status : Method

  abbrev pub Answer : Method → Type 0
  Answer (get_position _ _) = Position
  Answer (get_properties _) = Properties
  Answer (get_geometries _) = List (GeometryConfig d)
  Answer (do_command _) = ProtoStruct D
  Answer get_status = ProtoStruct D
  Answer _ = Unit

  abbrev pub IsSent : Method → Type 0
  IsSent (get_position _ e) = IsSendable e
  IsSent (reset_position e) = IsSendable e
  IsSent (get_properties e) = IsSendable e
  IsSent (get_geometries e) = IsSendable e
  IsSent (do_command c) = StructIsMaps c
  IsSent _ = Unit

  abbrev pub IsCarried : (m : Method) → Answer m → Type 0
  IsCarried (do_command _) r = StructIsMaps r
  IsCarried get_status r = StructIsMaps r
  IsCarried _ r = Unit

  abbrev pub arrives : (m : Method) → Answer m → Answer m
  arrives (get_geometries _) a = geometries_arrive d a
  arrives _ a = a

  module _ (S : Type 0) where
    abbrev pub Encoder : Type 0
    Encoder = (m : Method) → Call S (Answer m)

    -- `EncoderService`.
    pub record Service : Type 0 where
      pub get_position_rpc : Handler D S PositionTypeMessage GetPosition
      pub reset_position_rpc : Handler D S (Unit {0}) (Unit {0})
      pub get_properties_rpc : Handler D S (Unit {0}) GetProperties
      pub get_geometries_rpc : Handler D S (Unit {0}) (List (GeometryMessage d))
      pub do_command_rpc : Handler D S (Struct D) (Struct D)
      pub get_status_rpc : Handler D S (Unit {0}) (Struct D)

    unfoldable pub encoder_server : (Bytes → Option Encoder) → Service
    encoder_server lookup = record {
      get_position_rpc = service_helper lookup (λ request encoder. responds position_to_proto (
          attempt (type_from_proto request.fields)
            (λ t. encoder (get_position t (get_extra request)))));
      reset_position_rpc =
          extra_handler d same lookup (λ extra encoder. encoder (reset_position extra));
      get_properties_rpc =
          extra_handler d
            (λ result. record {
              ticks_count_supported = result.ticks_count_supported;
              angle_degrees_supported = result.angle_degrees_supported;
            })
            lookup (λ extra encoder. encoder (get_properties extra));
      get_geometries_rpc =
          extra_handler d (geometries_to_proto d) lookup
            (λ extra encoder. encoder (get_geometries extra));
      do_command_rpc =
          do_command_handler d lookup (λ command encoder. encoder (do_command command));
      get_status_rpc = get_status_handler d lookup (λ encoder. encoder get_status);
    }

    -- `EncoderClient` is a `Encoder`.
    unfoldable pub encoder_client : Bytes → Service → Encoder
    encoder_client name stub (get_position type extra) =
        invoke_with stub.get_position_rpc name extra (type_to_proto type) position_from_proto
    encoder_client name stub (reset_position extra) =
        extra_client d finished stub.reset_position_rpc name extra
    encoder_client name stub (get_properties extra) =
        extra_client d
          (λ response. finished (record {
            ticks_count_supported = response.ticks_count_supported;
            angle_degrees_supported = response.angle_degrees_supported;
          }))
          stub.get_properties_rpc name extra
    encoder_client name stub (get_geometries extra) =
        extra_client d (geometries_from_proto d) stub.get_geometries_rpc name extra
    encoder_client name stub (do_command command) =
        do_command_client d stub.do_command_rpc name command
    encoder_client name stub get_status = get_status_client d stub.get_status_rpc name

    abbrev pub encoder_component : Component S
    encoder_component = record {
      Method = Method;
      Answer = Answer;
      Service = Service;
      server = encoder_server;
      client = encoder_client;
      IsSent = IsSent;
      IsCarried = IsCarried;
      arrives = arrives;
    }
