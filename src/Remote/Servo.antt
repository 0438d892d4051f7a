-- ===== src/Remote/Servo.antt =====
-- `Servo` of components/servo.hpp, and its client and server, components/private/servo_client.cpp and
-- components/private/servo_server.cpp.
pub mod Relayed
use viam_cpp_sdk.Prelude.{Bool, List, Bytes, Option, finished, ℕ}
use viam_cpp_sdk.Prelude.Double.{Double}
use viam_cpp_sdk.Proto.{ProtoStruct, Struct}
use viam_cpp_sdk.Proto.RoundTrip.{StructIsMaps}
use viam_cpp_sdk.Spatial.Geometry.{GeometryConfig, GeometryMessage}
use viam_cpp_sdk.Remote.{Call, Handler, service_helper, get_extra, invoke_with, responds}
use viam_cpp_sdk.Remote.Laws.{IsSendable}
use viam_cpp_sdk.Remote.Shared.{
  Component, same, do_command_handler, do_command_client, get_status_handler, get_status_client,
  is_moving_handler, is_moving_client, extra_handler, extra_client, geometries_to_proto,
  geometries_from_proto, geometries_arrive,
}

module _ (d : Double) where
  open d use {D}

  -- The virtual methods; an overload without `extra` calls one with `{}`.
  pub data Method : Type 0 where
    move : (angle_deg : ℕ) (extra : ProtoStruct D) → Method
    get_position : (extra : ProtoStruct D) → Method
    stop : (extra : ProtoStruct D) → Method
    is_moving : Method
    get_status : Method
    get_geometries : (extra : ProtoStruct D) → Method
    do_command : (command : ProtoStruct D) → Method

  abbrev pub Answer : Method → Type 0
  Answer (get_position _) = ℕ
  Answer is_moving = Bool
  Answer get_status = ProtoStruct D
  Answer (get_geometries _) = List (GeometryConfig d)
  Answer (do_command _) = ProtoStruct D
  Answer _ = Unit

  abbrev pub IsSent : Method → Type 0
  IsSent (move _ e) = IsSendable e
  IsSent (get_position e) = IsSendable e
  IsSent (stop e) = IsSendable e
  IsSent (get_geometries e) = IsSendable e
  IsSent (do_command c) = StructIsMaps c
  IsSent _ = Unit

  abbrev pub IsCarried : (m : Method) → Answer m → Type 0
  IsCarried get_status r = StructIsMaps r
  IsCarried (do_command _) r = StructIsMaps r
  IsCarried _ r = Unit

  abbrev pub arrives : (m : Method) → Answer m → Answer m
  arrives (get_geometries _) a = geometries_arrive d a
  arrives _ a = a

  module _ (S : Type 0) where
    abbrev pub Servo : Type 0
    Servo = (m : Method) → Call S (Answer m)

    -- `ServoService`.
    pub record Service : Type 0 where
      pub move_rpc : Handler D S ℕ (Unit {0})
      pub get_position_rpc : Handler D S (Unit {0}) ℕ
      pub stop_rpc : Handler D S (Unit {0}) (Unit {0})
      pub is_moving_rpc : Handler D S (Unit {0}) Bool
      pub get_status_rpc : Handler D S (Unit {0}) (Struct D)
      pub get_geometries_rpc : Handler D S (Unit {0}) (List (GeometryMessage d))
      pub do_command_rpc : Handler D S (Struct D) (Struct D)

    unfoldable pub servo_server : (Bytes → Option Servo) → Service
    servo_server lookup = record {
      move_rpc =
          service_helper lookup
            (λ request servo. responds same (servo (move request.fields (get_extra request))));
      get_position_rpc = extra_handler d same lookup (λ extra servo. servo (get_position extra));
      stop_rpc = extra_handler d same lookup (λ extra servo. servo (stop extra));
      is_moving_rpc = is_moving_handler d lookup (λ servo. servo is_moving);
      get_status_rpc = get_status_handler d lookup (λ servo. servo get_status);
      get_geometries_rpc =
          extra_handler d (geometries_to_proto d) lookup
            (λ extra servo. servo (get_geometries extra));
      do_command_rpc = do_command_handler d lookup (λ command servo. servo (do_command command));
    }

    -- `ServoClient` is a `Servo`.
    unfoldable pub servo_client : Bytes → Service → Servo
    servo_client name stub (move angle_deg extra) =
        invoke_with stub.move_rpc name extra angle_deg finished
    servo_client name stub (get_position extra) =
        extra_client d finished stub.get_position_rpc name extra
    servo_client name stub (stop extra) = extra_client d finished stub.stop_rpc name extra
    servo_client name stub is_moving = is_moving_client d stub.is_moving_rpc name
    servo_client name stub get_status = get_status_client d stub.get_status_rpc name
    servo_client name stub (get_geometries extra) =
        extra_client d (geometries_from_proto d) stub.get_geometries_rpc name extra
    servo_client name stub (do_command command) =
        do_command_client d stub.do_command_rpc name command

    abbrev pub servo_component : Component S
    servo_component = record {
      Method = Method;
      Answer = Answer;
      Service = Service;
      server = servo_server;
      client = servo_client;
      IsSent = IsSent;
      IsCarried = IsCarried;
      arrives = arrives;
    }
