-- ===== src/Remote/Motor.antt =====
-- `Motor` of components/motor.hpp, and its client and server, components/private/motor_client.cpp and
-- components/private/motor_server.cpp.
pub mod Relayed
use viam_cpp_sdk.Prelude.{Bool, List, Bytes, Option, finished}
use viam_cpp_sdk.Prelude.Double.{Double}
use viam_cpp_sdk.Proto.{ProtoStruct, Struct}
use viam_cpp_sdk.Proto.RoundTrip.{StructIsMaps}
use viam_cpp_sdk.Spatial.Geometry.{GeometryConfig, GeometryMessage}
use viam_cpp_sdk.Remote.{Call, Handler, service_helper, get_extra, invoke_with, responds}
use viam_cpp_sdk.Remote.Laws.{IsSendable}
use viam_cpp_sdk.Remote.Shared.{
  Component, same, do_command_handler, do_command_client, get_status_handler, get_status_client,
  is_moving_handler, is_moving_client, extra_handler, extra_client, geometries_to_proto,
  geometries_from_proto, geometries_arrive,
}

module _ (d : Double) where
  open d use {D}

  pub record PowerStatus : Type 0 where
    pub is_on : Bool
    pub power_pct : D

  pub record Properties : Type 0 where
    pub position_reporting : Bool

  -- The fields of requests and responses that have two.
  pub record GoFor : Type 0 where
    pub rpm : D
    pub revolutions : D

  pub record GoTo : Type 0 where
    pub rpm : D
    pub position_revolutions : D

  pub record IsPowered : Type 0 where
    pub is_on : Bool
    pub power_pct : D

  -- The virtual methods; an overload without `extra` calls one with `{}`.
  pub data Method : Type 0 where
    set_power : (power_pct : D) (extra : ProtoStruct D) → Method
    go_for : (rpm : D) (revolutions : D) (extra : ProtoStruct D) → Method
    go_to : (rpm : D) (position_revolutions : D) (extra : ProtoStruct D) → Method
    set_rpm : (rpm : D) (extra : ProtoStruct D) → Method
    reset_zero_position : (offset : D) (extra : ProtoStruct D) → Method
    get_position : (extra : ProtoStruct D) → Method
    get_properties : (extra : ProtoStruct D) → Method
    stop : (extra : ProtoStruct D) → Method
    get_power_status : (extra : ProtoStruct D) → Method
    get_geometries : (extra : ProtoStruct D) → Method
    is_moving : Method
    get_status : Method
    do_command : (command : ProtoStruct D) → Method

  abbrev pub Answer : Method → Type 0
  Answer (get_position _) = D
  Answer (get_properties _) = Properties
  Answer (get_power_status _) = PowerStatus
  Answer (get_geometries _) = List (GeometryConfig d)
  Answer is_moving = Bool
  Answer get_status = ProtoStruct D
  Answer (do_command _) = ProtoStruct D
  Answer _ = Unit

  abbrev pub IsSent : Method → Type 0
  IsSent (set_power _ e) = IsSendable e
  IsSent (go_for _ _ e) = IsSendable e
  IsSent (go_to _ _ e) = IsSendable e
  IsSent (set_rpm _ e) = IsSendable e
  IsSent (reset_zero_position _ e) = IsSendable e
  IsSent (get_position e) = IsSendable e
  IsSent (get_properties e) = IsSendable e
  IsSent (stop e) = IsSendable e
  IsSent (get_power_status e) = IsSendable e
  IsSent (get_geometries e) = IsSendable e
  IsSent (do_command c) = StructIsMaps c
  IsSent _ = Unit

  abbrev pub IsCarried : (m : Method) → Answer m → Type 0
  IsCarried get_status r = StructIsMaps r
  IsCarried (do_command _) r = StructIsMaps r
  IsCarried _ r = Unit

  abbrev pub arrives : (m : Method) → Answer m → Answer m
  arrives (get_geometries _) a = geometries_arrive d a
  arrives _ a = a

  module _ (S : Type 0) where
    abbrev pub Motor : Type 0
    Motor = (m : Method) → Call S (Answer m)

    -- `MotorService`.
    pub record Service : Type 0 where
      pub set_power_rpc : Handler D S D (Unit {0})
      pub go_for_rpc : Handler D S GoFor (Unit {0})
      pub go_to_rpc : Handler D S GoTo (Unit {0})
      pub set_rpm_rpc : Handler D S D (Unit {0})
      pub reset_zero_position_rpc : Handler D S D (Unit {0})
      pub get_position_rpc : Handler D S (Unit {0}) D
      pub get_properties_rpc : Handler D S (Unit {0}) Bool
      pub stop_rpc : Handler D S (Unit {0}) (Unit {0})
      pub is_powered_rpc : Handler D S (Unit {0}) IsPowered
      pub get_geometries_rpc : Handler D S (Unit {0}) (List (GeometryMessage d))
      pub is_moving_rpc : Handler D S (Unit {0}) Bool
      pub get_status_rpc : Handler D S (Unit {0}) (Struct D)
      pub do_command_rpc : Handler D S (Struct D) (Struct D)

    unfoldable pub motor_server : (Bytes → Option Motor) → Service
    motor_server lookup = record {
      set_power_rpc =
          service_helper lookup
            (λ request motor. responds same (motor (set_power request.fields (get_extra request))));
      go_for_rpc = service_helper lookup (λ request motor.
          responds same
            (motor (go_for request.fields.rpm request.fields.revolutions (get_extra request))));
      go_to_rpc = service_helper lookup (λ request motor. responds same (
          motor
            (go_to request.fields.rpm request.fields.position_revolutions (get_extra request))));
      set_rpm_rpc =
          service_helper lookup
            (λ request motor. responds same (motor (set_rpm request.fields (get_extra request))));
      reset_zero_position_rpc = service_helper lookup (λ request motor.
          responds same (motor (reset_zero_position request.fields (get_extra request))));
      get_position_rpc = extra_handler d same lookup (λ extra motor. motor (get_position extra));
      get_properties_rpc =
          extra_handler d (λ result. result.position_reporting) lookup
            (λ extra motor. motor (get_properties extra));
      stop_rpc = extra_handler d same lookup (λ extra motor. motor (stop extra));
      is_powered_rpc =
          extra_handler d (λ result. record { is_on = result.is_on; power_pct = result.power_pct })
            lookup (λ extra motor. motor (get_power_status extra));
      get_geometries_rpc =
          extra_handler d (geometries_to_proto d) lookup
            (λ extra motor. motor (get_geometries extra));
      is_moving_rpc = is_moving_handler d lookup (λ motor. motor is_moving);
      get_status_rpc = get_status_handler d lookup (λ motor. motor get_status);
      do_command_rpc = do_command_handler d lookup (λ command motor. motor (do_command command));
    }

    -- `MotorClient` is a `Motor`.
    unfoldable pub motor_client : Bytes → Service → Motor
    motor_client name stub (set_power power_pct extra) =
        invoke_with stub.set_power_rpc name extra power_pct finished
    motor_client name stub (go_for rpm revolutions extra) =
        invoke_with stub.go_for_rpc name extra (record { rpm = rpm; revolutions = revolutions })
          finished
    motor_client name stub (go_to rpm position_revolutions extra) =
        invoke_with stub.go_to_rpc name extra
          (record { rpm = rpm; position_revolutions = position_revolutions }) finished
    motor_client name stub (set_rpm rpm extra) =
        invoke_with stub.set_rpm_rpc name extra rpm finished
    motor_client name stub (reset_zero_position offset extra) =
        invoke_with stub.reset_zero_position_rpc name extra offset finished
    motor_client name stub (get_position extra) =
        extra_client d finished stub.get_position_rpc name extra
    motor_client name stub (get_properties extra) =
        extra_client d (λ response. finished (record { position_reporting = response }))
          stub.get_properties_rpc name extra
    motor_client name stub (stop extra) = extra_client d finished stub.stop_rpc name extra
    motor_client name stub (get_power_status extra) =
        extra_client d
          (λ response. finished (record { is_on = response.is_on; power_pct = response.power_pct }))
          stub.is_powered_rpc name extra
    motor_client name stub (get_geometries extra) =
        extra_client d (geometries_from_proto d) stub.get_geometries_rpc name extra
    motor_client name stub is_moving = is_moving_client d stub.is_moving_rpc name
    motor_client name stub get_status = get_status_client d stub.get_status_rpc name
    motor_client name stub (do_command command) =
        do_command_client d stub.do_command_rpc name command

    abbrev pub motor_component : Component S
    motor_component = record {
      Method = Method;
      Answer = Answer;
      Service = Service;
      server = motor_server;
      client = motor_client;
      IsSent = IsSent;
      IsCarried = IsCarried;
      arrives = arrives;
    }
