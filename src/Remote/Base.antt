-- ===== src/Remote/Base.antt =====
-- `Base` of components/base.hpp, and its client and server, components/private/base_client.cpp and
-- components/private/base_server.cpp.
pub mod Relayed
use viam_cpp_sdk.Prelude.{Bool, List, Bytes, Option, some, finished}
use viam_cpp_sdk.Prelude.Int.{ℤ}
use viam_cpp_sdk.Prelude.Double.{Double, Vector3}
use viam_cpp_sdk.Proto.{ProtoStruct, Struct}
use viam_cpp_sdk.Proto.RoundTrip.{StructIsMaps}
use viam_cpp_sdk.Spatial.Geometry.{GeometryConfig, GeometryMessage, vector_or_default}
use viam_cpp_sdk.Remote.{Call, Handler, service_helper, get_extra, invoke_with, responds}
use viam_cpp_sdk.Remote.Laws.{IsSendable}
use viam_cpp_sdk.Remote.Shared.{
  Component, same, do_command_handler, do_command_client, get_status_handler, get_status_client,
  is_moving_handler, is_moving_client, extra_handler, extra_client, geometries_to_proto,
  geometries_from_proto, geometries_arrive, vector_to_proto, vector_from_proto,
}

module _ (d : Double) where
  open d use {D}

  pub record Properties : Type 0 where
    pub width_meters : D
    pub turning_radius_meters : D
    pub wheel_circumference_meters : D

  pub record MoveStraight : Type 0 where
    pub distance_mm : ℤ
    pub mm_per_sec : D

  pub record Spin : Type 0 where
    pub angle_deg : D
    pub degs_per_sec : D

  -- `SetPowerRequest` and `SetVelocityRequest` have the same fields.
  pub record Vectors : Type 0 where
    pub linear : Option (Vector3 d)
    pub angular : Option (Vector3 d)

  pub record GetProperties : Type 0 where
    pub width_meters : D
    pub turning_radius_meters : D
    pub wheel_circumference_meters : D

  -- The virtual methods; an overload without `extra` calls one with `{}`.
  pub data Method : Type 0 where
    move_straight : (distance_mm : ℤ) (mm_per_sec : D) (extra : ProtoStruct D) → Method
    spin : (angle_deg : D) (degs_per_sec : D) (extra : ProtoStruct D) → Method
    set_power : (linear : Vector3 d) (angular : Vector3 d) (extra : ProtoStruct D) → Method
    set_velocity : (linear : Vector3 d) (angular : Vector3 d) (extra : ProtoStruct D) → Method
    stop : (extra : ProtoStruct D) → Method
    is_moving : Method
    get_status : Method
    get_geometries : (extra : ProtoStruct D) → Method
    get_properties : (extra : ProtoStruct D) → Method
    do_command : (command : ProtoStruct D) → Method

  abbrev pub Answer : Method → Type 0
  Answer is_moving = Bool
  Answer get_status = ProtoStruct D
  Answer (get_geometries _) = List (GeometryConfig d)
  Answer (get_properties _) = Properties
  Answer (do_command _) = ProtoStruct D
  Answer _ = Unit

  abbrev pub IsSent : Method → Type 0
  IsSent (move_straight _ _ e) = IsSendable e
  IsSent (spin _ _ e) = IsSendable e
  IsSent (set_power _ _ e) = IsSendable e
  IsSent (set_velocity _ _ e) = IsSendable e
  IsSent (stop e) = IsSendable e
  IsSent (get_geometries e) = IsSendable e
  IsSent (get_properties e) = IsSendable e
  IsSent (do_command c) = StructIsMaps c
  IsSent _ = Unit

  abbrev pub IsCarried : (m : Method) → Answer m → Type 0
  IsCarried get_status r = StructIsMaps r
  IsCarried (do_command _) r = StructIsMaps r
  IsCarried _ r = Unit

  abbrev pub arrives : (m : Method) → Answer m → Answer m
  arrives (get_geometries _) a = geometries_arrive d a
  arrives _ a = a

  module _ (S : Type 0) where
    abbrev pub Base : Type 0
    Base = (m : Method) → Call S (Answer m)

    -- `BaseService`.
    pub record Service : Type 0 where
      pub move_straight_rpc : Handler D S MoveStraight (Unit {0})
      pub spin_rpc : Handler D S Spin (Unit {0})
      pub set_power_rpc : Handler D S Vectors (Unit {0})
      pub set_velocity_rpc : Handler D S Vectors (Unit {0})
      pub stop_rpc : Handler D S (Unit {0}) (Unit {0})
      pub is_moving_rpc : Handler D S (Unit {0}) Bool
      pub get_status_rpc : Handler D S (Unit {0}) (Struct D)
      pub get_geometries_rpc : Handler D S (Unit {0}) (List (GeometryMessage d))
      pub get_properties_rpc : Handler D S (Unit {0}) GetProperties
      pub do_command_rpc : Handler D S (Struct D) (Struct D)

    unfoldable pub base_server : (Bytes → Option Base) → Service
    base_server lookup = record {
      move_straight_rpc = service_helper lookup (λ request base. responds same (
          base (
            move_straight request.fields.distance_mm request.fields.mm_per_sec
              (get_extra request))));
      spin_rpc = service_helper lookup (λ request base.
          responds same
            (base (spin request.fields.angle_deg request.fields.degs_per_sec (get_extra request))));
      set_power_rpc = service_helper lookup (λ request base. responds same (
          base (
            set_power (vector_from_proto d (vector_or_default d request.fields.linear))
              (vector_from_proto d (vector_or_default d request.fields.angular))
              (get_extra request))));
      set_velocity_rpc = service_helper lookup (λ request base. responds same (
          base (
            set_velocity (vector_from_proto d (vector_or_default d request.fields.linear))
              (vector_from_proto d (vector_or_default d request.fields.angular))
              (get_extra request))));
      stop_rpc = extra_handler d same lookup (λ extra base. base (stop extra));
      is_moving_rpc = is_moving_handler d lookup (λ base. base is_moving);
      get_status_rpc = get_status_handler d lookup (λ base. base get_status);
      get_geometries_rpc =
          extra_handler d (geometries_to_proto d) lookup
            (λ extra base. base (get_geometries extra));
      get_properties_rpc =
          extra_handler d
            (λ result. record {
              width_meters = result.width_meters;
              turning_radius_meters = result.turning_radius_meters;
              wheel_circumference_meters = result.wheel_circumference_meters;
            })
            lookup (λ extra base. base (get_properties extra));
      do_command_rpc = do_command_handler d lookup (λ command base. base (do_command command));
    }

    -- `BaseClient` is a `Base`.
    unfoldable pub base_client : Bytes → Service → Base
    base_client name stub (move_straight distance_mm mm_per_sec extra) =
        invoke_with stub.move_straight_rpc name extra
          (record { distance_mm = distance_mm; mm_per_sec = mm_per_sec }) finished
    base_client name stub (spin angle_deg degs_per_sec extra) =
        invoke_with stub.spin_rpc name extra
          (record { angle_deg = angle_deg; degs_per_sec = degs_per_sec }) finished
    base_client name stub (set_power linear angular extra) =
        invoke_with stub.set_power_rpc name extra
          (record {
            linear = some (vector_to_proto d linear);
            angular = some (vector_to_proto d angular);
          })
          finished
    base_client name stub (set_velocity linear angular extra) =
        invoke_with stub.set_velocity_rpc name extra
          (record {
            linear = some (vector_to_proto d linear);
            angular = some (vector_to_proto d angular);
          })
          finished
    base_client name stub (stop extra) = extra_client d finished stub.stop_rpc name extra
    base_client name stub is_moving = is_moving_client d stub.is_moving_rpc name
    base_client name stub get_status = get_status_client d stub.get_status_rpc name
    base_client name stub (get_geometries extra) =
        extra_client d (geometries_from_proto d) stub.get_geometries_rpc name extra
    base_client name stub (get_properties extra) =
        extra_client d
          (λ response. finished (record {
            width_meters = response.width_meters;
            turning_radius_meters = response.turning_radius_meters;
            wheel_circumference_meters = response.wheel_circumference_meters;
          }))
          stub.get_properties_rpc name extra
    base_client name stub (do_command command) =
        do_command_client d stub.do_command_rpc name command

    abbrev pub base_component : Component S
    base_component = record {
      Method = Method;
      Answer = Answer;
      Service = Service;
      server = base_server;
      client = base_client;
      IsSent = IsSent;
      IsCarried = IsCarried;
      arrives = arrives;
    }
