-- ===== src/Remote/Arm.antt =====
-- `Arm` of components/arm.hpp, and its client and server, components/private/arm_client.cpp and
-- components/private/arm_server.cpp, less the stream of points and the kinematics.
pub mod Relayed
use viam_cpp_sdk.Prelude.{Bool, List, [], ◌∷◌, Bytes, Option, none, some, finished}
use viam_cpp_sdk.Prelude.Int.{ℤ}
use viam_cpp_sdk.Prelude.Double.{Double}
use viam_cpp_sdk.Proto.{ProtoStruct, Struct}
use viam_cpp_sdk.Proto.RoundTrip.{StructIsMaps}
use viam_cpp_sdk.Spatial.Geometry.{GeometryConfig, GeometryMessage}
use viam_cpp_sdk.Prelude.Dict.{Dict}
use viam_cpp_sdk.Prelude.{◌≢◌}
use viam_cpp_sdk.Remote.Int32.{unsigned, signed, IsInt32}
use viam_cpp_sdk.Remote.Maps.{insert_all, IsMap}
use viam_cpp_sdk.Spatial.Geometry.{
  Pose, PoseMessage, pose_to_proto, pose_from_proto, pose_or_default, Mesh, mesh_to_proto,
  mesh_from_proto,
}
use viam_cpp_sdk.Remote.{Call, Handler, service_helper, get_extra, invoke_with, responds}
use viam_cpp_sdk.Remote.Laws.{IsSendable}
use viam_cpp_sdk.Remote.Shared.{
  Component, same, do_command_handler, do_command_client, get_status_handler, get_status_client,
  is_moving_handler, is_moving_client, extra_handler, extra_client, geometries_to_proto,
  geometries_from_proto, geometries_arrive,
}

module _ (d : Double) where
  open d use {D}

  -- `boost::variant<double, std::vector<double>>`.
  pub data MoveLimit : Type 0 where
    uniform : D → MoveLimit
    per_joint : List D → MoveLimit

  pub record MoveOptions : Type 0 where
    pub max_vel_degs_per_sec : Option MoveLimit
    pub max_acc_degs_per_sec2 : Option MoveLimit
    pub max_tcp_speed : Option D

  pub record Properties : Type 0 where
    pub support_manual_mode : Bool
    pub support_cartesian_commands : Bool

  -- The options of a request that has none are read as these without a limit.
  pub record MoveOptionsMessage : Type 0 where
    pub max_vel_degs_per_sec : Option D
    pub max_vel_degs_per_sec_joints : List D
    pub max_acc_degs_per_sec2 : Option D
    pub max_acc_degs_per_sec2_joints : List D
    pub max_tcp_speed : Option D

  -- A message `JointPositions` is the list of its values.
  pub record MoveThroughJointPositions : Type 0 where
    pub positions : List (List D)
    pub options : MoveOptionsMessage

  pub record GetProperties : Type 0 where
    pub support_manual_mode : Bool
    pub support_cartesian_commands : Bool

  pub record SetManualMode : Type 0 where
    pub manual_mode : Bool
    pub enabled_for : ℤ

  -- What a visitor sets of a limit: the field for one value, or that for a value per joint.
  abbrev pub set_limit : Option MoveLimit → Option D × List D
  set_limit none = (none, [])
  set_limit (some (uniform s)) = (some s, [])
  set_limit (some (per_joint v)) = (none, v)

  abbrev pub read_limit : Option D → List D → Option MoveLimit
  read_limit s (x ∷ v) = some (per_joint (x ∷ v))
  read_limit (some s) [] = some (uniform s)
  read_limit none [] = none

  abbrev pub set_options : MoveOptions → MoveOptionsMessage
  set_options options = record {
    max_vel_degs_per_sec = (set_limit options.max_vel_degs_per_sec).0;
    max_vel_degs_per_sec_joints = (set_limit options.max_vel_degs_per_sec).1;
    max_acc_degs_per_sec2 = (set_limit options.max_acc_degs_per_sec2).0;
    max_acc_degs_per_sec2_joints = (set_limit options.max_acc_degs_per_sec2).1;
    max_tcp_speed = options.max_tcp_speed;
  }

  abbrev pub read_options : MoveOptionsMessage → MoveOptions
  read_options proto = record {
    max_vel_degs_per_sec = read_limit proto.max_vel_degs_per_sec proto.max_vel_degs_per_sec_joints;
    max_acc_degs_per_sec2 =
        read_limit proto.max_acc_degs_per_sec2 proto.max_acc_degs_per_sec2_joints;
    max_tcp_speed = proto.max_tcp_speed;
  }

  -- Limits that a request carries: a list of none for the joints is no limit there.
  abbrev pub AreCarried : MoveOptions → Type 0
  AreCarried options =
      (options.max_vel_degs_per_sec ≢ some (per_joint []))
      × (options.max_acc_degs_per_sec2 ≢ some (per_joint []))

  -- The virtual methods less `move_through_joint_positions_streamed`, `get_kinematic_model` and
  -- `get_kinematics`; an overload without `extra` calls one with `{}`.
  pub data Method : Type 0 where
    get_end_position : (extra : ProtoStruct D) → Method
    move_to_position : (to : Pose d) (extra : ProtoStruct D) → Method
    get_joint_positions : (extra : ProtoStruct D) → Method
    move_to_joint_positions : (positions : List D) (extra : ProtoStruct D) → Method
    move_through_joint_positions :
        (positions : List (List D)) (options : MoveOptions) (extra : ProtoStruct D) → Method
    is_moving : Method
    get_status : Method
    stop : (extra : ProtoStruct D) → Method
    do_command : (command : ProtoStruct D) → Method
    get_3d_models : (extra : ProtoStruct D) → Method
    get_geometries : (extra : ProtoStruct D) → Method
    get_properties : (extra : ProtoStruct D) → Method
    set_manual_mode : (manual_mode : Bool) (enabled_for : ℤ) (extra : ProtoStruct D) → Method
    get_manual_mode : (extra : ProtoStruct D) → Method

  abbrev pub Answer : Method → Type 0
  Answer (get_end_position _) = Pose d
  Answer (get_joint_positions _) = List D
  Answer is_moving = Bool
  Answer get_status = ProtoStruct D
  Answer (do_command _) = ProtoStruct D
  Answer (get_3d_models _) = Dict Bytes (Mesh d)
  Answer (get_geometries _) = List (GeometryConfig d)
  Answer (get_properties _) = Properties
  Answer (get_manual_mode _) = Bool
  Answer _ = Unit

  abbrev pub IsSent : Method → Type 0
  IsSent (get_end_position e) = IsSendable e
  IsSent (move_to_position _ e) = IsSendable e
  IsSent (get_joint_positions e) = IsSendable e
  IsSent (move_to_joint_positions _ e) = IsSendable e
  IsSent (move_through_joint_positions _ o e) = IsSendable e × AreCarried o
  IsSent (stop e) = IsSendable e
  IsSent (do_command c) = StructIsMaps c
  IsSent (get_3d_models e) = IsSendable e
  IsSent (get_geometries e) = IsSendable e
  IsSent (get_properties e) = IsSendable e
  IsSent (set_manual_mode _ t e) = IsSendable e × IsInt32 t
  IsSent (get_manual_mode e) = IsSendable e
  IsSent _ = Unit

  abbrev pub IsCarried : (m : Method) → Answer m → Type 0
  IsCarried get_status r = StructIsMaps r
  IsCarried (do_command _) r = StructIsMaps r
  IsCarried (get_3d_models _) r = IsMap r
  IsCarried _ r = Unit

  abbrev pub arrives : (m : Method) → Answer m → Answer m
  arrives (get_geometries _) a = geometries_arrive d a
  arrives _ a = a

  module _ (S : Type 0) where
    abbrev pub Arm : Type 0
    Arm = (m : Method) → Call S (Answer m)

    -- `ArmService`.
    pub record Service : Type 0 where
      pub get_end_position_rpc : Handler D S (Unit {0}) (Option (PoseMessage d))
      pub move_to_position_rpc : Handler D S (Option (PoseMessage d)) (Unit {0})
      pub get_joint_positions_rpc : Handler D S (Unit {0}) (List D)
      pub move_to_joint_positions_rpc : Handler D S (List D) (Unit {0})
      pub move_through_joint_positions_rpc : Handler D S MoveThroughJointPositions (Unit {0})
      pub is_moving_rpc : Handler D S (Unit {0}) Bool
      pub get_status_rpc : Handler D S (Unit {0}) (Struct D)
      pub stop_rpc : Handler D S (Unit {0}) (Unit {0})
      pub do_command_rpc : Handler D S (Struct D) (Struct D)
      pub get_3d_models_rpc : Handler D S (Unit {0}) (Dict Bytes (Mesh d))
      pub get_geometries_rpc : Handler D S (Unit {0}) (List (GeometryMessage d))
      pub get_properties_rpc : Handler D S (Unit {0}) GetProperties
      pub set_manual_mode_rpc : Handler D S SetManualMode (Unit {0})
      pub get_manual_mode_rpc : Handler D S (Unit {0}) Bool

    unfoldable pub arm_server : (Bytes → Option Arm) → Service
    arm_server lookup = record {
      get_end_position_rpc =
          extra_handler d (λ p. some (pose_to_proto d p)) lookup
            (λ extra arm. arm (get_end_position extra));
      move_to_position_rpc = service_helper lookup (λ request arm. responds same (
          arm (
            move_to_position (pose_from_proto d (pose_or_default d request.fields))
              (get_extra request))));
      get_joint_positions_rpc =
          extra_handler d same lookup (λ extra arm. arm (get_joint_positions extra));
      move_to_joint_positions_rpc = service_helper lookup (λ request arm.
          responds same (arm (move_to_joint_positions request.fields (get_extra request))));
      move_through_joint_positions_rpc = service_helper lookup (λ request arm. responds same (
          arm (
            move_through_joint_positions request.fields.positions
              (read_options request.fields.options) (get_extra request))));
      is_moving_rpc = is_moving_handler d lookup (λ arm. arm is_moving);
      get_status_rpc = get_status_handler d lookup (λ arm. arm get_status);
      stop_rpc = extra_handler d same lookup (λ extra arm. arm (stop extra));
      do_command_rpc = do_command_handler d lookup (λ command arm. arm (do_command command));
      get_3d_models_rpc =
          extra_handler d (λ models. insert_all (mesh_to_proto d) models []) lookup
            (λ extra arm. arm (get_3d_models extra));
      get_geometries_rpc =
          extra_handler d (geometries_to_proto d) lookup (λ extra arm. arm (get_geometries extra));
      get_properties_rpc =
          extra_handler d
            (λ result. record {
              support_manual_mode = result.support_manual_mode;
              support_cartesian_commands = result.support_cartesian_commands;
            })
            lookup (λ extra arm. arm (get_properties extra));
      set_manual_mode_rpc = service_helper lookup (λ request arm. responds same (
          arm (
            set_manual_mode request.fields.manual_mode request.fields.enabled_for
              (get_extra request))));
      get_manual_mode_rpc = extra_handler d same lookup (λ extra arm. arm (get_manual_mode extra));
    }

    -- `ArmClient` is a `Arm`.
    unfoldable pub arm_client : Bytes → Service → Arm
    arm_client name stub (get_end_position extra) =
        extra_client d (λ response. finished (pose_from_proto d (pose_or_default d response)))
          stub.get_end_position_rpc name extra
    arm_client name stub (move_to_position to extra) =
        invoke_with stub.move_to_position_rpc name extra (some (pose_to_proto d to)) finished
    arm_client name stub (get_joint_positions extra) =
        extra_client d finished stub.get_joint_positions_rpc name extra
    arm_client name stub (move_to_joint_positions positions extra) =
        invoke_with stub.move_to_joint_positions_rpc name extra positions finished
    arm_client name stub (move_through_joint_positions positions options extra) =
        invoke_with stub.move_through_joint_positions_rpc name extra
          (record { positions = positions; options = set_options options }) finished
    arm_client name stub is_moving = is_moving_client d stub.is_moving_rpc name
    arm_client name stub get_status = get_status_client d stub.get_status_rpc name
    arm_client name stub (stop extra) = extra_client d finished stub.stop_rpc name extra
    arm_client name stub (do_command command) = do_command_client d stub.do_command_rpc name command
    arm_client name stub (get_3d_models extra) =
        extra_client d (λ response. finished (insert_all (mesh_from_proto d) response []))
          stub.get_3d_models_rpc name extra
    arm_client name stub (get_geometries extra) =
        extra_client d (geometries_from_proto d) stub.get_geometries_rpc name extra
    arm_client name stub (get_properties extra) =
        extra_client d
          (λ response. finished (record {
            support_manual_mode = response.support_manual_mode;
            support_cartesian_commands = response.support_cartesian_commands;
          }))
          stub.get_properties_rpc name extra
    arm_client name stub (set_manual_mode manual_mode enabled_for extra) =
        invoke_with stub.set_manual_mode_rpc name extra
          (record { manual_mode = manual_mode; enabled_for = signed (unsigned enabled_for) })
          finished
    arm_client name stub (get_manual_mode extra) =
        extra_client d finished stub.get_manual_mode_rpc name extra

    abbrev pub arm_component : Component S
    arm_component = record {
      Method = Method;
      Answer = Answer;
      Service = Service;
      server = arm_server;
      client = arm_client;
      IsSent = IsSent;
      IsCarried = IsCarried;
      arrives = arrives;
    }
