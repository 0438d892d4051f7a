-- ===== src/Remote/Gripper.antt =====
-- `Gripper` of components/gripper.hpp, and its client and server, components/private/gripper_client.cpp
-- and components/private/gripper_server.cpp.
pub mod Relayed
use viam_cpp_sdk.Prelude.{Bool, List, Bytes, Option, finished}
use viam_cpp_sdk.Prelude.Double.{Double}
use viam_cpp_sdk.Proto.{ProtoStruct, Struct, to_struct, from_struct}
use viam_cpp_sdk.Proto.RoundTrip.{StructIsMaps}
use viam_cpp_sdk.Spatial.Geometry.{GeometryConfig, GeometryMessage}
use viam_cpp_sdk.Remote.{Call, Handler}
use viam_cpp_sdk.Remote.Laws.{IsSendable}
use viam_cpp_sdk.Remote.Shared.{
  Component, same, do_command_handler, do_command_client, get_status_handler, get_status_client,
  is_moving_handler, is_moving_client, extra_handler, extra_client, geometries_to_proto,
  geometries_from_proto, geometries_arrive,
}

module _ (d : Double) where
  open d use {D}

  pub record HoldingStatus : Type 0 where
    pub is_holding_something : Bool
    pub meta : ProtoStruct D

  pub record IsHoldingSomething : Type 0 where
    pub is_holding_something : Bool
    pub meta : Struct D

  -- The virtual methods; an overload without `extra` calls one with `{}`, but that of
  -- `is_holding_something` returns a default `holding_status`.
  pub data Method : Type 0 where
    open_gripper : (extra : ProtoStruct D) → Method
    grab : (extra : ProtoStruct D) → Method
    is_holding_something : (extra : ProtoStruct D) → Method
    is_moving : Method
    stop : (extra : ProtoStruct D) → Method
    do_command : (command : ProtoStruct D) → Method
    get_geometries : (extra : ProtoStruct D) → Method
    get_status : Method

  abbrev pub Answer : Method → Type 0
  Answer (grab _) = Bool
  Answer (is_holding_something _) = HoldingStatus
  Answer is_moving = Bool
  Answer (do_command _) = ProtoStruct D
  Answer (get_geometries _) = List (GeometryConfig d)
  Answer get_status = ProtoStruct D
  Answer _ = Unit

  abbrev pub IsSent : Method → Type 0
  IsSent (open_gripper e) = IsSendable e
  IsSent (grab e) = IsSendable e
  IsSent (is_holding_something e) = IsSendable e
  IsSent (stop e) = IsSendable e
  IsSent (do_command c) = StructIsMaps c
  IsSent (get_geometries e) = IsSendable e
  IsSent _ = Unit

  abbrev pub IsCarried : (m : Method) → Answer m → Type 0
  IsCarried (is_holding_something _) r = StructIsMaps r.meta
  IsCarried (do_command _) r = StructIsMaps r
  IsCarried get_status r = StructIsMaps r
  IsCarried _ r = Unit

  abbrev pub arrives : (m : Method) → Answer m → Answer m
  arrives (get_geometries _) a = geometries_arrive d a
  arrives _ a = a

  module _ (S : Type 0) where
    abbrev pub Gripper : Type 0
    Gripper = (m : Method) → Call S (Answer m)

    -- `GripperService`.
    pub record Service : Type 0 where
      pub open_rpc : Handler D S (Unit {0}) (Unit {0})
      pub grab_rpc : Handler D S (Unit {0}) Bool
      pub is_holding_something_rpc : Handler D S (Unit {0}) IsHoldingSomething
      pub is_moving_rpc : Handler D S (Unit {0}) Bool
      pub stop_rpc : Handler D S (Unit {0}) (Unit {0})
      pub do_command_rpc : Handler D S (Struct D) (Struct D)
      pub get_geometries_rpc : Handler D S (Unit {0}) (List (GeometryMessage d))
      pub get_status_rpc : Handler D S (Unit {0}) (Struct D)

    unfoldable pub gripper_server : (Bytes → Option Gripper) → Service
    gripper_server lookup = record {
      open_rpc = extra_handler d same lookup (λ extra gripper. gripper (open_gripper extra));
      grab_rpc = extra_handler d same lookup (λ extra gripper. gripper (grab extra));
      is_holding_something_rpc =
          extra_handler d
            (λ res. record {
              is_holding_something = res.is_holding_something;
              meta = to_struct res.meta;
            })
            lookup (λ extra gripper. gripper (is_holding_something extra));
      is_moving_rpc = is_moving_handler d lookup (λ gripper. gripper is_moving);
      stop_rpc = extra_handler d same lookup (λ extra gripper. gripper (stop extra));
      do_command_rpc =
          do_command_handler d lookup (λ command gripper. gripper (do_command command));
      get_geometries_rpc =
          extra_handler d (geometries_to_proto d) lookup
            (λ extra gripper. gripper (get_geometries extra));
      get_status_rpc = get_status_handler d lookup (λ gripper. gripper get_status);
    }

    -- `GripperClient` is a `Gripper`.
    unfoldable pub gripper_client : Bytes → Service → Gripper
    gripper_client name stub (open_gripper extra) = extra_client d finished stub.open_rpc name extra
    gripper_client name stub (grab extra) = extra_client d finished stub.grab_rpc name extra
    gripper_client name stub (is_holding_something extra) =
        extra_client d
          (λ response. finished (record {
            is_holding_something = response.is_holding_something;
            meta = from_struct response.meta;
          }))
          stub.is_holding_something_rpc name extra
    gripper_client name stub is_moving = is_moving_client d stub.is_moving_rpc name
    gripper_client name stub (stop extra) = extra_client d finished stub.stop_rpc name extra
    gripper_client name stub (do_command command) =
        do_command_client d stub.do_command_rpc name command
    gripper_client name stub (get_geometries extra) =
        extra_client d (geometries_from_proto d) stub.get_geometries_rpc name extra
    gripper_client name stub get_status = get_status_client d stub.get_status_rpc name

    abbrev pub gripper_component : Component S
    gripper_component = record {
      Method = Method;
      Answer = Answer;
      Service = Service;
      server = gripper_server;
      client = gripper_client;
      IsSent = IsSent;
      IsCarried = IsCarried;
      arrives = arrives;
    }
