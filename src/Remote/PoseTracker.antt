-- ===== src/Remote/PoseTracker.antt =====
-- `PoseTracker` of components/pose_tracker.hpp, and its client and
-- server, components/private/pose_tracker_client.cpp and
-- components/private/pose_tracker_server.cpp.
pub mod Relayed
use viam_cpp_sdk.Prelude.{List, [], Bytes, Option, finished, ◌≡◌}
use viam_cpp_sdk.Prelude.Double.{Double}
use viam_cpp_sdk.Proto.{ProtoStruct, end, Struct}
use viam_cpp_sdk.Proto.RoundTrip.{StructIsMaps}
use viam_cpp_sdk.Spatial.Geometry.{GeometryConfig, GeometryMessage}
use viam_cpp_sdk.Prelude.Dict.{Dict}
use viam_cpp_sdk.Remote.Maps.{insert_all, IsMap}
use viam_cpp_sdk.Spatial.WorldState.{
  PoseInFrame, PoseInFrameMessage, pose_in_frame_to_proto, pose_in_frame_from_proto,
}
use viam_cpp_sdk.Remote.{Call, Handler, service_helper, get_extra, invoke_plain, responds}
use viam_cpp_sdk.Remote.Laws.{IsSendable}
use viam_cpp_sdk.Remote.Shared.{
  Component, do_command_handler, do_command_client, get_status_handler, get_status_client,
  extra_handler, extra_client, geometries_to_proto, geometries_from_proto, geometries_arrive,
}

module _ (d : Double) where
  open d use {D}

  -- The virtual methods; an overload without `extra` calls one with `{}`.
  pub data Method : Type 0 where
    get_poses : (body_names : List Bytes) (extra : ProtoStruct D) → Method
    get_geometries : (extra : ProtoStruct D) → Method
    get_status : Method
    do_command : (command : ProtoStruct D) → Method

  abbrev pub Answer : Method → Type 0
  Answer (get_poses _ _) = Dict Bytes (PoseInFrame d)
  Answer (get_geometries _) = List (GeometryConfig d)
  Answer get_status = ProtoStruct D
  Answer (do_command _) = ProtoStruct D

  abbrev pub IsSent : Method → Type 0
  IsSent (get_poses _ e) = e ≡ end
  IsSent (get_geometries e) = IsSendable e
  IsSent (do_command c) = StructIsMaps c
  IsSent _ = Unit

  abbrev pub IsCarried : (m : Method) → Answer m → Type 0
  IsCarried (get_poses _ _) r = IsMap r
  IsCarried get_status r = StructIsMaps r
  IsCarried (do_command _) r = StructIsMaps r
  IsCarried _ r = Unit

  abbrev pub arrives : (m : Method) → Answer m → Answer m
  arrives (get_geometries _) a = geometries_arrive d a
  arrives _ a = a

  module _ (S : Type 0) where
    abbrev pub PoseTracker : Type 0
    PoseTracker = (m : Method) → Call S (Answer m)

    -- `PoseTrackerService`.
    pub record Service : Type 0 where
      pub get_poses_rpc : Handler D S (List Bytes) (Dict Bytes (PoseInFrameMessage d))
      pub get_geometries_rpc : Handler D S (Unit {0}) (List (GeometryMessage d))
      pub get_status_rpc : Handler D S (Unit {0}) (Struct D)
      pub do_command_rpc : Handler D S (Struct D) (Struct D)

    unfoldable pub pose_tracker_server : (Bytes → Option PoseTracker) → Service
    pose_tracker_server lookup = record {
      get_poses_rpc = service_helper lookup (λ request pose_tracker.
          responds (λ result. insert_all (pose_in_frame_to_proto d) result [])
            (pose_tracker (get_poses request.fields (get_extra request))));
      get_geometries_rpc =
          extra_handler d (geometries_to_proto d) lookup
            (λ extra pose_tracker. pose_tracker (get_geometries extra));
      get_status_rpc = get_status_handler d lookup (λ pose_tracker. pose_tracker get_status);
      do_command_rpc =
          do_command_handler d lookup (λ command pose_tracker. pose_tracker (do_command command));
    }

    -- `PoseTrackerClient` is a `PoseTracker`.
    unfoldable pub pose_tracker_client : Bytes → Service → PoseTracker
    pose_tracker_client name stub (get_poses body_names extra) =
        invoke_plain stub.get_poses_rpc name body_names
          (λ response. finished (insert_all (pose_in_frame_from_proto d) response []))
    pose_tracker_client name stub (get_geometries extra) =
        extra_client d (geometries_from_proto d) stub.get_geometries_rpc name extra
    pose_tracker_client name stub get_status = get_status_client d stub.get_status_rpc name
    pose_tracker_client name stub (do_command command) =
        do_command_client d stub.do_command_rpc name command

    abbrev pub pose_tracker_component : Component S
    pose_tracker_component = record {
      Method = Method;
      Answer = Answer;
      Service = Service;
      server = pose_tracker_server;
      client = pose_tracker_client;
      IsSent = IsSent;
      IsCarried = IsCarried;
      arrives = arrives;
    }
