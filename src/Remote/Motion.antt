-- ===== src/Remote/Motion.antt =====
-- `Motion` of services/motion.hpp, and its client and server, services/private/motion_client.cpp and
-- services/private/motion_server.cpp.
pub mod Carried
pub mod Relayed
use viam_cpp_sdk.Prelude.{
  Bool, true, false, List, [], Bytes, Option, none, some, Outcome, finished, ◌≡◌, Result, ok,
}
use viam_cpp_sdk.Prelude.Double.{Double}
use viam_cpp_sdk.Proto.{ProtoStruct, end, Struct}
use viam_cpp_sdk.Proto.RoundTrip.{StructIsMaps}
use viam_cpp_sdk.Spatial.Geometry.{GeometryConfig, GeometryMessage}
use viam_cpp_sdk.Prelude.{map, ◌>>=◌}
use viam_cpp_sdk.Spatial.Geometry as Geometry
use viam_cpp_sdk.Spatial.Geometry.{
  Pose, PoseMessage, pose_to_proto, pose_from_proto, pose_or_default, without_orientation,
}
use viam_cpp_sdk.Spatial.Convert.{to_repeated_field, from_repeated_field}
use viam_cpp_sdk.Spatial.WorldState as World
use viam_cpp_sdk.Spatial.WorldState.{
  PoseInFrame, PoseInFrameMessage, pose_in_frame_to_proto, pose_in_frame_from_proto,
  pose_in_frame_or_default, WorldState, WorldStateMessage, Transform, TransformMessage,
  transform_to_proto, transform_from_proto, plain_obstacle, plain_transform,
}
use viam_cpp_sdk.Remote.MovementSensor.{
  GeoPoint, GeoPointMessage, geo_point_to_proto, geo_point_from_proto,
}
use viam_cpp_sdk.Remote.MotionRequests.{
  Constraints, ConstraintsMessage, MotionConfiguration, MotionConfigurationMessage, GeoGeometry,
  GeoGeometryMessage, constraints_to_proto, constraints_from_proto, unless_nan, IsNumber,
  configuration_to_proto, configuration_from_proto, geo_geometry_to_proto, geo_geometry_from_proto,
  AreNumbers, plain_region,
}
use viam_cpp_sdk.Remote.MotionPlans.{
  PlanStatusWithId, PlanStatusWithIdMessage, status_with_id_to_proto, status_with_id_from_proto,
  all_from_proto, PlanWithStatus, PlanWithStatusMessage, plan_with_status_to_proto,
  plan_with_status_from_proto, AreMaps, AllAreMaps,
}
use viam_cpp_sdk.Remote.Shared.{attempt}
use viam_cpp_sdk.Remote.{Call, Handler, service_helper, get_extra, invoke_with, responds}
use viam_cpp_sdk.Remote.Laws.{IsSendable}
use viam_cpp_sdk.Remote.Shared.{
  Component, same, returned, do_command_handler, do_command_client, get_status_handler,
  get_status_client,
}

module _ (d : Double) where
  open d use {D}

  pub record Move : Type 0 where
    pub component_name : Bytes
    pub destination : Option (PoseInFrameMessage d)
    pub world_state : Option (WorldStateMessage d)
    pub constraints : Option (ConstraintsMessage d)

  pub record MoveOnMap : Type 0 where
    pub destination : Option (PoseMessage d)
    pub component_name : Bytes
    pub slam_service_name : Bytes
    pub obstacles : List (GeometryMessage d)
    pub motion_configuration : Option (MotionConfigurationMessage d)

  pub record MoveOnGlobe : Type 0 where
    pub destination : Option (GeoPointMessage d)
    pub component_name : Bytes
    pub movement_sensor_name : Bytes
    pub heading : Option D
    pub obstacles : List (GeoGeometryMessage d)
    pub motion_configuration : Option (MotionConfigurationMessage d)
    pub bounding_regions : List (GeoGeometryMessage d)

  pub record GetPose : Type 0 where
    pub component_name : Bytes
    pub destination_frame : Bytes
    pub supplemental_transforms : List (TransformMessage d)

  pub record GetPlan : Type 0 where
    pub component_name : Bytes
    pub last_plan_only : Bool
    pub execution_id : Option Bytes

  pub record GetPlanResponse : Type 0 where
    pub current_plan_with_status : Option (PlanWithStatusMessage d)
    pub replan_history : List (PlanWithStatusMessage d)

  -- A plan and the plans before it.
  abbrev pub Plans : Type 0
  Plans = PlanWithStatus d × List (PlanWithStatus d)

  -- A null pointer or an empty optional sets no field, and a field that is not set gives one.
  abbrev pub if_there : {A B : Type 0} → (A → B) → Option A → Option B
  if_there f none = none
  if_there f (some a) = some (f a)

  abbrev pub world_from : Option (WorldStateMessage d) → Result (Option (WorldState d))
  world_from none = ok none
  world_from (some proto) = do ws ← World.from_proto d proto; ok (some ws)

  -- Geometries without orientations, which a request has no field for.
  abbrev pub IsPlainWorld : Option (WorldState d) → Type 0
  IsPlainWorld none = Unit
  IsPlainWorld (some w) =
      (map (plain_obstacle d) w.obstacles ≡ w.obstacles)
      × (map (plain_transform d) w.transforms ≡ w.transforms)

  abbrev pub AreSettled : Option (MotionConfiguration d) → Type 0
  AreSettled none = Unit
  AreSettled (some mc) = AreNumbers d mc

  abbrev pub ArePlans : Plans → Type 0
  ArePlans a = AreMaps d a.0.plan.steps × AllAreMaps d a.1

  abbrev pub plans_to_proto : Plans → GetPlanResponse
  plans_to_proto a = record {
    current_plan_with_status = some (plan_with_status_to_proto d a.0);
    replan_history = map (plan_with_status_to_proto d) a.1;
  }

  abbrev pub plan_or_default : Option (PlanWithStatusMessage d) → PlanWithStatusMessage d
  plan_or_default none = record { plan = none; status = none; status_history = [] }
  plan_or_default (some proto) = proto

  abbrev pub read_plans : GetPlanResponse → Result Plans
  read_plans response = do
    plan ← plan_with_status_from_proto d (plan_or_default response.current_plan_with_status)
    history ← all_from_proto (plan_with_status_from_proto d) response.replan_history
    ok (plan, history)

  abbrev pub plans_from_proto : GetPlanResponse → Outcome Plans
  plans_from_proto response = returned (read_plans response)

  abbrev pub statuses_from_proto : List PlanStatusWithIdMessage → Outcome (List PlanStatusWithId)
  statuses_from_proto response = returned (all_from_proto status_with_id_from_proto response)

  abbrev pub alone : PlanWithStatus d → Plans
  alone plan = (plan, [])

  abbrev pub first : Plans → PlanWithStatus d
  first plans = plans.0

  -- The virtual methods; an overload without `extra` calls one with `{}`.
  pub data Method : Type 0 where
    move :
        (destination : PoseInFrame d) (component_name : Bytes) (world_state : Option (WorldState d))
        (constraints : Option (Constraints d)) (extra : ProtoStruct D)
        → Method
    move_on_map :
        (destination : Pose d) (component_name : Bytes) (slam_name : Bytes)
        (configuration : Option (MotionConfiguration d)) (obstacles : List (GeometryConfig d))
        (extra : ProtoStruct D)
        → Method
    move_on_globe :
        (destination : GeoPoint d) (heading : Option D) (component_name : Bytes)
        (movement_sensor_name : Bytes) (obstacles : List (GeoGeometry d))
        (configuration : Option (MotionConfiguration d)) (bounding_regions : List (GeoGeometry d))
        (extra : ProtoStruct D)
        → Method
    get_pose :
        (component_name : Bytes) (destination_frame : Bytes) (transforms : List (Transform d))
        (extra : ProtoStruct D)
        → Method
    stop_plan : (component_name : Bytes) (extra : ProtoStruct D) → Method
    get_latest_plan : (component_name : Bytes) (extra : ProtoStruct D) → Method
    get_latest_plan_with_replan_history : (component_name : Bytes) (extra : ProtoStruct D) → Method
    get_plan : (component_name : Bytes) (execution_id : Bytes) (extra : ProtoStruct D) → Method
    get_plan_with_replan_history :
        (component_name : Bytes) (execution_id : Bytes) (extra : ProtoStruct D) → Method
    list_plan_statuses : (extra : ProtoStruct D) → Method
    list_active_plan_statuses : (extra : ProtoStruct D) → Method
    do_command : (command : ProtoStruct D) → Method
    get_status : Method

  abbrev pub Answer : Method → Type 0
  Answer (move _ _ _ _ _) = Bool
  Answer (move_on_map _ _ _ _ _ _) = Bytes
  Answer (move_on_globe _ _ _ _ _ _ _ _) = Bytes
  Answer (get_pose _ _ _ _) = PoseInFrame d
  Answer (get_latest_plan _ _) = PlanWithStatus d
  Answer (get_latest_plan_with_replan_history _ _) = Plans
  Answer (get_plan _ _ _) = PlanWithStatus d
  Answer (get_plan_with_replan_history _ _ _) = Plans
  Answer (list_plan_statuses _) = List PlanStatusWithId
  Answer (list_active_plan_statuses _) = List PlanStatusWithId
  Answer (do_command _) = ProtoStruct D
  Answer get_status = ProtoStruct D
  Answer _ = Unit

  abbrev pub IsSent : Method → Type 0
  IsSent (move _ _ w _ e) = IsSendable e × IsPlainWorld w
  IsSent (move_on_map _ _ _ mc os e) =
      IsSendable e × AreSettled mc × (map (without_orientation d) os ≡ os)
  IsSent (move_on_globe _ h _ _ os mc rs e) =
      IsSendable e
      × IsNumber d h
      × AreSettled mc
      × (map (plain_region d) os ≡ os)
      × (map (plain_region d) rs ≡ rs)
  IsSent (get_pose _ _ ts e) = IsSendable e × (map (plain_transform d) ts ≡ ts)
  IsSent (stop_plan _ e) = IsSendable e
  IsSent (get_latest_plan _ e) = IsSendable e
  IsSent (get_latest_plan_with_replan_history _ e) = IsSendable e
  IsSent (get_plan _ _ e) = IsSendable e × (e ≡ end)
  IsSent (get_plan_with_replan_history _ _ e) = IsSendable e
  IsSent (list_plan_statuses e) = IsSendable e
  IsSent (list_active_plan_statuses e) = IsSendable e
  IsSent (do_command c) = StructIsMaps c
  IsSent _ = Unit

  abbrev pub IsCarried : (m : Method) → Answer m → Type 0
  IsCarried (get_latest_plan _ _) r = AreMaps d r.plan.steps
  IsCarried (get_latest_plan_with_replan_history _ _) r = ArePlans r
  IsCarried (get_plan _ _ _) r = AreMaps d r.plan.steps
  IsCarried (get_plan_with_replan_history _ _ _) r = ArePlans r
  IsCarried (do_command _) r = StructIsMaps r
  IsCarried get_status r = StructIsMaps r
  IsCarried _ r = Unit

  abbrev pub arrives : (m : Method) → Answer m → Answer m
  arrives m a = a

  module _ (S : Type 0) where
    abbrev pub Motion : Type 0
    Motion = (m : Method) → Call S (Answer m)

    -- What `GetPlan` calls; the last plan of an execution is asked for without extra parameters.
    abbrev pub plan_of : GetPlan → ProtoStruct D → Motion → Call S Plans
    plan_of fields extra motion = elim fields.last_plan_only [
      | true ↦ elim fields.execution_id [
        | some id ↦ responds alone (motion (get_plan fields.component_name id end))
        | none ↦ responds alone (motion (get_latest_plan fields.component_name extra))
      ]
      | false ↦ elim fields.execution_id [
        | some id ↦ motion (get_plan_with_replan_history fields.component_name id extra)
        | none ↦ motion (get_latest_plan_with_replan_history fields.component_name extra)
      ]
    ]

    -- What `ListPlanStatuses` calls.
    abbrev pub statuses_of : Bool → ProtoStruct D → Motion → Call S (List PlanStatusWithId)
    statuses_of only_active_plans extra motion = elim only_active_plans [
      | true ↦ motion (list_active_plan_statuses extra)
      | false ↦ motion (list_plan_statuses extra)
    ]

    -- `MotionService`.
    pub record Service : Type 0 where
      pub move_rpc : Handler D S Move Bool
      pub move_on_map_rpc : Handler D S MoveOnMap Bytes
      pub move_on_globe_rpc : Handler D S MoveOnGlobe Bytes
      pub get_pose_rpc : Handler D S GetPose (Option (PoseInFrameMessage d))
      pub stop_plan_rpc : Handler D S Bytes (Unit {0})
      pub get_plan_rpc : Handler D S GetPlan GetPlanResponse
      pub list_plan_statuses_rpc : Handler D S Bool (List PlanStatusWithIdMessage)
      pub do_command_rpc : Handler D S (Struct D) (Struct D)
      pub get_status_rpc : Handler D S (Unit {0}) (Struct D)

    unfoldable pub motion_server : (Bytes → Option Motion) → Service
    motion_server lookup = record {
      move_rpc = service_helper lookup (λ request motion. responds same (
          attempt (world_from request.fields.world_state) (λ ws. motion (
            move
              (pose_in_frame_from_proto d (pose_in_frame_or_default d request.fields.destination))
              request.fields.component_name ws
              (if_there (constraints_from_proto d) request.fields.constraints)
              (get_extra request)))));
      move_on_map_rpc = service_helper lookup (λ request motion. responds same (
          attempt (from_repeated_field (Geometry.from_proto d) request.fields.obstacles) (λ os.
            motion (
              move_on_map (pose_from_proto d (pose_or_default d request.fields.destination))
                request.fields.component_name request.fields.slam_service_name
                (if_there (configuration_from_proto d) request.fields.motion_configuration) os
                (get_extra request)))));
      move_on_globe_rpc = service_helper lookup (λ request motion. responds same (
          attempt (from_repeated_field (geo_geometry_from_proto d) request.fields.obstacles) (λ os.
            attempt
              (from_repeated_field (geo_geometry_from_proto d) request.fields.bounding_regions)
              (λ rs. motion (
                move_on_globe (geo_point_from_proto d request.fields.destination)
                  request.fields.heading request.fields.component_name
                  request.fields.movement_sensor_name os
                  (if_there (configuration_from_proto d) request.fields.motion_configuration) rs
                  (get_extra request))))));
      get_pose_rpc = service_helper lookup (λ request motion.
          responds (λ p. some (pose_in_frame_to_proto d p))
            (attempt
              (from_repeated_field (transform_from_proto d) request.fields.supplemental_transforms)
              (λ ts. motion (
                get_pose request.fields.component_name request.fields.destination_frame ts
                  (get_extra request)))));
      stop_plan_rpc =
          service_helper lookup (λ request motion.
            responds same (motion (stop_plan request.fields (get_extra request))));
      get_plan_rpc = service_helper lookup (λ request motion.
          responds plans_to_proto (plan_of request.fields (get_extra request) motion));
      list_plan_statuses_rpc = service_helper lookup (λ request motion.
          responds (map status_with_id_to_proto)
            (statuses_of request.fields (get_extra request) motion));
      do_command_rpc = do_command_handler d lookup (λ command motion. motion (do_command command));
      get_status_rpc = get_status_handler d lookup (λ motion. motion get_status);
    }

    -- `MotionClient` is a `Motion`.
    unfoldable pub motion_client : Bytes → Service → Motion
    motion_client name stub (move destination component_name world_state constraints extra) =
        invoke_with stub.move_rpc name extra
          (record {
            component_name = component_name;
            destination = some (pose_in_frame_to_proto d destination);
            world_state = if_there (World.to_proto d) world_state;
            constraints = if_there (constraints_to_proto d) constraints;
          })
          finished
    motion_client name stub
          (move_on_map destination component_name slam_name configuration obstacles extra) =
        invoke_with stub.move_on_map_rpc name extra
          (record {
            destination = some (pose_to_proto d destination);
            component_name = component_name;
            slam_service_name = slam_name;
            obstacles = to_repeated_field (Geometry.to_proto d) obstacles;
            motion_configuration = if_there (configuration_to_proto d) configuration;
          })
          finished
    motion_client name stub
          (move_on_globe destination heading component_name movement_sensor_name obstacles
            configuration bounding_regions extra) =
        invoke_with stub.move_on_globe_rpc name extra
          (record {
            destination = some (geo_point_to_proto d destination);
            component_name = component_name;
            movement_sensor_name = movement_sensor_name;
            heading = unless_nan d heading;
            obstacles = to_repeated_field (geo_geometry_to_proto d) obstacles;
            motion_configuration = if_there (configuration_to_proto d) configuration;
            bounding_regions = to_repeated_field (geo_geometry_to_proto d) bounding_regions;
          })
          finished
    motion_client name stub (get_pose component_name destination_frame transforms extra) =
        invoke_with stub.get_pose_rpc name extra
          (record {
            component_name = component_name;
            destination_frame = destination_frame;
            supplemental_transforms = to_repeated_field (transform_to_proto d) transforms;
          })
          (λ response. finished (pose_in_frame_from_proto d (pose_in_frame_or_default d response)))
    motion_client name stub (stop_plan component_name extra) =
        invoke_with stub.stop_plan_rpc name extra component_name finished
    motion_client name stub (get_latest_plan component_name extra) = responds first (
        invoke_with stub.get_plan_rpc name extra
          (record { component_name = component_name; last_plan_only = true; execution_id = none })
          plans_from_proto)
    motion_client name stub (get_latest_plan_with_replan_history component_name extra) =
        invoke_with stub.get_plan_rpc name extra
          (record { component_name = component_name; last_plan_only = false; execution_id = none })
          plans_from_proto
    motion_client name stub (get_plan component_name execution_id extra) = responds first (
        invoke_with stub.get_plan_rpc name extra
          (record {
            component_name = component_name;
            last_plan_only = true;
            execution_id = (some execution_id);
          })
          plans_from_proto)
    motion_client name stub (get_plan_with_replan_history component_name execution_id extra) =
        invoke_with stub.get_plan_rpc name extra
          (record {
            component_name = component_name;
            last_plan_only = false;
            execution_id = (some execution_id);
          })
          plans_from_proto
    motion_client name stub (list_plan_statuses extra) =
        invoke_with stub.list_plan_statuses_rpc name extra false statuses_from_proto
    motion_client name stub (list_active_plan_statuses extra) =
        invoke_with stub.list_plan_statuses_rpc name extra true statuses_from_proto
    motion_client name stub (do_command command) =
        do_command_client d stub.do_command_rpc name command
    motion_client name stub get_status = get_status_client d stub.get_status_rpc name

    abbrev pub motion_component : Component S
    motion_component = record {
      Method = Method;
      Answer = Answer;
      Service = Service;
      server = motion_server;
      client = motion_client;
      IsSent = IsSent;
      IsCarried = IsCarried;
      arrives = arrives;
    }
