-- ===== src/Remote/Motion/Relayed.antt =====
-- The calls of a client of a `Motion` are those of the `Motion` that is served.
use viam_cpp_sdk.Prelude.{Bool, true, false, Bytes, none, some, finished, refl, sym, ap, ◌∙◌}
use viam_cpp_sdk.Prelude.Double.{Double}
use viam_cpp_sdk.Proto.{end}
use viam_cpp_sdk.Prelude.{map}
use viam_cpp_sdk.Spatial.Geometry as Geometry
use viam_cpp_sdk.Spatial.Geometry.{
  pose_from_proto, pose_or_default, without_orientation, geometry-from_proto-to_proto,
}
use viam_cpp_sdk.Spatial.Convert.{to_repeated_field, from_repeated_field}
use viam_cpp_sdk.Spatial.WorldState.{
  pose_in_frame_to_proto, pose_in_frame_from_proto, pose_in_frame_or_default, transform_to_proto,
  transform_from_proto, plain_transform, transform_comes_back,
}
use viam_cpp_sdk.Remote.MovementSensor.{geo_point_from_proto}
use viam_cpp_sdk.Remote.MotionRequests.{
  constraints_to_proto, constraints_from_proto, unless_nan, unless_nan_number,
  configuration_to_proto, configuration_from_proto, geo_geometry_to_proto, geo_geometry_from_proto,
  constraints_back, plain_region, geo_geometry_back,
}
use viam_cpp_sdk.Remote.MotionPlans.{
  status_with_id_to_proto, status_with_id_from_proto, status_with_id_back, all_back,
}
use viam_cpp_sdk.Remote.{set_response}
use viam_cpp_sdk.Remote.Shared.{attempt}
use viam_cpp_sdk.Remote.{relay}
use viam_cpp_sdk.Remote.Laws.{invoke_with-service_helper, invoke_with_missing, invoke_plain_missing}
use viam_cpp_sdk.Remote.Shared.{
  IsRelayed, IsRefused, same, returned, do_command_relayed, get_status_relayed,
}
use viam_cpp_sdk.Remote.Motion.{
  Move, MoveOnMap, MoveOnGlobe, GetPose, if_there, world_from, statuses_from_proto, first,
  statuses_of, move, move_on_map, move_on_globe, get_pose, stop_plan, get_latest_plan,
  get_latest_plan_with_replan_history, get_plan, get_plan_with_replan_history, list_plan_statuses,
  list_active_plan_statuses, do_command, get_status, motion_server, motion_client, motion_component,
}
use viam_cpp_sdk.Remote.Motion.Carried.{
  there_and_back, settled_back, world_back, plain_back, alone_fine, first-alone, plans_relayed,
}

module _ (d : Double) (S : Type 0) where
  open d use {D}

  pub motion-IsRelayed : IsRelayed (motion_component d S)
  unfolding motion_client motion_server
  motion-IsRelayed lookup name motion
        (move destination component_name world_state constraints extra) s found sent carried =
      invoke_with-service_helper lookup same finished same
        (λ (fields : Move d) e c. attempt (world_from d fields.world_state) (λ ws. c (
          move (pose_in_frame_from_proto d (pose_in_frame_or_default d fields.destination))
            fields.component_name ws (if_there d (constraints_from_proto d) fields.constraints) e)))
        name extra _ motion s found sent.0 (λ a f. refl)
      ∙ ap
          (λ w.
            relay same
              (attempt w (λ ws. motion (
                move destination component_name ws
                  (if_there d (constraints_from_proto d)
                    (if_there d (constraints_to_proto d) constraints))
                  extra)))
              s)
          (world_back d S world_state sent.1)
      ∙ ap (λ cs. relay same (motion (move destination component_name world_state cs extra)) s)
          (there_and_back d S (constraints_to_proto d) (constraints_from_proto d)
            (constraints_back d) constraints)
  motion-IsRelayed lookup name motion
        (move_on_map destination component_name slam_name configuration obstacles extra) s found
        sent carried =
      invoke_with-service_helper lookup same finished same
        (λ (fields : MoveOnMap d) e c.
          attempt (from_repeated_field (Geometry.from_proto d) fields.obstacles) (λ os. c (
            move_on_map (pose_from_proto d (pose_or_default d fields.destination))
              fields.component_name fields.slam_service_name
              (if_there d (configuration_from_proto d) fields.motion_configuration) os e)))
        name extra _ motion s found sent.0 (λ a f. refl)
      ∙ ap
          (λ w.
            relay same
              (attempt w (λ os. motion (
                move_on_map destination component_name slam_name
                  (if_there d (configuration_from_proto d)
                    (if_there d (configuration_to_proto d) configuration))
                  os extra)))
              s)
          (plain_back d S (Geometry.to_proto d) (Geometry.from_proto d) (without_orientation d)
            (geometry-from_proto-to_proto d) obstacles sent.2)
      ∙ ap
          (λ mc.
            relay same
              (motion (move_on_map destination component_name slam_name mc obstacles extra)) s)
          (settled_back d S configuration sent.1)
  motion-IsRelayed lookup name motion
        (move_on_globe destination heading component_name movement_sensor_name obstacles
          configuration bounding_regions extra)
        s found sent carried =
      invoke_with-service_helper lookup same finished same
        (λ (fields : MoveOnGlobe d) e c.
          attempt (from_repeated_field (geo_geometry_from_proto d) fields.obstacles) (λ os.
            attempt (from_repeated_field (geo_geometry_from_proto d) fields.bounding_regions) (λ rs.
              c (
                move_on_globe (geo_point_from_proto d fields.destination) fields.heading
                  fields.component_name fields.movement_sensor_name os
                  (if_there d (configuration_from_proto d) fields.motion_configuration) rs e))))
        name extra _ motion s found sent.0 (λ a f. refl)
      ∙ ap
          (λ w.
            relay same
              (attempt w (λ os.
                attempt
                  (from_repeated_field (geo_geometry_from_proto d)
                    (to_repeated_field (geo_geometry_to_proto d) bounding_regions))
                  (λ rs. motion (
                    move_on_globe destination (unless_nan d heading) component_name
                      movement_sensor_name os
                      (if_there d (configuration_from_proto d)
                        (if_there d (configuration_to_proto d) configuration))
                      rs extra))))
              s)
          (plain_back d S (geo_geometry_to_proto d) (geo_geometry_from_proto d) (plain_region d)
            (geo_geometry_back d) obstacles sent.3)
      ∙ ap
          (λ w.
            relay same
              (attempt w (λ rs. motion (
                move_on_globe destination (unless_nan d heading) component_name movement_sensor_name
                  obstacles
                  (if_there d (configuration_from_proto d)
                    (if_there d (configuration_to_proto d) configuration))
                  rs extra)))
              s)
          (plain_back d S (geo_geometry_to_proto d) (geo_geometry_from_proto d) (plain_region d)
            (geo_geometry_back d) bounding_regions sent.4)
      ∙ (λ i.
          relay same
            (motion (
              move_on_globe destination (unless_nan_number d heading sent.1 i) component_name
                movement_sensor_name obstacles (settled_back d S configuration sent.2 i)
                bounding_regions extra))
            s)
  motion-IsRelayed lookup name motion (get_pose component_name destination_frame transforms extra) s
        found sent carried =
      invoke_with-service_helper lookup (λ p. some (pose_in_frame_to_proto d p))
        (λ response. finished (pose_in_frame_from_proto d (pose_in_frame_or_default d response)))
        same
        (λ (fields : GetPose d) e c.
          attempt (from_repeated_field (transform_from_proto d) fields.supplemental_transforms)
            (λ ts. c (get_pose fields.component_name fields.destination_frame ts e)))
        name extra _ motion s found sent.0 (λ a f. refl)
      ∙ ap
          (λ w.
            relay same
              (attempt w (λ ts. motion (get_pose component_name destination_frame ts extra))) s)
          (plain_back d S (transform_to_proto d) (transform_from_proto d) (plain_transform d)
            (transform_comes_back d) transforms sent.1)
  motion-IsRelayed lookup name motion (stop_plan component_name extra) s found sent carried =
      invoke_with-service_helper lookup same finished same
        (λ (fields : Bytes) e c. c (stop_plan fields e)) name extra component_name motion s found
        sent (λ a f. refl)
  motion-IsRelayed lookup name motion (get_latest_plan component_name extra) s found sent carried =
      ap (set_response (first d)) (
        plans_relayed d S lookup name extra
          (record { component_name = component_name; last_plan_only = true; execution_id = none })
          motion s found sent
          (alone_fine d S (motion (get_latest_plan component_name extra) s) carried))
      ∙ first-alone d S (motion (get_latest_plan component_name extra) s)
  motion-IsRelayed lookup name motion (get_latest_plan_with_replan_history component_name extra) s
        found sent carried =
      plans_relayed d S lookup name extra
        (record { component_name = component_name; last_plan_only = false; execution_id = none })
        motion s found sent carried
  motion-IsRelayed lookup name motion (get_plan component_name execution_id extra) s found sent
        carried =
      ap (set_response (first d)) (
        plans_relayed d S lookup name extra
          (record {
            component_name = component_name;
            last_plan_only = true;
            execution_id = (some execution_id);
          })
          motion s found sent.0
          (alone_fine d S (motion (get_plan component_name execution_id end) s) (λ p f.
            carried p
              (ap (λ e. (motion (get_plan component_name execution_id e) s).1) sent.1 ∙ f))))
      ∙ first-alone d S (motion (get_plan component_name execution_id end) s)
      ∙ ap (λ e. relay same (motion (get_plan component_name execution_id e)) s) (sym sent.1)
  motion-IsRelayed lookup name motion
        (get_plan_with_replan_history component_name execution_id extra) s found sent carried =
      plans_relayed d S lookup name extra
        (record {
          component_name = component_name;
          last_plan_only = false;
          execution_id = (some execution_id);
        })
        motion s found sent carried
  motion-IsRelayed lookup name motion (list_plan_statuses extra) s found sent carried =
      invoke_with-service_helper lookup (map status_with_id_to_proto) (statuses_from_proto d) same
        (λ (only_active_plans : Bool) e c. statuses_of d S only_active_plans e c) name extra false
        motion s found sent
        (λ a f.
          ap returned
            (all_back status_with_id_to_proto status_with_id_from_proto status_with_id_back a))
  motion-IsRelayed lookup name motion (list_active_plan_statuses extra) s found sent carried =
      invoke_with-service_helper lookup (map status_with_id_to_proto) (statuses_from_proto d) same
        (λ (only_active_plans : Bool) e c. statuses_of d S only_active_plans e c) name extra true
        motion s found sent
        (λ a f.
          ap returned
            (all_back status_with_id_to_proto status_with_id_from_proto status_with_id_back a))
  motion-IsRelayed lookup name motion (do_command command) s found sent carried =
      do_command_relayed d lookup (λ x c. c (do_command x)) name command motion s found sent carried
  motion-IsRelayed lookup name motion get_status s found sent carried =
      get_status_relayed d lookup (λ c. c get_status) name motion s found carried

  pub motion-IsRefused : IsRefused (motion_component d S)
  unfolding motion_client motion_server
  motion-IsRefused lookup name (move destination component_name world_state constraints extra) s
        missing sent =
      invoke_with_missing lookup _ _ name extra _ s missing sent.0
  motion-IsRefused lookup name
        (move_on_map destination component_name slam_name configuration obstacles extra) s missing
        sent =
      invoke_with_missing lookup _ _ name extra _ s missing sent.0
  motion-IsRefused lookup name
        (move_on_globe destination heading component_name movement_sensor_name obstacles
          configuration bounding_regions extra)
        s missing sent =
      invoke_with_missing lookup _ _ name extra _ s missing sent.0
  motion-IsRefused lookup name (get_pose component_name destination_frame transforms extra) s
        missing sent =
      invoke_with_missing lookup _ _ name extra _ s missing sent.0
  motion-IsRefused lookup name (stop_plan component_name extra) s missing sent =
      invoke_with_missing lookup _ _ name extra _ s missing sent
  motion-IsRefused lookup name (get_latest_plan component_name extra) s missing sent =
      ap (set_response (first d)) (invoke_with_missing lookup _ _ name extra _ s missing sent)
  motion-IsRefused lookup name (get_latest_plan_with_replan_history component_name extra) s missing
        sent =
      invoke_with_missing lookup _ _ name extra _ s missing sent
  motion-IsRefused lookup name (get_plan component_name execution_id extra) s missing sent =
      ap (set_response (first d)) (invoke_with_missing lookup _ _ name extra _ s missing sent.0)
  motion-IsRefused lookup name (get_plan_with_replan_history component_name execution_id extra) s
        missing sent =
      invoke_with_missing lookup _ _ name extra _ s missing sent
  motion-IsRefused lookup name (list_plan_statuses extra) s missing sent =
      invoke_with_missing lookup _ _ name extra _ s missing sent
  motion-IsRefused lookup name (list_active_plan_statuses extra) s missing sent =
      invoke_with_missing lookup _ _ name extra _ s missing sent
  motion-IsRefused lookup name (do_command command) s missing sent =
      invoke_plain_missing lookup _ _ name _ s missing
  motion-IsRefused lookup name get_status s missing sent =
      invoke_plain_missing lookup _ _ name _ s missing
