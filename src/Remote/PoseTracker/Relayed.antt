-- ===== src/Remote/PoseTracker/Relayed.antt =====
-- The calls of a client of a `PoseTracker` are those of the `PoseTracker` that is served.
use viam_cpp_sdk.Prelude.{[], finished, refl, sym, ap, ◌∙◌}
use viam_cpp_sdk.Prelude.Double.{Double}
use viam_cpp_sdk.Remote.Maps.{insert_all, insert_all_back}
use viam_cpp_sdk.Spatial.WorldState.{pose_in_frame_to_proto, pose_in_frame_from_proto}
use viam_cpp_sdk.Remote.{relay}
use viam_cpp_sdk.Remote.Laws.{
  invoke_plain-service_helper, invoke_with_missing, invoke_plain_missing,
}
use viam_cpp_sdk.Remote.Shared.{
  IsRelayed, IsRefused, same, geometries_to_proto, geometries_from_proto, geometries_arrive,
  geometries_carried, do_command_relayed, get_status_relayed, extra_relayed,
}
use viam_cpp_sdk.Remote.PoseTracker.{
  get_poses, get_geometries, get_status, do_command, pose_tracker_server, pose_tracker_client,
  pose_tracker_component,
}

module _ (d : Double) (S : Type 0) where
  open d use {D}

  pub pose_tracker-IsRelayed : IsRelayed (pose_tracker_component d S)
  unfolding pose_tracker_client pose_tracker_server
  pose_tracker-IsRelayed lookup name pose_tracker (get_poses body_names extra) s found sent
        carried =
      invoke_plain-service_helper D lookup
        (λ result. insert_all (pose_in_frame_to_proto d) result [])
        (λ response. finished (insert_all (pose_in_frame_from_proto d) response [])) same
        (λ fields e c. c (get_poses fields e)) name body_names pose_tracker s found
        (λ a f. ap finished (
          insert_all_back (pose_in_frame_to_proto d) (pose_in_frame_from_proto d) (λ _. refl) a
            (carried a (ap (λ e. (pose_tracker (get_poses body_names e) s).1) sent ∙ f))))
      ∙ ap (λ e. relay same (pose_tracker (get_poses body_names e)) s) (sym sent)
  pose_tracker-IsRelayed lookup name pose_tracker (get_geometries extra) s found sent carried =
      extra_relayed d (geometries_to_proto d) (geometries_from_proto d) (geometries_arrive d) lookup
        (λ e c. c (get_geometries e)) name extra pose_tracker s found sent
        (λ a f. geometries_carried d a)
  pose_tracker-IsRelayed lookup name pose_tracker get_status s found sent carried =
      get_status_relayed d lookup (λ c. c get_status) name pose_tracker s found carried
  pose_tracker-IsRelayed lookup name pose_tracker (do_command command) s found sent carried =
      do_command_relayed d lookup (λ x c. c (do_command x)) name command pose_tracker s found sent
        carried

  pub pose_tracker-IsRefused : IsRefused (pose_tracker_component d S)
  unfolding pose_tracker_client pose_tracker_server
  pose_tracker-IsRefused lookup name (get_poses body_names extra) s missing sent =
      invoke_plain_missing lookup _ _ name _ s missing
  pose_tracker-IsRefused lookup name (get_geometries extra) s missing sent =
      invoke_with_missing lookup _ _ name extra _ s missing sent
  pose_tracker-IsRefused lookup name get_status s missing sent =
      invoke_plain_missing lookup _ _ name _ s missing
  pose_tracker-IsRefused lookup name (do_command command) s missing sent =
      invoke_plain_missing lookup _ _ name _ s missing
