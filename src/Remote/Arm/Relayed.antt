-- ===== src/Remote/Arm/Relayed.antt =====
-- The calls of a client of a `Arm` are those of the `Arm` that is served.
use viam_cpp_sdk.Prelude.{List, [], ◌∷◌, Option, none, some, finished, ◌≡◌, refl, ap, ◌∙◌}
use viam_cpp_sdk.Prelude.Double.{Double}
use viam_cpp_sdk.Prelude.{◌≢◌}
use viam_cpp_sdk.Remote.Int32.{unsigned, signed, signed-unsigned}
use viam_cpp_sdk.Remote.Maps.{insert_all, insert_all_back}
use viam_cpp_sdk.Spatial.Geometry.{
  PoseMessage, pose_to_proto, pose_from_proto, pose_or_default, mesh_to_proto, mesh_from_proto,
  mesh_comes_back,
}
use viam_cpp_sdk.Remote.{relay}
use viam_cpp_sdk.Remote.Laws.{invoke_with-service_helper, invoke_with_missing, invoke_plain_missing}
use viam_cpp_sdk.Remote.Shared.{
  IsRelayed, IsRefused, same, geometries_to_proto, geometries_from_proto, geometries_arrive,
  geometries_carried, do_command_relayed, get_status_relayed, is_moving_relayed, extra_relayed,
}
use viam_cpp_sdk.Remote.Arm.{
  MoveOptions, MoveLimit, uniform, per_joint, MoveThroughJointPositions, set_limit, read_limit,
  set_options, read_options, SetManualMode, get_end_position, move_to_position, get_joint_positions,
  move_to_joint_positions, move_through_joint_positions, is_moving, get_status, stop, do_command,
  get_3d_models, get_geometries, get_properties, set_manual_mode, get_manual_mode, arm_server,
  arm_client, arm_component,
}

module _ (d : Double) (S : Type 0) where
  open d use {D}

  limit_back :
      (o : Option (MoveLimit d))
      → o ≢ some (per_joint [])
      → read_limit d (set_limit d o).0 (set_limit d o).1 ≡ o
  limit_back none h = refl
  limit_back (some (uniform s)) h = refl
  limit_back (some (per_joint [])) h = absurd (h refl)
  limit_back (some (per_joint (x ∷ v))) h = refl

  options_back :
      (o : MoveOptions d)
      → o.max_vel_degs_per_sec ≢ some (per_joint [])
      → o.max_acc_degs_per_sec2 ≢ some (per_joint [])
      → read_options d (set_options d o) ≡ o
  options_back o hv ha = λ i. record o {
    max_vel_degs_per_sec = limit_back o.max_vel_degs_per_sec hv i;
    max_acc_degs_per_sec2 = limit_back o.max_acc_degs_per_sec2 ha i;
  }

  pub arm-IsRelayed : IsRelayed (arm_component d S)
  unfolding arm_client arm_server
  arm-IsRelayed lookup name arm (get_end_position extra) s found sent carried =
      extra_relayed d (λ p. some (pose_to_proto d p))
        (λ response. finished (pose_from_proto d (pose_or_default d response))) same lookup
        (λ e c. c (get_end_position e)) name extra arm s found sent (λ a f. refl)
  arm-IsRelayed lookup name arm (move_to_position to extra) s found sent carried =
      invoke_with-service_helper lookup same finished same
        (λ (fields : Option (PoseMessage d)) e c.
          c (move_to_position (pose_from_proto d (pose_or_default d fields)) e))
        name extra (some (pose_to_proto d to)) arm s found sent (λ a f. refl)
  arm-IsRelayed lookup name arm (get_joint_positions extra) s found sent carried =
      extra_relayed d same finished same lookup (λ e c. c (get_joint_positions e)) name extra arm s
        found sent (λ a f. refl)
  arm-IsRelayed lookup name arm (move_to_joint_positions positions extra) s found sent carried =
      invoke_with-service_helper lookup same finished same
        (λ (fields : List D) e c. c (move_to_joint_positions fields e)) name extra positions arm s
        found sent (λ a f. refl)
  arm-IsRelayed lookup name arm (move_through_joint_positions positions options extra) s found sent
        carried =
      invoke_with-service_helper lookup same finished same
        (λ (fields : MoveThroughJointPositions d) e c.
          c (move_through_joint_positions fields.positions (read_options d fields.options) e))
        name extra (record { positions = positions; options = set_options d options }) arm s found
        sent.0 (λ a f. refl)
      ∙ ap (λ o. relay same (arm (move_through_joint_positions positions o extra)) s)
          (options_back options sent.1.0 sent.1.1)
  arm-IsRelayed lookup name arm is_moving s found sent carried =
      is_moving_relayed d lookup (λ c. c is_moving) name arm s found
  arm-IsRelayed lookup name arm get_status s found sent carried =
      get_status_relayed d lookup (λ c. c get_status) name arm s found carried
  arm-IsRelayed lookup name arm (stop extra) s found sent carried =
      extra_relayed d same finished same lookup (λ e c. c (stop e)) name extra arm s found sent
        (λ a f. refl)
  arm-IsRelayed lookup name arm (do_command command) s found sent carried =
      do_command_relayed d lookup (λ x c. c (do_command x)) name command arm s found sent carried
  arm-IsRelayed lookup name arm (get_3d_models extra) s found sent carried =
      extra_relayed d (λ models. insert_all (mesh_to_proto d) models [])
        (λ response. finished (insert_all (mesh_from_proto d) response [])) same lookup
        (λ e c. c (get_3d_models e)) name extra arm s found sent
        (λ a f. ap finished (
          insert_all_back (mesh_to_proto d) (mesh_from_proto d) (mesh_comes_back d) a
            (carried a f)))
  arm-IsRelayed lookup name arm (get_geometries extra) s found sent carried =
      extra_relayed d (geometries_to_proto d) (geometries_from_proto d) (geometries_arrive d) lookup
        (λ e c. c (get_geometries e)) name extra arm s found sent (λ a f. geometries_carried d a)
  arm-IsRelayed lookup name arm (get_properties extra) s found sent carried =
      extra_relayed d
        (λ result. record {
          support_manual_mode = result.support_manual_mode;
          support_cartesian_commands = result.support_cartesian_commands;
        })
        (λ response. finished (record {
          support_manual_mode = response.support_manual_mode;
          support_cartesian_commands = response.support_cartesian_commands;
        }))
        same lookup (λ e c. c (get_properties e)) name extra arm s found sent (λ a f. refl)
  arm-IsRelayed lookup name arm (set_manual_mode manual_mode enabled_for extra) s found sent
        carried =
      invoke_with-service_helper lookup same finished same
        (λ (fields : SetManualMode d) e c.
          c (set_manual_mode fields.manual_mode fields.enabled_for e))
        name extra
        (record { manual_mode = manual_mode; enabled_for = signed (unsigned enabled_for) }) arm s
        found sent.0 (λ a f. refl)
      ∙ ap (λ t. relay same (arm (set_manual_mode manual_mode t extra)) s)
          (signed-unsigned enabled_for sent.1)
  arm-IsRelayed lookup name arm (get_manual_mode extra) s found sent carried =
      extra_relayed d same finished same lookup (λ e c. c (get_manual_mode e)) name extra arm s
        found sent (λ a f. refl)

  pub arm-IsRefused : IsRefused (arm_component d S)
  unfolding arm_client arm_server
  arm-IsRefused lookup name (get_end_position extra) s missing sent =
      invoke_with_missing lookup _ _ name extra _ s missing sent
  arm-IsRefused lookup name (move_to_position to extra) s missing sent =
      invoke_with_missing lookup _ _ name extra _ s missing sent
  arm-IsRefused lookup name (get_joint_positions extra) s missing sent =
      invoke_with_missing lookup _ _ name extra _ s missing sent
  arm-IsRefused lookup name (move_to_joint_positions positions extra) s missing sent =
      invoke_with_missing lookup _ _ name extra _ s missing sent
  arm-IsRefused lookup name (move_through_joint_positions positions options extra) s missing sent =
      invoke_with_missing lookup _ _ name extra _ s missing sent.0
  arm-IsRefused lookup name is_moving s missing sent =
      invoke_plain_missing lookup _ _ name _ s missing
  arm-IsRefused lookup name get_status s missing sent =
      invoke_plain_missing lookup _ _ name _ s missing
  arm-IsRefused lookup name (stop extra) s missing sent =
      invoke_with_missing lookup _ _ name extra _ s missing sent
  arm-IsRefused lookup name (do_command command) s missing sent =
      invoke_plain_missing lookup _ _ name _ s missing
  arm-IsRefused lookup name (get_3d_models extra) s missing sent =
      invoke_with_missing lookup _ _ name extra _ s missing sent
  arm-IsRefused lookup name (get_geometries extra) s missing sent =
      invoke_with_missing lookup _ _ name extra _ s missing sent
  arm-IsRefused lookup name (get_properties extra) s missing sent =
      invoke_with_missing lookup _ _ name extra _ s missing sent
  arm-IsRefused lookup name (set_manual_mode manual_mode enabled_for extra) s missing sent =
      invoke_with_missing lookup _ _ name extra _ s missing sent.0
  arm-IsRefused lookup name (get_manual_mode extra) s missing sent =
      invoke_with_missing lookup _ _ name extra _ s missing sent
