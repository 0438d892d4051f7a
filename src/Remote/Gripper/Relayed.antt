-- ===== src/Remote/Gripper/Relayed.antt =====
-- The calls of a client of a `Gripper` are those of the `Gripper` that is served.
use viam_cpp_sdk.Prelude.{finished, refl, ap}
use viam_cpp_sdk.Prelude.Double.{Double}
use viam_cpp_sdk.Proto.{to_struct, from_struct}
use viam_cpp_sdk.Proto.RoundTrip.{struct-from_proto-to_proto}
use viam_cpp_sdk.Remote.Laws.{invoke_with_missing, invoke_plain_missing}
use viam_cpp_sdk.Remote.Shared.{
  IsRelayed, IsRefused, same, geometries_to_proto, geometries_from_proto, geometries_arrive,
  geometries_carried, do_command_relayed, get_status_relayed, is_moving_relayed, extra_relayed,
}
use viam_cpp_sdk.Remote.Gripper.{
  open_gripper, grab, is_holding_something, is_moving, stop, do_command, get_geometries, get_status,
  gripper_server, gripper_client, gripper_component,
}

module _ (d : Double) (S : Type 0) where
  open d use {D}

  pub gripper-IsRelayed : IsRelayed (gripper_component d S)
  unfolding gripper_client gripper_server
  gripper-IsRelayed lookup name gripper (open_gripper extra) s found sent carried =
      extra_relayed d same finished same lookup (λ e c. c (open_gripper e)) name extra gripper s
        found sent (λ a f. refl)
  gripper-IsRelayed lookup name gripper (grab extra) s found sent carried =
      extra_relayed d same finished same lookup (λ e c. c (grab e)) name extra gripper s found sent
        (λ a f. refl)
  gripper-IsRelayed lookup name gripper (is_holding_something extra) s found sent carried =
      extra_relayed d
        (λ res. record {
          is_holding_something = res.is_holding_something;
          meta = to_struct res.meta;
        })
        (λ response. finished (record {
          is_holding_something = response.is_holding_something;
          meta = from_struct response.meta;
        }))
        same lookup (λ e c. c (is_holding_something e)) name extra gripper s found sent
        (λ a f.
          ap (λ m. finished (record { is_holding_something = a.is_holding_something; meta = m }))
            (struct-from_proto-to_proto a.meta (carried a f)))
  gripper-IsRelayed lookup name gripper is_moving s found sent carried =
      is_moving_relayed d lookup (λ c. c is_moving) name gripper s found
  gripper-IsRelayed lookup name gripper (stop extra) s found sent carried =
      extra_relayed d same finished same lookup (λ e c. c (stop e)) name extra gripper s found sent
        (λ a f. refl)
  gripper-IsRelayed lookup name gripper (do_command command) s found sent carried =
      do_command_relayed d lookup (λ x c. c (do_command x)) name command gripper s found sent
        carried
  gripper-IsRelayed lookup name gripper (get_geometries extra) s found sent carried =
      extra_relayed d (geometries_to_proto d) (geometries_from_proto d) (geometries_arrive d) lookup
        (λ e c. c (get_geometries e)) name extra gripper s found sent
        (λ a f. geometries_carried d a)
  gripper-IsRelayed lookup name gripper get_status s found sent carried =
      get_status_relayed d lookup (λ c. c get_status) name gripper s found carried

  pub gripper-IsRefused : IsRefused (gripper_component d S)
  unfolding gripper_client gripper_server
  gripper-IsRefused lookup name (open_gripper extra) s missing sent =
      invoke_with_missing lookup _ _ name extra _ s missing sent
  gripper-IsRefused lookup name (grab extra) s missing sent =
      invoke_with_missing lookup _ _ name extra _ s missing sent
  gripper-IsRefused lookup name (is_holding_something extra) s missing sent =
      invoke_with_missing lookup _ _ name extra _ s missing sent
  gripper-IsRefused lookup name is_moving s missing sent =
      invoke_plain_missing lookup _ _ name _ s missing
  gripper-IsRefused lookup name (stop extra) s missing sent =
      invoke_with_missing lookup _ _ name extra _ s missing sent
  gripper-IsRefused lookup name (do_command command) s missing sent =
      invoke_plain_missing lookup _ _ name _ s missing
  gripper-IsRefused lookup name (get_geometries extra) s missing sent =
      invoke_with_missing lookup _ _ name extra _ s missing sent
  gripper-IsRefused lookup name get_status s missing sent =
      invoke_plain_missing lookup _ _ name _ s missing
