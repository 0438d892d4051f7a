-- ===== src/Remote/Servo/Relayed.antt =====
-- The calls of a client of a `Servo` are those of the `Servo` that is served.
use viam_cpp_sdk.Prelude.{finished, ℕ, refl}
use viam_cpp_sdk.Prelude.Double.{Double}
use viam_cpp_sdk.Remote.Laws.{invoke_with-service_helper, invoke_with_missing, invoke_plain_missing}
use viam_cpp_sdk.Remote.Shared.{
  IsRelayed, IsRefused, same, geometries_to_proto, geometries_from_proto, geometries_arrive,
  geometries_carried, do_command_relayed, get_status_relayed, is_moving_relayed, extra_relayed,
}
use viam_cpp_sdk.Remote.Servo.{
  move, get_position, stop, is_moving, get_status, get_geometries, do_command, servo_server,
  servo_client, servo_component,
}

module _ (d : Double) (S : Type 0) where
  open d use {D}

  pub servo-IsRelayed : IsRelayed (servo_component d S)
  unfolding servo_client servo_server
  servo-IsRelayed lookup name servo (move angle_deg extra) s found sent carried =
      invoke_with-service_helper lookup same finished same (λ (fields : ℕ) e c. c (move fields e))
        name extra angle_deg servo s found sent (λ a f. refl)
  servo-IsRelayed lookup name servo (get_position extra) s found sent carried =
      extra_relayed d same finished same lookup (λ e c. c (get_position e)) name extra servo s found
        sent (λ a f. refl)
  servo-IsRelayed lookup name servo (stop extra) s found sent carried =
      extra_relayed d same finished same lookup (λ e c. c (stop e)) name extra servo s found sent
        (λ a f. refl)
  servo-IsRelayed lookup name servo is_moving s found sent carried =
      is_moving_relayed d lookup (λ c. c is_moving) name servo s found
  servo-IsRelayed lookup name servo get_status s found sent carried =
      get_status_relayed d lookup (λ c. c get_status) name servo s found carried
  servo-IsRelayed lookup name servo (get_geometries extra) s found sent carried =
      extra_relayed d (geometries_to_proto d) (geometries_from_proto d) (geometries_arrive d) lookup
        (λ e c. c (get_geometries e)) name extra servo s found sent (λ a f. geometries_carried d a)
  servo-IsRelayed lookup name servo (do_command command) s found sent carried =
      do_command_relayed d lookup (λ x c. c (do_command x)) name command servo s found sent carried

  pub servo-IsRefused : IsRefused (servo_component d S)
  unfolding servo_client servo_server
  servo-IsRefused lookup name (move angle_deg extra) s missing sent =
      invoke_with_missing lookup _ _ name extra _ s missing sent
  servo-IsRefused lookup name (get_position extra) s missing sent =
      invoke_with_missing lookup _ _ name extra _ s missing sent
  servo-IsRefused lookup name (stop extra) s missing sent =
      invoke_with_missing lookup _ _ name extra _ s missing sent
  servo-IsRefused lookup name is_moving s missing sent =
      invoke_plain_missing lookup _ _ name _ s missing
  servo-IsRefused lookup name get_status s missing sent =
      invoke_plain_missing lookup _ _ name _ s missing
  servo-IsRefused lookup name (get_geometries extra) s missing sent =
      invoke_with_missing lookup _ _ name extra _ s missing sent
  servo-IsRefused lookup name (do_command command) s missing sent =
      invoke_plain_missing lookup _ _ name _ s missing
