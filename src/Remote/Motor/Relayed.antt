-- ===== src/Remote/Motor/Relayed.antt =====
-- The calls of a client of a `Motor` are those of the `Motor` that is served.
use viam_cpp_sdk.Prelude.{finished, refl}
use viam_cpp_sdk.Prelude.Double.{Double}
use viam_cpp_sdk.Remote.Laws.{invoke_with-service_helper, invoke_with_missing, invoke_plain_missing}
use viam_cpp_sdk.Remote.Shared.{
  IsRelayed, IsRefused, same, geometries_to_proto, geometries_from_proto, geometries_arrive,
  geometries_carried, do_command_relayed, get_status_relayed, is_moving_relayed, extra_relayed,
}
use viam_cpp_sdk.Remote.Motor.{
  GoFor, GoTo, set_power, go_for, go_to, set_rpm, reset_zero_position, get_position, get_properties,
  stop, get_power_status, get_geometries, is_moving, get_status, do_command, motor_server,
  motor_client, motor_component,
}

module _ (d : Double) (S : Type 0) where
  open d use {D}

  pub motor-IsRelayed : IsRelayed (motor_component d S)
  unfolding motor_client motor_server
  motor-IsRelayed lookup name motor (set_power power_pct extra) s found sent carried =
      invoke_with-service_helper lookup same finished same
        (λ (fields : D) e c. c (set_power fields e)) name extra power_pct motor s found sent
        (λ a f. refl)
  motor-IsRelayed lookup name motor (go_for rpm revolutions extra) s found sent carried =
      invoke_with-service_helper lookup same finished same
        (λ (fields : GoFor d) e c. c (go_for fields.rpm fields.revolutions e)) name extra
        (record { rpm = rpm; revolutions = revolutions }) motor s found sent (λ a f. refl)
  motor-IsRelayed lookup name motor (go_to rpm position_revolutions extra) s found sent carried =
      invoke_with-service_helper lookup same finished same
        (λ (fields : GoTo d) e c. c (go_to fields.rpm fields.position_revolutions e)) name extra
        (record { rpm = rpm; position_revolutions = position_revolutions }) motor s found sent
        (λ a f. refl)
  motor-IsRelayed lookup name motor (set_rpm rpm extra) s found sent carried =
      invoke_with-service_helper lookup same finished same
        (λ (fields : D) e c. c (set_rpm fields e)) name extra rpm motor s found sent (λ a f. refl)
  motor-IsRelayed lookup name motor (reset_zero_position offset extra) s found sent carried =
      invoke_with-service_helper lookup same finished same
        (λ (fields : D) e c. c (reset_zero_position fields e)) name extra offset motor s found sent
        (λ a f. refl)
  motor-IsRelayed lookup name motor (get_position extra) s found sent carried =
      extra_relayed d same finished same lookup (λ e c. c (get_position e)) name extra motor s found
        sent (λ a f. refl)
  motor-IsRelayed lookup name motor (get_properties extra) s found sent carried =
      extra_relayed d (λ result. result.position_reporting)
        (λ response. finished (record { position_reporting = response })) same lookup
        (λ e c. c (get_properties e)) name extra motor s found sent (λ a f. refl)
  motor-IsRelayed lookup name motor (stop extra) s found sent carried =
      extra_relayed d same finished same lookup (λ e c. c (stop e)) name extra motor s found sent
        (λ a f. refl)
  motor-IsRelayed lookup name motor (get_power_status extra) s found sent carried =
      extra_relayed d (λ result. record { is_on = result.is_on; power_pct = result.power_pct })
        (λ response. finished (record { is_on = response.is_on; power_pct = response.power_pct }))
        same lookup (λ e c. c (get_power_status e)) name extra motor s found sent (λ a f. refl)
  motor-IsRelayed lookup name motor (get_geometries extra) s found sent carried =
      extra_relayed d (geometries_to_proto d) (geometries_from_proto d) (geometries_arrive d) lookup
        (λ e c. c (get_geometries e)) name extra motor s found sent (λ a f. geometries_carried d a)
  motor-IsRelayed lookup name motor is_moving s found sent carried =
      is_moving_relayed d lookup (λ c. c is_moving) name motor s found
  motor-IsRelayed lookup name motor get_status s found sent carried =
      get_status_relayed d lookup (λ c. c get_status) name motor s found carried
  motor-IsRelayed lookup name motor (do_command command) s found sent carried =
      do_command_relayed d lookup (λ x c. c (do_command x)) name command motor s found sent carried

  pub motor-IsRefused : IsRefused (motor_component d S)
  unfolding motor_client motor_server
  motor-IsRefused lookup name (set_power power_pct extra) s missing sent =
      invoke_with_missing lookup _ _ name extra _ s missing sent
  motor-IsRefused lookup name (go_for rpm revolutions extra) s missing sent =
      invoke_with_missing lookup _ _ name extra _ s missing sent
  motor-IsRefused lookup name (go_to rpm position_revolutions extra) s missing sent =
      invoke_with_missing lookup _ _ name extra _ s missing sent
  motor-IsRefused lookup name (set_rpm rpm extra) s missing sent =
      invoke_with_missing lookup _ _ name extra _ s missing sent
  motor-IsRefused lookup name (reset_zero_position offset extra) s missing sent =
      invoke_with_missing lookup _ _ name extra _ s missing sent
  motor-IsRefused lookup name (get_position extra) s missing sent =
      invoke_with_missing lookup _ _ name extra _ s missing sent
  motor-IsRefused lookup name (get_properties extra) s missing sent =
      invoke_with_missing lookup _ _ name extra _ s missing sent
  motor-IsRefused lookup name (stop extra) s missing sent =
      invoke_with_missing lookup _ _ name extra _ s missing sent
  motor-IsRefused lookup name (get_power_status extra) s missing sent =
      invoke_with_missing lookup _ _ name extra _ s missing sent
  motor-IsRefused lookup name (get_geometries extra) s missing sent =
      invoke_with_missing lookup _ _ name extra _ s missing sent
  motor-IsRefused lookup name is_moving s missing sent =
      invoke_plain_missing lookup _ _ name _ s missing
  motor-IsRefused lookup name get_status s missing sent =
      invoke_plain_missing lookup _ _ name _ s missing
  motor-IsRefused lookup name (do_command command) s missing sent =
      invoke_plain_missing lookup _ _ name _ s missing
