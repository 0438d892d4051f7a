-- ===== src/Remote/PowerSensor/Relayed.antt =====
-- The calls of a client of a `PowerSensor` are those of the `PowerSensor` that is served.
use viam_cpp_sdk.Prelude.{finished, refl, ap}
use viam_cpp_sdk.Prelude.Double.{Double}
use viam_cpp_sdk.Proto.{to_struct, from_struct}
use viam_cpp_sdk.Proto.RoundTrip.{struct-from_proto-to_proto}
use viam_cpp_sdk.Remote.Laws.{invoke_with_missing, invoke_plain_missing}
use viam_cpp_sdk.Remote.Shared.{
  IsRelayed, IsRefused, same, do_command_relayed, get_status_relayed, extra_relayed,
}
use viam_cpp_sdk.Remote.PowerSensor.{
  get_voltage, get_current, get_power, get_readings, do_command, get_status, power_sensor_server,
  power_sensor_client, power_sensor_component,
}

module _ (d : Double) (S : Type 0) where
  open d use {D}

  pub power_sensor-IsRelayed : IsRelayed (power_sensor_component d S)
  unfolding power_sensor_client power_sensor_server
  power_sensor-IsRelayed lookup name power_sensor (get_voltage extra) s found sent carried =
      extra_relayed d (λ result. record { volts = result.volts; is_ac = result.is_ac })
        (λ response. finished (record { volts = response.volts; is_ac = response.is_ac })) same
        lookup (λ e c. c (get_voltage e)) name extra power_sensor s found sent (λ a f. refl)
  power_sensor-IsRelayed lookup name power_sensor (get_current extra) s found sent carried =
      extra_relayed d (λ result. record { amperes = result.amperes; is_ac = result.is_ac })
        (λ response. finished (record { amperes = response.amperes; is_ac = response.is_ac })) same
        lookup (λ e c. c (get_current e)) name extra power_sensor s found sent (λ a f. refl)
  power_sensor-IsRelayed lookup name power_sensor (get_power extra) s found sent carried =
      extra_relayed d same finished same lookup (λ e c. c (get_power e)) name extra power_sensor s
        found sent (λ a f. refl)
  power_sensor-IsRelayed lookup name power_sensor (get_readings extra) s found sent carried =
      extra_relayed d to_struct (λ response. finished (from_struct response)) same lookup
        (λ e c. c (get_readings e)) name extra power_sensor s found sent
        (λ a f. ap finished (struct-from_proto-to_proto a (carried a f)))
  power_sensor-IsRelayed lookup name power_sensor (do_command command) s found sent carried =
      do_command_relayed d lookup (λ x c. c (do_command x)) name command power_sensor s found sent
        carried
  power_sensor-IsRelayed lookup name power_sensor get_status s found sent carried =
      get_status_relayed d lookup (λ c. c get_status) name power_sensor s found carried

  pub power_sensor-IsRefused : IsRefused (power_sensor_component d S)
  unfolding power_sensor_client power_sensor_server
  power_sensor-IsRefused lookup name (get_voltage extra) s missing sent =
      invoke_with_missing lookup _ _ name extra _ s missing sent
  power_sensor-IsRefused lookup name (get_current extra) s missing sent =
      invoke_with_missing lookup _ _ name extra _ s missing sent
  power_sensor-IsRefused lookup name (get_power extra) s missing sent =
      invoke_with_missing lookup _ _ name extra _ s missing sent
  power_sensor-IsRefused lookup name (get_readings extra) s missing sent =
      invoke_with_missing lookup _ _ name extra _ s missing sent
  power_sensor-IsRefused lookup name (do_command command) s missing sent =
      invoke_plain_missing lookup _ _ name _ s missing
  power_sensor-IsRefused lookup name get_status s missing sent =
      invoke_plain_missing lookup _ _ name _ s missing
