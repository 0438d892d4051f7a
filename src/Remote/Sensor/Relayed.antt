-- ===== src/Remote/Sensor/Relayed.antt =====
-- The calls of a client of a `Sensor` are those of the `Sensor` that is served.
use viam_cpp_sdk.Prelude.{finished, ap}
use viam_cpp_sdk.Prelude.Double.{Double}
use viam_cpp_sdk.Proto.{to_struct, from_struct}
use viam_cpp_sdk.Proto.RoundTrip.{struct-from_proto-to_proto}
use viam_cpp_sdk.Remote.Laws.{invoke_with_missing, invoke_plain_missing}
use viam_cpp_sdk.Remote.Shared.{
  IsRelayed, IsRefused, same, geometries_to_proto, geometries_from_proto, geometries_arrive,
  geometries_carried, do_command_relayed, get_status_relayed, extra_relayed,
}
use viam_cpp_sdk.Remote.Sensor.{
  get_readings, do_command, get_status, get_geometries, sensor_server, sensor_client,
  sensor_component,
}

module _ (d : Double) (S : Type 0) where
  open d use {D}

  pub sensor-IsRelayed : IsRelayed (sensor_component d S)
  unfolding sensor_client sensor_server
  sensor-IsRelayed lookup name sensor (get_readings extra) s found sent carried =
      extra_relayed d to_struct (λ response. finished (from_struct response)) same lookup
        (λ e c. c (get_readings e)) name extra sensor s found sent
        (λ a f. ap finished (struct-from_proto-to_proto a (carried a f)))
  sensor-IsRelayed lookup name sensor (do_command command) s found sent carried =
      do_command_relayed d lookup (λ x c. c (do_command x)) name command sensor s found sent carried
  sensor-IsRelayed lookup name sensor get_status s found sent carried =
      get_status_relayed d lookup (λ c. c get_status) name sensor s found carried
  sensor-IsRelayed lookup name sensor (get_geometries extra) s found sent carried =
      extra_relayed d (geometries_to_proto d) (geometries_from_proto d) (geometries_arrive d) lookup
        (λ e c. c (get_geometries e)) name extra sensor s found sent (λ a f. geometries_carried d a)

  pub sensor-IsRefused : IsRefused (sensor_component d S)
  unfolding sensor_client sensor_server
  sensor-IsRefused lookup name (get_readings extra) s missing sent =
      invoke_with_missing lookup _ _ name extra _ s missing sent
  sensor-IsRefused lookup name (do_command command) s missing sent =
      invoke_plain_missing lookup _ _ name _ s missing
  sensor-IsRefused lookup name get_status s missing sent =
      invoke_plain_missing lookup _ _ name _ s missing
  sensor-IsRefused lookup name (get_geometries extra) s missing sent =
      invoke_with_missing lookup _ _ name extra _ s missing sent
