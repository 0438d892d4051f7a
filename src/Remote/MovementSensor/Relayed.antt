-- ===== src/Remote/MovementSensor/Relayed.antt =====
-- The calls of a client of a `MovementSensor` are those of the `MovementSensor` that is served.
use viam_cpp_sdk.Prelude.{[], some, finished, refl, ap}
use viam_cpp_sdk.Prelude.Double.{Double}
use viam_cpp_sdk.Spatial.Geometry.{vector_or_default}
use viam_cpp_sdk.Remote.Maps.{insert_all, insert_all_back}
use viam_cpp_sdk.Remote.Laws.{invoke_with_missing, invoke_plain_missing}
use viam_cpp_sdk.Remote.Shared.{
  IsRelayed, IsRefused, same, geometries_to_proto, geometries_from_proto, geometries_arrive,
  geometries_carried, do_command_relayed, get_status_relayed, extra_relayed, vector_to_proto,
  vector_from_proto,
}
use viam_cpp_sdk.Remote.MovementSensor.{
  movement_orientation_to_proto, movement_orientation_from_proto, geo_point_to_proto,
  geo_point_from_proto, get_linear_velocity, get_angular_velocity, get_compass_heading,
  get_orientation, get_position, get_properties, get_accuracy, get_linear_acceleration, do_command,
  get_status, get_geometries, movement_sensor_server, movement_sensor_client,
  movement_sensor_component,
}

module _ (d : Double) (S : Type 0) where
  open d use {D}

  pub movement_sensor-IsRelayed : IsRelayed (movement_sensor_component d S)
  unfolding movement_sensor_client movement_sensor_server
  movement_sensor-IsRelayed lookup name movement_sensor (get_linear_velocity extra) s found sent
        carried =
      extra_relayed d (λ result. some (vector_to_proto d result))
        (λ response. finished (vector_from_proto d (vector_or_default d response))) same lookup
        (λ e c. c (get_linear_velocity e)) name extra movement_sensor s found sent (λ a f. refl)
  movement_sensor-IsRelayed lookup name movement_sensor (get_angular_velocity extra) s found sent
        carried =
      extra_relayed d (λ result. some (vector_to_proto d result))
        (λ response. finished (vector_from_proto d (vector_or_default d response))) same lookup
        (λ e c. c (get_angular_velocity e)) name extra movement_sensor s found sent (λ a f. refl)
  movement_sensor-IsRelayed lookup name movement_sensor (get_compass_heading extra) s found sent
        carried =
      extra_relayed d (λ result. result.value) (λ response. finished (record { value = response }))
        same lookup (λ e c. c (get_compass_heading e)) name extra movement_sensor s found sent
        (λ a f. refl)
  movement_sensor-IsRelayed lookup name movement_sensor (get_orientation extra) s found sent
        carried =
      extra_relayed d (λ result. some (movement_orientation_to_proto d result))
        (λ response. finished (movement_orientation_from_proto d response)) same lookup
        (λ e c. c (get_orientation e)) name extra movement_sensor s found sent (λ a f. refl)
  movement_sensor-IsRelayed lookup name movement_sensor (get_position extra) s found sent carried =
      extra_relayed d
        (λ result. record {
          coordinate = some (geo_point_to_proto d result.coordinate);
          altitude_m = result.altitude_m;
        })
        (λ response. finished (record {
          coordinate = geo_point_from_proto d response.coordinate;
          altitude_m = response.altitude_m;
        }))
        same lookup (λ e c. c (get_position e)) name extra movement_sensor s found sent
        (λ a f. refl)
  movement_sensor-IsRelayed lookup name movement_sensor (get_properties extra) s found sent
        carried =
      extra_relayed d
        (λ result. record {
          linear_velocity_supported = result.linear_velocity_supported;
          angular_velocity_supported = result.angular_velocity_supported;
          orientation_supported = result.orientation_supported;
          position_supported = result.position_supported;
          compass_heading_supported = result.compass_heading_supported;
          linear_acceleration_supported = result.linear_acceleration_supported;
        })
        (λ response. finished (record {
          linear_velocity_supported = response.linear_velocity_supported;
          angular_velocity_supported = response.angular_velocity_supported;
          orientation_supported = response.orientation_supported;
          position_supported = response.position_supported;
          compass_heading_supported = response.compass_heading_supported;
          linear_acceleration_supported = response.linear_acceleration_supported;
        }))
        same lookup (λ e c. c (get_properties e)) name extra movement_sensor s found sent
        (λ a f. refl)
  movement_sensor-IsRelayed lookup name movement_sensor (get_accuracy extra) s found sent carried =
      extra_relayed d (λ result. insert_all same result [])
        (λ response. finished (insert_all same response [])) same lookup (λ e c. c (get_accuracy e))
        name extra movement_sensor s found sent
        (λ a f. ap finished (insert_all_back same same (λ _. refl) a (carried a f)))
  movement_sensor-IsRelayed lookup name movement_sensor (get_linear_acceleration extra) s found sent
        carried =
      extra_relayed d (λ result. some (vector_to_proto d result))
        (λ response. finished (vector_from_proto d (vector_or_default d response))) same lookup
        (λ e c. c (get_linear_acceleration e)) name extra movement_sensor s found sent (λ a f. refl)
  movement_sensor-IsRelayed lookup name movement_sensor (do_command command) s found sent carried =
      do_command_relayed d lookup (λ x c. c (do_command x)) name command movement_sensor s found
        sent carried
  movement_sensor-IsRelayed lookup name movement_sensor get_status s found sent carried =
      get_status_relayed d lookup (λ c. c get_status) name movement_sensor s found carried
  movement_sensor-IsRelayed lookup name movement_sensor (get_geometries extra) s found sent
        carried =
      extra_relayed d (geometries_to_proto d) (geometries_from_proto d) (geometries_arrive d) lookup
        (λ e c. c (get_geometries e)) name extra movement_sensor s found sent
        (λ a f. geometries_carried d a)

  pub movement_sensor-IsRefused : IsRefused (movement_sensor_component d S)
  unfolding movement_sensor_client movement_sensor_server
  movement_sensor-IsRefused lookup name (get_linear_velocity extra) s missing sent =
      invoke_with_missing lookup _ _ name extra _ s missing sent
  movement_sensor-IsRefused lookup name (get_angular_velocity extra) s missing sent =
      invoke_with_missing lookup _ _ name extra _ s missing sent
  movement_sensor-IsRefused lookup name (get_compass_heading extra) s missing sent =
      invoke_with_missing lookup _ _ name extra _ s missing sent
  movement_sensor-IsRefused lookup name (get_orientation extra) s missing sent =
      invoke_with_missing lookup _ _ name extra _ s missing sent
  movement_sensor-IsRefused lookup name (get_position extra) s missing sent =
      invoke_with_missing lookup _ _ name extra _ s missing sent
  movement_sensor-IsRefused lookup name (get_properties extra) s missing sent =
      invoke_with_missing lookup _ _ name extra _ s missing sent
  movement_sensor-IsRefused lookup name (get_accuracy extra) s missing sent =
      invoke_with_missing lookup _ _ name extra _ s missing sent
  movement_sensor-IsRefused lookup name (get_linear_acceleration extra) s missing sent =
      invoke_with_missing lookup _ _ name extra _ s missing sent
  movement_sensor-IsRefused lookup name (do_command command) s missing sent =
      invoke_plain_missing lookup _ _ name _ s missing
  movement_sensor-IsRefused lookup name get_status s missing sent =
      invoke_plain_missing lookup _ _ name _ s missing
  movement_sensor-IsRefused lookup name (get_geometries extra) s missing sent =
      invoke_with_missing lookup _ _ name extra _ s missing sent
