-- ===== src/Remote/Base/Relayed.antt =====
-- The calls of a client of a `Base` are those of the `Base` that is served.
use viam_cpp_sdk.Prelude.{some, finished, refl}
use viam_cpp_sdk.Prelude.Double.{Double}
use viam_cpp_sdk.Spatial.Geometry.{vector_or_default}
use viam_cpp_sdk.Remote.Laws.{invoke_with-service_helper, invoke_with_missing, invoke_plain_missing}
use viam_cpp_sdk.Remote.Shared.{
  IsRelayed, IsRefused, same, geometries_to_proto, geometries_from_proto, geometries_arrive,
  geometries_carried, do_command_relayed, get_status_relayed, is_moving_relayed, extra_relayed,
  vector_to_proto, vector_from_proto,
}
use viam_cpp_sdk.Remote.Base.{
  MoveStraight, Spin, Vectors, move_straight, spin, set_power, set_velocity, stop, is_moving,
  get_status, get_geometries, get_properties, do_command, base_server, base_client, base_component,
}

module _ (d : Double) (S : Type 0) where
  open d use {D}

  pub base-IsRelayed : IsRelayed (base_component d S)
  unfolding base_client base_server
  base-IsRelayed lookup name base (move_straight distance_mm mm_per_sec extra) s found sent
        carried =
      invoke_with-service_helper lookup same finished same
        (λ (fields : MoveStraight d) e c. c (move_straight fields.distance_mm fields.mm_per_sec e))
        name extra (record { distance_mm = distance_mm; mm_per_sec = mm_per_sec }) base s found sent
        (λ a f. refl)
  base-IsRelayed lookup name base (spin angle_deg degs_per_sec extra) s found sent carried =
      invoke_with-service_helper lookup same finished same
        (λ (fields : Spin d) e c. c (spin fields.angle_deg fields.degs_per_sec e)) name extra
        (record { angle_deg = angle_deg; degs_per_sec = degs_per_sec }) base s found sent
        (λ a f. refl)
  base-IsRelayed lookup name base (set_power linear angular extra) s found sent carried =
      invoke_with-service_helper lookup same finished same
        (λ (fields : Vectors d) e c. c (
          set_power (vector_from_proto d (vector_or_default d fields.linear))
            (vector_from_proto d (vector_or_default d fields.angular)) e))
        name extra
        (record {
          linear = some (vector_to_proto d linear);
          angular = some (vector_to_proto d angular);
        })
        base s found sent (λ a f. refl)
  base-IsRelayed lookup name base (set_velocity linear angular extra) s found sent carried =
      invoke_with-service_helper lookup same finished same
        (λ (fields : Vectors d) e c. c (
          set_velocity (vector_from_proto d (vector_or_default d fields.linear))
            (vector_from_proto d (vector_or_default d fields.angular)) e))
        name extra
        (record {
          linear = some (vector_to_proto d linear);
          angular = some (vector_to_proto d angular);
        })
        base s found sent (λ a f. refl)
  base-IsRelayed lookup name base (stop extra) s found sent carried =
      extra_relayed d same finished same lookup (λ e c. c (stop e)) name extra base s found sent
        (λ a f. refl)
  base-IsRelayed lookup name base is_moving s found sent carried =
      is_moving_relayed d lookup (λ c. c is_moving) name base s found
  base-IsRelayed lookup name base get_status s found sent carried =
      get_status_relayed d lookup (λ c. c get_status) name base s found carried
  base-IsRelayed lookup name base (get_geometries extra) s found sent carried =
      extra_relayed d (geometries_to_proto d) (geometries_from_proto d) (geometries_arrive d) lookup
        (λ e c. c (get_geometries e)) name extra base s found sent (λ a f. geometries_carried d a)
  base-IsRelayed lookup name base (get_properties extra) s found sent carried =
      extra_relayed d
        (λ result. record {
          width_meters = result.width_meters;
          turning_radius_meters = result.turning_radius_meters;
          wheel_circumference_meters = result.wheel_circumference_meters;
        })
        (λ response. finished (record {
          width_meters = response.width_meters;
          turning_radius_meters = response.turning_radius_meters;
          wheel_circumference_meters = response.wheel_circumference_meters;
        }))
        same lookup (λ e c. c (get_properties e)) name extra base s found sent (λ a f. refl)
  base-IsRelayed lookup name base (do_command command) s found sent carried =
      do_command_relayed d lookup (λ x c. c (do_command x)) name command base s found sent carried

  pub base-IsRefused : IsRefused (base_component d S)
  unfolding base_client base_server
  base-IsRefused lookup name (move_straight distance_mm mm_per_sec extra) s missing sent =
      invoke_with_missing lookup _ _ name extra _ s missing sent
  base-IsRefused lookup name (spin angle_deg degs_per_sec extra) s missing sent =
      invoke_with_missing lookup _ _ name extra _ s missing sent
  base-IsRefused lookup name (set_power linear angular extra) s missing sent =
      invoke_with_missing lookup _ _ name extra _ s missing sent
  base-IsRefused lookup name (set_velocity linear angular extra) s missing sent =
      invoke_with_missing lookup _ _ name extra _ s missing sent
  base-IsRefused lookup name (stop extra) s missing sent =
      invoke_with_missing lookup _ _ name extra _ s missing sent
  base-IsRefused lookup name is_moving s missing sent =
      invoke_plain_missing lookup _ _ name _ s missing
  base-IsRefused lookup name get_status s missing sent =
      invoke_plain_missing lookup _ _ name _ s missing
  base-IsRefused lookup name (get_geometries extra) s missing sent =
      invoke_with_missing lookup _ _ name extra _ s missing sent
  base-IsRefused lookup name (get_properties extra) s missing sent =
      invoke_with_missing lookup _ _ name extra _ s missing sent
  base-IsRefused lookup name (do_command command) s missing sent =
      invoke_plain_missing lookup _ _ name _ s missing
