-- ===== src/Remote/Gantry/Relayed.antt =====
-- The calls of a client of a `Gantry` are those of the `Gantry` that is served.
use viam_cpp_sdk.Prelude.{List, [], ◌∷◌, finished, ◌≡◌, refl, ap, ◌∙◌}
use viam_cpp_sdk.Prelude.Double.{Double}
use viam_cpp_sdk.Remote.{relay}
use viam_cpp_sdk.Remote.Laws.{invoke_with-service_helper, invoke_with_missing, invoke_plain_missing}
use viam_cpp_sdk.Remote.Shared.{
  IsRelayed, IsRefused, same, geometries_to_proto, geometries_from_proto, geometries_arrive,
  geometries_carried, do_command_relayed, get_status_relayed, is_moving_relayed, extra_relayed,
}
use viam_cpp_sdk.Remote.Gantry.{
  MovementCoordinate, MoveToPosition, add_coordinates, coordinates_of, get_position,
  move_to_position, home, get_lengths, is_moving, stop, do_command, get_geometries, get_status,
  gantry_server, gantry_client, gantry_component,
}

module _ (d : Double) (S : Type 0) where
  open d use {D}

  coordinates_back :
      (l : List (MovementCoordinate d))
      → coordinates_of d (add_coordinates d l).positions_mm (add_coordinates d l).speeds_mm_per_sec
        ≡ l
  coordinates_back [] = refl
  coordinates_back (x ∷ l) = ap (λ r. x ∷ r) (coordinates_back l)

  pub gantry-IsRelayed : IsRelayed (gantry_component d S)
  unfolding gantry_client gantry_server
  gantry-IsRelayed lookup name gantry (get_position extra) s found sent carried =
      extra_relayed d same finished same lookup (λ e c. c (get_position e)) name extra gantry s
        found sent (λ a f. refl)
  gantry-IsRelayed lookup name gantry (move_to_position coordinates extra) s found sent carried =
      invoke_with-service_helper lookup same finished same
        (λ (fields : MoveToPosition d) e c.
          c (move_to_position (coordinates_of d fields.positions_mm fields.speeds_mm_per_sec) e))
        name extra (add_coordinates d coordinates) gantry s found sent (λ a f. refl)
      ∙ ap (λ l. relay same (gantry (move_to_position l extra)) s) (coordinates_back coordinates)
  gantry-IsRelayed lookup name gantry (home extra) s found sent carried =
      extra_relayed d same finished same lookup (λ e c. c (home e)) name extra gantry s found sent
        (λ a f. refl)
  gantry-IsRelayed lookup name gantry (get_lengths extra) s found sent carried =
      extra_relayed d same finished same lookup (λ e c. c (get_lengths e)) name extra gantry s found
        sent (λ a f. refl)
  gantry-IsRelayed lookup name gantry is_moving s found sent carried =
      is_moving_relayed d lookup (λ c. c is_moving) name gantry s found
  gantry-IsRelayed lookup name gantry (stop extra) s found sent carried =
      extra_relayed d same finished same lookup (λ e c. c (stop e)) name extra gantry s found sent
        (λ a f. refl)
  gantry-IsRelayed lookup name gantry (do_command command) s found sent carried =
      do_command_relayed d lookup (λ x c. c (do_command x)) name command gantry s found sent carried
  gantry-IsRelayed lookup name gantry (get_geometries extra) s found sent carried =
      extra_relayed d (geometries_to_proto d) (geometries_from_proto d) (geometries_arrive d) lookup
        (λ e c. c (get_geometries e)) name extra gantry s found sent (λ a f. geometries_carried d a)
  gantry-IsRelayed lookup name gantry get_status s found sent carried =
      get_status_relayed d lookup (λ c. c get_status) name gantry s found carried

  pub gantry-IsRefused : IsRefused (gantry_component d S)
  unfolding gantry_client gantry_server
  gantry-IsRefused lookup name (get_position extra) s missing sent =
      invoke_with_missing lookup _ _ name extra _ s missing sent
  gantry-IsRefused lookup name (move_to_position coordinates extra) s missing sent =
      invoke_with_missing lookup _ _ name extra _ s missing sent
  gantry-IsRefused lookup name (home extra) s missing sent =
      invoke_with_missing lookup _ _ name extra _ s missing sent
  gantry-IsRefused lookup name (get_lengths extra) s missing sent =
      invoke_with_missing lookup _ _ name extra _ s missing sent
  gantry-IsRefused lookup name is_moving s missing sent =
      invoke_plain_missing lookup _ _ name _ s missing
  gantry-IsRefused lookup name (stop extra) s missing sent =
      invoke_with_missing lookup _ _ name extra _ s missing sent
  gantry-IsRefused lookup name (do_command command) s missing sent =
      invoke_plain_missing lookup _ _ name _ s missing
  gantry-IsRefused lookup name (get_geometries extra) s missing sent =
      invoke_with_missing lookup _ _ name extra _ s missing sent
  gantry-IsRefused lookup name get_status s missing sent =
      invoke_plain_missing lookup _ _ name _ s missing
