-- ===== src/Remote/Generic/Relayed.antt =====
-- The calls of a client of a `GenericComponent` are those of the `GenericComponent` that is served.
use viam_cpp_sdk.Prelude.Double.{Double}
use viam_cpp_sdk.Remote.Laws.{invoke_with_missing, invoke_plain_missing}
use viam_cpp_sdk.Remote.Shared.{
  IsRelayed, IsRefused, geometries_to_proto, geometries_from_proto, geometries_arrive,
  geometries_carried, do_command_relayed, get_status_relayed, extra_relayed,
}
use viam_cpp_sdk.Remote.Generic.{
  do_command, get_status, get_geometries, generic_server, generic_client, generic_component,
}

module _ (d : Double) (S : Type 0) where
  open d use {D}

  pub generic-IsRelayed : IsRelayed (generic_component d S)
  unfolding generic_client generic_server
  generic-IsRelayed lookup name generic (do_command command) s found sent carried =
      do_command_relayed d lookup (λ x c. c (do_command x)) name command generic s found sent
        carried
  generic-IsRelayed lookup name generic get_status s found sent carried =
      get_status_relayed d lookup (λ c. c get_status) name generic s found carried
  generic-IsRelayed lookup name generic (get_geometries extra) s found sent carried =
      extra_relayed d (geometries_to_proto d) (geometries_from_proto d) (geometries_arrive d) lookup
        (λ e c. c (get_geometries e)) name extra generic s found sent
        (λ a f. geometries_carried d a)

  pub generic-IsRefused : IsRefused (generic_component d S)
  unfolding generic_client generic_server
  generic-IsRefused lookup name (do_command command) s missing sent =
      invoke_plain_missing lookup _ _ name _ s missing
  generic-IsRefused lookup name get_status s missing sent =
      invoke_plain_missing lookup _ _ name _ s missing
  generic-IsRefused lookup name (get_geometries extra) s missing sent =
      invoke_with_missing lookup _ _ name extra _ s missing sent
