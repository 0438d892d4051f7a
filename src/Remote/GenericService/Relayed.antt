-- ===== src/Remote/GenericService/Relayed.antt =====
-- The calls of a client of a `GenericService` are those of the `GenericService` that is served.
use viam_cpp_sdk.Prelude.Double.{Double}
use viam_cpp_sdk.Remote.Laws.{invoke_plain_missing}
use viam_cpp_sdk.Remote.Shared.{IsRelayed, IsRefused, do_command_relayed, get_status_relayed}
use viam_cpp_sdk.Remote.GenericService.{
  do_command, get_status, generic_service_server, generic_service_client, generic_service_component,
}

module _ (d : Double) (S : Type 0) where
  open d use {D}

  pub generic_service-IsRelayed : IsRelayed (generic_service_component d S)
  unfolding generic_service_client generic_service_server
  generic_service-IsRelayed lookup name generic_service (do_command command) s found sent carried =
      do_command_relayed d lookup (λ x c. c (do_command x)) name command generic_service s found
        sent carried
  generic_service-IsRelayed lookup name generic_service get_status s found sent carried =
      get_status_relayed d lookup (λ c. c get_status) name generic_service s found carried

  pub generic_service-IsRefused : IsRefused (generic_service_component d S)
  unfolding generic_service_client generic_service_server
  generic_service-IsRefused lookup name (do_command command) s missing sent =
      invoke_plain_missing lookup _ _ name _ s missing
  generic_service-IsRefused lookup name get_status s missing sent =
      invoke_plain_missing lookup _ _ name _ s missing
