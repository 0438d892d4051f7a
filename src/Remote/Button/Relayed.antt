-- ===== src/Remote/Button/Relayed.antt =====
-- The calls of a client of a `Button` are those of the `Button` that is served.
use viam_cpp_sdk.Prelude.{finished, refl}
use viam_cpp_sdk.Prelude.Double.{Double}
use viam_cpp_sdk.Remote.Laws.{invoke_with_missing, invoke_plain_missing}
use viam_cpp_sdk.Remote.Shared.{
  IsRelayed, IsRefused, same, do_command_relayed, get_status_relayed, extra_relayed,
}
use viam_cpp_sdk.Remote.Button.{
  push, do_command, get_status, button_server, button_client, button_component,
}

module _ (d : Double) (S : Type 0) where
  open d use {D}

  pub button-IsRelayed : IsRelayed (button_component d S)
  unfolding button_client button_server
  button-IsRelayed lookup name button (push extra) s found sent carried =
      extra_relayed d same finished same lookup (λ e c. c (push e)) name extra button s found sent
        (λ a f. refl)
  button-IsRelayed lookup name button (do_command command) s found sent carried =
      do_command_relayed d lookup (λ x c. c (do_command x)) name command button s found sent carried
  button-IsRelayed lookup name button get_status s found sent carried =
      get_status_relayed d lookup (λ c. c get_status) name button s found carried

  pub button-IsRefused : IsRefused (button_component d S)
  unfolding button_client button_server
  button-IsRefused lookup name (push extra) s missing sent =
      invoke_with_missing lookup _ _ name extra _ s missing sent
  button-IsRefused lookup name (do_command command) s missing sent =
      invoke_plain_missing lookup _ _ name _ s missing
  button-IsRefused lookup name get_status s missing sent =
      invoke_plain_missing lookup _ _ name _ s missing
