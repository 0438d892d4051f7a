-- ===== src/Remote/Encoder/Relayed.antt =====
-- The calls of a client of a `Encoder` are those of the `Encoder` that is served.
use viam_cpp_sdk.Prelude.{finished, ◌≡◌, ok, refl, ap, ◌∙◌}
use viam_cpp_sdk.Prelude.Double.{Double}
use viam_cpp_sdk.Remote.Shared.{attempt}
use viam_cpp_sdk.Remote.{relay}
use viam_cpp_sdk.Remote.Laws.{invoke_with-service_helper, invoke_with_missing, invoke_plain_missing}
use viam_cpp_sdk.Remote.Shared.{
  IsRelayed, IsRefused, same, returned, geometries_to_proto, geometries_from_proto,
  geometries_arrive, geometries_carried, do_command_relayed, get_status_relayed, extra_relayed,
}
use viam_cpp_sdk.Remote.Encoder.{
  PositionType, unspecified, angle_degrees, ticks_count, PositionTypeMessage, Position,
  type_to_proto, type_from_proto, position_to_proto, read_position, position_from_proto,
  get_position, reset_position, get_properties, get_geometries, do_command, get_status,
  encoder_server, encoder_client, encoder_component,
}

module _ (d : Double) (S : Type 0) where
  open d use {D}

  type_back : (t : PositionType d) → type_from_proto d (type_to_proto d t) ≡ ok t
  type_back unspecified = refl
  type_back ticks_count = refl
  type_back angle_degrees = refl

  position_back : (p : Position d) → position_from_proto d (position_to_proto d p) ≡ finished p
  position_back p = ap (λ t. returned (read_position d p.value t)) (type_back p.position_type)

  pub encoder-IsRelayed : IsRelayed (encoder_component d S)
  unfolding encoder_client encoder_server
  encoder-IsRelayed lookup name encoder (get_position type extra) s found sent carried =
      invoke_with-service_helper lookup (position_to_proto d) (position_from_proto d) same
        (λ (fields : PositionTypeMessage d) e c.
          attempt (type_from_proto d fields) (λ t. c (get_position t e)))
        name extra (type_to_proto d type) encoder s found sent (λ a f. position_back a)
      ∙ ap (λ t. relay same (attempt t (λ t. encoder (get_position t extra))) s) (type_back type)
  encoder-IsRelayed lookup name encoder (reset_position extra) s found sent carried =
      extra_relayed d same finished same lookup (λ e c. c (reset_position e)) name extra encoder s
        found sent (λ a f. refl)
  encoder-IsRelayed lookup name encoder (get_properties extra) s found sent carried =
      extra_relayed d
        (λ result. record {
          ticks_count_supported = result.ticks_count_supported;
          angle_degrees_supported = result.angle_degrees_supported;
        })
        (λ response. finished (record {
          ticks_count_supported = response.ticks_count_supported;
          angle_degrees_supported = response.angle_degrees_supported;
        }))
        same lookup (λ e c. c (get_properties e)) name extra encoder s found sent (λ a f. refl)
  encoder-IsRelayed lookup name encoder (get_geometries extra) s found sent carried =
      extra_relayed d (geometries_to_proto d) (geometries_from_proto d) (geometries_arrive d) lookup
        (λ e c. c (get_geometries e)) name extra encoder s found sent
        (λ a f. geometries_carried d a)
  encoder-IsRelayed lookup name encoder (do_command command) s found sent carried =
      do_command_relayed d lookup (λ x c. c (do_command x)) name command encoder s found sent
        carried
  encoder-IsRelayed lookup name encoder get_status s found sent carried =
      get_status_relayed d lookup (λ c. c get_status) name encoder s found carried

  pub encoder-IsRefused : IsRefused (encoder_component d S)
  unfolding encoder_client encoder_server
  encoder-IsRefused lookup name (get_position type extra) s missing sent =
      invoke_with_missing lookup _ _ name extra _ s missing sent
  encoder-IsRefused lookup name (reset_position extra) s missing sent =
      invoke_with_missing lookup _ _ name extra _ s missing sent
  encoder-IsRefused lookup name (get_properties extra) s missing sent =
      invoke_with_missing lookup _ _ name extra _ s missing sent
  encoder-IsRefused lookup name (get_geometries extra) s missing sent =
      invoke_with_missing lookup _ _ name extra _ s missing sent
  encoder-IsRefused lookup name (do_command command) s missing sent =
      invoke_plain_missing lookup _ _ name _ s missing
  encoder-IsRefused lookup name get_status s missing sent =
      invoke_plain_missing lookup _ _ name _ s missing
