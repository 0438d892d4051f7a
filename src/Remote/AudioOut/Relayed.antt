-- ===== src/Remote/AudioOut/Relayed.antt =====
-- The calls of a client of a `AudioOut` are those of the `AudioOut` that is served.
use viam_cpp_sdk.Prelude.{List, [], ◌∷◌, Bytes, Option, none, some, finished, ◌≡◌, refl, ap, ◌∙◌}
use viam_cpp_sdk.Prelude.Double.{Double}
use viam_cpp_sdk.Prelude.{map}
use viam_cpp_sdk.Remote.{relay}
use viam_cpp_sdk.Remote.Laws.{invoke_with-service_helper, invoke_with_missing, invoke_plain_missing}
use viam_cpp_sdk.Remote.Shared.{
  IsRelayed, IsRefused, same, geometries_to_proto, geometries_from_proto, geometries_arrive,
  geometries_carried, do_command_relayed, get_status_relayed, extra_relayed,
}
use viam_cpp_sdk.Remote.AudioOut.{
  AudioInfo, AudioProperties, Play, info_to_proto, info_from_proto, properties_to_proto,
  properties_from_proto, play, get_properties, do_command, get_status, get_geometries,
  audio_out_server, audio_out_client, audio_out_component,
}

module _ (d : Double) (S : Type 0) where
  open d use {D}

  info_back : (i : Option (AudioInfo d)) → info_from_proto d (info_to_proto d i) ≡ i
  info_back none = refl
  info_back (some info) = refl

  same_twice : (l : List Bytes) → map same (map same l) ≡ l
  same_twice [] = refl
  same_twice (x ∷ l) = ap (λ r. x ∷ r) (same_twice l)

  properties_back : (a : AudioProperties d) → properties_from_proto d (properties_to_proto d a) ≡ a
  properties_back a = λ i. record a { supported_codecs = same_twice a.supported_codecs i }

  pub audio_out-IsRelayed : IsRelayed (audio_out_component d S)
  unfolding audio_out_client audio_out_server
  audio_out-IsRelayed lookup name audio_out (play audio_data info extra) s found sent carried =
      invoke_with-service_helper lookup same finished same
        (λ (fields : Play d) e c.
          c (play fields.audio_data (info_from_proto d fields.audio_info) e))
        name extra (record { audio_data = audio_data; audio_info = info_to_proto d info }) audio_out
        s found sent (λ a f. refl)
      ∙ ap (λ i. relay same (audio_out (play audio_data i extra)) s) (info_back info)
  audio_out-IsRelayed lookup name audio_out (get_properties extra) s found sent carried =
      extra_relayed d (properties_to_proto d)
        (λ response. finished (properties_from_proto d response)) same lookup
        (λ e c. c (get_properties e)) name extra audio_out s found sent
        (λ a f. ap finished (properties_back a))
  audio_out-IsRelayed lookup name audio_out (do_command command) s found sent carried =
      do_command_relayed d lookup (λ x c. c (do_command x)) name command audio_out s found sent
        carried
  audio_out-IsRelayed lookup name audio_out get_status s found sent carried =
      get_status_relayed d lookup (λ c. c get_status) name audio_out s found carried
  audio_out-IsRelayed lookup name audio_out (get_geometries extra) s found sent carried =
      extra_relayed d (geometries_to_proto d) (geometries_from_proto d) (geometries_arrive d) lookup
        (λ e c. c (get_geometries e)) name extra audio_out s found sent
        (λ a f. geometries_carried d a)

  pub audio_out-IsRefused : IsRefused (audio_out_component d S)
  unfolding audio_out_client audio_out_server
  audio_out-IsRefused lookup name (play audio_data info extra) s missing sent =
      invoke_with_missing lookup _ _ name extra _ s missing sent
  audio_out-IsRefused lookup name (get_properties extra) s missing sent =
      invoke_with_missing lookup _ _ name extra _ s missing sent
  audio_out-IsRefused lookup name (do_command command) s missing sent =
      invoke_plain_missing lookup _ _ name _ s missing
  audio_out-IsRefused lookup name get_status s missing sent =
      invoke_plain_missing lookup _ _ name _ s missing
  audio_out-IsRefused lookup name (get_geometries extra) s missing sent =
      invoke_with_missing lookup _ _ name extra _ s missing sent
