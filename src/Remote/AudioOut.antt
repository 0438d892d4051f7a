-- ===== src/Remote/AudioOut.antt =====
-- `AudioOut` of components/audio_out.hpp, and its client and server,
-- components/private/audio_out_client.cpp and components/private/audio_out_server.cpp, less their
-- `play_stream`.
pub mod Relayed
use viam_cpp_sdk.Prelude.{List, Bytes, Option, none, some, finished}
use viam_cpp_sdk.Prelude.Int.{ℤ}
use viam_cpp_sdk.Prelude.Double.{Double}
use viam_cpp_sdk.Proto.{ProtoStruct, Struct}
use viam_cpp_sdk.Proto.RoundTrip.{StructIsMaps}
use viam_cpp_sdk.Spatial.Geometry.{GeometryConfig, GeometryMessage}
use viam_cpp_sdk.Prelude.{map}
use viam_cpp_sdk.Remote.{Call, Handler, service_helper, get_extra, invoke_with, responds}
use viam_cpp_sdk.Remote.Laws.{IsSendable}
use viam_cpp_sdk.Remote.Shared.{
  Component, same, do_command_handler, do_command_client, get_status_handler, get_status_client,
  extra_handler, extra_client, geometries_to_proto, geometries_from_proto, geometries_arrive,
}

module _ (d : Double) where
  open d use {D}

  -- `audio_info` of common/audio.hpp. The message `common::v1::AudioInfo` has the same fields.
  pub record AudioInfo : Type 0 where
    pub codec : Bytes
    pub sample_rate_hz : ℤ
    pub num_channels : ℤ

  -- `audio_properties` of common/audio.hpp.
  pub record AudioProperties : Type 0 where
    pub supported_codecs : List Bytes
    pub sample_rate_hz : ℤ
    pub num_channels : ℤ

  pub record Play : Type 0 where
    pub audio_data : Bytes
    pub audio_info : Option AudioInfo

  pub record GetProperties : Type 0 where
    pub supported_codecs : List Bytes
    pub sample_rate_hz : ℤ
    pub num_channels : ℤ

  abbrev pub info_to_proto : Option AudioInfo → Option AudioInfo
  info_to_proto none = none
  info_to_proto (some info) = some (record {
    codec = info.codec;
    sample_rate_hz = info.sample_rate_hz;
    num_channels = info.num_channels;
  })

  abbrev pub info_from_proto : Option AudioInfo → Option AudioInfo
  info_from_proto none = none
  info_from_proto (some proto) = some (record {
    codec = proto.codec;
    sample_rate_hz = proto.sample_rate_hz;
    num_channels = proto.num_channels;
  })

  abbrev pub properties_to_proto : AudioProperties → GetProperties
  properties_to_proto result = record {
    supported_codecs = map same result.supported_codecs;
    sample_rate_hz = result.sample_rate_hz;
    num_channels = result.num_channels;
  }

  abbrev pub properties_from_proto : GetProperties → AudioProperties
  properties_from_proto response = record {
    supported_codecs = map same response.supported_codecs;
    sample_rate_hz = response.sample_rate_hz;
    num_channels = response.num_channels;
  }

  -- The virtual methods less `play_stream`; an overload without `extra` calls one with `{}`.
  pub data Method : Type 0 where
    play : (audio_data : Bytes) (info : Option AudioInfo) (extra : ProtoStruct D) → Method
    get_properties : (extra : ProtoStruct D) → Method
    do_command : (command : ProtoStruct D) → Method
    get_status : Method
    get_geometries : (extra : ProtoStruct D) → Method

  abbrev pub Answer : Method → Type 0
  Answer (get_properties _) = AudioProperties
  Answer (do_command _) = ProtoStruct D
  Answer get_status = ProtoStruct D
  Answer (get_geometries _) = List (GeometryConfig d)
  Answer _ = Unit

  abbrev pub IsSent : Method → Type 0
  IsSent (play _ _ e) = IsSendable e
  IsSent (get_properties e) = IsSendable e
  IsSent (do_command c) = StructIsMaps c
  IsSent (get_geometries e) = IsSendable e
  IsSent _ = Unit

  abbrev pub IsCarried : (m : Method) → Answer m → Type 0
  IsCarried (do_command _) r = StructIsMaps r
  IsCarried get_status r = StructIsMaps r
  IsCarried _ r = Unit

  abbrev pub arrives : (m : Method) → Answer m → Answer m
  arrives (get_geometries _) a = geometries_arrive d a
  arrives _ a = a

  module _ (S : Type 0) where
    abbrev pub AudioOut : Type 0
    AudioOut = (m : Method) → Call S (Answer m)

    -- `AudioOutService`.
    pub record Service : Type 0 where
      pub play_rpc : Handler D S Play (Unit {0})
      pub get_properties_rpc : Handler D S (Unit {0}) GetProperties
      pub do_command_rpc : Handler D S (Struct D) (Struct D)
      pub get_status_rpc : Handler D S (Unit {0}) (Struct D)
      pub get_geometries_rpc : Handler D S (Unit {0}) (List (GeometryMessage d))

    unfoldable pub audio_out_server : (Bytes → Option AudioOut) → Service
    audio_out_server lookup = record {
      play_rpc = service_helper lookup (λ request audio_out. responds same (
          audio_out (
            play request.fields.audio_data (info_from_proto request.fields.audio_info)
              (get_extra request))));
      get_properties_rpc =
          extra_handler d properties_to_proto lookup
            (λ extra audio_out. audio_out (get_properties extra));
      do_command_rpc =
          do_command_handler d lookup (λ command audio_out. audio_out (do_command command));
      get_status_rpc = get_status_handler d lookup (λ audio_out. audio_out get_status);
      get_geometries_rpc =
          extra_handler d (geometries_to_proto d) lookup
            (λ extra audio_out. audio_out (get_geometries extra));
    }

    -- `AudioOutClient` is a `AudioOut`.
    unfoldable pub audio_out_client : Bytes → Service → AudioOut
    audio_out_client name stub (play audio_data info extra) =
        invoke_with stub.play_rpc name extra
          (record { audio_data = audio_data; audio_info = info_to_proto info }) finished
    audio_out_client name stub (get_properties extra) =
        extra_client d (λ response. finished (properties_from_proto response))
          stub.get_properties_rpc name extra
    audio_out_client name stub (do_command command) =
        do_command_client d stub.do_command_rpc name command
    audio_out_client name stub get_status = get_status_client d stub.get_status_rpc name
    audio_out_client name stub (get_geometries extra) =
        extra_client d (geometries_from_proto d) stub.get_geometries_rpc name extra

    abbrev pub audio_out_component : Component S
    audio_out_component = record {
      Method = Method;
      Answer = Answer;
      Service = Service;
      server = audio_out_server;
      client = audio_out_client;
      IsSent = IsSent;
      IsCarried = IsCarried;
      arrives = arrives;
    }
