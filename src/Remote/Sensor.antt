-- ===== src/Remote/Sensor.antt =====
-- `Sensor` of components/sensor.hpp, and its client and server, components/private/sensor_client.cpp and
-- components/private/sensor_server.cpp.
pub mod Relayed
use viam_cpp_sdk.Prelude.{List, Bytes, Option, finished}
use viam_cpp_sdk.Prelude.Double.{Double}
use viam_cpp_sdk.Proto.{ProtoStruct, Struct, to_struct, from_struct}
use viam_cpp_sdk.Proto.RoundTrip.{StructIsMaps}
use viam_cpp_sdk.Spatial.Geometry.{GeometryConfig, GeometryMessage}
use viam_cpp_sdk.Remote.{Call, Handler}
use viam_cpp_sdk.Remote.Laws.{IsSendable}
use viam_cpp_sdk.Remote.Shared.{
  Component, do_command_handler, do_command_client, get_status_handler, get_status_client,
  extra_handler, extra_client, geometries_to_proto, geometries_from_proto, geometries_arrive,
}

module _ (d : Double) where
  open d use {D}

  -- The virtual methods; an overload without `extra` calls one with `{}`.
  pub data Method : Type 0 where
    get_readings : (extra : ProtoStruct D) → Method
    do_command : (command : ProtoStruct D) → Method
    get_status : Method
    get_geometries : (extra : ProtoStruct D) → Method

  abbrev pub Answer : Method → Type 0
  Answer (get_readings _) = ProtoStruct D
  Answer (do_command _) = ProtoStruct D
  Answer get_status = ProtoStruct D
  Answer (get_geometries _) = List (GeometryConfig d)

  abbrev pub IsSent : Method → Type 0
  IsSent (get_readings e) = IsSendable e
  IsSent (do_command c) = StructIsMaps c
  IsSent (get_geometries e) = IsSendable e
  IsSent _ = Unit

  abbrev pub IsCarried : (m : Method) → Answer m → Type 0
  IsCarried (get_readings _) r = StructIsMaps r
  IsCarried (do_command _) r = StructIsMaps r
  IsCarried get_status r = StructIsMaps r
  IsCarried _ r = Unit

  abbrev pub arrives : (m : Method) → Answer m → Answer m
  arrives (get_geometries _) a = geometries_arrive d a
  arrives _ a = a

  module _ (S : Type 0) where
    abbrev pub Sensor : Type 0
    Sensor = (m : Method) → Call S (Answer m)

    -- `SensorService`.
    pub record Service : Type 0 where
      pub get_readings_rpc : Handler D S (Unit {0}) (Struct D)
      pub do_command_rpc : Handler D S (Struct D) (Struct D)
      pub get_status_rpc : Handler D S (Unit {0}) (Struct D)
      pub get_geometries_rpc : Handler D S (Unit {0}) (List (GeometryMessage d))

    unfoldable pub sensor_server : (Bytes → Option Sensor) → Service
    sensor_server lookup = record {
      get_readings_rpc =
          extra_handler d to_struct lookup (λ extra sensor. sensor (get_readings extra));
      do_command_rpc = do_command_handler d lookup (λ command sensor. sensor (do_command command));
      get_status_rpc = get_status_handler d lookup (λ sensor. sensor get_status);
      get_geometries_rpc =
          extra_handler d (geometries_to_proto d) lookup
            (λ extra sensor. sensor (get_geometries extra));
    }

    -- `SensorClient` is a `Sensor`.
    unfoldable pub sensor_client : Bytes → Service → Sensor
    sensor_client name stub (get_readings extra) =
        extra_client d (λ response. finished (from_struct response)) stub.get_readings_rpc name
          extra
    sensor_client name stub (do_command command) =
        do_command_client d stub.do_command_rpc name command
    sensor_client name stub get_status = get_status_client d stub.get_status_rpc name
    sensor_client name stub (get_geometries extra) =
        extra_client d (geometries_from_proto d) stub.get_geometries_rpc name extra

    abbrev pub sensor_component : Component S
    sensor_component = record {
      Method = Method;
      Answer = Answer;
      Service = Service;
      server = sensor_server;
      client = sensor_client;
      IsSent = IsSent;
      IsCarried = IsCarried;
      arrives = arrives;
    }
