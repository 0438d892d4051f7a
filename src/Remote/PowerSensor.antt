-- ===== src/Remote/PowerSensor.antt =====
-- `PowerSensor` of components/power_sensor.hpp, and its client and server,
-- components/private/power_sensor_client.cpp and components/private/power_sensor_server.cpp.
pub mod Relayed
use viam_cpp_sdk.Prelude.{Bool, Bytes, Option, finished}
use viam_cpp_sdk.Prelude.Double.{Double}
use viam_cpp_sdk.Proto.{ProtoStruct, Struct, to_struct, from_struct}
use viam_cpp_sdk.Proto.RoundTrip.{StructIsMaps}
use viam_cpp_sdk.Remote.{Call, Handler}
use viam_cpp_sdk.Remote.Laws.{IsSendable}
use viam_cpp_sdk.Remote.Shared.{
  Component, same, do_command_handler, do_command_client, get_status_handler, get_status_client,
  extra_handler, extra_client,
}

module _ (d : Double) where
  open d use {D}

  pub record Voltage : Type 0 where
    pub volts : D
    pub is_ac : Bool

  pub record Current : Type 0 where
    pub amperes : D
    pub is_ac : Bool

  pub record GetVoltage : Type 0 where
    pub volts : D
    pub is_ac : Bool

  pub record GetCurrent : Type 0 where
    pub amperes : D
    pub is_ac : Bool

  -- The virtual methods; an overload without `extra` calls one with `{}`.
  pub data Method : Type 0 where
    get_voltage : (extra : ProtoStruct D) → Method
    get_current : (extra : ProtoStruct D) → Method
    get_power : (extra : ProtoStruct D) → Method
    get_readings : (extra : ProtoStruct D) → Method
    do_command : (command : ProtoStruct D) → Method
    get_status : Method

  abbrev pub Answer : Method → Type 0
  Answer (get_voltage _) = Voltage
  Answer (get_current _) = Current
  Answer (get_power _) = D
  Answer (get_readings _) = ProtoStruct D
  Answer (do_command _) = ProtoStruct D
  Answer get_status = ProtoStruct D

  abbrev pub IsSent : Method → Type 0
  IsSent (get_voltage e) = IsSendable e
  IsSent (get_current e) = IsSendable e
  IsSent (get_power e) = IsSendable e
  IsSent (get_readings e) = IsSendable e
  IsSent (do_command c) = StructIsMaps c
  IsSent _ = Unit

  abbrev pub IsCarried : (m : Method) → Answer m → Type 0
  IsCarried (get_readings _) r = StructIsMaps r
  IsCarried (do_command _) r = StructIsMaps r
  IsCarried get_status r = StructIsMaps r
  IsCarried _ r = Unit

  abbrev pub arrives : (m : Method) → Answer m → Answer m
  arrives m a = a

  module _ (S : Type 0) where
    abbrev pub PowerSensor : Type 0
    PowerSensor = (m : Method) → Call S (Answer m)

    -- `PowerSensorService`.
    pub record Service : Type 0 where
      pub get_voltage_rpc : Handler D S (Unit {0}) GetVoltage
      pub get_current_rpc : Handler D S (Unit {0}) GetCurrent
      pub get_power_rpc : Handler D S (Unit {0}) D
      pub get_readings_rpc : Handler D S (Unit {0}) (Struct D)
      pub do_command_rpc : Handler D S (Struct D) (Struct D)
      pub get_status_rpc : Handler D S (Unit {0}) (Struct D)

    unfoldable pub power_sensor_server : (Bytes → Option PowerSensor) → Service
    power_sensor_server lookup = record {
      get_voltage_rpc =
          extra_handler d (λ result. record { volts = result.volts; is_ac = result.is_ac }) lookup
            (λ extra power_sensor. power_sensor (get_voltage extra));
      get_current_rpc =
          extra_handler d (λ result. record { amperes = result.amperes; is_ac = result.is_ac })
            lookup (λ extra power_sensor. power_sensor (get_current extra));
      get_power_rpc =
          extra_handler d same lookup (λ extra power_sensor. power_sensor (get_power extra));
      get_readings_rpc =
          extra_handler d to_struct lookup
            (λ extra power_sensor. power_sensor (get_readings extra));
      do_command_rpc =
          do_command_handler d lookup (λ command power_sensor. power_sensor (do_command command));
      get_status_rpc = get_status_handler d lookup (λ power_sensor. power_sensor get_status);
    }

    -- `PowerSensorClient` is a `PowerSensor`.
    unfoldable pub power_sensor_client : Bytes → Service → PowerSensor
    power_sensor_client name stub (get_voltage extra) =
        extra_client d
          (λ response. finished (record { volts = response.volts; is_ac = response.is_ac }))
          stub.get_voltage_rpc name extra
    power_sensor_client name stub (get_current extra) =
        extra_client d
          (λ response. finished (record { amperes = response.amperes; is_ac = response.is_ac }))
          stub.get_current_rpc name extra
    power_sensor_client name stub (get_power extra) =
        extra_client d finished stub.get_power_rpc name extra
    power_sensor_client name stub (get_readings extra) =
        extra_client d (λ response. finished (from_struct response)) stub.get_readings_rpc name
          extra
    power_sensor_client name stub (do_command command) =
        do_command_client d stub.do_command_rpc name command
    power_sensor_client name stub get_status = get_status_client d stub.get_status_rpc name

    abbrev pub power_sensor_component : Component S
    power_sensor_component = record {
      Method = Method;
      Answer = Answer;
      Service = Service;
      server = power_sensor_server;
      client = power_sensor_client;
      IsSent = IsSent;
      IsCarried = IsCarried;
      arrives = arrives;
    }
