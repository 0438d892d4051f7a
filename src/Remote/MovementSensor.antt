-- ===== src/Remote/MovementSensor.antt =====
-- `MovementSensor` of components/movement_sensor.hpp, and its client and server,
-- components/private/movement_sensor_client.cpp and components/private/movement_sensor_server.cpp.
pub mod Relayed
use viam_cpp_sdk.Prelude.{Bool, List, [], Bytes, Option, none, some, finished}
use viam_cpp_sdk.Prelude.Int.{pos}
use viam_cpp_sdk.Prelude.Double.{Double, Vector3}
use viam_cpp_sdk.Proto.{ProtoStruct, Struct}
use viam_cpp_sdk.Proto.RoundTrip.{StructIsMaps}
use viam_cpp_sdk.Spatial.Geometry.{GeometryConfig, GeometryMessage, vector_or_default}
use viam_cpp_sdk.Prelude.Dict.{Dict}
use viam_cpp_sdk.Remote.Maps.{insert_all, IsMap}
use viam_cpp_sdk.Remote.{Call, Handler}
use viam_cpp_sdk.Remote.Laws.{IsSendable}
use viam_cpp_sdk.Remote.Shared.{
  Component, same, do_command_handler, do_command_client, get_status_handler, get_status_client,
  extra_handler, extra_client, geometries_to_proto, geometries_from_proto, geometries_arrive,
  vector_to_proto, vector_from_proto,
}

module _ (d : Double) where
  open d use {D}

  pub record CompassHeading : Type 0 where
    pub value : D

  pub record GeoPoint : Type 0 where
    pub latitude : D
    pub longitude : D

  pub record Position : Type 0 where
    pub coordinate : GeoPoint
    pub altitude_m : D

  -- `MovementSensor::orientation`.
  pub record MovementOrientation : Type 0 where
    pub o_x : D
    pub o_y : D
    pub o_z : D
    pub theta : D

  pub record Properties : Type 0 where
    pub linear_velocity_supported : Bool
    pub angular_velocity_supported : Bool
    pub orientation_supported : Bool
    pub position_supported : Bool
    pub compass_heading_supported : Bool
    pub linear_acceleration_supported : Bool

  -- `common::v1::GeoPoint`.
  pub record GeoPointMessage : Type 0 where
    pub latitude : D
    pub longitude : D

  -- `common::v1::Orientation`.
  pub record MovementOrientationMessage : Type 0 where
    pub o_x : D
    pub o_y : D
    pub o_z : D
    pub theta : D

  pub record GetPosition : Type 0 where
    pub coordinate : Option GeoPointMessage
    pub altitude_m : D

  pub record GetProperties : Type 0 where
    pub linear_velocity_supported : Bool
    pub angular_velocity_supported : Bool
    pub orientation_supported : Bool
    pub position_supported : Bool
    pub compass_heading_supported : Bool
    pub linear_acceleration_supported : Bool

  abbrev zero_double : D
  zero_double = d.of_int (pos 0)

  abbrev pub geo_point_to_proto : GeoPoint → GeoPointMessage
  geo_point_to_proto self = record { latitude = self.latitude; longitude = self.longitude }

  -- A message that is not there is read as the default one.
  abbrev pub geo_point_from_proto : Option GeoPointMessage → GeoPoint
  geo_point_from_proto none = record { latitude = zero_double; longitude = zero_double }
  geo_point_from_proto (some proto) = record {
    latitude = proto.latitude;
    longitude = proto.longitude;
  }

  abbrev pub movement_orientation_to_proto : MovementOrientation → MovementOrientationMessage
  movement_orientation_to_proto orientation = record {
    o_x = orientation.o_x;
    o_y = orientation.o_y;
    o_z = orientation.o_z;
    theta = orientation.theta;
  }

  abbrev pub movement_orientation_from_proto :
      Option MovementOrientationMessage → MovementOrientation
  movement_orientation_from_proto none = record {
    o_x = zero_double;
    o_y = zero_double;
    o_z = zero_double;
    theta = zero_double;
  }
  movement_orientation_from_proto (some proto) = record {
    o_x = proto.o_x;
    o_y = proto.o_y;
    o_z = proto.o_z;
    theta = proto.theta;
  }

  -- The virtual methods; an overload without `extra` calls one with `{}`.
  pub data Method : Type 0 where
    get_linear_velocity : (extra : ProtoStruct D) → Method
    get_angular_velocity : (extra : ProtoStruct D) → Method
    get_compass_heading : (extra : ProtoStruct D) → Method
    get_orientation : (extra : ProtoStruct D) → Method
    get_position : (extra : ProtoStruct D) → Method
    get_properties : (extra : ProtoStruct D) → Method
    get_accuracy : (extra : ProtoStruct D) → Method
    get_linear_acceleration : (extra : ProtoStruct D) → Method
    do_command : (command : ProtoStruct D) → Method
    get_status : Method
    get_geometries : (extra : ProtoStruct D) → Method

  abbrev pub Answer : Method → Type 0
  Answer (get_linear_velocity _) = Vector3 d
  Answer (get_angular_velocity _) = Vector3 d
  Answer (get_compass_heading _) = CompassHeading
  Answer (get_orientation _) = MovementOrientation
  Answer (get_position _) = Position
  Answer (get_properties _) = Properties
  Answer (get_accuracy _) = Dict Bytes D
  Answer (get_linear_acceleration _) = Vector3 d
  Answer (do_command _) = ProtoStruct D
  Answer get_status = ProtoStruct D
  Answer (get_geometries _) = List (GeometryConfig d)

  abbrev pub IsSent : Method → Type 0
  IsSent (get_linear_velocity e) = IsSendable e
  IsSent (get_angular_velocity e) = IsSendable e
  IsSent (get_compass_heading e) = IsSendable e
  IsSent (get_orientation e) = IsSendable e
  IsSent (get_position e) = IsSendable e
  IsSent (get_properties e) = IsSendable e
  IsSent (get_accuracy e) = IsSendable e
  IsSent (get_linear_acceleration e) = IsSendable e
  IsSent (do_command c) = StructIsMaps c
  IsSent (get_geometries e) = IsSendable e
  IsSent _ = Unit

  abbrev pub IsCarried : (m : Method) → Answer m → Type 0
  IsCarried (get_accuracy _) r = IsMap r
  IsCarried (do_command _) r = StructIsMaps r
  IsCarried get_status r = StructIsMaps r
  IsCarried _ r = Unit

  abbrev pub arrives : (m : Method) → Answer m → Answer m
  arrives (get_geometries _) a = geometries_arrive d a
  arrives _ a = a

  module _ (S : Type 0) where
    abbrev pub MovementSensor : Type 0
    MovementSensor = (m : Method) → Call S (Answer m)

    -- `MovementSensorService`.
    pub record Service : Type 0 where
      pub get_linear_velocity_rpc : Handler D S (Unit {0}) (Option (Vector3 d))
      pub get_angular_velocity_rpc : Handler D S (Unit {0}) (Option (Vector3 d))
      pub get_compass_heading_rpc : Handler D S (Unit {0}) D
      pub get_orientation_rpc : Handler D S (Unit {0}) (Option MovementOrientationMessage)
      pub get_position_rpc : Handler D S (Unit {0}) GetPosition
      pub get_properties_rpc : Handler D S (Unit {0}) GetProperties
      pub get_accuracy_rpc : Handler D S (Unit {0}) (Dict Bytes D)
      pub get_linear_acceleration_rpc : Handler D S (Unit {0}) (Option (Vector3 d))
      pub do_command_rpc : Handler D S (Struct D) (Struct D)
      pub get_status_rpc : Handler D S (Unit {0}) (Struct D)
      pub get_geometries_rpc : Handler D S (Unit {0}) (List (GeometryMessage d))

    unfoldable pub movement_sensor_server : (Bytes → Option MovementSensor) → Service
    movement_sensor_server lookup = record {
      get_linear_velocity_rpc =
          extra_handler d (λ result. some (vector_to_proto d result)) lookup
            (λ extra movement_sensor. movement_sensor (get_linear_velocity extra));
      get_angular_velocity_rpc =
          extra_handler d (λ result. some (vector_to_proto d result)) lookup
            (λ extra movement_sensor. movement_sensor (get_angular_velocity extra));
      get_compass_heading_rpc =
          extra_handler d (λ result. result.value) lookup
            (λ extra movement_sensor. movement_sensor (get_compass_heading extra));
      get_orientation_rpc =
          extra_handler d (λ result. some (movement_orientation_to_proto result)) lookup
            (λ extra movement_sensor. movement_sensor (get_orientation extra));
      get_position_rpc =
          extra_handler d
            (λ result. record {
              coordinate = some (geo_point_to_proto result.coordinate);
              altitude_m = result.altitude_m;
            })
            lookup (λ extra movement_sensor. movement_sensor (get_position extra));
      get_properties_rpc =
          extra_handler d
            (λ result. record {
              linear_velocity_supported = result.linear_velocity_supported;
              angular_velocity_supported = result.angular_velocity_supported;
              orientation_supported = result.orientation_supported;
              position_supported = result.position_supported;
              compass_heading_supported = result.compass_heading_supported;
              linear_acceleration_supported = result.linear_acceleration_supported;
            })
            lookup (λ extra movement_sensor. movement_sensor (get_properties extra));
      get_accuracy_rpc =
          extra_handler d (λ result. insert_all same result []) lookup
            (λ extra movement_sensor. movement_sensor (get_accuracy extra));
      get_linear_acceleration_rpc =
          extra_handler d (λ result. some (vector_to_proto d result)) lookup
            (λ extra movement_sensor. movement_sensor (get_linear_acceleration extra));
      do_command_rpc =
          do_command_handler d lookup
            (λ command movement_sensor. movement_sensor (do_command command));
      get_status_rpc = get_status_handler d lookup (λ movement_sensor. movement_sensor get_status);
      get_geometries_rpc =
          extra_handler d (geometries_to_proto d) lookup
            (λ extra movement_sensor. movement_sensor (get_geometries extra));
    }

    -- `MovementSensorClient` is a `MovementSensor`.
    unfoldable pub movement_sensor_client : Bytes → Service → MovementSensor
    movement_sensor_client name stub (get_linear_velocity extra) =
        extra_client d (λ response. finished (vector_from_proto d (vector_or_default d response)))
          stub.get_linear_velocity_rpc name extra
    movement_sensor_client name stub (get_angular_velocity extra) =
        extra_client d (λ response. finished (vector_from_proto d (vector_or_default d response)))
          stub.get_angular_velocity_rpc name extra
    movement_sensor_client name stub (get_compass_heading extra) =
        extra_client d (λ response. finished (record { value = response }))
          stub.get_compass_heading_rpc name extra
    movement_sensor_client name stub (get_orientation extra) =
        extra_client d (λ response. finished (movement_orientation_from_proto response))
          stub.get_orientation_rpc name extra
    movement_sensor_client name stub (get_position extra) =
        extra_client d
          (λ response. finished (record {
            coordinate = geo_point_from_proto response.coordinate;
            altitude_m = response.altitude_m;
          }))
          stub.get_position_rpc name extra
    movement_sensor_client name stub (get_properties extra) =
        extra_client d
          (λ response. finished (record {
            linear_velocity_supported = response.linear_velocity_supported;
            angular_velocity_supported = response.angular_velocity_supported;
            orientation_supported = response.orientation_supported;
            position_supported = response.position_supported;
            compass_heading_supported = response.compass_heading_supported;
            linear_acceleration_supported = response.linear_acceleration_supported;
          }))
          stub.get_properties_rpc name extra
    movement_sensor_client name stub (get_accuracy extra) =
        extra_client d (λ response. finished (insert_all same response [])) stub.get_accuracy_rpc
          name extra
    movement_sensor_client name stub (get_linear_acceleration extra) =
        extra_client d (λ response. finished (vector_from_proto d (vector_or_default d response)))
          stub.get_linear_acceleration_rpc name extra
    movement_sensor_client name stub (do_command command) =
        do_command_client d stub.do_command_rpc name command
    movement_sensor_client name stub get_status = get_status_client d stub.get_status_rpc name
    movement_sensor_client name stub (get_geometries extra) =
        extra_client d (geometries_from_proto d) stub.get_geometries_rpc name extra

    abbrev pub movement_sensor_component : Component S
    movement_sensor_component = record {
      Method = Method;
      Answer = Answer;
      Service = Service;
      server = movement_sensor_server;
      client = movement_sensor_client;
      IsSent = IsSent;
      IsCarried = IsCarried;
      arrives = arrives;
    }
