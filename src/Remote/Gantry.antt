-- ===== src/Remote/Gantry.antt =====
-- `Gantry` of components/gantry.hpp, and its client and server, components/private/gantry_client.cpp and
-- components/private/gantry_server.cpp, less their `get_kinematics` and `get_kinematic_model`.
pub mod Relayed
use viam_cpp_sdk.Prelude.{Bool, List, [], ◌∷◌, Bytes, Option, finished}
use viam_cpp_sdk.Prelude.Double.{Double}
use viam_cpp_sdk.Proto.{ProtoStruct, Struct}
use viam_cpp_sdk.Proto.RoundTrip.{StructIsMaps}
use viam_cpp_sdk.Spatial.Geometry.{GeometryConfig, GeometryMessage}
use viam_cpp_sdk.Remote.{Call, Handler, service_helper, get_extra, invoke_with, responds}
use viam_cpp_sdk.Remote.Laws.{IsSendable}
use viam_cpp_sdk.Remote.Shared.{
  Component, same, do_command_handler, do_command_client, get_status_handler, get_status_client,
  is_moving_handler, is_moving_client, extra_handler, extra_client, geometries_to_proto,
  geometries_from_proto, geometries_arrive,
}

module _ (d : Double) where
  open d use {D}

  pub record MovementCoordinate : Type 0 where
    pub position_mm : D
    pub speed_mm_per_sec : D

  pub record MoveToPosition : Type 0 where
    pub positions_mm : List D
    pub speeds_mm_per_sec : List D

  -- The loop of the client.
  abbrev pub add_coordinates : List MovementCoordinate → MoveToPosition
  add_coordinates [] = record { positions_mm = []; speeds_mm_per_sec = [] }
  add_coordinates (coord ∷ coordinates) =
      let rest = add_coordinates coordinates in
      record {
        positions_mm = coord.position_mm ∷ rest.positions_mm;
        speeds_mm_per_sec = coord.speed_mm_per_sec ∷ rest.speeds_mm_per_sec;
      }

  -- The loop of the server, up to the end of the shorter list.
  abbrev pub coordinates_of : List D → List D → List MovementCoordinate
  coordinates_of [] _ = []
  coordinates_of (_ ∷ _) [] = []
  coordinates_of (position ∷ positions) (speed ∷ speeds) =
      record { position_mm = position; speed_mm_per_sec = speed } ∷ coordinates_of positions speeds

  -- The virtual methods less `get_kinematic_model` and `get_kinematics`; an overload without `extra`
  -- calls one with `{}`.
  pub data Method : Type 0 where
    get_position : (extra : ProtoStruct D) → Method
    move_to_position : (coordinates : List MovementCoordinate) (extra : ProtoStruct D) → Method
    home : (extra : ProtoStruct D) → Method
    get_lengths : (extra : ProtoStruct D) → Method
    is_moving : Method
    stop : (extra : ProtoStruct D) → Method
    do_command : (command : ProtoStruct D) → Method
    get_geometries : (extra : ProtoStruct D) → Method
    get_status : Method

  abbrev pub Answer : Method → Type 0
  Answer (get_position _) = List D
  Answer (home _) = Bool
  Answer (get_lengths _) = List D
  Answer is_moving = Bool
  Answer (do_command _) = ProtoStruct D
  Answer (get_geometries _) = List (GeometryConfig d)
  Answer get_status = ProtoStruct D
  Answer _ = Unit

  abbrev pub IsSent : Method → Type 0
  IsSent (get_position e) = IsSendable e
  IsSent (move_to_position _ e) = IsSendable e
  IsSent (home e) = IsSendable e
  IsSent (get_lengths e) = IsSendable e
  IsSent (stop e) = IsSendable e
  IsSent (do_command c) = StructIsMaps c
  IsSent (get_geometries e) = IsSendable e
  IsSent _ = Unit

  abbrev pub IsCarried : (m : Method) → Answer m → Type 0
  IsCarried (do_command _) r = StructIsMaps r
  IsCarried get_status r = StructIsMaps r
  IsCarried _ r = Unit

  abbrev pub arrives : (m : Method) → Answer m → Answer m
  arrives (get_geometries _) a = geometries_arrive d a
  arrives _ a = a

  module _ (S : Type 0) where
    abbrev pub Gantry : Type 0
    Gantry = (m : Method) → Call S (Answer m)

    -- `GantryService`.
    pub record Service : Type 0 where
      pub get_position_rpc : Handler D S (Unit {0}) (List D)
      pub move_to_position_rpc : Handler D S MoveToPosition (Unit {0})
      pub home_rpc : Handler D S (Unit {0}) Bool
      pub get_lengths_rpc : Handler D S (Unit {0}) (List D)
      pub is_moving_rpc : Handler D S (Unit {0}) Bool
      pub stop_rpc : Handler D S (Unit {0}) (Unit {0})
      pub do_command_rpc : Handler D S (Struct D) (Struct D)
      pub get_geometries_rpc : Handler D S (Unit {0}) (List (GeometryMessage d))
      pub get_status_rpc : Handler D S (Unit {0}) (Struct D)

    unfoldable pub gantry_server : (Bytes → Option Gantry) → Service
    gantry_server lookup = record {
      get_position_rpc = extra_handler d same lookup (λ extra gantry. gantry (get_position extra));
      move_to_position_rpc = service_helper lookup (λ request gantry. responds same (
          gantry (
            move_to_position
              (coordinates_of request.fields.positions_mm request.fields.speeds_mm_per_sec)
              (get_extra request))));
      home_rpc = extra_handler d same lookup (λ extra gantry. gantry (home extra));
      get_lengths_rpc = extra_handler d same lookup (λ extra gantry. gantry (get_lengths extra));
      is_moving_rpc = is_moving_handler d lookup (λ gantry. gantry is_moving);
      stop_rpc = extra_handler d same lookup (λ extra gantry. gantry (stop extra));
      do_command_rpc = do_command_handler d lookup (λ command gantry. gantry (do_command command));
      get_geometries_rpc =
          extra_handler d (geometries_to_proto d) lookup
            (λ extra gantry. gantry (get_geometries extra));
      get_status_rpc = get_status_handler d lookup (λ gantry. gantry get_status);
    }

    -- `GantryClient` is a `Gantry`.
    unfoldable pub gantry_client : Bytes → Service → Gantry
    gantry_client name stub (get_position extra) =
        extra_client d finished stub.get_position_rpc name extra
    gantry_client name stub (move_to_position coordinates extra) =
        invoke_with stub.move_to_position_rpc name extra (add_coordinates coordinates) finished
    gantry_client name stub (home extra) = extra_client d finished stub.home_rpc name extra
    gantry_client name stub (get_lengths extra) =
        extra_client d finished stub.get_lengths_rpc name extra
    gantry_client name stub is_moving = is_moving_client d stub.is_moving_rpc name
    gantry_client name stub (stop extra) = extra_client d finished stub.stop_rpc name extra
    gantry_client name stub (do_command command) =
        do_command_client d stub.do_command_rpc name command
    gantry_client name stub (get_geometries extra) =
        extra_client d (geometries_from_proto d) stub.get_geometries_rpc name extra
    gantry_client name stub get_status = get_status_client d stub.get_status_rpc name

    abbrev pub gantry_component : Component S
    gantry_component = record {
      Method = Method;
      Answer = Answer;
      Service = Service;
      server = gantry_server;
      client = gantry_client;
      IsSent = IsSent;
      IsCarried = IsCarried;
      arrives = arrives;
    }
