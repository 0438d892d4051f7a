-- ===== src/Remote/Camera.antt =====
-- `Camera` of components/camera.hpp, and its client and server, components/private/camera_client.cpp
-- and components/private/camera_server.cpp.
pub mod Relayed
use viam_cpp_sdk.Prelude.{Bool, List, [], Bytes, Option, none, some, finished, ℕ}
use viam_cpp_sdk.Prelude.Int.{ℤ, pos}
use viam_cpp_sdk.Prelude.Double.{Double, Vector3}
use viam_cpp_sdk.Proto.{ProtoStruct, Struct}
use viam_cpp_sdk.Proto.RoundTrip.{StructIsMaps}
use viam_cpp_sdk.Spatial.Geometry.{GeometryConfig, GeometryMessage, vector_or_default}
use viam_cpp_sdk.Remote.Int32.{unsigned, signed, IsInt32}
use viam_cpp_sdk.Prelude.{map, codes}
use viam_cpp_sdk.Time.{Seconds, time_to_proto, time_from_proto}
use viam_cpp_sdk.Spatial.Orientation.{OrientationVectorDegrees}
use viam_cpp_sdk.Remote.{
  Call, Handler, service_helper, get_extra, invoke_with, invoke_plain, responds,
}
use viam_cpp_sdk.Remote.Laws.{IsSendable}
use viam_cpp_sdk.Remote.Shared.{
  Component, do_command_handler, do_command_client, get_status_handler, get_status_client,
  extra_handler, extra_client, geometries_to_proto, geometries_from_proto, geometries_arrive,
  vector_to_proto, vector_from_proto,
}

module _ (d : Double) where
  open d use {D}

  pub record IntrinsicParameters : Type 0 where
    pub width_px : ℤ
    pub height_px : ℤ
    pub focal_x_px : D
    pub focal_y_px : D
    pub center_x_px : D
    pub center_y_px : D

  pub record ExtrinsicParameters : Type 0 where
    pub translation : Vector3 d
    pub orientation : OrientationVectorDegrees d

  pub record DistortionParameters : Type 0 where
    pub model : Bytes
    pub parameters : List D

  pub record Properties : Type 0 where
    pub supports_pcd : Bool
    pub intrinsic_parameters : IntrinsicParameters
    pub extrinsic_parameters : ExtrinsicParameters
    pub distortion_parameters : DistortionParameters
    pub mime_types : List Bytes
    pub frame_rate : D
    pub default_reference_frame : Bytes

  pub record PointCloud : Type 0 where
    pub mime_type : Bytes
    pub pc : Bytes

  pub record RawImage : Type 0 where
    pub mime_type : Bytes
    pub bytes : Bytes
    pub source_name : Bytes

  -- The metadata of a response is the time at which it was captured.
  pub record ImageCollection : Type 0 where
    pub images : List RawImage
    pub captured_at : ℤ

  pub record Image : Type 0 where
    pub source_name : Bytes
    pub image : Bytes
    pub mime_type : Bytes

  pub record GetImages : Type 0 where
    pub images : List Image
    pub captured_at : Seconds

  pub record GetPointCloud : Type 0 where
    pub mime_type : Bytes
    pub point_cloud : Bytes

  -- The width and the height of a message are unsigned.
  pub record IntrinsicMessage : Type 0 where
    pub width_px : ℕ
    pub height_px : ℕ
    pub focal_x_px : D
    pub focal_y_px : D
    pub center_x_px : D
    pub center_y_px : D

  pub record OrientationMessage : Type 0 where
    pub o_x : D
    pub o_y : D
    pub o_z : D
    pub theta : D

  pub record ExtrinsicMessage : Type 0 where
    pub translation : Option (Vector3 d)
    pub orientation : Option OrientationMessage

  pub record DistortionMessage : Type 0 where
    pub model : Bytes
    pub parameters : List D

  pub record GetProperties : Type 0 where
    pub supports_pcd : Bool
    pub intrinsic_parameters : Option IntrinsicMessage
    pub extrinsic_parameters : Option ExtrinsicMessage
    pub distortion_parameters : Option DistortionMessage
    pub mime_types : List Bytes
    pub frame_rate : D
    pub default_reference_frame : Bytes

  abbrev zero_double : D
  zero_double = d.of_int (pos 0)

  abbrev pub mime_type_pcd : Bytes
  mime_type_pcd = codes "pointcloud/pcd"

  abbrev pub image_to_proto : RawImage → Image
  image_to_proto img = record {
    source_name = img.source_name;
    image = img.bytes;
    mime_type = img.mime_type;
  }

  abbrev pub image_from_proto : Image → RawImage
  image_from_proto img = record {
    mime_type = img.mime_type;
    bytes = img.image;
    source_name = img.source_name;
  }

  abbrev pub images_to_proto : ImageCollection → GetImages
  images_to_proto image_coll = record {
    images = map image_to_proto image_coll.images;
    captured_at = time_to_proto image_coll.captured_at;
  }

  abbrev pub images_from_proto : GetImages → ImageCollection
  images_from_proto proto = record {
    images = map image_from_proto proto.images;
    captured_at = time_from_proto proto.captured_at;
  }

  abbrev pub intrinsic_to_proto : IntrinsicParameters → IntrinsicMessage
  intrinsic_to_proto params = record {
    width_px = unsigned params.width_px;
    height_px = unsigned params.height_px;
    focal_x_px = params.focal_x_px;
    focal_y_px = params.focal_y_px;
    center_x_px = params.center_x_px;
    center_y_px = params.center_y_px;
  }

  -- A message that is not there is read as the default one.
  abbrev pub intrinsic_from_proto : Option IntrinsicMessage → IntrinsicParameters
  intrinsic_from_proto none = record {
    width_px = pos 0;
    height_px = pos 0;
    focal_x_px = zero_double;
    focal_y_px = zero_double;
    center_x_px = zero_double;
    center_y_px = zero_double;
  }
  intrinsic_from_proto (some proto) = record {
    width_px = signed proto.width_px;
    height_px = signed proto.height_px;
    focal_x_px = proto.focal_x_px;
    focal_y_px = proto.focal_y_px;
    center_x_px = proto.center_x_px;
    center_y_px = proto.center_y_px;
  }

  abbrev pub extrinsic_to_proto : ExtrinsicParameters → ExtrinsicMessage
  extrinsic_to_proto params = record {
    translation = some (vector_to_proto d params.translation);
    orientation = some (record {
      o_x = params.orientation.x;
      o_y = params.orientation.y;
      o_z = params.orientation.z;
      theta = params.orientation.theta;
    });
  }

  abbrev or_default : {A : Type 0} → A → Option A → A
  or_default a none = a
  or_default a (some b) = b

  abbrev no_orientation_message : OrientationMessage
  no_orientation_message = record {
    o_x = zero_double;
    o_y = zero_double;
    o_z = zero_double;
    theta = zero_double;
  }

  abbrev no_extrinsic_message : ExtrinsicMessage
  no_extrinsic_message = record { translation = none; orientation = none }

  abbrev pub orientation_of : Option OrientationMessage → OrientationVectorDegrees d
  orientation_of proto =
      let o = or_default no_orientation_message proto in
      record { x = o.o_x; y = o.o_y; z = o.o_z; theta = o.theta }

  abbrev pub extrinsic_from_proto : Option ExtrinsicMessage → ExtrinsicParameters
  extrinsic_from_proto proto =
      let p = or_default no_extrinsic_message proto in
      record {
        translation = vector_from_proto d (vector_or_default d p.translation);
        orientation = orientation_of p.orientation;
      }

  abbrev pub distortion_to_proto : DistortionParameters → DistortionMessage
  distortion_to_proto params = record { model = params.model; parameters = params.parameters }

  abbrev pub distortion_from_proto : Option DistortionMessage → DistortionParameters
  distortion_from_proto none = record { model = []; parameters = [] }
  distortion_from_proto (some proto) = record { model = proto.model; parameters = proto.parameters }

  abbrev pub properties_to_proto : Properties → GetProperties
  properties_to_proto properties = record {
    supports_pcd = properties.supports_pcd;
    intrinsic_parameters = some (intrinsic_to_proto properties.intrinsic_parameters);
    extrinsic_parameters = some (extrinsic_to_proto properties.extrinsic_parameters);
    distortion_parameters = some (distortion_to_proto properties.distortion_parameters);
    mime_types = properties.mime_types;
    frame_rate = properties.frame_rate;
    default_reference_frame = properties.default_reference_frame;
  }

  abbrev pub properties_from_proto : GetProperties → Properties
  properties_from_proto proto = record {
    supports_pcd = proto.supports_pcd;
    intrinsic_parameters = intrinsic_from_proto proto.intrinsic_parameters;
    extrinsic_parameters = extrinsic_from_proto proto.extrinsic_parameters;
    distortion_parameters = distortion_from_proto proto.distortion_parameters;
    mime_types = proto.mime_types;
    frame_rate = proto.frame_rate;
    default_reference_frame = proto.default_reference_frame;
  }

  -- The point cloud that a client gets.
  abbrev pub as_pcd : PointCloud → PointCloud
  as_pcd point_cloud = record point_cloud { mime_type = mime_type_pcd }

  -- The virtual methods; an overload without `extra` calls one with `{}`.
  pub data Method : Type 0 where
    do_command : (command : ProtoStruct D) → Method
    get_images : (filter_source_names : List Bytes) (extra : ProtoStruct D) → Method
    get_point_cloud : (mime_type : Bytes) (extra : ProtoStruct D) → Method
    get_geometries : (extra : ProtoStruct D) → Method
    get_properties : Method
    get_status : Method

  abbrev pub Answer : Method → Type 0
  Answer (do_command _) = ProtoStruct D
  Answer (get_images _ _) = ImageCollection
  Answer (get_point_cloud _ _) = PointCloud
  Answer (get_geometries _) = List (GeometryConfig d)
  Answer get_properties = Properties
  Answer get_status = ProtoStruct D

  abbrev pub IsSent : Method → Type 0
  IsSent (do_command c) = StructIsMaps c
  IsSent (get_images _ e) = IsSendable e
  IsSent (get_point_cloud _ e) = IsSendable e
  IsSent (get_geometries e) = IsSendable e
  IsSent _ = Unit

  abbrev pub IsCarried : (m : Method) → Answer m → Type 0
  IsCarried (do_command _) r = StructIsMaps r
  IsCarried get_properties r =
      IsInt32 r.intrinsic_parameters.width_px × IsInt32 r.intrinsic_parameters.height_px
  IsCarried get_status r = StructIsMaps r
  IsCarried _ r = Unit

  abbrev pub arrives : (m : Method) → Answer m → Answer m
  arrives (get_point_cloud _ _) a = as_pcd a
  arrives (get_geometries _) a = geometries_arrive d a
  arrives _ a = a

  module _ (S : Type 0) where
    abbrev pub Camera : Type 0
    Camera = (m : Method) → Call S (Answer m)

    -- `CameraService`.
    pub record Service : Type 0 where
      pub do_command_rpc : Handler D S (Struct D) (Struct D)
      pub get_images_rpc : Handler D S (List Bytes) GetImages
      pub get_point_cloud_rpc : Handler D S Bytes GetPointCloud
      pub get_geometries_rpc : Handler D S (Unit {0}) (List (GeometryMessage d))
      pub get_properties_rpc : Handler D S (Unit {0}) GetProperties
      pub get_status_rpc : Handler D S (Unit {0}) (Struct D)

    unfoldable pub camera_server : (Bytes → Option Camera) → Service
    camera_server lookup = record {
      do_command_rpc = do_command_handler d lookup (λ command camera. camera (do_command command));
      get_images_rpc = service_helper lookup (λ request camera.
          responds images_to_proto (camera (get_images request.fields (get_extra request))));
      get_point_cloud_rpc = service_helper lookup (λ request camera.
          responds
            (λ point_cloud. record { mime_type = mime_type_pcd; point_cloud = point_cloud.pc })
            (camera (get_point_cloud request.fields (get_extra request))));
      get_geometries_rpc =
          extra_handler d (geometries_to_proto d) lookup
            (λ extra camera. camera (get_geometries extra));
      get_properties_rpc =
          service_helper lookup
            (λ request camera. responds properties_to_proto (camera get_properties));
      get_status_rpc = get_status_handler d lookup (λ camera. camera get_status);
    }

    -- `CameraClient` is a `Camera`.
    unfoldable pub camera_client : Bytes → Service → Camera
    camera_client name stub (do_command command) =
        do_command_client d stub.do_command_rpc name command
    camera_client name stub (get_images filter_source_names extra) =
        invoke_with stub.get_images_rpc name extra filter_source_names
          (λ response. finished (images_from_proto response))
    camera_client name stub (get_point_cloud mime_type extra) =
        invoke_with stub.get_point_cloud_rpc name extra mime_type (λ response.
          finished (record { mime_type = response.mime_type; pc = response.point_cloud }))
    camera_client name stub (get_geometries extra) =
        extra_client d (geometries_from_proto d) stub.get_geometries_rpc name extra
    camera_client name stub get_properties =
        invoke_plain stub.get_properties_rpc name tt
          (λ response. finished (properties_from_proto response))
    camera_client name stub get_status = get_status_client d stub.get_status_rpc name

    abbrev pub camera_component : Component S
    camera_component = record {
      Method = Method;
      Answer = Answer;
      Service = Service;
      server = camera_server;
      client = camera_client;
      IsSent = IsSent;
      IsCarried = IsCarried;
      arrives = arrives;
    }
