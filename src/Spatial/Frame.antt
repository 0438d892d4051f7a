-- ===== src/Spatial/Frame.antt =====
-- referenceframe/frame.cpp: `LinkConfig` and its message, with `translation` of
-- spatialmath/orientation_types.cpp.
use viam_cpp_sdk.Prelude.{◌>>=◌, [], Bytes, Option, none, some, Result, ok, ◌≡◌}
use viam_cpp_sdk.Prelude.Double.{Double}
use viam_cpp_sdk.Spatial.Orientation as Orientation
use viam_cpp_sdk.Spatial.Orientation.{
  Orientation, OrientationMessage, zero_double, default_orientation,
  orientation-from_proto-to_proto,
}
use viam_cpp_sdk.Spatial.Geometry as Geometry
use viam_cpp_sdk.Spatial.Geometry.{
  Pose, GeometryConfig, GeometryMessage, box, without_orientation, geometry-from_proto-to_proto,
}

module _ (d : Double) where
  open d use {D}

  pub record Translation : Type 0 where
    pub x : D
    pub y : D
    pub z : D

  pub record LinkConfig : Type 0 where
    pub translation : Translation
    pub orientation : Orientation d
    pub geometry : GeometryConfig d
    pub parent : Bytes

  -- `app::v1::Translation`.
  pub record TranslationMessage : Type 0 where
    pub x : D
    pub y : D
    pub z : D

  -- `app::v1::Frame`.
  pub record FrameMessage : Type 0 where
    pub parent : Bytes
    pub translation : Option TranslationMessage
    pub orientation : Option (OrientationMessage d)
    pub geometry : Option (GeometryMessage d)

  abbrev pub default_pose : Pose d
  default_pose = record {
    coordinates = record { x = zero_double d; y = zero_double d; z = zero_double d };
    orientation = record { o_x = zero_double d; o_y = zero_double d; o_z = zero_double d };
    theta = zero_double d;
  }

  -- `GeometryConfig{}`: the first alternative of each variant.
  abbrev pub default_geometry : GeometryConfig d
  default_geometry = record {
    pose = default_pose;
    geometry_specifics = box (record { x = zero_double d; y = zero_double d; z = zero_double d });
    orientation = default_orientation d;
    label = [];
  }

  -- `LinkConfig{}`.
  abbrev pub default_link : LinkConfig
  default_link = record {
    translation = record { x = zero_double d; y = zero_double d; z = zero_double d };
    orientation = default_orientation d;
    geometry = default_geometry;
    parent = [];
  }

  abbrev pub translation_to_proto : Translation → TranslationMessage
  translation_to_proto self = record { x = self.x; y = self.y; z = self.z }

  -- A message that is not there is read as the default one.
  abbrev pub translation_from_proto : Option TranslationMessage → Translation
  translation_from_proto none = record { x = zero_double d; y = zero_double d; z = zero_double d }
  translation_from_proto (some proto) = record { x = proto.x; y = proto.y; z = proto.z }

  abbrev pub orientation_of_frame : Option (OrientationMessage d) → Result (Orientation d)
  orientation_of_frame none = ok (default_orientation d)
  orientation_of_frame (some proto) = Orientation.from_proto d proto

  abbrev pub geometry_of_frame : Option (GeometryMessage d) → Result (GeometryConfig d)
  geometry_of_frame none = ok default_geometry
  geometry_of_frame (some proto) = Geometry.from_proto d proto

  unfoldable pub to_proto : LinkConfig → FrameMessage
  to_proto self = record {
    parent = self.parent;
    translation = some (translation_to_proto self.translation);
    orientation = some (Orientation.to_proto d self.orientation);
    geometry = some (Geometry.to_proto d self.geometry);
  }

  unfoldable pub from_proto : FrameMessage → Result LinkConfig
  from_proto proto = do
    orientation ← orientation_of_frame proto.orientation
    geometry ← geometry_of_frame proto.geometry
    ok (record {
      translation = translation_from_proto proto.translation;
      orientation = orientation;
      geometry = geometry;
      parent = proto.parent;
    })

  -- The frame whose geometry has no orientation.
  abbrev pub plain_geometry : LinkConfig → LinkConfig
  plain_geometry l = record l { geometry = without_orientation d l.geometry }

  -- A frame comes back from its message, but for the orientation of its geometry.
  pub frame-from_proto-to_proto : (l : LinkConfig) → from_proto (to_proto l) ≡ ok (plain_geometry l)
  unfolding from_proto to_proto
  frame-from_proto-to_proto l =
      rw
        (orientation-from_proto-to_proto d l.orientation, geometry-from_proto-to_proto d l.geometry)
