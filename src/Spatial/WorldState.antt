-- ===== src/Spatial/WorldState.antt =====
-- common/world_state.cpp: obstacles and transforms, and their messages, with `pose_in_frame` of
-- common/pose.cpp.
use viam_cpp_sdk.Prelude.{◌>>=◌, List, [], Bytes, map, Option, none, some, Result, ok, ◌≡◌, refl}
use viam_cpp_sdk.Prelude.Double.{Double}
use viam_cpp_sdk.Spatial.Geometry as Geometry
use viam_cpp_sdk.Spatial.Geometry.{
  Pose, PoseMessage, pose_to_proto, pose_from_proto, pose_or_default, GeometryConfig,
  GeometryMessage, without_orientation, geometry-from_proto-to_proto,
}
use viam_cpp_sdk.Spatial.Convert.{
  to_repeated_field, from_repeated_field, from_repeated_field-to_repeated_field,
}

module _ (d : Double) where
  pub record PoseInFrame : Type 0 where
    pub reference_frame : Bytes
    pub pose : Pose d

  -- `common::v1::PoseInFrame`.
  pub record PoseInFrameMessage : Type 0 where
    pub reference_frame : Bytes
    pub pose : Option (PoseMessage d)

  pub record GeometriesInFrame : Type 0 where
    pub geometries : List (GeometryConfig d)
    pub reference_frame : Bytes

  pub record Transform : Type 0 where
    pub reference_frame : Bytes
    pub pose_in_observer_frame : PoseInFrame
    pub physical_object : Option (GeometryConfig d)

  pub record WorldState : Type 0 where
    pub obstacles : List GeometriesInFrame
    pub transforms : List Transform

  -- `common::v1::GeometriesInFrame`.
  pub record GeometriesInFrameMessage : Type 0 where
    pub geometries : List (GeometryMessage d)
    pub reference_frame : Bytes

  -- `common::v1::Transform`.
  pub record TransformMessage : Type 0 where
    pub reference_frame : Bytes
    pub pose_in_observer_frame : Option PoseInFrameMessage
    pub physical_object : Option (GeometryMessage d)

  -- `common::v1::WorldState`.
  pub record WorldStateMessage : Type 0 where
    pub obstacles : List GeometriesInFrameMessage
    pub transforms : List TransformMessage

  abbrev pub pose_in_frame_to_proto : PoseInFrame → PoseInFrameMessage
  pose_in_frame_to_proto self = record {
    reference_frame = self.reference_frame;
    pose = some (pose_to_proto d self.pose);
  }

  abbrev pub pose_in_frame_from_proto : PoseInFrameMessage → PoseInFrame
  pose_in_frame_from_proto proto = record {
    reference_frame = proto.reference_frame;
    pose = pose_from_proto d (pose_or_default d proto.pose);
  }

  -- A message that is not there is read as the default one.
  abbrev pub pose_in_frame_or_default : Option PoseInFrameMessage → PoseInFrameMessage
  pose_in_frame_or_default none = record { reference_frame = []; pose = none }
  pose_in_frame_or_default (some proto) = proto

  abbrev pub geometries_in_frame_to_proto : GeometriesInFrame → GeometriesInFrameMessage
  geometries_in_frame_to_proto self = record {
    geometries = to_repeated_field (Geometry.to_proto d) self.geometries;
    reference_frame = self.reference_frame;
  }

  abbrev pub geometries_in_frame_from_proto : GeometriesInFrameMessage → Result GeometriesInFrame
  geometries_in_frame_from_proto proto = do
    geometries ← from_repeated_field (Geometry.from_proto d) proto.geometries
    ok (record { geometries = geometries; reference_frame = proto.reference_frame })

  abbrev pub object_to_proto : Option (GeometryConfig d) → Option (GeometryMessage d)
  object_to_proto none = none
  object_to_proto (some g) = some (Geometry.to_proto d g)

  abbrev pub object_from_proto : Option (GeometryMessage d) → Result (Option (GeometryConfig d))
  object_from_proto none = ok none
  object_from_proto (some m) = do g ← Geometry.from_proto d m; ok (some g)

  abbrev pub transform_to_proto : Transform → TransformMessage
  transform_to_proto self = record {
    reference_frame = self.reference_frame;
    pose_in_observer_frame = some (pose_in_frame_to_proto self.pose_in_observer_frame);
    physical_object = object_to_proto self.physical_object;
  }

  abbrev pub transform_from_proto : TransformMessage → Result Transform
  transform_from_proto proto = do
    object ← object_from_proto proto.physical_object
    ok (record {
      reference_frame = proto.reference_frame;
      pose_in_observer_frame =
          pose_in_frame_from_proto (pose_in_frame_or_default proto.pose_in_observer_frame);
      physical_object = object;
    })

  unfoldable pub to_proto : WorldState → WorldStateMessage
  to_proto self = record {
    obstacles = to_repeated_field geometries_in_frame_to_proto self.obstacles;
    transforms = to_repeated_field transform_to_proto self.transforms;
  }

  unfoldable pub from_proto : WorldStateMessage → Result WorldState
  from_proto proto = do
    obstacles ← from_repeated_field geometries_in_frame_from_proto proto.obstacles
    transforms ← from_repeated_field transform_from_proto proto.transforms
    ok (record { obstacles = obstacles; transforms = transforms })

  -- What comes back: geometries without their orientations.
  abbrev pub plain_obstacle : GeometriesInFrame → GeometriesInFrame
  plain_obstacle o = record o { geometries = map (without_orientation d) o.geometries }

  abbrev pub plain_object : Option (GeometryConfig d) → Option (GeometryConfig d)
  plain_object none = none
  plain_object (some g) = some (without_orientation d g)

  abbrev pub plain_transform : Transform → Transform
  plain_transform t = record t { physical_object = plain_object t.physical_object }

  object_comes_back :
      (o : Option (GeometryConfig d)) → object_from_proto (object_to_proto o) ≡ ok (plain_object o)
  object_comes_back none = refl
  object_comes_back (some g) = rw (geometry-from_proto-to_proto d g) refl

  obstacle_comes_back :
      (o : GeometriesInFrame)
      → geometries_in_frame_from_proto (geometries_in_frame_to_proto o) ≡ ok (plain_obstacle o)
  obstacle_comes_back o =
      rw
        (from_repeated_field-to_repeated_field (Geometry.to_proto d) (Geometry.from_proto d)
          (without_orientation d) (geometry-from_proto-to_proto d) o.geometries)
        refl

  pub transform_comes_back :
      (t : Transform) → transform_from_proto (transform_to_proto t) ≡ ok (plain_transform t)
  transform_comes_back t = rw (object_comes_back t.physical_object) refl

  -- A state of the world comes back from its message, but for the orientations of its geometries.
  pub world_state-from_proto-to_proto :
      (w : WorldState)
      → from_proto (to_proto w)
        ≡ ok (record {
          obstacles = map plain_obstacle w.obstacles;
          transforms = map plain_transform w.transforms;
        })
  unfolding from_proto to_proto
  world_state-from_proto-to_proto w =
      rw
        (
          from_repeated_field-to_repeated_field geometries_in_frame_to_proto
              geometries_in_frame_from_proto plain_obstacle obstacle_comes_back w.obstacles,
          from_repeated_field-to_repeated_field transform_to_proto transform_from_proto
              plain_transform transform_comes_back w.transforms,
        )
        refl
