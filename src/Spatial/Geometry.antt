-- ===== src/Spatial/Geometry.antt =====
-- spatialmath/geometry.cpp with common/pose.cpp and common/mesh.cpp.
use viam_cpp_sdk.Prelude.{
  Bytes, Option, none, some, Option-cases, ◌≡◌, refl, inl, inr, Result, ok, err, exception,
  k_not_supported, ◌>>=◌,
}
use viam_cpp_sdk.Prelude.Double.{Double, Vector3}
use viam_cpp_sdk.Spatial.Orientation.{Orientation, default_orientation, zero_double}

module _ (d : Double) where
  open d use {D}

  pub record Coordinates : Type 0 where
    pub x : D
    pub y : D
    pub z : D

  pub record PoseOrientation : Type 0 where
    pub o_x : D
    pub o_y : D
    pub o_z : D

  pub record Pose : Type 0 where
    pub coordinates : Coordinates
    pub orientation : PoseOrientation
    pub theta : D

  pub record Box : Type 0 where
    pub x : D
    pub y : D
    pub z : D

  pub record Sphere : Type 0 where
    pub radius : D

  pub record Capsule : Type 0 where
    pub radius : D
    pub length : D

  pub record Mesh : Type 0 where
    pub content_type : Bytes
    pub mesh_data : Bytes
    pub original_file_source_path_diagnostic : Option Bytes

  pub data GeometrySpecifics : Type 0 where
    box : Box → GeometrySpecifics
    sphere : Sphere → GeometrySpecifics
    capsule : Capsule → GeometrySpecifics
    mesh : Mesh → GeometrySpecifics

  pub record GeometryConfig : Type 0 where
    pub pose : Pose
    pub geometry_specifics : GeometrySpecifics
    pub orientation : Orientation d
    pub label : Bytes

  -- `common::v1::Pose`.
  pub record PoseMessage : Type 0 where
    pub x : D
    pub y : D
    pub z : D
    pub o_x : D
    pub o_y : D
    pub o_z : D
    pub theta : D

  -- The `oneof geometry_type` of `common::v1::Geometry`, with the fields of its messages.
  pub data GeometryCase : Type 0 where
    geometry_type_not_set : GeometryCase
    k_box : (dims_mm : Option (Vector3 d)) → GeometryCase
    k_sphere : (radius_mm : D) → GeometryCase
    k_capsule : (radius_mm length_mm : D) → GeometryCase
    k_mesh : Mesh → GeometryCase

  -- `common::v1::Geometry`.
  pub record GeometryMessage : Type 0 where
    pub center : Option PoseMessage
    pub geometry_type : GeometryCase
    pub label : Bytes

  -- The getters of fields that are messages.
  abbrev pub vector_or_default : Option (Vector3 d) → Vector3 d
  vector_or_default (some v) = v
  vector_or_default none = record { x = zero_double d; y = zero_double d; z = zero_double d }

  abbrev pub pose_or_default : Option PoseMessage → PoseMessage
  pose_or_default (some p) = p
  pose_or_default none = record {
    x = zero_double d;
    y = zero_double d;
    z = zero_double d;
    o_x = zero_double d;
    o_y = zero_double d;
    o_z = zero_double d;
    theta = zero_double d;
  }

  abbrev pub pose_to_proto : Pose → PoseMessage
  pose_to_proto self = record {
    x = self.coordinates.x;
    y = self.coordinates.y;
    z = self.coordinates.z;
    o_x = self.orientation.o_x;
    o_y = self.orientation.o_y;
    o_z = self.orientation.o_z;
    theta = self.theta;
  }

  abbrev pub pose_from_proto : PoseMessage → Pose
  pose_from_proto proto = record {
    coordinates = record { x = proto.x; y = proto.y; z = proto.z };
    orientation = record { o_x = proto.o_x; o_y = proto.o_y; o_z = proto.o_z };
    theta = proto.theta;
  }

  -- `common::v1::Mesh` has the fields of `mesh`.
  abbrev pub mesh_to_proto : Mesh → Mesh
  mesh_to_proto self = record {
    content_type = self.content_type;
    mesh_data = self.mesh_data;
    original_file_source_path_diagnostic = elim self.original_file_source_path_diagnostic [
      | none ↦ none
      | some path ↦ some path
    ];
  }

  abbrev pub mesh_from_proto : Mesh → Mesh
  mesh_from_proto proto = record {
    content_type = proto.content_type;
    mesh_data = proto.mesh_data;
    original_file_source_path_diagnostic = elim proto.original_file_source_path_diagnostic [
      | none ↦ none
      | some path ↦ some path
    ];
  }

  abbrev pub specifics_to_proto : GeometrySpecifics → GeometryCase
  specifics_to_proto (box b) = k_box (some (record { x = b.x; y = b.y; z = b.z }))
  specifics_to_proto (sphere s) = k_sphere s.radius
  specifics_to_proto (capsule c) = k_capsule c.radius c.length
  specifics_to_proto (mesh m) = k_mesh (mesh_to_proto m)

  unfoldable pub to_proto : GeometryConfig → GeometryMessage
  to_proto self = record {
    geometry_type = specifics_to_proto self.geometry_specifics;
    label = self.label;
    center = some (pose_to_proto self.pose);
  }

  abbrev pub get_specifics : GeometryCase → Result GeometrySpecifics
  get_specifics (k_box dims) =
      let v = vector_or_default dims in ok (box (record { x = v.x; y = v.y; z = v.z }))
  get_specifics (k_sphere r) = ok (sphere (record { radius = r }))
  get_specifics (k_capsule r l) = ok (capsule (record { radius = r; length = l }))
  get_specifics (k_mesh m) = ok (mesh (mesh_from_proto m))
  get_specifics geometry_type_not_set = err (exception k_not_supported)

  unfoldable pub from_proto : GeometryMessage → Result GeometryConfig
  from_proto proto = do
    specifics ← get_specifics proto.geometry_type
    ok (record {
      pose = pose_from_proto (pose_or_default proto.center);
      geometry_specifics = specifics;
      orientation = default_orientation d;
      label = proto.label;
    })

  -- The geometry without its orientation.
  abbrev pub without_orientation : GeometryConfig → GeometryConfig
  without_orientation g = record {
    pose = g.pose;
    geometry_specifics = g.geometry_specifics;
    orientation = default_orientation d;
    label = g.label;
  }

  pub mesh_comes_back : (m : Mesh) → mesh_from_proto (mesh_to_proto m) ≡ m
  mesh_comes_back m = elim (Option-cases m.original_file_source_path_diagnostic) [
    | inl e ↦ rw e refl
    | inr (path, e) ↦ rw e refl
  ]

  specifics_come_back : (s : GeometrySpecifics) → get_specifics (specifics_to_proto s) ≡ ok s
  specifics_come_back (box b) = refl
  specifics_come_back (sphere s) = refl
  specifics_come_back (capsule c) = refl
  specifics_come_back (mesh m) = rw (mesh_comes_back m)

  -- A geometry comes back from its message without its orientation, which the message has no field
  -- for, and whole in every other part.
  pub geometry-from_proto-to_proto :
      (g : GeometryConfig) → from_proto (to_proto g) ≡ ok (without_orientation g)
  unfolding from_proto to_proto
  geometry-from_proto-to_proto g = rw (specifics_come_back g.geometry_specifics)
