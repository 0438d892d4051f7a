-- ===== src/Spatial/Kinematics.antt =====
-- The kinematic model of common/kinematics.hpp and common/kinematics.cpp.
pub mod Joint
pub mod RoundTrip
use viam_cpp_sdk.Prelude.{List, Bytes, Option, none, some, ◌≡◌, refl, Result, ok, err, ◌>>=◌}
use viam_cpp_sdk.Prelude.Int.{pos}
use viam_cpp_sdk.Prelude.Double.{Double, Vector3}
use viam_cpp_sdk.Spatial.Orientation.{
  Orientation, Quaternion, OrientationVectorDegrees, EulerAngles, AxisAngles, zero_double,
  quaternion, axis_angles, orientation_vector, orientation_vector_degrees, euler_angles,
}
use viam_cpp_sdk.Spatial.Geometry as Geometry
use viam_cpp_sdk.Spatial.Geometry.{GeometryConfig, GeometryMessage, vector_or_default}
use viam_cpp_sdk.Spatial.Convert.{to_repeated_field, from_repeated_field}
use viam_cpp_sdk.Spatial.Kinematics.Joint.{
  KinematicJoint, KinematicJointMessage, joint_to_proto, joint_from_proto,
}

-- `to_degrees` is the product with `kDegPerRad`.
module _ (d : Double) (to_degrees : d.D → d.D) where
  open d use {D}

  pub record LinkPose : Type 0 where
    pub translation : Vector3 d
    pub orientation : Orientation d

  pub record KinematicProperties : Type 0 where
    pub operating_freq_hz : Option D
    pub max_linear_tcp_speed_mm_per_sec : Option D

  pub record KinematicLink : Type 0 where
    pub id : Bytes
    pub parent : Bytes
    pub pose : LinkPose
    pub collision : List (GeometryConfig d)
    pub visual : List (GeometryConfig d)

  pub record KinematicModel : Type 0 where
    pub name : Bytes
    pub links : List KinematicLink
    pub joints : List (KinematicJoint d)
    pub output_frames : List Bytes
    pub properties : Option KinematicProperties

  -- The `oneof orientation` of `common::v1::LinkPose`.
  pub data OrientationCase : Type 0 where
    orientation_not_set : OrientationCase
    k_quaternion : Quaternion d → OrientationCase
    k_orientation_vector : (o_x o_y o_z theta : D) → OrientationCase
    k_euler_angles : (roll pitch yaw : D) → OrientationCase
    k_axis_angles : (rx ry rz theta : D) → OrientationCase

  pub record LinkPoseMessage : Type 0 where
    pub translation : Option (Vector3 d)
    pub orientation : OrientationCase

  pub record KinematicLinkMessage : Type 0 where
    pub id : Bytes
    pub parent : Bytes
    pub pose : Option LinkPoseMessage
    pub collision : List (GeometryMessage d)
    pub visual : List (GeometryMessage d)

  pub record KinematicModelMessage : Type 0 where
    pub name : Bytes
    pub links : List KinematicLinkMessage
    pub joints : List (KinematicJointMessage d)
    pub output_frames : List Bytes
    pub properties : Option KinematicProperties

  abbrev pub default_link_orientation : Orientation d
  default_link_orientation =
      orientation_vector_degrees (record {
        x = zero_double d;
        y = zero_double d;
        z = d.of_int (pos 1);
        theta = zero_double d;
      })

  abbrev pub default_link_pose : LinkPose
  default_link_pose = record {
    translation = vector_or_default d none;
    orientation = default_link_orientation;
  }

  abbrev pub orientation_to_proto : Orientation d → OrientationCase
  orientation_to_proto (quaternion q) = k_quaternion (record { w = q.w; x = q.x; y = q.y; z = q.z })
  orientation_to_proto (orientation_vector_degrees ov) =
      k_orientation_vector ov.x ov.y ov.z ov.theta
  orientation_to_proto (orientation_vector ov) =
      k_orientation_vector ov.x ov.y ov.z (to_degrees ov.theta)
  orientation_to_proto (euler_angles ea) = k_euler_angles ea.roll ea.pitch ea.yaw
  orientation_to_proto (axis_angles aa) = k_axis_angles aa.x aa.y aa.z aa.theta

  unfoldable pub link_pose_to_proto : LinkPose → LinkPoseMessage
  link_pose_to_proto self = record {
    translation = some self.translation;
    orientation = orientation_to_proto self.orientation;
  }

  abbrev pub orientation_from_proto : OrientationCase → Orientation d
  orientation_from_proto (k_quaternion q) =
      quaternion (record { x = q.x; y = q.y; z = q.z; w = q.w })
  orientation_from_proto (k_orientation_vector o_x o_y o_z theta) =
      orientation_vector_degrees (record { x = o_x; y = o_y; z = o_z; theta = theta })
  orientation_from_proto (k_euler_angles roll pitch yaw) =
      euler_angles (record { yaw = yaw; roll = roll; pitch = pitch })
  orientation_from_proto (k_axis_angles rx ry rz theta) =
      axis_angles (record { x = rx; y = ry; z = rz; theta = theta })
  orientation_from_proto orientation_not_set = default_link_orientation

  unfoldable pub link_pose_from_proto : LinkPoseMessage → LinkPose
  link_pose_from_proto proto = record {
    translation = vector_or_default d proto.translation;
    orientation = orientation_from_proto proto.orientation;
  }

  -- The message has the fields of `KinematicProperties`.
  abbrev pub properties_to_proto : KinematicProperties → KinematicProperties
  properties_to_proto self = record {
    operating_freq_hz = self.operating_freq_hz;
    max_linear_tcp_speed_mm_per_sec = self.max_linear_tcp_speed_mm_per_sec;
  }

  abbrev pub properties_from_proto : KinematicProperties → KinematicProperties
  properties_from_proto proto = record {
    operating_freq_hz = proto.operating_freq_hz;
    max_linear_tcp_speed_mm_per_sec = proto.max_linear_tcp_speed_mm_per_sec;
  }

  unfoldable pub link_to_proto : KinematicLink → KinematicLinkMessage
  unfolding link_pose_to_proto
  link_to_proto self = record {
    id = self.id;
    parent = self.parent;
    pose = some (link_pose_to_proto self.pose);
    collision = to_repeated_field (Geometry.to_proto d) self.collision;
    visual = to_repeated_field (Geometry.to_proto d) self.visual;
  }

  abbrev pub pose_of : Option LinkPoseMessage → LinkPose
  unfolding link_pose_from_proto
  pose_of none = default_link_pose
  pose_of (some pose) = link_pose_from_proto pose

  unfoldable pub link_from_proto : KinematicLinkMessage → Result KinematicLink
  unfolding pose_of
  link_from_proto proto = do
    collision ← from_repeated_field (Geometry.from_proto d) proto.collision
    visual ← from_repeated_field (Geometry.from_proto d) proto.visual
    ok (record {
      id = proto.id;
      parent = proto.parent;
      pose = pose_of proto.pose;
      collision = collision;
      visual = visual;
    })

  unfoldable pub model_to_proto : KinematicModel → KinematicModelMessage
  unfolding link_to_proto joint_to_proto
  model_to_proto self = record {
    name = self.name;
    links = to_repeated_field link_to_proto self.links;
    joints = to_repeated_field (joint_to_proto d) self.joints;
    output_frames = self.output_frames;
    properties = elim self.properties [
      | none ↦ none
      | some properties ↦ some (properties_to_proto properties)
    ];
  }

  unfoldable pub model_from_proto : KinematicModelMessage → Result KinematicModel
  unfolding link_from_proto joint_from_proto
  model_from_proto proto = do
    links ← from_repeated_field link_from_proto proto.links
    joints ← from_repeated_field (joint_from_proto d) proto.joints
    ok (record {
      name = proto.name;
      links = links;
      joints = joints;
      output_frames = proto.output_frames;
      properties = elim proto.properties [
        | none ↦ none
        | some properties ↦ some (properties_from_proto properties)
      ];
    })
