-- ===== src/Spatial/Kinematics/Joint.antt =====
-- The joints of a kinematic model, of common/kinematics.cpp.
use viam_cpp_sdk.Prelude.{
  Bytes, Option, none, some, Result, ok, err, exception, k_not_supported, ◌>>=◌,
}
use viam_cpp_sdk.Prelude.Double.{Double, Vector3}
use viam_cpp_sdk.Spatial.Geometry as Geometry
use viam_cpp_sdk.Spatial.Geometry.{
  GeometryConfig, GeometryMessage, vector_or_default, without_orientation,
  geometry-from_proto-to_proto,
}

module _ (d : Double) where
  open d use {D}

  pub record RevoluteJoint : Type 0 where
    pub min_deg : Option D
    pub max_deg : Option D
    pub max_velocity_deg_per_sec : Option D
    pub max_acceleration_deg_per_sec2 : Option D

  pub record ContinuousJoint : Type 0 where
    pub max_velocity_deg_per_sec : Option D
    pub max_acceleration_deg_per_sec2 : Option D

  pub record PrismaticJoint : Type 0 where
    pub min_mm : Option D
    pub max_mm : Option D
    pub max_velocity_mm_per_sec : Option D
    pub max_acceleration_mm_per_sec2 : Option D
    pub geometry : Option (GeometryConfig d)

  pub data JointSpec : Type 0 where
    revolute : RevoluteJoint → JointSpec
    prismatic : PrismaticJoint → JointSpec
    continuous : ContinuousJoint → JointSpec

  pub record MimicJoint : Type 0 where
    pub joint : Bytes
    pub multiplier : D
    pub offset : D

  pub record KinematicJoint : Type 0 where
    pub id : Bytes
    pub parent : Bytes
    pub axis : Vector3 d
    pub spec : JointSpec
    pub mimic : Option MimicJoint

  -- `common::v1::JointType`: the values with a name, and the others.
  pub data JointTypeValue : Type 0 where
    joint_type_unspecified joint_type_revolute joint_type_continuous : JointTypeValue
    joint_type_prismatic joint_type_unknown : JointTypeValue

  pub record JointLimits : Type 0 where
    pub min : Option D
    pub max : Option D
    pub max_velocity : Option D
    pub max_acceleration : Option D

  pub record KinematicJointMessage : Type 0 where
    pub id : Bytes
    pub parent : Bytes
    pub axis : Option (Vector3 d)
    pub mimic : Option MimicJoint
    pub type : JointTypeValue
    pub limits : Option JointLimits
    pub geometry : Option (GeometryMessage d)

  -- The `limits` field after `set_limits` on a new message.
  unfoldable pub set_limits : Option D → Option D → Option D → Option D → Option JointLimits
  set_limits none none none none = none
  set_limits min max max_velocity max_acceleration = some (record {
    min = min;
    max = max;
    max_velocity = max_velocity;
    max_acceleration = max_acceleration;
  })

  abbrev pub type_of_spec : JointSpec → JointTypeValue
  type_of_spec (revolute j) = joint_type_revolute
  type_of_spec (continuous j) = joint_type_continuous
  type_of_spec (prismatic j) = joint_type_prismatic

  unfoldable pub limits_of_spec : JointSpec → Option JointLimits
  unfolding set_limits
  limits_of_spec (revolute j) =
      set_limits j.min_deg j.max_deg j.max_velocity_deg_per_sec j.max_acceleration_deg_per_sec2
  limits_of_spec (continuous j) =
      set_limits none none j.max_velocity_deg_per_sec j.max_acceleration_deg_per_sec2
  limits_of_spec (prismatic j) =
      set_limits j.min_mm j.max_mm j.max_velocity_mm_per_sec j.max_acceleration_mm_per_sec2

  abbrev pub geometry_of_spec : JointSpec → Option (GeometryMessage d)
  geometry_of_spec (revolute j) = none
  geometry_of_spec (continuous j) = none
  geometry_of_spec (prismatic j) = elim j.geometry [
    | none ↦ none
    | some geometry ↦ some (Geometry.to_proto d geometry)
  ]

  abbrev pub mimic_to_proto : MimicJoint → MimicJoint
  mimic_to_proto self = record {
    joint = self.joint;
    multiplier = self.multiplier;
    offset = self.offset;
  }

  abbrev pub mimic_from_proto : MimicJoint → MimicJoint
  mimic_from_proto proto = record {
    joint = proto.joint;
    multiplier = proto.multiplier;
    offset = proto.offset;
  }

  unfoldable pub joint_to_proto : KinematicJoint → KinematicJointMessage
  unfolding limits_of_spec
  joint_to_proto self = record {
    id = self.id;
    parent = self.parent;
    axis = some self.axis;
    mimic = elim self.mimic [ none ↦ none | some mimic ↦ some (mimic_to_proto mimic) ];
    type = type_of_spec self.spec;
    limits = limits_of_spec self.spec;
    geometry = geometry_of_spec self.spec;
  }

  -- `proto->limits()`.
  abbrev pub limits_or_default : Option JointLimits → JointLimits
  limits_or_default none = record {
    min = none;
    max = none;
    max_velocity = none;
    max_acceleration = none;
  }
  limits_or_default (some limits) = limits

  abbrev pub geometry_from : Option (GeometryMessage d) → Result (Option (GeometryConfig d))
  geometry_from none = ok none
  geometry_from (some geometry) = do g ← Geometry.from_proto d geometry; ok (some g)

  abbrev pub spec_from :
      JointTypeValue → JointLimits → Option (GeometryMessage d) → Result JointSpec
  spec_from joint_type_revolute l g = ok (
      revolute (record {
        min_deg = l.min;
        max_deg = l.max;
        max_velocity_deg_per_sec = l.max_velocity;
        max_acceleration_deg_per_sec2 = l.max_acceleration;
      }))
  spec_from joint_type_continuous l g = ok (
      continuous (record {
        max_velocity_deg_per_sec = l.max_velocity;
        max_acceleration_deg_per_sec2 = l.max_acceleration;
      }))
  spec_from joint_type_prismatic l g = do
    geometry ← geometry_from g
    ok (
        prismatic (record {
          min_mm = l.min;
          max_mm = l.max;
          max_velocity_mm_per_sec = l.max_velocity;
          max_acceleration_mm_per_sec2 = l.max_acceleration;
          geometry = geometry;
        }))
  spec_from joint_type_unspecified l g = err (exception k_not_supported)
  spec_from joint_type_unknown l g = err (exception k_not_supported)

  unfoldable pub joint_from_proto : KinematicJointMessage → Result KinematicJoint
  joint_from_proto proto = do
    spec ← spec_from proto.type (limits_or_default proto.limits) proto.geometry
    ok (record {
      id = proto.id;
      parent = proto.parent;
      axis = vector_or_default d proto.axis;
      spec = spec;
      mimic = elim proto.mimic [ none ↦ none | some mimic ↦ some (mimic_from_proto mimic) ];
    })
