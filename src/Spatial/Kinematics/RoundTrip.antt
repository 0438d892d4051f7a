-- ===== src/Spatial/Kinematics/RoundTrip.antt =====
-- A kinematic model and its message.
use viam_cpp_sdk.Prelude.{Option, none, some, map, ◌≡◌, refl, ok}
use viam_cpp_sdk.Prelude.Double.{Double}
use viam_cpp_sdk.Spatial.Orientation.{
  Orientation, quaternion, axis_angles, orientation_vector, orientation_vector_degrees,
  euler_angles,
}
use viam_cpp_sdk.Spatial.Geometry as Geometry
use viam_cpp_sdk.Spatial.Geometry.{
  GeometryConfig, vector_or_default, without_orientation, geometry-from_proto-to_proto,
}
use viam_cpp_sdk.Spatial.Convert.{from_repeated_field-to_repeated_field}
use viam_cpp_sdk.Spatial.Kinematics.Joint.{
  KinematicJoint, JointSpec, revolute, prismatic, continuous, set_limits, limits_or_default,
  type_of_spec, limits_of_spec, geometry_of_spec, geometry_from, spec_from, joint_to_proto,
  joint_from_proto,
}
use viam_cpp_sdk.Spatial.Kinematics.{
  KinematicLink, KinematicModel, link_pose_to_proto, link_pose_from_proto, link_to_proto,
  link_from_proto, model_to_proto, model_from_proto, orientation_to_proto, orientation_from_proto,
}

abbrev copied : {A : Type 0} → Option A → Option A
copied o = elim o [ none ↦ none | some m ↦ some m ]

copied_twice : {A : Type 0} (o : Option A) → copied (copied o) ≡ o
copied_twice none = refl
copied_twice (some m) = refl

module _ (d : Double) where
  open d use {D}

  -- The limits that are read are those that were set.
  limits_come_back :
      (min max max_velocity max_acceleration : Option D)
      → limits_or_default d (set_limits d min max max_velocity max_acceleration) ≡ record {
        min = min;
        max = max;
        max_velocity = max_velocity;
        max_acceleration = max_acceleration;
      }
  unfolding set_limits
  limits_come_back none none none none = refl
  limits_come_back none none none (some a) = refl
  limits_come_back none none (some v) a = refl
  limits_come_back none (some m) v a = refl
  limits_come_back (some m) n v a = refl

  abbrev pub option_without_orientation : Option (GeometryConfig d) → Option (GeometryConfig d)
  option_without_orientation none = none
  option_without_orientation (some g) = some (without_orientation d g)

  -- The joint without the orientation of its geometry.
  abbrev pub plain_spec : JointSpec d → JointSpec d
  plain_spec (revolute j) = revolute j
  plain_spec (continuous j) = continuous j
  plain_spec (prismatic j) = prismatic (record {
    min_mm = j.min_mm;
    max_mm = j.max_mm;
    max_velocity_mm_per_sec = j.max_velocity_mm_per_sec;
    max_acceleration_mm_per_sec2 = j.max_acceleration_mm_per_sec2;
    geometry = option_without_orientation j.geometry;
  })

  abbrev pub plain_joint : KinematicJoint d → KinematicJoint d
  plain_joint j = record {
    id = j.id;
    parent = j.parent;
    axis = j.axis;
    spec = plain_spec j.spec;
    mimic = j.mimic;
  }

  geometry_comes_back :
      (g : Option (GeometryConfig d))
      → geometry_from d (elim g [ none ↦ none | some x ↦ some (Geometry.to_proto d x) ])
        ≡ ok (option_without_orientation g)
  geometry_comes_back none = refl
  geometry_comes_back (some g) = rw (geometry-from_proto-to_proto d g)

  spec_comes_back :
      (s : JointSpec d)
      → spec_from d
          (type_of_spec d s)
          (limits_or_default d (limits_of_spec d s))
          (geometry_of_spec d s)
        ≡ ok (plain_spec s)
  unfolding limits_of_spec
  spec_comes_back (revolute j) = rw (limits_come_back j.min_deg j.max_deg _ _)
  spec_comes_back (continuous j) = rw (limits_come_back none none _ _)
  spec_comes_back (prismatic j) =
      rw (limits_come_back j.min_mm j.max_mm _ _, geometry_comes_back j.geometry)

  -- A joint comes back from its message with its kind and each of its limits, set or not.
  pub joint-from_proto-to_proto :
      (j : KinematicJoint d) → joint_from_proto d (joint_to_proto d j) ≡ ok (plain_joint j)
  unfolding joint_from_proto joint_to_proto
  joint-from_proto-to_proto j = rw (spec_comes_back j.spec, copied_twice j.mimic)

module _ (d : Double) (to_degrees : d.D → d.D) where
  open d use {D}

  -- An orientation vector in radians is turned into one in degrees.
  abbrev pub in_degrees : Orientation d → Orientation d
  in_degrees (orientation_vector ov) =
      orientation_vector_degrees
        (record { x = ov.x; y = ov.y; z = ov.z; theta = to_degrees ov.theta })
  in_degrees o = o

  abbrev pub plain_link : KinematicLink d to_degrees → KinematicLink d to_degrees
  plain_link l = record {
    id = l.id;
    parent = l.parent;
    pose = record { translation = l.pose.translation; orientation = in_degrees l.pose.orientation };
    collision = map (without_orientation d) l.collision;
    visual = map (without_orientation d) l.visual;
  }

  abbrev pub plain_model : KinematicModel d to_degrees → KinematicModel d to_degrees
  plain_model m = record {
    name = m.name;
    links = map plain_link m.links;
    joints = map (plain_joint d) m.joints;
    output_frames = m.output_frames;
    properties = m.properties;
  }

  orientation_comes_back :
      (o : Orientation d)
      → orientation_from_proto d to_degrees (orientation_to_proto d to_degrees o) ≡ in_degrees o
  orientation_comes_back (quaternion q) = refl
  orientation_comes_back (axis_angles a) = refl
  orientation_comes_back (orientation_vector ov) = refl
  orientation_comes_back (orientation_vector_degrees ovd) = refl
  orientation_comes_back (euler_angles ea) = refl

  link_comes_back :
      (l : KinematicLink d to_degrees)
      → link_from_proto d to_degrees (link_to_proto d to_degrees l) ≡ ok (plain_link l)
  unfolding link_from_proto link_to_proto link_pose_to_proto link_pose_from_proto
  link_comes_back l =
      let h =
        from_repeated_field-to_repeated_field (Geometry.to_proto d) (Geometry.from_proto d)
          (without_orientation d) (geometry-from_proto-to_proto d) in
      rw (h l.collision, h l.visual, orientation_comes_back l.pose.orientation)

  -- A kinematic model comes back from its message: all links and joints in their order, the frames
  -- and the properties. Two things change on the way: an orientation vector in radians becomes one
  -- in degrees, and the geometries lose their orientations.
  pub model-from_proto-to_proto :
      (m : KinematicModel d to_degrees)
      → model_from_proto d to_degrees (model_to_proto d to_degrees m) ≡ ok (plain_model m)
  unfolding model_from_proto model_to_proto
  model-from_proto-to_proto m = rw (
    from_repeated_field-to_repeated_field (link_to_proto d to_degrees)
        (link_from_proto d to_degrees) plain_link link_comes_back m.links,
    from_repeated_field-to_repeated_field (joint_to_proto d) (joint_from_proto d) (plain_joint d)
        (joint-from_proto-to_proto d) m.joints,
    copied_twice m.properties,
  )
