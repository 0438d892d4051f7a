-- ===== src/Remote/MotionRequests.antt =====
-- What requests of the motion service carry: the constraints and the configuration of
-- services/motion.hpp with their messages in services/private/motion_client.cpp and
-- services/private/motion_server.cpp, and `geo_geometry` of spatialmath/geometry.cpp.
use viam_cpp_sdk.Prelude.{
  true, List, [], ◌∷◌, map, Bytes, Option, none, some, Result, ok, ◌>>=◌, if◌then◌else◌, ◌≡◌, refl,
}
use viam_cpp_sdk.Prelude.Double.{Double}
use viam_cpp_sdk.Spatial.Geometry as Geometry
use viam_cpp_sdk.Spatial.Geometry.{
  GeometryConfig, GeometryMessage, without_orientation, geometry-from_proto-to_proto,
}
use viam_cpp_sdk.Spatial.Convert.{
  to_repeated_field, from_repeated_field, from_repeated_field-to_repeated_field,
}
use viam_cpp_sdk.Remote.MovementSensor.{
  GeoPoint, GeoPointMessage, geo_point_to_proto, geo_point_from_proto,
}

-- The loops that copy a vector into a repeated field and back.
pub copied_list :
    {A B : Type 0} (f : A → B) (g : B → A)
    → ((a : A) → g (f a) ≡ a)
    → (l : List A) → map g (map f l) ≡ l
copied_list f g h [] = refl
copied_list f g h (x ∷ l) = λ i. h x i ∷ copied_list f g h l i

module _ (d : Double) where
  open d use {D}

  -- The messages of the five types that follow have the same fields.
  pub record ObstacleDetector : Type 0 where
    pub vision_service : Bytes
    pub camera : Bytes

  pub record LinearConstraint : Type 0 where
    pub line_tolerance_mm : D
    pub orientation_tolerance_degs : D

  pub record OrientationConstraint : Type 0 where
    pub orientation_tolerance_degs : D

  pub record AllowedFrameCollisions : Type 0 where
    pub frame1 : Bytes
    pub frame2 : Bytes

  pub record CollisionSpecification : Type 0 where
    pub allows : List AllowedFrameCollisions

  pub record Constraints : Type 0 where
    pub linear_constraints : List LinearConstraint
    pub orientation_constraints : List OrientationConstraint
    pub collision_specifications : List CollisionSpecification

  pub record ConstraintsMessage : Type 0 where
    pub linear_constraint : List LinearConstraint
    pub orientation_constraint : List OrientationConstraint
    pub collision_specification : List CollisionSpecification

  pub record MotionConfiguration : Type 0 where
    pub obstacle_detectors : List ObstacleDetector
    pub position_polling_frequency_hz : Option D
    pub obstacle_polling_frequency_hz : Option D
    pub plan_deviation_m : Option D
    pub linear_m_per_sec : Option D
    pub angular_degs_per_sec : Option D

  pub record MotionConfigurationMessage : Type 0 where
    pub obstacle_detectors : List ObstacleDetector
    pub position_polling_frequency_hz : Option D
    pub obstacle_polling_frequency_hz : Option D
    pub plan_deviation_m : Option D
    pub linear_m_per_sec : Option D
    pub angular_degs_per_sec : Option D

  pub record GeoGeometry : Type 0 where
    pub location : GeoPoint d
    pub geometries : List (GeometryConfig d)

  -- `common::v1::GeoGeometry`.
  pub record GeoGeometryMessage : Type 0 where
    pub location : Option (GeoPointMessage d)
    pub geometries : List (GeometryMessage d)

  abbrev pub copy_detector : ObstacleDetector → ObstacleDetector
  copy_detector od = record { vision_service = od.vision_service; camera = od.camera }

  abbrev pub copy_linear : LinearConstraint → LinearConstraint
  copy_linear lc = record {
    line_tolerance_mm = lc.line_tolerance_mm;
    orientation_tolerance_degs = lc.orientation_tolerance_degs;
  }

  abbrev pub copy_orientation : OrientationConstraint → OrientationConstraint
  copy_orientation oc = record { orientation_tolerance_degs = oc.orientation_tolerance_degs }

  abbrev pub copy_allowed : AllowedFrameCollisions → AllowedFrameCollisions
  copy_allowed allow = record { frame1 = allow.frame1; frame2 = allow.frame2 }

  abbrev pub copy_collision : CollisionSpecification → CollisionSpecification
  copy_collision spec = record { allows = map copy_allowed spec.allows }

  abbrev pub constraints_to_proto : Constraints → ConstraintsMessage
  constraints_to_proto cs = record {
    linear_constraint = map copy_linear cs.linear_constraints;
    orientation_constraint = map copy_orientation cs.orientation_constraints;
    collision_specification = map copy_collision cs.collision_specifications;
  }

  abbrev pub constraints_from_proto : ConstraintsMessage → Constraints
  constraints_from_proto proto = record {
    linear_constraints = map copy_linear proto.linear_constraint;
    orientation_constraints = map copy_orientation proto.orientation_constraint;
    collision_specifications = map copy_collision proto.collision_specification;
  }

  -- A number that is not there, or is a NaN, which is not equal to itself, is not set.
  abbrev pub unless_nan : Option D → Option D
  unless_nan none = none
  unless_nan (some x) = if d.equal x x then some x else none

  abbrev pub IsNumber : Option D → Type 0
  IsNumber none = Unit
  IsNumber (some x) = d.equal x x ≡ true

  pub unless_nan_number : (o : Option D) → IsNumber o → unless_nan o ≡ o
  unless_nan_number none h = refl
  unless_nan_number (some x) h = rw h refl

  abbrev pub configuration_to_proto : MotionConfiguration → MotionConfigurationMessage
  configuration_to_proto mc = record {
    obstacle_detectors = map copy_detector mc.obstacle_detectors;
    position_polling_frequency_hz = unless_nan mc.position_polling_frequency_hz;
    obstacle_polling_frequency_hz = unless_nan mc.obstacle_polling_frequency_hz;
    plan_deviation_m = unless_nan mc.plan_deviation_m;
    linear_m_per_sec = unless_nan mc.linear_m_per_sec;
    angular_degs_per_sec = unless_nan mc.angular_degs_per_sec;
  }

  abbrev pub configuration_from_proto : MotionConfigurationMessage → MotionConfiguration
  configuration_from_proto proto = record {
    obstacle_detectors = map copy_detector proto.obstacle_detectors;
    position_polling_frequency_hz = proto.position_polling_frequency_hz;
    obstacle_polling_frequency_hz = proto.obstacle_polling_frequency_hz;
    plan_deviation_m = proto.plan_deviation_m;
    linear_m_per_sec = proto.linear_m_per_sec;
    angular_degs_per_sec = proto.angular_degs_per_sec;
  }

  abbrev pub geo_geometry_to_proto : GeoGeometry → GeoGeometryMessage
  geo_geometry_to_proto self = record {
    location = some (geo_point_to_proto d self.location);
    geometries = to_repeated_field (Geometry.to_proto d) self.geometries;
  }

  abbrev pub geo_geometry_from_proto : GeoGeometryMessage → Result GeoGeometry
  geo_geometry_from_proto proto = do
    geometries ← from_repeated_field (Geometry.from_proto d) proto.geometries
    ok (record { location = geo_point_from_proto d proto.location; geometries = geometries })

  pub constraints_back : (cs : Constraints) → constraints_from_proto (constraints_to_proto cs) ≡ cs
  constraints_back cs = λ i. record {
    linear_constraints = copied_list copy_linear copy_linear (λ _. refl) cs.linear_constraints i;
    orientation_constraints =
        copied_list copy_orientation copy_orientation (λ _. refl) cs.orientation_constraints i;
    collision_specifications =
        copied_list copy_collision copy_collision
          (λ spec j. record {
            allows = copied_list copy_allowed copy_allowed (λ _. refl) spec.allows j;
          })
          cs.collision_specifications i;
  }

  -- The numbers of a configuration are no NaN.
  abbrev pub AreNumbers : MotionConfiguration → Type 0
  AreNumbers mc =
      IsNumber mc.position_polling_frequency_hz
      × IsNumber mc.obstacle_polling_frequency_hz
      × IsNumber mc.plan_deviation_m
      × IsNumber mc.linear_m_per_sec
      × IsNumber mc.angular_degs_per_sec

  pub configuration_back :
      (mc : MotionConfiguration)
      → AreNumbers mc
      → configuration_from_proto (configuration_to_proto mc) ≡ mc
  configuration_back mc h = λ i. record {
    obstacle_detectors =
        copied_list copy_detector copy_detector (λ _. refl) mc.obstacle_detectors i;
    position_polling_frequency_hz = unless_nan_number mc.position_polling_frequency_hz h.0 i;
    obstacle_polling_frequency_hz = unless_nan_number mc.obstacle_polling_frequency_hz h.1 i;
    plan_deviation_m = unless_nan_number mc.plan_deviation_m h.2 i;
    linear_m_per_sec = unless_nan_number mc.linear_m_per_sec h.3 i;
    angular_degs_per_sec = unless_nan_number mc.angular_degs_per_sec h.4 i;
  }

  abbrev pub plain_region : GeoGeometry → GeoGeometry
  plain_region g = record g { geometries = map (without_orientation d) g.geometries }

  pub geo_geometry_back :
      (g : GeoGeometry) → geo_geometry_from_proto (geo_geometry_to_proto g) ≡ ok (plain_region g)
  geo_geometry_back g =
      rw
        (from_repeated_field-to_repeated_field (Geometry.to_proto d) (Geometry.from_proto d)
          (without_orientation d) (geometry-from_proto-to_proto d) g.geometries)
        refl
