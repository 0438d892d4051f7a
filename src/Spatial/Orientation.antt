-- ===== src/Spatial/Orientation.antt =====
-- spatialmath/orientation_types.hpp and spatialmath/orientation.cpp.
use viam_cpp_sdk.Prelude.{◌≡◌, refl, ◌⊎◌, inl, inr, Result, ok, err, exception, k_not_supported}
use viam_cpp_sdk.Prelude.Int.{pos}
use viam_cpp_sdk.Prelude.Double.{Double}

module _ (d : Double) where
  open d use {D}

  pub record AxisAngles : Type 0 where
    pub x : D
    pub y : D
    pub z : D
    pub theta : D

  pub record EulerAngles : Type 0 where
    pub yaw : D
    pub roll : D
    pub pitch : D

  pub record OrientationVector : Type 0 where
    pub x : D
    pub y : D
    pub z : D
    pub theta : D

  pub record OrientationVectorDegrees : Type 0 where
    pub x : D
    pub y : D
    pub z : D
    pub theta : D

  pub record Quaternion : Type 0 where
    pub x : D
    pub y : D
    pub z : D
    pub w : D

  pub data Orientation : Type 0 where
    quaternion : Quaternion → Orientation
    axis_angles : AxisAngles → Orientation
    orientation_vector : OrientationVector → Orientation
    orientation_vector_degrees : OrientationVectorDegrees → Orientation
    euler_angles : EulerAngles → Orientation

  abbrev pub zero_double : D
  zero_double = d.of_int (pos 0)

  -- `Orientation{}`: the first alternative of the variant.
  abbrev pub default_orientation : Orientation
  default_orientation =
      quaternion (record { x = zero_double; y = zero_double; z = zero_double; w = zero_double })

  -- The sentinel for no rotation.
  abbrev pub no_rotation : Orientation
  no_rotation =
      quaternion
        (record { x = zero_double; y = zero_double; z = zero_double; w = d.of_int (pos 1) })

  -- `app::v1::Orientation`.
  pub data OrientationMessage : Type 0 where
    type_not_set no_orientation : OrientationMessage
    of_axis_angles : AxisAngles → OrientationMessage
    of_vector_radians : OrientationVector → OrientationMessage
    of_vector_degrees : OrientationVectorDegrees → OrientationMessage
    of_euler_angles : EulerAngles → OrientationMessage
    of_quaternion : Quaternion → OrientationMessage

  pub to_proto : Orientation → OrientationMessage
  to_proto (axis_angles a) = of_axis_angles (record { x = a.x; y = a.y; z = a.z; theta = a.theta })
  to_proto (orientation_vector ov) =
      of_vector_radians (record { x = ov.x; y = ov.y; z = ov.z; theta = ov.theta })
  to_proto (orientation_vector_degrees ovd) =
      of_vector_degrees (record { x = ovd.x; y = ovd.y; z = ovd.z; theta = ovd.theta })
  to_proto (euler_angles ea) =
      of_euler_angles (record { pitch = ea.pitch; roll = ea.roll; yaw = ea.yaw })
  to_proto (quaternion q) = of_quaternion (record { w = q.w; x = q.x; y = q.y; z = q.z })

  pub from_proto : OrientationMessage → Result Orientation
  from_proto (of_axis_angles a) =
      ok (axis_angles (record { x = a.x; y = a.y; z = a.z; theta = a.theta }))
  from_proto (of_euler_angles ea) =
      ok (euler_angles (record { yaw = ea.yaw; pitch = ea.pitch; roll = ea.roll }))
  from_proto (of_quaternion q) = ok (quaternion (record { w = q.w; x = q.x; y = q.y; z = q.z }))
  from_proto (of_vector_degrees ovd) =
      ok
        (orientation_vector_degrees (record { x = ovd.x; y = ovd.y; z = ovd.z; theta = ovd.theta }))
  from_proto (of_vector_radians ov) =
      ok (orientation_vector (record { x = ov.x; y = ov.y; z = ov.z; theta = ov.theta }))
  from_proto no_orientation = ok no_rotation
  from_proto type_not_set = err (exception k_not_supported)

  -- An orientation comes back from its message.
  pub orientation-from_proto-to_proto : (o : Orientation) → from_proto (to_proto o) ≡ ok o
  unfolding from_proto to_proto
  orientation-from_proto-to_proto (quaternion q) = refl
  orientation-from_proto-to_proto (axis_angles a) = refl
  orientation-from_proto-to_proto (orientation_vector ov) = refl
  orientation-from_proto-to_proto (orientation_vector_degrees ovd) = refl
  orientation-from_proto-to_proto (euler_angles ea) = refl

  -- A message of an orientation is read as one whose message it is; or it says that there is none,
  -- and is read as no rotation; or it says nothing, and is refused.
  pub orientation-from_proto_decides :
      (m : OrientationMessage)
      → ((o : Orientation) × (from_proto m ≡ ok o) × (to_proto o ≡ m))
        ⊎ ((m ≡ no_orientation) × (from_proto m ≡ ok no_rotation))
        ⊎ ((m ≡ type_not_set) × (from_proto m ≡ err (exception k_not_supported)))
  unfolding from_proto to_proto
  orientation-from_proto_decides (of_axis_angles a) = inl (axis_angles a, refl, refl)
  orientation-from_proto_decides (of_vector_radians a) = inl (orientation_vector a, refl, refl)
  orientation-from_proto_decides (of_vector_degrees a) =
      inl (orientation_vector_degrees a, refl, refl)
  orientation-from_proto_decides (of_euler_angles a) = inl (euler_angles a, refl, refl)
  orientation-from_proto_decides (of_quaternion a) = inl (quaternion a, refl, refl)
  orientation-from_proto_decides no_orientation = inr (inl (refl, refl))
  orientation-from_proto_decides type_not_set = inr (inr (refl, refl))
