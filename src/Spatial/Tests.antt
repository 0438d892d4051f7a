-- ===== src/Spatial/Tests.antt =====
-- The theorems on the geometric types, with whole numbers for the doubles.
use viam_cpp_sdk.Prelude.{
  [], ◌∷◌, codes, map, none, some, ◌≡◌, ◌⊎◌, ok, err, exception, k_not_supported,
}
use viam_cpp_sdk.Prelude.Int.{ℤ, pos}
use viam_cpp_sdk.Prelude.Double.{whole_numbers, Vector3}
use viam_cpp_sdk.Spatial.Orientation as Orientations
use viam_cpp_sdk.Spatial.Orientation.{
  Orientation, OrientationMessage, orientation_vector, no_orientation, type_not_set, no_rotation,
  orientation-from_proto-to_proto, orientation-from_proto_decides,
}
use viam_cpp_sdk.Spatial.Geometry.{GeometryConfig, capsule}
use viam_cpp_sdk.Spatial.WorldState as WorldState
use viam_cpp_sdk.Spatial.WorldState.{
  WorldState, plain_obstacle, plain_transform, world_state-from_proto-to_proto,
}
use viam_cpp_sdk.Spatial.Kinematics.{
  KinematicLink, KinematicModel, model_to_proto, model_from_proto,
}
use viam_cpp_sdk.Spatial.Kinematics.Joint.{KinematicJoint, prismatic}
use viam_cpp_sdk.Spatial.Kinematics.RoundTrip.{plain_model, model-from_proto-to_proto}

abbrev degrees : ℤ → ℤ
degrees a = a

abbrev point : Vector3 whole_numbers
point = record { x = pos 1; y = pos 2; z = pos 3 }

abbrev turned : Orientation whole_numbers
turned = orientation_vector (record { x = pos 0; y = pos 1; z = pos 0; theta = pos 90 })

abbrev pin : GeometryConfig whole_numbers
pin = record {
  pose = record {
    coordinates = record { x = pos 1; y = pos 2; z = pos 3 };
    orientation = record { o_x = pos 0; o_y = pos 0; o_z = pos 1 };
    theta = pos 45;
  };
  geometry_specifics = capsule (record { radius = pos 2; length = pos 9 });
  orientation = turned;
  label = codes "pin";
}

abbrev slider : KinematicJoint whole_numbers
slider = record {
  id = codes "slider";
  parent = codes "base";
  axis = point;
  spec = prismatic (record {
    min_mm = some (pos 0);
    max_mm = none;
    max_velocity_mm_per_sec = none;
    max_acceleration_mm_per_sec2 = none;
    geometry = some pin;
  });
  mimic = none;
}

abbrev base : KinematicLink whole_numbers degrees
base = record {
  id = codes "base";
  parent = codes "world";
  pose = record { translation = point; orientation = turned };
  collision = pin ∷ [];
  visual = [];
}

abbrev gantry : KinematicModel whole_numbers degrees
gantry = record {
  name = codes "gantry";
  links = base ∷ [];
  joints = slider ∷ [];
  output_frames = codes "slider" ∷ [];
  properties = none;
}

model-from_proto-to_proto_example :
    model_from_proto whole_numbers degrees (model_to_proto whole_numbers degrees gantry)
    ≡ ok (plain_model whole_numbers degrees gantry)
model-from_proto-to_proto_example = model-from_proto-to_proto whole_numbers degrees gantry

abbrev surroundings : WorldState whole_numbers
surroundings = record {
  obstacles = record { geometries = pin ∷ []; reference_frame = codes "world" } ∷ [];
  transforms =
      record {
        reference_frame = codes "table";
        pose_in_observer_frame = record { reference_frame = codes "world"; pose = pin.pose };
        physical_object = some pin;
      }
      ∷ [];
}

world_state-from_proto-to_proto_example :
    WorldState.from_proto whole_numbers (WorldState.to_proto whole_numbers surroundings)
    ≡ ok (record {
      obstacles = map (plain_obstacle whole_numbers) surroundings.obstacles;
      transforms = map (plain_transform whole_numbers) surroundings.transforms;
    })
world_state-from_proto-to_proto_example = world_state-from_proto-to_proto whole_numbers surroundings

orientation-from_proto-to_proto_example :
    Orientations.from_proto whole_numbers (Orientations.to_proto whole_numbers turned) ≡ ok turned
orientation-from_proto-to_proto_example = orientation-from_proto-to_proto whole_numbers turned

abbrev unsaid : OrientationMessage whole_numbers
unsaid = no_orientation

orientation-from_proto_decides_example :
    ((o : Orientation whole_numbers) × (Orientations.from_proto whole_numbers no_orientation ≡ ok o)
      × (Orientations.to_proto whole_numbers o ≡ no_orientation))
    ⊎ ((unsaid ≡ no_orientation)
        × (Orientations.from_proto whole_numbers no_orientation ≡ ok (no_rotation whole_numbers)))
    ⊎ ((unsaid ≡ type_not_set)
        × (Orientations.from_proto whole_numbers no_orientation ≡ err (exception k_not_supported)))
orientation-from_proto_decides_example = orientation-from_proto_decides whole_numbers no_orientation
