-- ===== src/Trajectory/Tests.antt =====
-- The theorem on trajectories at a stream of two points.
use viam_cpp_sdk.Prelude.{true, [], ◌∷◌, none, some, ◌≡◌, ◌↔◌}
use viam_cpp_sdk.Prelude.Int.{pos}
use viam_cpp_sdk.Prelude.Double.{whole_numbers}
use viam_cpp_sdk.Trajectory.{TrajectoryPoint, new_validator}
use viam_cpp_sdk.Trajectory.Stream.{accepts, IsTrajectory, accepts_iff}

abbrev start : TrajectoryPoint whole_numbers
start = record {
  time = pos 0;
  positions = pos 10 ∷ [];
  constraints = some (record {
    velocities_degs_per_sec = pos 0 ∷ [];
    accelerations_degs_per_sec2 = some (pos 1 ∷ []);
  });
}

abbrev end : TrajectoryPoint whole_numbers
end = record { time = pos 1000; positions = pos 20 ∷ []; constraints = none }

accepts_iff_example :
    (accepts whole_numbers (start ∷ end ∷ []) new_validator ≡ true)
    ↔ IsTrajectory whole_numbers (start ∷ end ∷ [])
accepts_iff_example = accepts_iff whole_numbers (start ∷ end ∷ [])
