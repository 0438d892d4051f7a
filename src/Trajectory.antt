-- ===== src/Trajectory.antt =====
-- `TrajectoryStreamValidator` of components/private/arm_trajectory_validation.hpp and .cpp, for the
-- points of components/arm.hpp. Times are counts of microseconds without the limit of 64 bits.
pub mod Stream
mod Tests
use viam_cpp_sdk.Prelude.{
  ℕ, Bool, true, false, ◌||◌, ◌&&◌, not, ◌==◌, List, [], ◌∷◌, length, Option, none, some,
  if◌then◌else◌,
}
use viam_cpp_sdk.Prelude.Int.{ℤ, pos, ltb_ℤ}
use viam_cpp_sdk.Prelude.Double.{Double, int_equal}

-- The texts that `check` returns.
pub data Violation : Type 0 where
  first_not_at_zero times_not_increasing no_positions velocities_mismatch : Violation
  first_not_at_rest accelerations_mismatch : Violation

pub record Validator : Type 0 where
  pub seen_first : Bool
  pub last_time : ℤ

abbrev pub new_validator : Validator
new_validator = record { seen_first = false; last_time = pos 0 }

module _ (d : Double) where
  open d use {D}

  pub record KinematicConstraints : Type 0 where
    pub velocities_degs_per_sec : List D
    pub accelerations_degs_per_sec2 : Option (List D)

  pub record TrajectoryPoint : Type 0 where
    pub time : ℤ
    pub positions : List D
    pub constraints : Option KinematicConstraints

  -- `std::any_of` with `velocity != 0.0`.
  unfoldable pub any_moving : List D → Bool
  any_moving [] = false
  any_moving (velocity ∷ r) = not (d.equal velocity (d.of_int (pos 0))) || any_moving r

  abbrev pub empty : List D → Bool
  empty [] = true
  empty (_ ∷ _) = false

  abbrev pub check_accelerations : List D → Option (List D) → Option Violation
  check_accelerations velocities none = none
  check_accelerations velocities (some accelerations) =
      if length accelerations == length velocities then none else some accelerations_mismatch

  abbrev pub check_constraints : Bool → TrajectoryPoint → Option Violation
  check_constraints seen_first point = elim point.constraints [
    | none ↦ none
    | some c ↦
        if not (length c.velocities_degs_per_sec == length point.positions)
        then some velocities_mismatch
        else if not seen_first && any_moving c.velocities_degs_per_sec
        then some first_not_at_rest
        else check_accelerations c.velocities_degs_per_sec c.accelerations_degs_per_sec2
  ]

  abbrev pub check_time : Validator → TrajectoryPoint → Option Violation
  check_time v point =
      if not v.seen_first
      then (if not (int_equal point.time (pos 0)) then some first_not_at_zero else none)
      else if not (ltb_ℤ v.last_time point.time)
      then some times_not_increasing
      else none

  -- The first violation, and the validator after the call.
  unfoldable pub check : TrajectoryPoint → Validator → Option Violation × Validator
  check point v = elim (check_time v point) [
    | some e ↦ (some e, v)
    | none ↦
        if empty point.positions
        then (some no_positions, v)
        else elim (check_constraints v.seen_first point) [
          | some e ↦ (some e, v)
          | none ↦ (none, record { seen_first = true; last_time = point.time })
        ]
  ]
