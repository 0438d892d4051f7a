-- ===== src/Time.antt =====
-- The conversions of times and durations in common/utils.cpp. Counts are integers without the
-- limit of 64 bits; `std::chrono` rounds a cast to a coarser unit towards zero.
pub mod Laws
pub mod Rounding
mod Tests
use viam_cpp_sdk.Prelude.{ℕ, Bool, true, false, ◌&&◌, not, if◌then◌else◌}
use viam_cpp_sdk.Prelude.Int.{ℤ, pos, negsuc, ◌+ℤ◌, ◌-ℤ◌, quot, scale, ltb_ℤ}

-- `google::protobuf::Timestamp` and `google::protobuf::Duration`.
pub record Seconds : Type 0 where
  pub seconds : ℤ
  pub nanos : ℤ

-- A time point is its count of nanoseconds since the epoch.
unfoldable pub time_to_proto : ℤ → Seconds
time_to_proto since_epoch =
    let sec_floor = quot since_epoch 1000000000 in
    record { seconds = sec_floor; nanos = since_epoch -ℤ scale 1000000000 sec_floor }

unfoldable pub time_from_proto : Seconds → ℤ
time_from_proto timestamp = scale 1000000000 timestamp.seconds +ℤ timestamp.nanos

-- A duration is its count of microseconds.
unfoldable pub duration_to_proto : ℤ → Seconds
duration_to_proto duration =
    let seconds = quot duration 1000000 in
    record { seconds = seconds; nanos = scale 1000 (duration -ℤ scale 1000000 seconds) }

-- The microseconds of a count of nanoseconds, rounded away from zero.
unfoldable pub micros_of_nanos : ℤ → ℤ
micros_of_nanos nanos_part =
    let from_nanos = quot nanos_part 1000 in
    if ltb_ℤ nanos_part (pos 0) && ltb_ℤ nanos_part (scale 1000 from_nanos)
    then from_nanos -ℤ pos 1
    else if ltb_ℤ (pos 0) nanos_part && ltb_ℤ (scale 1000 from_nanos) nanos_part
    then from_nanos +ℤ pos 1
    else from_nanos

unfoldable pub duration_from_proto : Seconds → ℤ
unfolding micros_of_nanos
duration_from_proto proto = scale 1000000 proto.seconds +ℤ micros_of_nanos proto.nanos
