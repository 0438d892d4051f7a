-- ===== src/Time/Laws.antt =====
-- What the conversions of times and durations keep.
use viam_cpp_sdk.Prelude.{◌≡◌, arith, ◌⊎◌, inl, inr}
use viam_cpp_sdk.Prelude.Int.{ℤ, pos, negsuc, ◌+ℤ◌, ◌-ℤ◌, quot, scale, ◌<ℤ◌, ◌≤ℤ◌}
use viam_cpp_sdk.Time.{
  time_to_proto, time_from_proto, duration_to_proto, duration_from_proto, micros_of_nanos,
}

-- A time point comes back from its message, before the epoch too.
pub time_from_proto-to_proto : (t : ℤ) → time_from_proto (time_to_proto t) ≡ t
unfolding time_from_proto time_to_proto quot scale ◌+ℤ◌ ◌-ℤ◌
time_from_proto-to_proto (pos n) = ground arith
time_from_proto-to_proto (negsuc n) = ground arith

-- A duration of any count of microseconds, negative ones too, comes back from its message.
pub duration_from_proto-to_proto : (u : ℤ) → duration_from_proto (duration_to_proto u) ≡ u
unfolding duration_from_proto duration_to_proto micros_of_nanos quot scale ◌+ℤ◌ ◌-ℤ◌
duration_from_proto-to_proto (pos n) = ground arith
duration_from_proto-to_proto (negsuc n) = ground arith

-- The nanoseconds of the message stay within a second, so that the cast to 32 bits loses nothing,
-- and have the sign of the time: before the epoch they are zero or negative.
pub time_to_proto_range :
    (t : ℤ)
    → let m = time_to_proto t in
      ((pos 0 ≤ℤ t) × (pos 0 ≤ℤ m.nanos) × (m.nanos <ℤ pos 1000000000))
      ⊎ ((t <ℤ pos 0) × (m.nanos ≤ℤ pos 0) × (negsuc 999999999 <ℤ m.nanos))
unfolding time_to_proto quot scale ◌-ℤ◌
time_to_proto_range (pos n) = inl (omega arith, ground arith, ground arith)
time_to_proto_range (negsuc n) = inr (omega arith, ground arith, ground arith)
