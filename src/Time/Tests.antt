-- ===== src/Time/Tests.antt =====
-- The theorems on times, before and after the epoch.
use viam_cpp_sdk.Prelude.{◌≡◌, ◌⊎◌, refl}
use viam_cpp_sdk.Prelude.Int.{pos, negsuc, ◌≤ℤ◌, ◌<ℤ◌, quot, scale, ◌-ℤ◌, ◌+ℤ◌}
use viam_cpp_sdk.Time.{
  Seconds, time_to_proto, time_from_proto, duration_to_proto, duration_from_proto, micros_of_nanos,
}
use viam_cpp_sdk.Time.Rounding.{duration_from_proto_rounds}
use viam_cpp_sdk.Time.Laws.{
  time_from_proto-to_proto, time_to_proto_range, duration_from_proto-to_proto,
}

-- A nanosecond and a half second before the epoch.
before_runs :
    time_to_proto (negsuc 500000000) ≡ record { seconds = pos 0; nanos = negsuc 500000000 }
unfolding time_to_proto quot scale ◌-ℤ◌
before_runs = refl

rounding_runs :
    (duration_from_proto (record { seconds = pos 1; nanos = pos 1 }) ≡ pos 1000001)
    × (duration_from_proto (record { seconds = pos 0; nanos = negsuc 0 }) ≡ negsuc 0)
unfolding duration_from_proto micros_of_nanos quot scale ◌-ℤ◌ ◌+ℤ◌
rounding_runs = (refl, refl)

time_from_proto-to_proto_example :
    time_from_proto (time_to_proto (negsuc 500000000)) ≡ negsuc 500000000
time_from_proto-to_proto_example = time_from_proto-to_proto (negsuc 500000000)

duration_from_proto-to_proto_example :
    duration_from_proto (duration_to_proto (negsuc 1500000)) ≡ negsuc 1500000
duration_from_proto-to_proto_example = duration_from_proto-to_proto (negsuc 1500000)

time_to_proto_range_example :
    let m = time_to_proto (negsuc 500000000) in
    ((pos 0 ≤ℤ negsuc 500000000) × (pos 0 ≤ℤ m.nanos) × (m.nanos <ℤ pos 1000000000))
    ⊎ ((negsuc 500000000 <ℤ pos 0) × (m.nanos ≤ℤ pos 0) × (negsuc 999999999 <ℤ m.nanos))
time_to_proto_range_example = time_to_proto_range (negsuc 500000000)

abbrev little_less : Seconds
little_less = record { seconds = pos 2; nanos = negsuc 1500 }

duration_from_proto_rounds_example :
    let total = scale 1000000000 (pos 2) +ℤ negsuc 1500 in
    let read = scale 1000 (duration_from_proto little_less) in
    ((pos 0 ≤ℤ negsuc 1500) × (total ≤ℤ read) × (read <ℤ (total +ℤ pos 1000)))
    ⊎ ((negsuc 1500 <ℤ pos 0) × (read ≤ℤ total) × ((total -ℤ pos 1000) <ℤ read))
duration_from_proto_rounds_example = duration_from_proto_rounds little_less
