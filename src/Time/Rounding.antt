-- ===== src/Time/Rounding.antt =====
-- How the nanoseconds of a duration are rounded to microseconds.
use viam_cpp_sdk.Prelude.{ℕ, ◌+◌, ◌*◌, ◌/◌, ◌≡◌, ap, arith, ◌⊎◌, inl, inr}
use viam_cpp_sdk.Prelude.Int.{
  ℤ, pos, negsuc, pos_part, neg_part, ◌+ℤ◌, ◌-ℤ◌, quot, scale, ◌<ℤ◌, ◌≤ℤ◌, +ℤ_parts, -ℤ_parts,
}
use viam_cpp_sdk.Time.{Seconds, duration_from_proto, micros_of_nanos}

micros_pos : (n : ℕ) → micros_of_nanos (pos n) ≡ pos ((n + 999) / 1000)
unfolding micros_of_nanos quot scale ◌+ℤ◌ ◌-ℤ◌
micros_pos n = ground arith

micros_neg : (n : ℕ) → micros_of_nanos (negsuc n) ≡ negsuc (n / 1000)
unfolding micros_of_nanos quot scale ◌+ℤ◌ ◌-ℤ◌
micros_neg n = ground arith

scale_parts :
    (k : ℕ) (a : ℤ) → pos_part (scale k a) + k * neg_part a ≡ neg_part (scale k a) + k * pos_part a
unfolding scale
scale_parts k a = ground arith

rounds_by_sign :
    (s n : ℤ)
    → let proto : Seconds = record { seconds = s; nanos = n } in
      let total = scale 1000000000 s +ℤ n in
      let read = scale 1000 (duration_from_proto proto) in
      ((pos 0 ≤ℤ n) × (total ≤ℤ read) × (read <ℤ (total +ℤ pos 1000)))
      ⊎ ((n <ℤ pos 0) × (read ≤ℤ total) × ((total -ℤ pos 1000) <ℤ read))
unfolding duration_from_proto
rounds_by_sign s (pos n) =
    let m = micros_of_nanos (pos n) in
    let u = scale 1000000 s +ℤ m in
    let total = scale 1000000000 s +ℤ pos n in
    inl (
      omega arith,
      omega (
        arith,
        scale_parts 1000 u,
        scale_parts 1000000 s,
        scale_parts 1000000000 s,
        +ℤ_parts (scale 1000000 s) m,
        +ℤ_parts (scale 1000000000 s) (pos n),
        ap pos_part (micros_pos n),
        ap neg_part (micros_pos n),
      ),
      omega (
        arith,
        scale_parts 1000 u,
        scale_parts 1000000 s,
        scale_parts 1000000000 s,
        +ℤ_parts (scale 1000000 s) m,
        +ℤ_parts (scale 1000000000 s) (pos n),
        +ℤ_parts total (pos 1000),
        ap pos_part (micros_pos n),
        ap neg_part (micros_pos n),
      ),
    )
rounds_by_sign s (negsuc n) =
    let m = micros_of_nanos (negsuc n) in
    let u = scale 1000000 s +ℤ m in
    let total = scale 1000000000 s +ℤ negsuc n in
    inr (
      omega arith,
      omega (
        arith,
        scale_parts 1000 u,
        scale_parts 1000000 s,
        scale_parts 1000000000 s,
        +ℤ_parts (scale 1000000 s) m,
        +ℤ_parts (scale 1000000000 s) (negsuc n),
        ap pos_part (micros_neg n),
        ap neg_part (micros_neg n),
      ),
      omega (
        arith,
        scale_parts 1000 u,
        scale_parts 1000000 s,
        scale_parts 1000000000 s,
        +ℤ_parts (scale 1000000 s) m,
        +ℤ_parts (scale 1000000000 s) (negsuc n),
        -ℤ_parts total (pos 1000),
        ap pos_part (micros_neg n),
        ap neg_part (micros_neg n),
      ),
    )

-- A duration is read with less than a microsecond of error: upwards where its nanoseconds are zero
-- or more, and downwards where they are negative.
pub duration_from_proto_rounds :
    (proto : Seconds)
    → let total = scale 1000000000 proto.seconds +ℤ proto.nanos in
      let read = scale 1000 (duration_from_proto proto) in
      ((pos 0 ≤ℤ proto.nanos) × (total ≤ℤ read) × (read <ℤ (total +ℤ pos 1000)))
      ⊎ ((proto.nanos <ℤ pos 0) × (read ≤ℤ total) × ((total -ℤ pos 1000) <ℤ read))
duration_from_proto_rounds proto = rounds_by_sign proto.seconds proto.nanos
