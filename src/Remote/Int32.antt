-- ===== src/Remote/Int32.antt =====
-- The casts between `int` of 32 bits and `uint32_t`, and from wider integers, which wrap around.
use viam_cpp_sdk.Prelude.{ℕ, suc, ◌<◌, ◌%◌, ◌^◌, ◌-◌, ltb, if◌then◌else◌, ◌≡◌, arith}
use viam_cpp_sdk.Prelude.Int.{ℤ, pos, negsuc}

abbrev pub unsigned : ℤ → ℕ
unsigned (pos n) = n % 2 ^ 32
unsigned (negsuc n) = (2 ^ 32 - suc (n % 2 ^ 32)) % 2 ^ 32

abbrev pub signed : ℕ → ℤ
signed n = if ltb n (2 ^ 31) then pos n else negsuc (2 ^ 32 - suc n)

abbrev pub IsInt32 : ℤ → Type 0
IsInt32 (pos n) = n < 2 ^ 31
IsInt32 (negsuc n) = n < 2 ^ 31

pub signed-unsigned : (z : ℤ) → IsInt32 z → signed (unsigned z) ≡ z
signed-unsigned (pos n) h = ground arith
signed-unsigned (negsuc n) h = ground arith
