-- ===== src/Regex.antt =====
-- The part of `std::regex` (ECMAScript) that resource/resource_api.cpp uses: classes, sequences,
-- repetition and options under `std::regex_match`, which takes the whole text. Its `^` and `$`
-- match at the two ends and are left out.
pub mod Language
use viam_cpp_sdk.Prelude.{
  ℕ, Bool, true, false, ◌&&◌, ◌||◌, not, leb, ◌==◌, List, [], ◌∷◌, Bytes, if◌then◌else◌,
}

pub data Regex : Type 0 where
  never empty : Regex
  class : (ℕ → Bool) → Regex
  seq alt : Regex → Regex → Regex
  star : Regex → Regex

-- `r+` and `r?`.
abbrev pub plus : Regex → Regex
plus r = seq r (star r)

abbrev pub opt : Regex → Regex
opt r = alt r empty

-- One byte.
abbrev pub byte : ℕ → Regex
byte c = class (λ x. x == c)

unfoldable pub nullable : Regex → Bool
nullable never = false
nullable empty = true
nullable (class p) = false
nullable (seq r q) = nullable r && nullable q
nullable (alt r q) = nullable r || nullable q
nullable (star r) = true

-- What may follow the byte `c`.
unfoldable pub after : ℕ → Regex → Regex
unfolding nullable
after c never = never
after c empty = never
after c (class p) = if p c then empty else never
after c (seq r q) = alt (seq (after c r) q) (if nullable r then after c q else never)
after c (alt r q) = alt (after c r) (after c q)
after c (star r) = seq (after c r) (star r)

-- `std::regex_match`.
unfoldable pub regex_match : Bytes → Regex → Bool
unfolding nullable after
regex_match [] r = nullable r
regex_match (c ∷ s) r = regex_match s (after c r)
