-- ===== src/Split.antt =====
-- `boost::split(parts, s, boost::is_any_of(":"))`, whose source is not in the repository: an
-- interface with the documented behaviour of a split at one byte, empty parts kept.
pub mod Reference
use viam_cpp_sdk.Prelude.{ℕ, List, [], ◌∷◌, ◌++◌, ◌≡◌, Bytes, Lacks}

pub record Splitter : Type 0 where
  pub split : ℕ → Bytes → List Bytes
  -- A text without the separator is one part.
  pub split_whole : (c : ℕ) (s : Bytes) → Lacks c s → split c s ≡ s ∷ []
  -- The first separator ends the first part.
  pub split_first : (c : ℕ) (s t : Bytes) → Lacks c s → split c (s ++ c ∷ t) ≡ s ∷ split c t
