-- ===== src/Spatial/Convert.antt =====
-- common/private/repeated_ptr_convert.hpp: vectors of values and repeated fields.
use viam_cpp_sdk.Prelude.{List, [], ◌∷◌, map, ◌≡◌, refl, ok, Result, ◌>>=◌}

-- `to_repeated_field`.
abbrev pub to_repeated_field : {A B : Type 0} → (A → B) → List A → List B
to_repeated_field to_proto [] = []
to_repeated_field to_proto (elem ∷ v) = to_proto elem ∷ to_repeated_field to_proto v

-- `from_repeated_field`, with a conversion that may throw.
unfoldable pub from_repeated_field : {A B : Type 0} → (B → Result A) → List B → Result (List A)
from_repeated_field from_proto [] = ok []
from_repeated_field from_proto (elem ∷ v) = do
  a ← from_proto elem
  result ← from_repeated_field from_proto v
  ok (a ∷ result)

-- A conversion that gives back elements up to `f` does so for vectors.
pub from_repeated_field-to_repeated_field :
    {A B : Type 0} (to_proto : A → B) (from_proto : B → Result A) (f : A → A)
    → ((a : A) → from_proto (to_proto a) ≡ ok (f a))
    → (v : List A) → from_repeated_field from_proto (to_repeated_field to_proto v) ≡ ok (map f v)
unfolding from_repeated_field
from_repeated_field-to_repeated_field t r f h [] = refl
from_repeated_field-to_repeated_field t r f h (a ∷ v) =
    rw (h a, from_repeated_field-to_repeated_field t r f h v)
