-- ===== src/Config/ResourceName.antt =====
-- The remote and the short name that `resource_name` finds in the name of a configuration.
use mathlib.Core.List.{append_assoc, append-nil}
use viam_cpp_sdk.Prelude.{
  not, ◌==◌, List, [], ◌∷◌, ◌++◌, Bytes, codes, ok, keep, Lacks, ℕ_discrete, ◌≡◌, refl, arith,
}
use viam_cpp_sdk.Split.{Splitter}
use viam_cpp_sdk.Split.Reference.{split_onto, split-eq, split_onto_last}
use viam_cpp_sdk.Config.{ResourceConfig, fix_api, last_and_sum, remote_of, resource_name}

-- The text without its colons.
abbrev pub without_colons : Bytes → Bytes
without_colons = keep (λ c. not (c == b':'))

sum : List Bytes → Bytes
sum [] = []
sum (x ∷ r) = x ++ sum r

sum-split : (part s : Bytes) → sum (split_onto part b':' s) ≡ part ++ without_colons s
unfolding sum split_onto keep
sum-split part [] = refl
sum-split part (x ∷ s) = elim (ℕ_discrete x b':') [
  | yes e ↦ ground (arith, e, sum-split [] s)
  | no n ↦
      ground (arith, n, sum-split (part ++ x ∷ []) s, append_assoc part (x ∷ []) (without_colons s))
]

last_and_sum-eq :
    (acc x : Bytes) (l : List Bytes) (t : Bytes)
    → last_and_sum acc x (l ++ t ∷ []) ≡ (acc ++ (x ++ sum l), t)
unfolding last_and_sum sum
last_and_sum-eq acc x [] t = rw append-nil refl
last_and_sum-eq acc x (y ∷ l) t =
    rw (last_and_sum-eq (acc ++ x) y l t, append_assoc acc x (y ++ sum l)) refl

remote_of-cons :
    (y : Bytes) (l : List Bytes) (t : Bytes)
    → remote_of (y ∷ (l ++ t ∷ [])) ≡ (b':' ∷ sum (y ∷ l), t)
unfolding remote_of sum
remote_of-cons y [] t = last_and_sum-eq (codes ":") y [] t
remote_of-cons y (z ∷ l) t = last_and_sum-eq (codes ":") y (z ∷ l) t

remote_of-eq :
    (part s t : Bytes)
    → remote_of (split_onto part b':' s ++ t ∷ []) ≡ (b':' ∷ sum (split_onto part b':' s), t)
unfolding split_onto
remote_of-eq part [] t = remote_of-cons part [] t
remote_of-eq part (x ∷ s) t =
    elim (ℕ_discrete x b':')
      as (λ d.
        let l : List Bytes = elim d [
          | yes _ ↦ part ∷ split_onto [] b':' s
          | no _ ↦ split_onto (part ++ x ∷ []) b':' s
        ] in
        remote_of (l ++ t ∷ []) ≡ (b':' ∷ sum l, t)) [
          | yes e ↦ remote_of-cons part (split_onto [] b':' s) t
          | no n ↦ remote_of-eq (part ++ x ∷ []) s t
        ]

module _ {A F : Type 0} (b : Splitter) where
  -- Where `fix_api` returns, a configured name that ends in a colon and a text without one names the
  -- resource by that text, and its remote is a colon and what stands before, without its colons.
  pub resource_name_remote :
      (c r : ResourceConfig A F) (remote short : Bytes)
      → Lacks b':' short
      → fix_api c ≡ ok r
      → r.name ≡ remote ++ b':' ∷ short
      → resource_name b c
        ≡ ok (record { api = r.api; remote_name = b':' ∷ without_colons remote; name = short })
  unfolding resource_name
  resource_name_remote c r remote short l f e =
      rw
        (
          f,
          e,
          split-eq b b':' (remote ++ b':' ∷ short),
          split_onto_last [] b':' remote short l,
          remote_of-eq [] remote short,
          sum-split [] remote,
        )
        refl
