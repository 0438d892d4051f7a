-- ===== src/Prelude/Dict.antt =====
-- `std::unordered_map` and `std::map`: association lists, in the order in which a loop meets the
-- entries. That order is not specified for `unordered_map`; theorems range over all lists.
use mathlib.Core.Path.{◌≡◌, refl, sym, ◌∙◌}
use mathlib.Core.Logic.{ite, if_pos, if_neg}
use mathlib.Core.Option.{Option, none, some}
use mathlib.Core.List.{List, [], ◌∷◌, ◌++◌}
use native.Mathlib.Omega.{arith}

abbrev pub Dict {ℓ κ} : Type ℓ → Type κ → Type (ℓ ⊔ κ)
Dict K V = List (K × V)

module _ {ℓ κ} {K : Type ℓ} {V : Type κ} (dec : Discrete K) where
  -- `find`, and `at` where the key is present.
  unfoldable pub find : K → Dict K V → Option V
  find k [] = none
  find k ((j, v) ∷ m) = ite (dec j k) (some v) (find k m)

  -- `emplace` keeps the entry that is there.
  unfoldable pub emplace : K → V → Dict K V → Dict K V
  unfolding find
  emplace k v m = elim (find k m) [ none ↦ (k, v) ∷ m | some _ ↦ m ]

  -- `erase(key)`.
  unfoldable pub erase : K → Dict K V → Dict K V
  erase k [] = []
  erase k ((j, v) ∷ m) = ite (dec j k) (erase k m) ((j, v) ∷ erase k m)

  pub find-emplace :
      (k j : K) (v : V) (m : Dict K V)
      → find j (emplace k v m)
        ≡ elim (find k m) [ none ↦ ite (dec k j) (some v) (find j m) | some _ ↦ find j m ]
  unfolding emplace
  find-emplace k j v m = ground arith

  pub find-erase : (k j : K) (m : Dict K V) → find j (erase k m) ≡ ite (dec k j) none (find j m)
  unfolding find erase
  find-erase k j [] = ground arith
  find-erase k j ((i, v) ∷ m) = elim (dec i k) [
    | yes e ↦
        rw (if_pos _ e, find-erase k j m)
          (elim (dec k j) [
            | yes h ↦ rw (if_pos _ h, if_pos _ h)
            | no h ↦ rw (if_neg _ h, if_neg _ h, if_neg _ (λ p. h (sym e ∙ p)))
          ])
    | no n ↦ rw (if_neg _ n) (elim (dec i j) [
      | yes h ↦ rw (if_pos _ h, if_neg _ (λ p. n (h ∙ sym p)), if_pos _ h)
      | no h ↦ rw (if_neg _ h, if_neg _ h) (find-erase k j m)
    ])
  ]

-- `m[k].push_back(a)` on a map of vectors: a missing key gets an empty vector first.
module _ {ℓ κ} {K : Type ℓ} {A : Type κ} (dec : Discrete K) where
  unfoldable pub push_back : K → A → Dict K (List A) → Dict K (List A)
  push_back k a [] = (k, a ∷ []) ∷ []
  push_back k a ((j, l) ∷ m) = ite (dec j k) ((j, l ++ a ∷ []) ∷ m) ((j, l) ∷ push_back k a m)

  -- The vector at a key, empty where the key is missing.
  unfoldable pub vector_at : K → Dict K (List A) → List A
  vector_at k [] = []
  vector_at k ((j, l) ∷ m) = ite (dec j k) l (vector_at k m)

  pub vector_at-push_back :
      (k j : K) (a : A) (m : Dict K (List A))
      → vector_at j (push_back k a m) ≡ ite (dec k j) (vector_at j m ++ a ∷ []) (vector_at j m)
  unfolding push_back vector_at
  vector_at-push_back k j a [] = refl
  vector_at-push_back k j a ((i, l) ∷ m) = elim (dec i k) [
    | yes e ↦ rw (if_pos _ e) (elim (dec i j) [
      | yes h ↦ rw (if_pos _ (sym e ∙ h), if_pos _ h, if_pos _ h)
      | no h ↦ rw (if_neg _ (λ p. h (e ∙ p)), if_neg _ h, if_neg _ h)
    ])
    | no n ↦ rw (if_neg _ n) (elim (dec i j) [
      | yes h ↦ rw (if_neg _ (λ p. n (h ∙ sym p)), if_pos _ h, if_pos _ h)
      | no h ↦ rw (if_neg _ h, if_neg _ h) (vector_at-push_back k j a m)
    ])
  ]

module _ {K : Type 0} {V : Type 0} (dec : Discrete K) where
  -- The value at a key is changed where it stands, as through a pointer that the map holds.
  unfoldable pub update : K → (V → V) → Dict K V → Dict K V
  update k f [] = []
  update k f ((j, v) ∷ m) = ite (dec j k) ((j, f v) ∷ m) ((j, v) ∷ update k f m)

  pub find-update :
      (k j : K) (f : V → V) (m : Dict K V)
      → find dec j (update k f m)
        ≡ elim (find dec j m) [ none ↦ none | some v ↦ some (ite (dec k j) (f v) v) ]
  unfolding update find
  find-update k j f [] = refl
  find-update k j f ((i, v) ∷ m) = ground (arith, find-update k j f m)
