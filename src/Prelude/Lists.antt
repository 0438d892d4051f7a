-- ===== src/Prelude/Lists.antt =====
-- Lists measured by native numbers, and predicates on all their elements.
use Prim.Native.Nat.{ℕ, suc, ◌+◌, ◌≤◌}
use mathlib.Core.Path.{◌≡◌, refl, ap, sym, ◌∙◌}
use mathlib.Core.List.{List, [], ◌∷◌, ◌++◌, map}
use mathlib.Core.Bool.{Bool, true, false, ◌||◌}
use mathlib.Core.List.{Perm, perm_middle}
use mathlib.Core.List.Perm
use mathlib.Core.List as LibraryList
use native.Mathlib.Bridge.{from_ℕ}
use native.Mathlib.Omega.{arith}
use viam_cpp_sdk.Prelude.Tests.{if◌then◌else◌, Bool-cases}
use mathlib.Core.Logic.{inl, inr}

module _ {ℓ} {A : Type ℓ} where
  abbrev pub length : List A → ℕ
  length [] = 0
  length (x ∷ xs) = suc (length xs)

  pub length-append : (xs ys : List A) → length (xs ++ ys) ≡ length xs + length ys
  length-append [] ys = omega arith
  length-append (x ∷ xs) ys = omega (arith, length-append xs ys)

  abbrev pub All {κ} : (A → Type κ) → List A → Type κ
  All P [] = Unit
  All P (x ∷ xs) = P x × All P xs

  -- The elements that pass a test.
  unfoldable pub keep : (A → Bool) → List A → List A
  keep p [] = []
  keep p (x ∷ xs) = if p x then x ∷ keep p xs else keep p xs

  pub length-keep-le : (p : A → Bool) (xs : List A) → length (keep p xs) ≤ length xs
  unfolding keep
  length-keep-le p [] = omega arith
  length-keep-le p (x ∷ xs) = ground (arith, length-keep-le p xs)

  pub keep_all : (p : A → Bool) (xs : List A) → length (keep p xs) ≡ length xs → keep p xs ≡ xs
  unfolding keep
  keep_all p [] h = refl
  keep_all p (x ∷ xs) h = ground (arith, length-keep-le p xs, keep_all p xs)

  -- What passes one of two tests that exclude each other, up to order.
  pub keep_or-perm :
      (p q : A → Bool)
      → ((x : A) → p x ≡ true → q x ≡ false)
      → (xs : List A) → Perm (keep (λ x. p x || q x) xs) (keep p xs ++ keep q xs)
  unfolding keep
  keep_or-perm p q h [] = Perm.refl []
  keep_or-perm p q h (x ∷ xs) = elim (Bool-cases (p x)) [
    | inl e ↦ rw (e, h x e) (Perm.cons x (keep_or-perm p q h xs))
    | inr e ↦ elim (Bool-cases (q x)) [
      | inl f ↦
          rw (e, f)
            (Perm.trans (Perm.cons x (keep_or-perm p q h xs))
              (Perm.symm (perm_middle (keep p xs) (keep q xs))))
      | inr f ↦ rw (e, f) (keep_or-perm p q h xs)
    ]
  ]

  length-library : (xs : List A) → from_ℕ (LibraryList.length xs) ≡ length xs
  length-library [] = refl
  length-library (x ∷ xs) = ap suc (length-library xs)

  pub length-perm : {xs ys : List A} → Perm xs ys → length xs ≡ length ys
  length-perm {xs} {ys} h =
      sym (length-library xs) ∙ ap from_ℕ (Perm.length-eq h) ∙ length-library ys

  pub keep_head : (p : A → Bool) (xs : List A) (y : A) (r : List A) → keep p xs ≡ y ∷ r → p y ≡ true
  unfolding keep
  keep_head p [] y r h = cc
  keep_head p (x ∷ xs) y r h = elim (Bool-cases (p x)) [
    | inl e ↦ ground arith
    | inr e ↦ keep_head p xs y r (ground arith)
  ]

  pub keep_none : (p : A → Bool) → ((x : A) → p x ≡ false) → (xs : List A) → keep p xs ≡ []
  unfolding keep
  keep_none p h [] = refl
  keep_none p h (x ∷ xs) = rw (h x) (keep_none p h xs)
