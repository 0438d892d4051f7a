-- ===== src/Split/Reference.antt =====
-- The laws of `Splitter` determine its function: it is the loop below.
use mathlib.Core.List.{append_assoc, append-nil}
use viam_cpp_sdk.Prelude.{
  ℕ, List, [], ◌∷◌, ◌++◌, ◌≡◌, sym, ap, ◌∙◌, Bytes, Lacks, Lacks-append, arith, ◌⊎◌, inl, inr,
  ℕ_discrete,
}
use viam_cpp_sdk.Split.{Splitter}

-- `part` is what has been read of the current part.
unfoldable pub split_onto : Bytes → ℕ → Bytes → List Bytes
split_onto part c [] = part ∷ []
split_onto part c (x ∷ s) = elim (ℕ_discrete x c) [
  | yes _ ↦ part ∷ split_onto [] c s
  | no _ ↦ split_onto (part ++ x ∷ []) c s
]

-- The last part.
unfoldable pub last_part : Bytes → ℕ → Bytes → Bytes
last_part part c [] = part
last_part part c (x ∷ s) = elim (ℕ_discrete x c) [
  | yes _ ↦ last_part [] c s
  | no _ ↦ last_part (part ++ x ∷ []) c s
]

pub split_onto_whole :
    (part : Bytes) (c : ℕ) (s : Bytes) → Lacks c s → split_onto part c s ≡ (part ++ s) ∷ []
unfolding split_onto
split_onto_whole part c [] h = rw append-nil
split_onto_whole part c (x ∷ s) h =
    ground (arith, split_onto_whole (part ++ x ∷ []) c s h.1, append_assoc part (x ∷ []) s)

pub split_onto_first :
    (part : Bytes) (c : ℕ) (s t : Bytes)
    → Lacks c s
    → split_onto part c (s ++ c ∷ t) ≡ (part ++ s) ∷ split_onto [] c t
unfolding split_onto
split_onto_first part c [] t h = ground (arith, append-nil part)
split_onto_first part c (x ∷ s) t h =
    ground (arith, split_onto_first (part ++ x ∷ []) c s t h.1, append_assoc part (x ∷ []) s)

-- An implementation of the interface.
unfoldable pub splitter : Splitter
splitter = record {
  split = split_onto [];
  split_whole = split_onto_whole [];
  split_first = split_onto_first [];
}

module _ (b : Splitter) where
  split-append :
      (part : Bytes) (c : ℕ) (s : Bytes)
      → Lacks c part
      → b.split c (part ++ s) ≡ split_onto part c s
  unfolding split_onto
  split-append part c [] h = rw append-nil (b.split_whole c part h)
  split-append part c (x ∷ s) h =
      elim (ℕ_discrete x c)
        as (λ d.
          b.split c (part ++ x ∷ s)
          ≡ elim d [ yes _ ↦ part ∷ split_onto [] c s | no _ ↦ split_onto (part ++ x ∷ []) c s ]) [
            | yes e ↦ rw e (b.split_first c part s h ∙ ap (◌∷◌ part) (split-append [] c s tt))
            | no n ↦
                ap (b.split c) (sym (append_assoc part (x ∷ []) s))
                ∙ split-append (part ++ x ∷ []) c s (Lacks-append c part (x ∷ []) h (n, tt))
          ]

  pub split-eq : (c : ℕ) (s : Bytes) → b.split c s ≡ split_onto [] c s
  split-eq c s = split-append [] c s tt

pub last_part-Lacks :
    (part : Bytes) (c : ℕ) (s : Bytes) → Lacks c part → Lacks c (last_part part c s)
unfolding last_part
last_part-Lacks part c [] h = h
last_part-Lacks part c (x ∷ s) h = ground (
  arith,
  last_part-Lacks [] c s tt,
  last_part-Lacks (part ++ x ∷ []) c s,
  λ (n : x ≡ c → ⊥). Lacks-append c part (x ∷ []) h (n, tt),
)

-- A last part behind a separator is the last one of the split.
pub split_onto_last :
    (part : Bytes) (c : ℕ) (s t : Bytes)
    → Lacks c t
    → split_onto part c (s ++ c ∷ t) ≡ split_onto part c s ++ t ∷ []
unfolding split_onto
split_onto_last part c [] t h = ground (arith, split_onto_whole [] c t h)
split_onto_last part c (x ∷ s) t h =
    ground (arith, split_onto_last [] c s t h, split_onto_last (part ++ x ∷ []) c s t h)

-- A text has no separator, or it ends in one and a part without.
pub last_separator :
    (c : ℕ) (s : Bytes) → Lacks c s ⊎ ((r : Bytes) × (t : Bytes) × (s ≡ r ++ c ∷ t) × Lacks c t)
last_separator c [] = inl tt
last_separator c (x ∷ s) = elim (last_separator c s) [
  | inr (r, t, e, h) ↦ inr (x ∷ r, t, ap (◌∷◌ x) e, h)
  | inl h ↦ elim (ℕ_discrete x c) [ yes e ↦ inr ([], s, rw e, h) | no n ↦ inl (n, h) ]
]

pub last_part_whole :
    (part : Bytes) (c : ℕ) (s : Bytes) → Lacks c s → last_part part c s ≡ part ++ s
unfolding last_part
last_part_whole part c [] h = rw append-nil
last_part_whole part c (x ∷ s) h =
    ground (arith, last_part_whole (part ++ x ∷ []) c s h.1, append_assoc part (x ∷ []) s)

pub last_part-append :
    (part : Bytes) (c : ℕ) (s t : Bytes) → Lacks c t → last_part part c (s ++ c ∷ t) ≡ t
unfolding last_part
last_part-append part c [] t h = ground (arith, last_part_whole [] c t h)
last_part-append part c (x ∷ s) t h =
    ground (arith, last_part-append [] c s t h, last_part-append (part ++ x ∷ []) c s t h)
