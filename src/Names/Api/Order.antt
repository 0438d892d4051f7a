-- ===== src/Names/Api/Order.antt =====
-- `operator<` of `API` is a strict total order.
use mathlib.Core.Bool.{false≢true}
use viam_cpp_sdk.Prelude.{
  Bool-cases, sym, ◌≢◌, true, false, [], ◌∷◌, Bytes, ◌≡◌, refl, ◌⊎◌, inl, inr, arith, ◌∙◌,
}
use viam_cpp_sdk.Names.Api.{Api, text_lt, lt}

text_lt_irrefl : (s : Bytes) → text_lt s s ≡ false
unfolding text_lt
text_lt_irrefl [] = refl
text_lt_irrefl (x ∷ s) = ground (arith, text_lt_irrefl s)

text_lt_trans : (s t u : Bytes) → text_lt s t ≡ true → text_lt t u ≡ true → text_lt s u ≡ true
unfolding text_lt
text_lt_trans [] [] u h k = cc
text_lt_trans [] (y ∷ t) [] h k = cc
text_lt_trans [] (y ∷ t) (z ∷ u) h k = refl
text_lt_trans (x ∷ s) [] u h k = cc
text_lt_trans (x ∷ s) (y ∷ t) [] h k = cc
text_lt_trans (x ∷ s) (y ∷ t) (z ∷ u) h k = ground (arith, text_lt_trans s t u)

text_lt_total : (s t : Bytes) → (text_lt s t ≡ true) ⊎ (s ≡ t) ⊎ (text_lt t s ≡ true)
unfolding text_lt
text_lt_total [] [] = inr (inl refl)
text_lt_total [] (y ∷ t) = inl refl
text_lt_total (x ∷ s) [] = inr (inr refl)
text_lt_total (x ∷ s) (y ∷ t) = ground (arith, text_lt_total s t)

lt_irrefl : (a : Api) → lt a a ≡ false
unfolding lt
lt_irrefl a = ground (
  arith,
  text_lt_irrefl a.type_namespace,
  text_lt_irrefl a.resource_type,
  text_lt_irrefl a.resource_subtype,
)

pub lt_trans : (a c d : Api) → lt a c ≡ true → lt c d ≡ true → lt a d ≡ true
unfolding lt
lt_trans a c d h k = ground (
  arith,
  text_lt_trans a.type_namespace c.type_namespace d.type_namespace,
  text_lt_trans a.resource_type c.resource_type d.resource_type,
  text_lt_trans a.resource_subtype c.resource_subtype d.resource_subtype,
)

lt_total : (a c : Api) → (lt a c ≡ true) ⊎ (a ≡ c) ⊎ (lt c a ≡ true)
unfolding lt
lt_total a c = ground (
  arith,
  text_lt_total a.type_namespace c.type_namespace,
  text_lt_total a.resource_type c.resource_type,
  text_lt_total a.resource_subtype c.resource_subtype,
)

-- Of two APIs exactly one of three holds: the first is smaller, they are equal, or the second is
-- smaller.
pub lt_trichotomy :
    (a c : Api)
    → ((lt a c ≡ true) × (lt c a ≡ false) × (a ≢ c))
      ⊎ ((lt a c ≡ false) × (lt c a ≡ false) × (a ≡ c))
      ⊎ ((lt a c ≡ false) × (lt c a ≡ true) × (a ≢ c))
lt_trichotomy a c = elim (lt_total a c) [
  | inl h ↦ inl (h, opposite a c h, λ e. ground (arith, e, lt_irrefl a))
  | inr (inl e) ↦ inr (inl (rw (← e) (lt_irrefl a), rw (← e) (lt_irrefl a), e))
  | inr (inr h) ↦ inr (inr (opposite c a h, h, λ e. ground (arith, e, lt_irrefl a)))
]
  where
    opposite : (x y : Api) → lt x y ≡ true → lt y x ≡ false
    opposite x y h = elim (Bool-cases (lt y x)) [
      | inl k ↦ absurd (false≢true (sym (lt_irrefl x) ∙ lt_trans x y x h k))
      | inr k ↦ k
    ]
