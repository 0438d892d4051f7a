-- ===== src/Names/Api/Parse.antt =====
-- The text of an `API`, written and read.
use viam_cpp_sdk.Prelude.{
  [], ◌∷◌, ◌++◌, Bytes, ◌≡◌, refl, sym, ap, ok, err, exception, k_general, ◌⊎◌, inl, inr, arith,
  Bool-cases, Lacks,
}
use viam_cpp_sdk.Split.{Splitter}
use viam_cpp_sdk.Regex.{regex_match}
use viam_cpp_sdk.Regex.Language.{regex_match_iff}
use viam_cpp_sdk.Names.Words.{
  IsWord, Lacks-of_word, joined, three_words, three_words_sound, three_words_complete, is_word_byte,
}
use viam_cpp_sdk.Names.Api.{Api, to_string, from_string}

-- The three parts are nonempty and made of `[\w-]`.
pub record IsValid (a : Api) : Type 0 where
  pub namespace_word : IsWord a.type_namespace
  pub type_word : IsWord a.resource_type
  pub subtype_word : IsWord a.resource_subtype

pub colon-word : (w : Bytes) → IsWord w → Lacks b':' w
unfolding is_word_byte
colon-word w h = Lacks-of_word b':' w refl h.1

pub split-joined :
    (b : Splitter) (u v w : Bytes)
    → Lacks b':' u
    → Lacks b':' v
    → Lacks b':' w
    → b.split b':' (joined u v w) ≡ u ∷ v ∷ w ∷ []
split-joined b u v w hu hv hw =
    simp
      (b.split_first b':' u (v ++ b':' ∷ w) hu, b.split_first b':' v w hv, b.split_whole b':' w hw)

module _ (b : Splitter) where
  pub from_string-to_string : (a : Api) → IsValid a → from_string b (to_string a) ≡ ok a
  unfolding from_string to_string
  from_string-to_string a v =
      let m = (regex_match_iff (to_string a) three_words).1 (
        three_words_complete a.type_namespace a.resource_type a.resource_subtype v.namespace_word
          v.type_word v.subtype_word) in
      rw (
        m,
        split-joined b a.type_namespace a.resource_type a.resource_subtype
            (colon-word a.type_namespace v.namespace_word) (colon-word a.resource_type v.type_word)
            (colon-word a.resource_subtype v.subtype_word),
      )

  -- Reading a text as an API either gives the valid API that is written so, or is refused by an
  -- `Exception` and no valid API is written so. The checked accesses to the parts never fail.
  pub from_string_decides :
      (s : Bytes)
      → ((a : Api) × IsValid a × (to_string a ≡ s) × (from_string b s ≡ ok a))
        ⊎ ((from_string b s ≡ err (exception k_general))
            × ¬ ((a : Api) × IsValid a × (to_string a ≡ s)))
  unfolding to_string from_string
  from_string_decides s = elim (Bool-cases (regex_match s three_words)) [
    | inl h ↦
        let (u, v, w, e, hu, hv, hw) = three_words_sound s ((regex_match_iff s three_words).0 h) in
        let a : Api = record { type_namespace = u; resource_type = v; resource_subtype = w } in
        let valid : IsValid a = record { namespace_word = hu; type_word = hv; subtype_word = hw } in
        inl (a, valid, sym e, rw e (from_string-to_string a valid))
    | inr n ↦ inr (
      rw n,
      λ (a, v, e). ground (
        arith,
        (regex_match_iff (to_string a) three_words).1 (
            three_words_complete a.type_namespace a.resource_type a.resource_subtype
              v.namespace_word v.type_word v.subtype_word),
      ),
    )
  ]

  -- Two valid APIs with the same text are the same API.
  pub to_string_injective : (a c : Api) → IsValid a → IsValid c → to_string a ≡ to_string c → a ≡ c
  to_string_injective a c v w e =
      ground (arith, from_string-to_string a v, from_string-to_string c w, ap (from_string b) e)
