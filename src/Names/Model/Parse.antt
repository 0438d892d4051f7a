-- ===== src/Names/Model/Parse.antt =====
-- The text of a `Model`, written and read.
use mathlib.Core.List.{append_assoc}
use viam_cpp_sdk.Prelude.{
  ℕ, [], ◌∷◌, ◌++◌, Bytes, codes, ◌≡◌, ◌≢◌, sym, ◌∙◌, ok, err, exception, k_general, ◌⊎◌, inl, inr,
  arith, Bool-cases,
}
use viam_cpp_sdk.Split.{Splitter}
use viam_cpp_sdk.Regex.{regex_match}
use viam_cpp_sdk.Regex.Language.{regex_match_iff}
use viam_cpp_sdk.Names.Words.{
  IsWord, joined, word, word_sound, word_complete, three_words, three_words_sound,
  three_words_complete,
}
use viam_cpp_sdk.Names.Api.Parse.{split-joined, colon-word}
use viam_cpp_sdk.Names.Model.{Model, make, to_string, from_str}

-- All three parts are nonempty and made of `[\w-]`.
pub record IsValid (m : Model) : Type 0 where
  pub namespace_word : IsWord m.model_family.get_namespace
  pub family_word : IsWord m.model_family.family
  pub name_word : IsWord m.model_name

append-ne-nil : (s t : Bytes) (c : ℕ) → s ++ c ∷ t ≢ []
append-ne-nil [] t c e = cc
append-ne-nil (x ∷ s) t c e = cc

pub to_string-joined :
    (m : Model)
    → IsValid m
    → to_string m ≡ joined m.model_family.get_namespace m.model_family.family m.model_name
unfolding to_string
to_string-joined m v = ground (
  arith,
  append_assoc m.model_family.get_namespace (b':' ∷ m.model_family.family) (b':' ∷ m.model_name),
  append-ne-nil m.model_family.get_namespace m.model_family.family b':',
)

module _ (b : Splitter) where
  -- A valid model is read back from its text.
  pub from_str-to_string : (m : Model) → IsValid m → from_str b (to_string m) ≡ ok m
  unfolding from_str
  from_str-to_string m v =
      let m' = (regex_match_iff _ three_words).1 (
        three_words_complete m.model_family.get_namespace m.model_family.family m.model_name
          v.namespace_word v.family_word v.name_word) in
      rw (
        to_string-joined m v,
        m',
        split-joined b m.model_family.get_namespace m.model_family.family m.model_name
            (colon-word m.model_family.get_namespace v.namespace_word)
            (colon-word m.model_family.family v.family_word) (colon-word m.model_name v.name_word),
      )

  -- Reading a text as a model has three outcomes: the valid model that is written so; for one word
  -- the model of that name in `rdk:builtin`; and for any other text an `Exception`.
  pub from_str_decides :
      (s : Bytes)
      → ((m : Model) × IsValid m × (to_string m ≡ s) × (from_str b s ≡ ok m))
        ⊎ (IsWord s × (from_str b s ≡ ok (make (codes "rdk") (codes "builtin") s)))
        ⊎ ((from_str b s ≡ err (exception k_general))
            × ¬ IsWord s
            × ¬ ((m : Model) × IsValid m × (to_string m ≡ s)))
  unfolding from_str
  from_str_decides s = elim (Bool-cases (regex_match s three_words)) [
    | inl h ↦
        let (u, v, w, e, hu, hv, hw) = three_words_sound s ((regex_match_iff s three_words).0 h) in
        let valid : IsValid (make u v w) = record {
          namespace_word = hu;
          family_word = hv;
          name_word = hw;
        } in
        let t : to_string (make u v w) ≡ s = to_string-joined (make u v w) valid ∙ sym e in
        inl (make u v w, valid, t, rw (← t) (from_str-to_string (make u v w) valid))
    | inr n ↦ elim (Bool-cases (regex_match s word)) [
      | inl k ↦ inr (inl (word_sound s ((regex_match_iff s word).0 k), rw (n, k)))
      | inr k ↦ inr (
          inr (
            rw (n, k),
            λ w. ground (arith, (regex_match_iff s word).1 (word_complete s w)),
            λ (m, v, e). ground (
              arith,
              e,
              to_string-joined m v,
              (regex_match_iff _ three_words).1 (
                  three_words_complete m.model_family.get_namespace m.model_family.family
                    m.model_name v.namespace_word v.family_word v.name_word),
            ),
          ))
    ]
  ]
