-- ===== src/Names/Api.antt =====
-- `API` of resource/resource_api.cpp.
pub mod Parse
pub mod Order
use viam_cpp_sdk.Prelude.{
  ℕ, Bool, true, false, ◌&&◌, ◌||◌, List, [], ◌∷◌, ◌++◌, Bytes, codes, Bytes-discrete, ◌≡◌, ite,
  if◌then◌else◌, Result, ok, err, exception, k_general, at, ◌>>=◌, ltb, ◌==◌,
}
use viam_cpp_sdk.Split.{Splitter}
use viam_cpp_sdk.Regex.{Regex, regex_match}
use viam_cpp_sdk.Names.Words.{three_words}

pub record Api : Type 0 where
  pub type_namespace : Bytes
  pub resource_type : Bytes
  pub resource_subtype : Bytes

-- `MODEL_REGEX`, which is the expression for the names of APIs too.
abbrev pub model_regex : Regex
model_regex = three_words

unfoldable pub to_string : Api → Bytes
to_string a = a.type_namespace ++ b':' ∷ (a.resource_type ++ b':' ∷ a.resource_subtype)

unfoldable pub from_string : Splitter → Bytes → Result Api
from_string b api =
    if regex_match api model_regex
    then (do
      let parts = b.split b':' api
      ns ← at parts 0
      type ← at parts 1
      subtype ← at parts 2
      ok (record { type_namespace = ns; resource_type = type; resource_subtype = subtype }))
    else err (exception k_general)

is_service_type : Api → Bool
is_service_type a = ite (Bytes-discrete a.resource_type (codes "service")) true false

is_component_type : Api → Bool
is_component_type a = ite (Bytes-discrete a.resource_type (codes "component")) true false

-- `operator<` of `std::string`.
text_lt : Bytes → Bytes → Bool
text_lt [] [] = false
text_lt [] (y ∷ t) = true
text_lt (x ∷ s) [] = false
text_lt (x ∷ s) (y ∷ t) = ltb x y || (x == y && text_lt s t)

-- `operator<` of `API`: that of tuples.
pub lt : Api → Api → Bool
lt l r =
    text_lt l.type_namespace r.type_namespace
    || ite (Bytes-discrete l.type_namespace r.type_namespace)
        (text_lt l.resource_type r.resource_type
          || ite (Bytes-discrete l.resource_type r.resource_type)
              (text_lt l.resource_subtype r.resource_subtype) false)
        false

-- `operator==` of `API` compares the three texts.
unfoldable pub Api-discrete : Discrete Api
unfolding Bytes-discrete
Api-discrete = hlevel Bytes-discrete
