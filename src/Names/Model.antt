-- ===== src/Names/Model.antt =====
-- `ModelFamily` and `Model` of resource/resource_api.cpp.
pub mod Parse
use viam_cpp_sdk.Prelude.{
  List, [], ◌∷◌, ◌++◌, Bytes, codes, Bytes-discrete, ite, if◌then◌else◌, Result, ok, err, exception,
  k_general, at, ◌>>=◌,
}
use viam_cpp_sdk.Split.{Splitter}
use viam_cpp_sdk.Regex.{Regex, regex_match}
use viam_cpp_sdk.Names.Words.{word}
use viam_cpp_sdk.Names.Api.{model_regex}

pub record ModelFamily : Type 0 where
  pub get_namespace : Bytes
  pub family : Bytes

pub record Model : Type 0 where
  pub model_family : ModelFamily
  pub model_name : Bytes

abbrev pub single_field_regex : Regex
single_field_regex = word

-- `Model(namespace_, family, model_name)`.
abbrev pub make : Bytes → Bytes → Bytes → Model
make ns f n = record { model_family = record { get_namespace = ns; family = f }; model_name = n }

unfoldable pub family_to_string : ModelFamily → Bytes
family_to_string mf =
    ite (Bytes-discrete mf.get_namespace []) mf.family (mf.get_namespace ++ b':' ∷ mf.family)

unfoldable pub to_string : Model → Bytes
unfolding family_to_string
to_string m =
    let mf = family_to_string m.model_family in
    ite (Bytes-discrete mf []) m.model_name (mf ++ b':' ∷ m.model_name)

unfoldable pub from_str : Splitter → Bytes → Result Model
from_str b model =
    if regex_match model model_regex
    then (do
      let parts = b.split b':' model
      ns ← at parts 0
      fam ← at parts 1
      name ← at parts 2
      ok (make ns fam name))
    else if regex_match model single_field_regex
    then ok (make (codes "rdk") (codes "builtin") model)
    else err (exception k_general)
