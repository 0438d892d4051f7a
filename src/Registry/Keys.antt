-- ===== src/Registry/Keys.antt =====
-- Distinct models have distinct keys.
use viam_cpp_sdk.Prelude.{
  [], ◌∷◌, ◌++◌, Bytes, ◌≡◌, refl, sym, ap, ◌∙◌, arith, subst, Lacks, Lacks-append,
}
use viam_cpp_sdk.Split.Reference.{splitter}
use viam_cpp_sdk.Names.Words.{IsWord, Lacks-of_word, joined, is_word_byte}
use viam_cpp_sdk.Names.Api
use viam_cpp_sdk.Names.Api.{Api}
use viam_cpp_sdk.Names.Api.Parse as ApiParse
use viam_cpp_sdk.Names.Model
use viam_cpp_sdk.Names.Model.{Model}
use viam_cpp_sdk.Names.Model.Parse as ModelParse
use viam_cpp_sdk.Registry.{key}

slash-word : (w : Bytes) → IsWord w → Lacks b'/' w
unfolding is_word_byte
slash-word w h = Lacks-of_word b'/' w refl h.1

slash-joined : (u v w : Bytes) → IsWord u → IsWord v → IsWord w → Lacks b'/' (joined u v w)
slash-joined u v w hu hv hw = Lacks-append b'/' u (b':' ∷ (v ++ b':' ∷ w)) (slash-word u hu) (
  (λ e. omega (arith, e)),
  Lacks-append b'/' v (b':' ∷ w) (slash-word v hv) ((λ e. omega (arith, e)), slash-word w hw),
)

slash-api : (a : Api) → ApiParse.IsValid a → Lacks b'/' (Api.to_string a)
unfolding Api.to_string
slash-api a v =
    slash-joined a.type_namespace a.resource_type a.resource_subtype v.namespace_word v.type_word
      v.subtype_word

slash-model : (m : Model) → ModelParse.IsValid m → Lacks b'/' (Model.to_string m)
slash-model m v = subst (Lacks b'/') (sym (ModelParse.to_string-joined m v)) (
    slash-joined m.model_family.get_namespace m.model_family.family m.model_name v.namespace_word
      v.family_word v.name_word)

split-key :
    (a : Api) (m : Model)
    → ApiParse.IsValid a
    → ModelParse.IsValid m
    → splitter.split b'/' (key a m) ≡ Api.to_string a ∷ Model.to_string m ∷ []
unfolding key
split-key a m v w =
    splitter.split_first b'/' (Api.to_string a) (Model.to_string m) (slash-api a v)
    ∙ ap (◌∷◌ (Api.to_string a)) (splitter.split_whole b'/' (Model.to_string m) (slash-model m w))

to_string_injective :
    (m n : Model)
    → ModelParse.IsValid m
    → ModelParse.IsValid n
    → Model.to_string m ≡ Model.to_string n
    → m ≡ n
to_string_injective m n v w e = ground (
  arith,
  ModelParse.from_str-to_string splitter m v,
  ModelParse.from_str-to_string splitter n w,
  ap (Model.from_str splitter) e,
)

-- Valid pairs of an API and a model with one key are one pair.
pub key_injective :
    (a c : Api) (m n : Model)
    → ApiParse.IsValid a
    → ApiParse.IsValid c
    → ModelParse.IsValid m
    → ModelParse.IsValid n
    → key a m ≡ key c n
    → (a ≡ c) × (m ≡ n)
key_injective a c m n va vc vm vn e =
    let s : Api.to_string a ∷ Model.to_string m ∷ [] ≡ Api.to_string c ∷ Model.to_string n ∷ [] =
      sym (split-key a m va vm) ∙ ap (splitter.split b'/') e ∙ split-key c n vc vn in
    (
      ApiParse.to_string_injective splitter a c va vc (ground arith),
      to_string_injective m n vm vn (ground arith),
    )
