-- ===== src/Registry/Tests.antt =====
-- The theorems on the registry at small registries.
use viam_cpp_sdk.Prelude.{
  [], ◌∷◌, Bytes, codes, none, some, ◌≡◌, refl, ok, err, exception, k_general, All, Bytes-discrete,
  ◌⊎◌,
}
use viam_cpp_sdk.Names.Words.{IsWord, is_word_byte}
use viam_cpp_sdk.Names.Api.{Api}
use viam_cpp_sdk.Names.Api.Parse as ApiParse
use viam_cpp_sdk.Names.Model.{Model, make}
use viam_cpp_sdk.Prelude.Dict.{find, emplace}
use viam_cpp_sdk.Names.Api
use viam_cpp_sdk.Names.Model
use viam_cpp_sdk.Registry.{
  Types, ModelRegistration, Registry, no_registrations, register_model, lookup_model,
  lookup_resource_client, lookup_resource_server, key,
}
use viam_cpp_sdk.Registry.Lookup.{
  models, run, Holds, registered_forever, lookup_model-register_model,
}
use viam_cpp_sdk.Registry.Resources.{
  component, component_apis, Served, started_with, register_resources, register_resources_complete,
  discovery, generic_service, mlmodel, motion, frame_system,
}

abbrev texts : Types
texts = record {
  Dependencies = Bytes;
  Config = Bytes;
  Resource = Bytes;
  ServerRegistration = Bytes;
  ClientRegistration = Bytes;
}

abbrev arm : Api
arm = component (codes "arm")

abbrev fake : Model
fake = make (codes "acme") (codes "demo") (codes "fake")

abbrev other : Model
other = make (codes "acme") (codes "demo") (codes "x")

abbrev fake_arm : ModelRegistration texts
fake_arm = record {
  construct_resource = λ _ _. err (exception k_general);
  validate = λ _. ok [];
  model = fake;
  api = arm;
}

one_model : Registry texts
one_model = record {
  resources = (codes "rdk:component:arm/acme:demo:fake", fake_arm) ∷ [];
  client_apis = [];
  server_apis = [];
}

abbrev empty : Registry texts
empty = no_registrations texts

one_model_registered : register_model fake_arm empty ≡ ok one_model
unfolding register_model one_model key Api.to_string Model.to_string find emplace Bytes-discrete
one_model_registered = refl

registered_forever_example : Holds (models fake_arm) (run (models fake_arm ∷ []) one_model)
registered_forever_example =
    registered_forever (models fake_arm) empty one_model (models fake_arm ∷ []) one_model_registered

arm-IsValid : ApiParse.IsValid arm
unfolding is_word_byte
arm-IsValid = record {
  namespace_word = ((λ e. cc), (refl, (refl, (refl, tt))));
  type_word =
      ((λ e. cc), (refl, (refl, (refl, (refl, (refl, (refl, (refl, (refl, (refl, tt))))))))));
  subtype_word = ((λ e. cc), (refl, (refl, (refl, tt))));
}

acme-IsWord : IsWord (codes "acme")
unfolding is_word_byte
acme-IsWord = ((λ e. cc), (refl, (refl, (refl, (refl, tt)))))

demo-IsWord : IsWord (codes "demo")
unfolding is_word_byte
demo-IsWord = ((λ e. cc), (refl, (refl, (refl, (refl, tt)))))

fake-IsWord : IsWord (codes "fake")
unfolding is_word_byte
fake-IsWord = ((λ e. cc), (refl, (refl, (refl, (refl, tt)))))

x-IsWord : IsWord (codes "x")
unfolding is_word_byte
x-IsWord = ((λ e. cc), (refl, tt))

lookup_model-register_model_example :
    ((arm ≡ arm) × (fake ≡ other) × (lookup_model arm other one_model ≡ some fake_arm))
    ⊎ (¬ ((arm ≡ arm) × (fake ≡ other))
        × (lookup_model arm other one_model ≡ lookup_model arm other empty))
lookup_model-register_model_example =
    lookup_model-register_model fake_arm arm other empty one_model arm-IsValid
      (record { namespace_word = acme-IsWord; family_word = demo-IsWord; name_word = fake-IsWord })
      arm-IsValid
      (record { namespace_word = acme-IsWord; family_word = demo-IsWord; name_word = x-IsWord })
      one_model_registered

abbrev name_of : Api → Bytes
name_of a = a.resource_subtype

register_resources_complete_example :
    (s : Registry texts) × (register_resources name_of name_of
        (started_with name_of name_of one_model.resources)
      ≡ ok s)
    × (s.resources ≡ one_model.resources)
    × All (Served name_of name_of s) component_apis
    × All (Served name_of name_of s) (discovery ∷ generic_service ∷ mlmodel ∷ motion ∷ [])
    × (lookup_resource_client frame_system s ≡ some (name_of frame_system))
    × (lookup_resource_server frame_system s ≡ none)
register_resources_complete_example =
    register_resources_complete name_of name_of one_model.resources
