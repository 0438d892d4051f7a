-- ===== src/Config/RoundTrip.antt =====
-- What of a configuration comes back from its message.
use viam_cpp_sdk.Prelude.{
  ℕ, true, [], ◌∷◌, ◌++◌, Bytes, Option, none, some, Option-cases, ok, ◌≡◌, ◌≢◌, ◌∙◌, arith, refl,
  inl, inr, Bool-cases, ◌==◌,
}
use viam_cpp_sdk.Split.{Splitter}
use viam_cpp_sdk.Logging.{LogLevel, sent_level, level_from_string-to_string}
use viam_cpp_sdk.Names.Api
use viam_cpp_sdk.Names.Api.Parse.{from_string-to_string}
use viam_cpp_sdk.Names.Model.{Model}
use viam_cpp_sdk.Names.Model.Parse.{from_str-to_string}
use viam_cpp_sdk.Names.Api.Parse as ApiParse
use viam_cpp_sdk.Names.Model.Parse as ModelParse
use viam_cpp_sdk.Config.{ResourceConfig, fix_api, has_colon, make_config}
use viam_cpp_sdk.Config.Message.{Contents, Config, to_proto, from_proto}

has_colon-append : (s t : Bytes) → has_colon (s ++ b':' ∷ t) ≡ true
unfolding has_colon
has_colon-append [] t = refl
has_colon-append (x ∷ s) t = elim (Bool-cases (x == b':')) [
  | inl e ↦ rw e refl
  | inr e ↦ rw e (has_colon-append s t)
]

has_colon-to_string : (a : Api.Api) → has_colon (Api.to_string a) ≡ true
unfolding Api.to_string
has_colon-to_string a =
    has_colon-append a.type_namespace (a.resource_type ++ b':' ∷ a.resource_subtype)

nonempty : (s : Bytes) → s ≢ [] → (x : ℕ) × (t : Bytes) × (s ≡ x ∷ t)
nonempty [] h = absurd (h refl)
nonempty (x ∷ t) h = (x, t, refl)

module _ {A F : Type 0} where
  -- A configuration whose names are complete and agree is fixed.
  fix_api_fixed :
      (c : ResourceConfig A F)
      → ApiParse.IsValid c.api
      → c.api.type_namespace ≡ c.namespace
      → c.api.resource_subtype ≡ c.type
      → fix_api c ≡ ok c
  unfolding fix_api
  fix_api_fixed c v n t =
      let (x, r, e) = nonempty c.api.type_namespace v.namespace_word.0 in
      let (y, q, f) = nonempty c.api.resource_type v.type_word.0 in
      let (z, p, g) = nonempty c.api.resource_subtype v.subtype_word.0 in
      let (u, o, h) = nonempty c.type (λ k. v.subtype_word.0 (t ∙ k)) in
      ground (arith, e, f, g, h, n, t)

  make_config_fixed :
      (b : Splitter) (c : ResourceConfig A F) (model : Model) (frame : Option F) (level : LogLevel)
      → ApiParse.IsValid c.api
      → c.api.type_namespace ≡ c.namespace
      → c.api.resource_subtype ≡ c.type
      → make_config b c.type c.name c.namespace c.attributes (Api.to_string c.api) model frame level
        ≡ ok (record c {
          model = model;
          frame = frame;
          depends_on = [];
          service_config = [];
          log_level = level;
        })
  unfolding make_config
  make_config_fixed b c model frame level v n t =
      rw (has_colon-to_string c.api, from_string-to_string b c.api v)
        (fix_api_fixed
          (record c {
            model = model;
            frame = frame;
            depends_on = [];
            service_config = [];
            log_level = level;
          })
          v n t)

-- The configuration that the other side has.
abbrev pub received : (k : Contents) → (k.Frame → k.Frame) → Config k → Config k
received k sent_frame c = record c {
  frame = some (elim c.frame [ none ↦ k.default_frame | some frame ↦ sent_frame frame ]);
  depends_on = [];
  service_config = [];
  log_level = sent_level c.log_level;
}

-- A configuration whose names are complete, with a valid API and a valid model, comes back from its
-- message without its dependencies and without the configurations of services; a level `fatal` comes
-- back as `error`, a missing frame as the default one, and a frame as its own message gives it back.
pub config-from_proto-to_proto :
    (k : Contents) (b : Splitter) (sent_frame : k.Frame → k.Frame) (c : Config k)
    → k.attributes_from_proto (k.attributes_to_proto c.attributes) ≡ c.attributes
    → ((f : k.Frame) → k.frame_from_proto (k.frame_to_proto f) ≡ ok (sent_frame f))
    → ApiParse.IsValid c.api
    → ModelParse.IsValid c.model
    → c.api.type_namespace ≡ c.namespace
    → c.api.resource_subtype ≡ c.type
    → from_proto k b (to_proto k c) ≡ ok (received k sent_frame c)
unfolding from_proto to_proto
config-from_proto-to_proto k b sent_frame c ha hf va vm n t = elim (Option-cases c.frame) [
  | inl e ↦
      rw (e, from_str-to_string b c.model vm, ha, level_from_string-to_string c.log_level)
        (make_config_fixed b c c.model (some k.default_frame) (sent_level c.log_level) va n t)
  | inr (f, e) ↦
      rw (e, from_str-to_string b c.model vm, hf f, ha, level_from_string-to_string c.log_level)
        (make_config_fixed b c c.model (some (sent_frame f)) (sent_level c.log_level) va n t)
]
