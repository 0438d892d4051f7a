-- ===== src/Config/Tests.antt =====
-- The theorems on configurations at the names of tests/test_resource.cpp and a remote name.
use viam_cpp_sdk.Prelude.{
  [], ◌∷◌, Bytes, codes, Bytes-discrete, ℕ_discrete, none, some, ◌≡◌, refl, ◌⊎◌, ok, err, exception,
  k_general, arith,
}
use viam_cpp_sdk.Split.Reference.{splitter}
use viam_cpp_sdk.Names.Model.{make}
use viam_cpp_sdk.Logging.{info, fatal}
use viam_cpp_sdk.Names.Words.{is_word_byte}
use viam_cpp_sdk.Prelude.Int.{pos}
use viam_cpp_sdk.Prelude.Double.{whole_numbers}
use viam_cpp_sdk.Proto.{number, end, field}
use viam_cpp_sdk.Spatial.Frame.{LinkConfig, default_link, plain_geometry}
use viam_cpp_sdk.Config.Sdk.{sdk_contents, resource_config-from_proto-to_proto}
use viam_cpp_sdk.Config.Message.{Config, from_proto, to_proto}
use viam_cpp_sdk.Config.RoundTrip.{received}
use viam_cpp_sdk.Config.{ResourceConfig, api_of, fix_api, resource_name}
use viam_cpp_sdk.Config.Fix.{IsFixed, Conflicts, fix_api_decides}
use viam_cpp_sdk.Config.ResourceName.{without_colons, resource_name_remote}

abbrev config : Bytes → Bytes → ResourceConfig Bytes Bytes
config name namespace = record {
  api = api_of (codes "rdk") (codes "component") (codes "arm");
  frame = none;
  model = make (codes "rdk") (codes "builtin") (codes "builtin");
  name = name;
  namespace = namespace;
  type = codes "arm";
  depends_on = [];
  service_config = [];
  attributes = [];
  log_level = info;
}

abbrev far : ResourceConfig Bytes Bytes
far = config (codes "a:b:n") []

abbrev far_fixed : ResourceConfig Bytes Bytes
far_fixed = config (codes "a:b:n") (codes "rdk")

fix_api_decides_example :
    ((¬ Conflicts far) × ((r : ResourceConfig Bytes Bytes) × (fix_api far ≡ ok r) × IsFixed far r))
    ⊎ (Conflicts far × (fix_api far ≡ err (exception k_general)))
fix_api_decides_example = fix_api_decides far

far_runs : fix_api far ≡ ok far_fixed
unfolding fix_api Bytes-discrete ℕ_discrete
far_runs = refl

-- The remote of `a:b:n` is `:ab`.
resource_name_remote_example :
    resource_name splitter far
    ≡ ok (record {
      api = far.api;
      remote_name = b':' ∷ without_colons (codes "a:b");
      name = codes "n";
    })
resource_name_remote_example =
    resource_name_remote splitter far far_fixed (codes "a:b") (codes "n")
      ((λ e. omega (arith, e)), tt) far_runs refl

abbrev mounted : LinkConfig whole_numbers
mounted = record (default_link whole_numbers) { parent = codes "world" }

abbrev loud : Config (sdk_contents whole_numbers)
loud = record {
  api = far_fixed.api;
  frame = some mounted;
  model = make (codes "acme") (codes "demo") (codes "fake");
  name = far_fixed.name;
  namespace = far_fixed.namespace;
  type = far_fixed.type;
  depends_on = codes "other" ∷ [];
  service_config = [];
  attributes = field (codes "pin") (number (pos 4)) end;
  log_level = fatal;
}

resource_config-from_proto-to_proto_example :
    from_proto (sdk_contents whole_numbers) splitter (to_proto (sdk_contents whole_numbers) loud)
    ≡ ok (received (sdk_contents whole_numbers) (plain_geometry whole_numbers) loud)
unfolding is_word_byte
resource_config-from_proto-to_proto_example =
    resource_config-from_proto-to_proto whole_numbers splitter loud (tt, tt, tt)
      (record {
        namespace_word = ((λ e. cc), (refl, (refl, (refl, tt))));
        type_word =
            ((λ e. cc), (refl, (refl, (refl, (refl, (refl, (refl, (refl, (refl, (refl, tt))))))))));
        subtype_word = ((λ e. cc), (refl, (refl, (refl, tt))));
      })
      (record {
        namespace_word = ((λ e. cc), (refl, (refl, (refl, (refl, tt)))));
        family_word = ((λ e. cc), (refl, (refl, (refl, (refl, tt)))));
        name_word = ((λ e. cc), (refl, (refl, (refl, (refl, tt)))));
      })
      refl refl
