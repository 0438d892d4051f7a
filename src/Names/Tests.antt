-- ===== src/Names/Tests.antt =====
-- Runs of the names on the texts of tests/test_resource.cpp, and the theorems at such inputs.
use viam_cpp_sdk.Prelude.{
  ℕ, [], ◌∷◌, codes, ◌≡◌, ◌≢◌, refl, ◌≤◌, arith, ◌⊎◌, ok, err, exception, out_of_range, k_general,
  ℕ_discrete,
}
use viam_cpp_sdk.Split.Reference.{splitter, split_onto}
use viam_cpp_sdk.Regex.{regex_match}
use viam_cpp_sdk.Names.Words.{IsWord, is_word_byte}
use viam_cpp_sdk.Names.Api
use viam_cpp_sdk.Names.Api.Parse as ApiParse
use viam_cpp_sdk.Names.Api.{Api}
use viam_cpp_sdk.Names.Model
use viam_cpp_sdk.Names.Model.Parse as ModelParse
use viam_cpp_sdk.Names.Model.{Model, make}
use viam_cpp_sdk.Names.Name.{Name}
use viam_cpp_sdk.Names.Name
use viam_cpp_sdk.Names.Name.LongName.{from_proto-to_proto}
use viam_cpp_sdk.Names.Name.Parse.{
  IsPart, name_from_string-to_string, from_string_nested, from_string_no_slash,
}

abbrev api : Api
api = record {
  type_namespace = codes "ns";
  resource_type = codes "a";
  resource_subtype = codes "st";
}

api-IsValid : ApiParse.IsValid api
unfolding is_word_byte
api-IsValid = record {
  namespace_word = ((λ e. cc), (refl, (refl, tt)));
  type_word = ((λ e. cc), (refl, tt));
  subtype_word = ((λ e. cc), (refl, (refl, tt)));
}

part : (c : ℕ) → c ≢ b':' → c ≢ b'/' → c ≢ 10 → c ≢ 13 → IsPart (c ∷ [])
part c n m k l = record { no_colon = (n, tt); no_slash = (m, tt); one_line = (ground arith, tt) }

lower_part : (c : ℕ) → b'a' ≤ c → IsPart (c ∷ [])
lower_part c h = part c (omega arith) (omega arith) (omega arith) (omega arith)

from_string_runs :
    (Api.from_string splitter (codes "ns:service:st")
      ≡ ok (record {
        type_namespace = codes "ns";
        resource_type = codes "service";
        resource_subtype = codes "st";
      }))
    × (Api.from_string splitter (codes "nsservicest") ≡ err (exception k_general))
    × (Api.from_string splitter (codes "ns:service:#st") ≡ err (exception k_general))
    × (Api.from_string splitter (codes "ns:service") ≡ err (exception k_general))
unfolding Api.from_string regex_match is_word_byte split_onto splitter ℕ_discrete
from_string_runs = (refl, refl, refl, refl)

from_string_decides_example :
    ((a : Api) × ApiParse.IsValid a
      × (Api.to_string a ≡ codes "ns:a:st")
      × (Api.from_string splitter (codes "ns:a:st") ≡ ok a))
    ⊎ ((Api.from_string splitter (codes "ns:a:st") ≡ err (exception k_general))
        × ¬ ((a : Api) × ApiParse.IsValid a × (Api.to_string a ≡ codes "ns:a:st")))
from_string_decides_example = ApiParse.from_string_decides splitter (codes "ns:a:st")

from_str_decides_example :
    ((m : Model) × ModelParse.IsValid m
      × (Model.to_string m ≡ codes "fake")
      × (Model.from_str splitter (codes "fake") ≡ ok m))
    ⊎ (IsWord (codes "fake")
        × (Model.from_str splitter (codes "fake")
            ≡ ok (make (codes "rdk") (codes "builtin") (codes "fake"))))
    ⊎ ((Model.from_str splitter (codes "fake") ≡ err (exception k_general))
        × ¬ IsWord (codes "fake")
        × ¬ ((m : Model) × ModelParse.IsValid m × (Model.to_string m ≡ codes "fake")))
from_str_decides_example = ModelParse.from_str_decides splitter (codes "fake")

abbrev nested : Name
nested = record { api = api; remote_name = codes "r:q"; name = codes "n" }

from_proto-to_proto_example : Name.from_proto splitter (Name.to_proto nested) ≡ nested
from_proto-to_proto_example = from_proto-to_proto splitter nested ((λ e. cc), tt)

abbrev remote_arm : Name
remote_arm = record { api = api; remote_name = codes "r"; name = codes "n" }

name_from_string-to_string_example :
    Name.from_string splitter (Name.to_string remote_arm) ≡ ok remote_arm
name_from_string-to_string_example =
    name_from_string-to_string splitter remote_arm api-IsValid (lower_part b'r' (omega arith))
      (lower_part b'n' (omega arith))

from_string_nested_example :
    Name.from_string splitter (Name.to_string nested)
    ≡ ok (record { api = api; remote_name = codes "r"; name = codes "q" })
from_string_nested_example =
    from_string_nested splitter api (codes "r") (codes "q") (codes "n") api-IsValid
      (lower_part b'r' (omega arith)) (lower_part b'q' (omega arith)) (λ e. cc) ((λ e. cc), tt)
      (refl, tt)

from_string_no_slash_example : Name.from_string splitter (Api.to_string api) ≡ err out_of_range
from_string_no_slash_example = from_string_no_slash splitter api api-IsValid
