-- ===== src/Names/Name.antt =====
-- `Name` and `RPCSubtype` of resource/resource_api.cpp, and `long_name_to_remote_and_short` of
-- common/utils.cpp.
pub mod LongName
pub mod Parse
use viam_cpp_sdk.Prelude.{
  Bool, true, false, not, ◌&&◌, ◌||◌, ◌==◌, List, [], ◌∷◌, ◌++◌, Bytes, codes, Bytes-discrete, ite,
  if◌then◌else◌, Result, ok, err, exception, k_general, at, ◌>>=◌, length, ltb,
}
use viam_cpp_sdk.Split.{Splitter}
use viam_cpp_sdk.Regex.{Regex, class, seq, star, plus, opt, byte, regex_match}
use viam_cpp_sdk.Names.Words.{word, three_words}
use viam_cpp_sdk.Names.Api
use viam_cpp_sdk.Names.Api.{Api}

pub record Name : Type 0 where
  pub api : Api
  pub remote_name : Bytes
  pub name : Bytes

pub record RpcSubtype : Type 0 where
  pub api : Api
  pub proto_service_name : Bytes

-- `.`: any byte but the ends of a line.
abbrev pub any_byte : Regex
any_byte = class (λ c. not (c == 10 || c == 13))

-- `^([\w-]+:[\w-]+:(?:[\w-]+))\/?([\w-]+:(?:[\w-]+:)*)?(.+)?$`.
abbrev pub name_regex : Regex
name_regex = seq three_words (
    seq (opt (byte b'/'))
      (seq (opt (seq word (seq (byte b':') (star (seq word (byte b':')))))) (opt (plus any_byte))))

unfoldable pub to_string : Name → Bytes
to_string n = ite (Bytes-discrete n.remote_name []) (Api.to_string n.api ++ b'/' ∷ n.name) (
    ite (Bytes-discrete n.remote_name (codes ":")) (Api.to_string n.api ++ b'/' ∷ n.name)
      (Api.to_string n.api ++ b'/' ∷ (n.remote_name ++ b':' ∷ n.name)))

unfoldable pub short_name : Name → Bytes
short_name n = ite (Bytes-discrete n.remote_name []) n.name (n.remote_name ++ b':' ∷ n.name)

-- The remote and the name that `from_string` takes from the parts behind the slash.
unfoldable pub remote_and_name : List Bytes → Result (Bytes × Bytes)
remote_and_name parts =
    if ltb 1 (length parts)
    then (do remote ← at parts 0; name ← at parts 1; ok (remote, name))
    else (do name ← at parts 0; ok ([], name))

unfoldable pub from_string : Splitter → Bytes → Result Name
unfolding remote_and_name
from_string b name = if not (regex_match name name_regex) then err (exception k_general) else do
  let slash_splits = b.split b'/' name
  first ← at slash_splits 0
  api ← Api.from_string b first
  second ← at slash_splits 1
  (remote, resource_name) ← remote_and_name (b.split b':' second)
  ok (record { api = api; remote_name = remote; name = resource_name })

-- `name_parts.back()` and the rest, joined again by colons.
back_and_rest : Bytes → List Bytes → Bytes × List Bytes
back_and_rest x [] = (x, [])
back_and_rest x (y ∷ r) = let (last, rest) = back_and_rest y r in (last, x ∷ rest)

join_onto : Bytes → List Bytes → Bytes
join_onto acc [] = acc
join_onto acc (x ∷ r) = join_onto (acc ++ b':' ∷ x) r

join : List Bytes → Bytes
unfolding join_onto
join [] = []
join (x ∷ r) = join_onto x r

remote_and_short : List Bytes → Bytes × Bytes
unfolding join back_and_rest
-- A split has a part at least.
remote_and_short [] = ([], [])
remote_and_short (x ∷ r) = let (last, rest) = back_and_rest x r in (join rest, last)

unfoldable pub long_name_to_remote_and_short : Splitter → Bytes → Bytes × Bytes
unfolding remote_and_short
long_name_to_remote_and_short b long_name = remote_and_short (b.split b':' long_name)

-- `common::v1::ResourceName`.
pub record ResourceName : Type 0 where
  pub namespace : Bytes
  pub type : Bytes
  pub subtype : Bytes
  pub name : Bytes

unfoldable pub to_proto : Name → ResourceName
to_proto n = record {
  namespace = n.api.type_namespace;
  name = ite (Bytes-discrete n.remote_name []) n.name (n.remote_name ++ b':' ∷ n.name);
  type = n.api.resource_type;
  subtype = n.api.resource_subtype;
}

unfoldable pub from_proto : Splitter → ResourceName → Name
from_proto b proto =
    let (remote, short) = long_name_to_remote_and_short b proto.name in
    record {
      api = record {
        type_namespace = proto.namespace;
        resource_type = proto.type;
        resource_subtype = proto.subtype;
      };
      remote_name = remote;
      name = short;
    }
