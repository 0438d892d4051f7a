-- ===== src/Proto/Tests.antt =====
-- The theorems on values at a map with a list and a map in it, and at a message with a key twice.
use viam_cpp_sdk.Prelude.{ℕ, ℕ_discrete, Bytes-discrete, codes, true, ◌≡◌, refl, arith}
use viam_cpp_sdk.Proto.{
  ProtoValue, null, boolean, number, text, list, structure, nil, cons, end, field, Value,
  kind_not_set, bool_value, struct_value, no_fields, entry, emplace, to_proto, from_proto,
}
use viam_cpp_sdk.Proto.RoundTrip.{value-from_proto-to_proto, read_value_stable}

abbrev nested : ProtoValue ℕ
nested = structure (
    field (codes "a") (list (cons (number 1) (cons (text (codes "x")) nil)))
      (field (codes "b") (structure (field (codes "a") null end)) end))

value-from_proto-to_proto_example : from_proto (to_proto nested) ≡ nested
value-from_proto-to_proto_example =
    value-from_proto-to_proto nested
      (((λ e. ground arith), tt), (tt, (tt, tt)), (tt, (tt, tt, tt), tt))

-- The second entry of a key is dropped.
abbrev twice : Value ℕ
twice =
    struct_value (entry (codes "a") (bool_value true) (entry (codes "a") kind_not_set no_fields))

twice_read : from_proto twice ≡ structure (field (codes "a") (boolean true) end)
unfolding from_proto emplace Bytes-discrete ℕ_discrete
twice_read = refl

read_value_stable_example : from_proto (to_proto (from_proto twice)) ≡ from_proto twice
read_value_stable_example = read_value_stable twice
