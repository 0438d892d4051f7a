-- ===== src/Proto.antt =====
-- `ProtoValue` of common/proto_value.hpp and common/proto_value.cpp, and the messages
-- `google::protobuf::Value`, `ListValue` and `Struct`. The storage of a value behind a table of
-- functions is not modelled: a value is what is stored, and its kind the constructor. `D` is `double`.
--
-- `ProtoStruct` is an `unordered_map`, and the fields of a `Struct` a map of protobuf: entries in the
-- order in which a loop meets them. That order is not specified; a new entry stands at the end here.
pub mod RoundTrip
mod Tests
use viam_cpp_sdk.Prelude.{
  ℕ, suc, Bool, true, false, ◌&&◌, ◌==◌, Bytes, Bytes-discrete, ite, Option, none, some, not,
}

module _ (D : Type 0) where
  mutual
    pub data ProtoValue : Type 0 where
      null : ProtoValue
      boolean : Bool → ProtoValue
      number : D → ProtoValue
      text : Bytes → ProtoValue
      list : ProtoList → ProtoValue
      structure : ProtoStruct → ProtoValue

    pub data ProtoList : Type 0 where
      nil : ProtoList
      cons : ProtoValue → ProtoList → ProtoList

    pub data ProtoStruct : Type 0 where
      end : ProtoStruct
      field : Bytes → ProtoValue → ProtoStruct → ProtoStruct

  mutual
    pub data Value : Type 0 where
      kind_not_set null_value : Value
      bool_value : Bool → Value
      number_value : D → Value
      string_value : Bytes → Value
      list_value : ListValue → Value
      struct_value : Struct → Value

    pub data ListValue : Type 0 where
      no_values : ListValue
      value : Value → ListValue → ListValue

    pub data Struct : Type 0 where
      no_fields : Struct
      entry : Bytes → Value → Struct → Struct

-- `ProtoValue::Kind`.
pub data Kind : Type 0 where
  k_null k_bool k_double k_string k_list k_struct : Kind

module _ {D : Type 0} where
  unfoldable pub kind : ProtoValue D → Kind
  kind null = k_null
  kind (boolean b) = k_bool
  kind (number d) = k_double
  kind (text s) = k_string
  kind (list l) = k_list
  kind (structure s) = k_struct

  -- `fields().insert`, which keeps an entry that is there.
  unfoldable pub insert : Bytes → Value D → Struct D → Struct D
  insert k v no_fields = entry k v no_fields
  insert k v (entry j w s) = ite (Bytes-discrete j k) (entry j w s) (entry j w (insert k v s))

  -- `emplace` on a `ProtoStruct`.
  unfoldable pub emplace : Bytes → ProtoValue D → ProtoStruct D → ProtoStruct D
  emplace k v end = field k v end
  emplace k v (field j w s) = ite (Bytes-discrete j k) (field j w s) (field j w (emplace k v s))

  -- `find` on a `ProtoStruct`.
  unfoldable pub find : Bytes → ProtoStruct D → Option (ProtoValue D)
  find k end = none
  find k (field j v s) = ite (Bytes-discrete j k) (some v) (find k s)

  unfoldable mutual
    -- `to_value` of each kind of value.
    pub to_proto : ProtoValue D → Value D
    to_proto null = null_value
    to_proto (boolean b) = bool_value b
    to_proto (number d) = number_value d
    to_proto (text s) = string_value s
    to_proto (list l) = list_value (list_to_proto l)
    to_proto (structure s) = struct_value (struct_to_proto s no_fields)

    pub list_to_proto : ProtoList D → ListValue D
    list_to_proto nil = no_values
    list_to_proto (cons v l) = value (to_proto v) (list_to_proto l)

    -- The loop over the entries, onto what is in the message already.
    pub struct_to_proto : ProtoStruct D → Struct D → Struct D
    struct_to_proto end m = m
    struct_to_proto (field k v s) m = struct_to_proto s (insert k (to_proto v) m)

  unfoldable mutual
    pub from_proto : Value D → ProtoValue D
    from_proto (bool_value b) = boolean b
    from_proto (string_value s) = text s
    from_proto (number_value d) = number d
    from_proto (list_value l) = list (list_from_proto l)
    from_proto (struct_value s) = structure (struct_from_proto s end)
    from_proto kind_not_set = null
    from_proto null_value = null

    pub list_from_proto : ListValue D → ProtoList D
    list_from_proto no_values = nil
    list_from_proto (value v l) = cons (from_proto v) (list_from_proto l)

    pub struct_from_proto : Struct D → ProtoStruct D → ProtoStruct D
    struct_from_proto no_fields m = m
    struct_from_proto (entry k v s) m = struct_from_proto s (emplace k (from_proto v) m)

  abbrev pub to_struct : ProtoStruct D → Struct D
  to_struct s = struct_to_proto s no_fields

  abbrev pub from_struct : Struct D → ProtoStruct D
  from_struct s = struct_from_proto s end
