-- ===== src/Proto/RoundTrip.antt =====
-- Values and their messages.
use viam_cpp_sdk.Prelude.{Bytes, Bytes-discrete, if_pos, if_neg, ◌≡◌, ◌≢◌, refl, sym, ap, ◌∙◌}
use viam_cpp_sdk.Proto.{
  ProtoValue, null, boolean, number, text, list, structure, ProtoList, nil, cons, ProtoStruct, end,
  field, Value, kind_not_set, null_value, bool_value, number_value, string_value, list_value,
  struct_value, ListValue, no_values, value, Struct, no_fields, entry, insert, emplace, to_proto,
  list_to_proto, struct_to_proto, from_proto, list_from_proto, struct_from_proto, to_struct,
  from_struct,
}

module _ {D : Type 0} where
  -- The key is not in the map.
  abbrev pub Absent : Bytes → ProtoStruct D → Type 0
  Absent k end = Unit
  Absent k (field j v s) = (j ≢ k) × Absent k s

  abbrev Lacking : Bytes → Struct D → Type 0
  Lacking k no_fields = Unit
  Lacking k (entry j v s) = (j ≢ k) × Lacking k s

  -- Each map that a value holds has a key once, as every map of C++ does.
  abbrev mutual
    pub IsMaps : ProtoValue D → Type 0
    IsMaps null = Unit
    IsMaps (boolean b) = Unit
    IsMaps (number d) = Unit
    IsMaps (text s) = Unit
    IsMaps (list l) = ListIsMaps l
    IsMaps (structure s) = StructIsMaps s

    pub ListIsMaps : ProtoList D → Type 0
    ListIsMaps nil = Unit
    ListIsMaps (cons v l) = IsMaps v × ListIsMaps l

    pub StructIsMaps : ProtoStruct D → Type 0
    StructIsMaps end = Unit
    StructIsMaps (field k v s) = Absent k s × IsMaps v × StructIsMaps s

  -- One map behind another.
  abbrev join : ProtoStruct D → ProtoStruct D → ProtoStruct D
  join end t = t
  join (field k v s) t = field k v (join s t)

  abbrev join_messages : Struct D → Struct D → Struct D
  join_messages no_fields t = t
  join_messages (entry k v s) t = entry k v (join_messages s t)

  -- No key of the second map is in the first.
  abbrev Fresh : ProtoStruct D → ProtoStruct D → Type 0
  Fresh m end = Unit
  Fresh m (field k v s) = Absent k m × Fresh m s

  abbrev FreshMessage : Struct D → ProtoStruct D → Type 0
  FreshMessage m end = Unit
  FreshMessage m (field k v s) = Lacking k m × FreshMessage m s

  emplace-join :
      (k : Bytes) (v : ProtoValue D) (s : ProtoStruct D)
      → Absent k s
      → emplace k v s ≡ join s (field k v end)
  unfolding emplace
  emplace-join k v end h = refl
  emplace-join k v (field j w s) h = rw (if_neg _ h.0) (ap (field j w) (emplace-join k v s h.1))

  insert-join :
      (k : Bytes) (v : Value D) (s : Struct D)
      → Lacking k s
      → insert k v s ≡ join_messages s (entry k v no_fields)
  unfolding insert
  insert-join k v no_fields h = refl
  insert-join k v (entry j w s) h = rw (if_neg _ h.0) (ap (entry j w) (insert-join k v s h.1))

  join_assoc :
      (s : ProtoStruct D) (k : Bytes) (v : ProtoValue D) (t : ProtoStruct D)
      → join (join s (field k v end)) t ≡ join s (field k v t)
  join_assoc end k v t = refl
  join_assoc (field j w s) k v t = ap (field j w) (join_assoc s k v t)

  join_messages_assoc :
      (s : Struct D) (k : Bytes) (v : Value D) (t : Struct D)
      → join_messages (join_messages s (entry k v no_fields)) t ≡ join_messages s (entry k v t)
  join_messages_assoc no_fields k v t = refl
  join_messages_assoc (entry j w s) k v t = ap (entry j w) (join_messages_assoc s k v t)

  Absent-join :
      (j k : Bytes) (v : ProtoValue D) (s : ProtoStruct D)
      → Absent j s
      → k ≢ j
      → Absent j (join s (field k v end))
  Absent-join j k v end h n = (n, tt)
  Absent-join j k v (field i w s) h n = (h.0, Absent-join j k v s h.1 n)

  Lacking-join :
      (j k : Bytes) (v : Value D) (s : Struct D)
      → Lacking j s
      → k ≢ j
      → Lacking j (join_messages s (entry k v no_fields))
  Lacking-join j k v no_fields h n = (n, tt)
  Lacking-join j k v (entry i w s) h n = (h.0, Lacking-join j k v s h.1 n)

  Fresh-join :
      (k : Bytes) (v : ProtoValue D) (m s : ProtoStruct D)
      → Fresh m s
      → Absent k s
      → Fresh (join m (field k v end)) s
  Fresh-join k v m end h a = tt
  Fresh-join k v m (field j w s) h a =
      (Absent-join j k v m h.0 (λ e. a.0 (sym e)), Fresh-join k v m s h.1 a.1)

  FreshMessage-join :
      (k : Bytes) (v : Value D) (m : Struct D) (s : ProtoStruct D)
      → FreshMessage m s
      → Absent k s
      → FreshMessage (join_messages m (entry k v no_fields)) s
  FreshMessage-join k v m end h a = tt
  FreshMessage-join k v m (field j w s) h a =
      (Lacking-join j k v m h.0 (λ e. a.0 (sym e)), FreshMessage-join k v m s h.1 a.1)

  -- The entries of a message, one for each entry of the map.
  abbrev entries : ProtoStruct D → Struct D
  entries end = no_fields
  entries (field k v s) = entry k (to_proto v) (entries s)

  join_nothing : (m : Struct D) → join_messages m no_fields ≡ m
  join_nothing no_fields = refl
  join_nothing (entry k v s) = ap (entry k v) (join_nothing s)

  struct_to_proto-entries :
      (s : ProtoStruct D) (m : Struct D)
      → FreshMessage m s
      → StructIsMaps s
      → struct_to_proto s m ≡ join_messages m (entries s)
  unfolding struct_to_proto
  struct_to_proto-entries end m f h = sym (join_nothing m)
  struct_to_proto-entries (field k v s) m f h =
      ap (struct_to_proto s) (insert-join k (to_proto v) m f.0)
      ∙ struct_to_proto-entries s (join_messages m (entry k (to_proto v) no_fields))
          (FreshMessage-join k (to_proto v) m s f.1 h.0) h.2
      ∙ join_messages_assoc m k (to_proto v) (entries s)

  nothing_fresh : (s : ProtoStruct D) → FreshMessage no_fields s
  nothing_fresh end = tt
  nothing_fresh (field k v s) = (tt, nothing_fresh s)

  end-Fresh : (s : ProtoStruct D) → Fresh end s
  end-Fresh end = tt
  end-Fresh (field k v s) = (tt, end-Fresh s)

  join-end : (m : ProtoStruct D) → join m end ≡ m
  join-end end = refl
  join-end (field k v s) = ap (field k v) (join-end s)

  mutual
    unfolding from_proto to_proto list_to_proto struct_to_proto list_from_proto struct_from_proto

    value_back : (v : ProtoValue D) → IsMaps v → from_proto (to_proto v) ≡ v
    value_back null h = refl
    value_back (boolean b) h = refl
    value_back (number d) h = refl
    value_back (text s) h = refl
    value_back (list l) h = ap list (list_back l h)
    value_back (structure s) h =
        ap (λ m. structure (struct_from_proto m end))
          (struct_to_proto-entries s no_fields (nothing_fresh s) h)
        ∙ ap structure (struct_back s end (end-Fresh s) h)

    list_back : (l : ProtoList D) → ListIsMaps l → list_from_proto (list_to_proto l) ≡ l
    list_back nil h = refl
    list_back (cons v l) h = λ i. cons (value_back v h.0 i) (list_back l h.1 i)

    struct_back :
        (s m : ProtoStruct D)
        → Fresh m s
        → StructIsMaps s
        → struct_from_proto (entries s) m ≡ join m s
    struct_back end m f h = sym (join-end m)
    struct_back (field k v s) m f h =
        ap (λ x. struct_from_proto (entries s) (emplace k x m)) (value_back v h.1)
        ∙ ap (struct_from_proto (entries s)) (emplace-join k v m f.0)
        ∙ struct_back s (join m (field k v end)) (Fresh-join k v m s f.1 h.0) h.2
        ∙ join_assoc m k v s

  -- A map of values comes back from its message, with the values in it at any depth, where each of its
  -- maps has a key once.
  pub struct-from_proto-to_proto :
      (s : ProtoStruct D) → StructIsMaps s → from_struct (to_struct s) ≡ s
  struct-from_proto-to_proto s h =
      ap from_struct (struct_to_proto-entries s no_fields (nothing_fresh s) h)
      ∙ struct_back s end (end-Fresh s) h

  -- A value comes back from its message, with all the values in it at any depth, where each map in it
  -- has a key once.
  pub value-from_proto-to_proto : (v : ProtoValue D) → IsMaps v → from_proto (to_proto v) ≡ v
  value-from_proto-to_proto v h = value_back v h

  -- What is read from any message has a key once in each of its maps.
  Absent-emplace :
      (j k : Bytes) (v : ProtoValue D) (s : ProtoStruct D)
      → Absent j s
      → k ≢ j
      → Absent j (emplace k v s)
  unfolding emplace
  Absent-emplace j k v end h n = (n, tt)
  Absent-emplace j k v (field i w s) h n = elim (Bytes-discrete i k) [
    | yes e ↦ rw (if_pos _ e) h
    | no e ↦ rw (if_neg _ e) (h.0, Absent-emplace j k v s h.1 n)
  ]

  emplace-IsMaps :
      (k : Bytes) (v : ProtoValue D) (s : ProtoStruct D)
      → IsMaps v
      → StructIsMaps s
      → StructIsMaps (emplace k v s)
  unfolding emplace
  emplace-IsMaps k v end hv h = (tt, hv, tt)
  emplace-IsMaps k v (field j w s) hv h = elim (Bytes-discrete j k) [
    | yes e ↦ rw (if_pos _ e) h
    | no e ↦
        rw (if_neg _ e)
          (Absent-emplace j k v s h.0 (λ p. e (sym p)), h.1, emplace-IsMaps k v s hv h.2)
  ]

  mutual
    unfolding from_proto list_from_proto struct_from_proto

    read-IsMaps : (m : Value D) → IsMaps (from_proto m)
    read-IsMaps kind_not_set = tt
    read-IsMaps null_value = tt
    read-IsMaps (bool_value b) = tt
    read-IsMaps (number_value d) = tt
    read-IsMaps (string_value s) = tt
    read-IsMaps (list_value l) = read_list-IsMaps l
    read-IsMaps (struct_value s) = read_struct-IsMaps s end tt

    read_list-IsMaps : (l : ListValue D) → ListIsMaps (list_from_proto l)
    read_list-IsMaps no_values = tt
    read_list-IsMaps (value v l) = (read-IsMaps v, read_list-IsMaps l)

    read_struct-IsMaps :
        (s : Struct D) (m : ProtoStruct D) → StructIsMaps m → StructIsMaps (struct_from_proto s m)
    read_struct-IsMaps no_fields m h = h
    read_struct-IsMaps (entry k v s) m h =
        read_struct-IsMaps s (emplace k (from_proto v) m)
          (emplace-IsMaps k (from_proto v) m (read-IsMaps v) h)

  pub from_struct-IsMaps : (s : Struct D) → StructIsMaps (from_struct s)
  from_struct-IsMaps s = read_struct-IsMaps s end tt

  -- Whatever message of a value arrives, also one without a kind or with maps that say a key twice,
  -- the value that is read from it is read again from its own message.
  pub read_value_stable : (m : Value D) → from_proto (to_proto (from_proto m)) ≡ from_proto m
  read_value_stable m = value-from_proto-to_proto (from_proto m) (read-IsMaps m)
