-- ===== src/Remote/Laws.antt =====
-- What a remote call comes to.
use viam_cpp_sdk.Prelude.{
  Bytes, Option, none, some, Option-cases, exception, k_grpc, Outcome, finished, thrown, crashed,
  ◌≡◌, ◌≢◌, ◌⊎◌, ◌∙◌, refl, ap, inl, inr, arith,
}
use viam_cpp_sdk.Proto.{
  ProtoStruct, end, null, boolean, number, text, list, structure, find, to_struct,
}
use viam_cpp_sdk.Proto.RoundTrip.{StructIsMaps, struct-from_proto-to_proto}
use viam_cpp_sdk.Remote.{
  Call, Request, Handler, reply_of, replied, failed, service_helper, get_extra, debug_map_key,
  debug_map_value, invoke, invoke_with, invoke_plain, set_response, responds, relay, relayed,
}

-- The client's end of a call that the resource was reached by.
abbrev received : {S P A : Type 0} → (P → Outcome A) → S × Outcome P → S × Outcome A
received handle r =
    let (s, o) = r in
    elim (reply_of o) [ replied p ↦ (s, handle p) | failed _ ↦ (s, thrown (exception k_grpc)) ]

received-set_response :
    {S P A : Type 0} (to_response : A → P) (handle : P → Outcome A) (arrives : A → A)
    (r : S × Outcome A)
    → ((a : A) → r.1 ≡ finished a → handle (to_response a) ≡ finished (arrives a))
    → received handle (set_response to_response r) ≡ (r.0, relayed arrives r.1)
received-set_response to_response handle arrives (s, finished a) carried =
    ap (λ o. (s, o)) (carried a refl)
received-set_response to_response handle arrives (s, thrown e) carried = refl
received-set_response to_response handle arrives (s, crashed) carried = refl

module _ {D : Type 0} where
  -- Extra parameters that can be sent: a map, with a text under the key for debugging, if it is there.
  abbrev pub IsSendable : ProtoStruct D → Type 0
  IsSendable extra = StructIsMaps extra × (debug_map_value extra ≢ crashed)

  sent_or_crashed :
      (extra : ProtoStruct D)
      → ((o : Option Bytes) × (debug_map_value extra ≡ finished o))
        ⊎ (debug_map_value extra ≡ crashed)
  unfolding debug_map_value
  sent_or_crashed extra = elim (Option-cases (find debug_map_key extra)) [
    | inl e ↦ inl (none, ground (arith, e))
    | inr (null, e) ↦ inr (ground (arith, e))
    | inr (boolean x, e) ↦ inr (ground (arith, e))
    | inr (number x, e) ↦ inr (ground (arith, e))
    | inr (text x, e) ↦ inl (some x, ground (arith, e))
    | inr (list x, e) ↦ inr (ground (arith, e))
    | inr (structure x, e) ↦ inr (ground (arith, e))
  ]

  invoke_found :
      {S F P A C : Type 0} (lookup : Bytes → Option C) (callable : Request D F → C → Call S P)
      (request : Request D F) (handle : P → Outcome A) (c : C) (s : S)
      → lookup request.name ≡ some c
      → invoke (service_helper lookup callable) request handle s
        ≡ received handle (callable request c s)
  unfolding invoke service_helper
  invoke_found lookup callable request handle c s found = ground (arith, found)

  -- Where the resource is not there, nothing happens, and the client throws.
  invoke_missing :
      {S F P A C : Type 0} (lookup : Bytes → Option C) (callable : Request D F → C → Call S P)
      (request : Request D F) (handle : P → Outcome A) (s : S)
      → lookup request.name ≡ none
      → invoke (service_helper lookup callable) request handle s ≡ (s, thrown (exception k_grpc))
  unfolding invoke service_helper
  invoke_missing lookup callable request handle s missing = ground (arith, missing)

  invoke_with_sent :
      {S F P A : Type 0} (handler : Handler D S F P) (name : Bytes) (extra : ProtoStruct D)
      (fields : F) (handle : P → Outcome A) (s : S)
      → debug_map_value extra ≢ crashed
      → invoke_with handler name extra fields handle s
        ≡ invoke handler
            (record { name = name; extra = some (to_struct extra); fields = fields })
            handle
            s
  unfolding invoke_with
  invoke_with_sent handler name extra fields handle s key = elim (sent_or_crashed extra) [
    | inl (o, e) ↦ ground (arith, e)
    | inr e ↦ absurd (key e)
  ]

  get_extra_sent :
      {F : Type 0} (name : Bytes) (extra : ProtoStruct D) (fields : F)
      → StructIsMaps extra
      → get_extra (record { name = name; extra = some (to_struct extra); fields = fields }) ≡ extra
  unfolding get_extra
  get_extra_sent name extra fields h = struct-from_proto-to_proto extra h

  -- Where the resource is there, a call with extra parameters does in the end what the call of the
  -- resource does, if its value is one that the response carries.
  pub invoke_with-service_helper :
      {S F P A C : Type 0} (lookup : Bytes → Option C) (to_response : A → P)
      (handle : P → Outcome A) (arrives : A → A) (method : F → ProtoStruct D → C → Call S A)
      (name : Bytes) (extra : ProtoStruct D) (fields : F) (c : C) (s : S)
      → lookup name ≡ some c
      → IsSendable extra
      → ((a : A)
          → (method fields extra c s).1 ≡ finished a
          → handle (to_response a) ≡ finished (arrives a))
      → invoke_with
          (service_helper lookup
            (λ request c. responds to_response (method request.fields (get_extra request) c)))
          name
          extra
          fields
          handle
          s
        ≡ relay arrives (method fields extra c) s
  invoke_with-service_helper lookup to_response handle arrives method name extra fields c s found
        (maps, key) carried =
      invoke_with_sent _ name extra fields handle s key
      ∙ invoke_found lookup _ _ handle c s found
      ∙ ap (λ e. received handle (responds to_response (method fields e c) s))
          (get_extra_sent name extra fields maps)
      ∙ received-set_response to_response handle arrives (method fields extra c s) carried

  pub invoke_with_missing :
      {S F P A C : Type 0} (lookup : Bytes → Option C) (callable : Request D F → C → Call S P)
      (handle : P → Outcome A) (name : Bytes) (extra : ProtoStruct D) (fields : F) (s : S)
      → lookup name ≡ none
      → IsSendable extra
      → invoke_with (service_helper lookup callable) name extra fields handle s
        ≡ (s, thrown (exception k_grpc))
  invoke_with_missing lookup callable handle name extra fields s missing (maps, key) =
      invoke_with_sent _ name extra fields handle s key
      ∙ invoke_missing lookup callable _ handle s missing

  pub invoke_plain_missing :
      {S F P A C : Type 0} (lookup : Bytes → Option C) (callable : Request D F → C → Call S P)
      (handle : P → Outcome A) (name : Bytes) (fields : F) (s : S)
      → lookup name ≡ none
      → invoke_plain (service_helper lookup callable) name fields handle s
        ≡ (s, thrown (exception k_grpc))
  unfolding invoke_plain
  invoke_plain_missing lookup callable handle name fields s missing =
      invoke_missing lookup callable (record { name = name; extra = none; fields = fields }) handle
        s missing

-- So does one without; the resource gets no extra parameters then.
pub invoke_plain-service_helper :
    (D : Type 0) {S F P A C : Type 0} (lookup : Bytes → Option C) (to_response : A → P)
    (handle : P → Outcome A) (arrives : A → A) (method : F → ProtoStruct D → C → Call S A)
    (name : Bytes) (fields : F) (c : C) (s : S)
    → lookup name ≡ some c
    → ((a : A)
        → (method fields end c s).1 ≡ finished a
        → handle (to_response a) ≡ finished (arrives a))
    → invoke_plain {D = D}
        (service_helper lookup
          (λ request c. responds to_response (method request.fields (get_extra request) c)))
        name
        fields
        handle
        s
      ≡ relay arrives (method fields end c) s
unfolding invoke_plain get_extra
invoke_plain-service_helper D lookup to_response handle arrives method name fields c s found
      carried =
    invoke_found {D = D} lookup _ (record { name = name; extra = none; fields = fields }) handle c s
      found
    ∙ received-set_response to_response handle arrives (method fields end c s) carried
