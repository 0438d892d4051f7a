-- ===== src/Registry/Lookup.antt =====
-- What a lookup finds after calls to the registry.
use viam_cpp_sdk.Prelude.{
  List, [], ◌∷◌, Bytes-discrete, none, some, Option-cases, Result, ok, err, exception,
  k_duplicate_registration, ◌≡◌, refl, inl, inr, arith, ◌⊎◌, subst, ◌>>=◌,
}
use viam_cpp_sdk.Prelude.Dict.{Dict, find, emplace, find-emplace}
use viam_cpp_sdk.Names.Api.{Api, Api-discrete}
use viam_cpp_sdk.Names.Api.Parse as ApiParse
use viam_cpp_sdk.Names.Model.{Model}
use viam_cpp_sdk.Names.Model.Parse as ModelParse
use viam_cpp_sdk.Registry.{
  Types, ModelRegistration, Registry, key, register, register_model, register_resource_server,
  register_resource_client, lookup_model_named, lookup_model, lookup_resource_server,
  lookup_resource_client,
}
use viam_cpp_sdk.Registry.Keys.{key_injective}

module _ {K V : Type 0} (dec : Discrete K) where
  register_found :
      (k : K) (v : V) (m n : Dict K V) → register dec k v m ≡ ok n → find dec k n ≡ some v
  register_found k v m n h = elim (Option-cases (find dec k m)) [
    | inl e ↦ ground (arith, e, find-emplace dec k k v m)
    | inr (w, e) ↦ ground (arith, e)
  ]

  -- An entry that is there stays.
  register_kept :
      (k j : K) (v w : V) (m n : Dict K V)
      → register dec k v m ≡ ok n
      → find dec j m ≡ some w
      → find dec j n ≡ some w
  register_kept k j v w m n h f = elim (Option-cases (find dec k m)) [
    | inl e ↦ elim (dec k j) [
      | yes p ↦ ground (arith, e, f, p)
      | no p ↦ ground (arith, e, f, find-emplace dec k j v m)
    ]
    | inr (u, e) ↦ ground (arith, e)
  ]

  register_other :
      (k j : K) (v : V) (m n : Dict K V)
      → register dec k v m ≡ ok n
      → ¬ (k ≡ j)
      → find dec j n ≡ find dec j m
  register_other k j v m n h d = elim (Option-cases (find dec k m)) [
    | inl e ↦ ground (arith, e, d, find-emplace dec k j v m)
    | inr (u, e) ↦ ground (arith, e)
  ]

module _ (t : Types) where
  pub data Call : Type 0 where
    models : ModelRegistration t → Call
    servers : Api → t.ServerRegistration → Call
    clients : Api → t.ClientRegistration → Call

module _ {t : Types} where
  abbrev pub call : Call t → Registry t → Result (Registry t)
  call (models m) = register_model m
  call (servers a s) = register_resource_server a s
  call (clients a c) = register_resource_client a c

  -- A call that throws leaves the registry as it was.
  after : Call t → Registry t → Registry t
  after c r = elim (call c r) [ ok s ↦ s | err _ ↦ r ]

  pub run : List (Call t) → Registry t → Registry t
  unfolding after
  run [] r = r
  run (c ∷ cs) r = run cs (after c r)

  -- The lookup for a registration finds just that.
  abbrev pub Holds : Call t → Registry t → Type 0
  Holds (models m) r = lookup_model m.api m.model r ≡ some m
  Holds (servers a s) r = lookup_resource_server a r ≡ some s
  Holds (clients a c) r = lookup_resource_client a r ≡ some c

  -- A call that returns has made one new entry, where there was none.
  entered :
      {K V : Type 0} (dec : Discrete K) (k : K) (v : V) (m : Dict K V) (f : Dict K V → Registry t)
      (s : Registry t)
      → (register dec k v m >>= λ n. ok (f n)) ≡ ok s
      → (n : Dict K V) × (register dec k v m ≡ ok n) × (f n ≡ s)
  entered dec k v m f s h = elim (Option-cases (find dec k m)) [
    | inl e ↦ (emplace dec k v m, ground (arith, e), ground (arith, e))
    | inr (w, e) ↦ ground (arith, e)
  ]

  call-Holds : (c : Call t) (r s : Registry t) → call c r ≡ ok s → Holds c s
  unfolding register_model register_resource_server register_resource_client lookup_model
      lookup_model_named lookup_resource_server lookup_resource_client
  call-Holds (models m) r s h =
      let (n, e, i) = entered Bytes-discrete _ m r.resources _ s h in
      rw (← i) (register_found Bytes-discrete _ m r.resources n e)
  call-Holds (servers a x) r s h =
      let (n, e, i) = entered Api-discrete a x r.server_apis _ s h in
      rw (← i) (register_found Api-discrete a x r.server_apis n e)
  call-Holds (clients a x) r s h =
      let (n, e, i) = entered Api-discrete a x r.client_apis _ s h in
      rw (← i) (register_found Api-discrete a x r.client_apis n e)

  call_kept : (c d : Call t) (r s : Registry t) → call c r ≡ ok s → Holds d r → Holds d s
  unfolding register_model register_resource_server register_resource_client lookup_model
      lookup_model_named lookup_resource_server lookup_resource_client
  call_kept (models m) (models o) r s h f =
      let (n, e, i) = entered Bytes-discrete _ m r.resources _ s h in
      rw (← i) (register_kept Bytes-discrete _ _ m o r.resources n e f)
  call_kept (models m) (servers a x) r s h f =
      let (n, e, i) = entered Bytes-discrete _ m r.resources _ s h in rw (← i) f
  call_kept (models m) (clients a x) r s h f =
      let (n, e, i) = entered Bytes-discrete _ m r.resources _ s h in rw (← i) f
  call_kept (servers b y) (servers a x) r s h f =
      let (n, e, i) = entered Api-discrete b y r.server_apis _ s h in
      rw (← i) (register_kept Api-discrete b a y x r.server_apis n e f)
  call_kept (servers b y) (models m) r s h f =
      let (n, e, i) = entered Api-discrete b y r.server_apis _ s h in rw (← i) f
  call_kept (servers b y) (clients a x) r s h f =
      let (n, e, i) = entered Api-discrete b y r.server_apis _ s h in rw (← i) f
  call_kept (clients b y) (clients a x) r s h f =
      let (n, e, i) = entered Api-discrete b y r.client_apis _ s h in
      rw (← i) (register_kept Api-discrete b a y x r.client_apis n e f)
  call_kept (clients b y) (models m) r s h f =
      let (n, e, i) = entered Api-discrete b y r.client_apis _ s h in rw (← i) f
  call_kept (clients b y) (servers a x) r s h f =
      let (n, e, i) = entered Api-discrete b y r.client_apis _ s h in rw (← i) f

  run_kept : (d : Call t) (cs : List (Call t)) (r : Registry t) → Holds d r → Holds d (run cs r)
  unfolding run
  run_kept d [] r f = f
  run_kept d (c ∷ cs) r f = run_kept d cs (after c r) (after_kept (call c r) refl)
    where
      after_kept :
          (x : Result (Registry t)) → call c r ≡ x → Holds d (elim x [ ok s ↦ s | err _ ↦ r ])
      after_kept (ok s) e = call_kept c d r s e f
      after_kept (err _) e = f

  -- What a call that returned has registered, a model, a server or a client, is found by its lookup
  -- after any further calls, those that throw included.
  pub registered_forever :
      (c : Call t) (r s : Registry t) (cs : List (Call t)) → call c r ≡ ok s → Holds c (run cs s)
  registered_forever c r s cs h = run_kept c cs s (call-Holds c r s h)

  -- Registering a model fails, as a duplicate, just where one is found under its API and name;
  -- where none is, it is found afterwards.
  pub register_model_decides :
      (m : ModelRegistration t) (r : Registry t)
      → ((lookup_model m.api m.model r ≡ none)
          × ((s : Registry t) × (register_model m r ≡ ok s)
              × (lookup_model m.api m.model s ≡ some m)))
        ⊎ ((o : ModelRegistration t) × (lookup_model m.api m.model r ≡ some o)
            × (register_model m r ≡ err (exception k_duplicate_registration)))
  unfolding register_model lookup_model lookup_model_named
  register_model_decides m r =
      let k = key m.api m.model in
      let n = emplace Bytes-discrete k m r.resources in
      let s : Registry t = record {
        resources = n;
        client_apis = r.client_apis;
        server_apis = r.server_apis;
      } in
      elim (Option-cases (find Bytes-discrete k r.resources)) [
        | inl e ↦ inl (
          e,
          (
            s,
            ground (arith, e),
            register_found Bytes-discrete k m r.resources n (ground (arith, e)),
          ),
        )
        | inr (o, e) ↦ inr (o, e, ground (arith, e))
      ]

  -- After a valid model is registered under a valid API, the lookup of a valid pair of an API and a
  -- model finds it, if it is that pair, and otherwise what it found before: no two pairs share a key.
  pub lookup_model-register_model :
      (m : ModelRegistration t) (a : Api) (n : Model) (r s : Registry t)
      → ApiParse.IsValid m.api
      → ModelParse.IsValid m.model
      → ApiParse.IsValid a
      → ModelParse.IsValid n
      → register_model m r ≡ ok s
      → ((m.api ≡ a) × (m.model ≡ n) × (lookup_model a n s ≡ some m))
        ⊎ (¬ ((m.api ≡ a) × (m.model ≡ n)) × (lookup_model a n s ≡ lookup_model a n r))
  unfolding register_model lookup_model lookup_model_named
  lookup_model-register_model m a n r s va vm vb vn h =
      let (d, e, i) = entered Bytes-discrete _ m r.resources _ s h in
      elim (Bytes-discrete (key m.api m.model) (key a n)) [
        | yes p ↦
            let q = key_injective m.api a m.model n va vb vm vn p in
            inl (
              q.0,
              q.1,
              rw (← i) (
                  subst (λ k. find Bytes-discrete k d ≡ some m) p
                    (register_found Bytes-discrete _ m r.resources d e)),
            )
        | no p ↦ inr (
          λ q. p (rw (q.0, q.1)),
          rw (← i) (register_other Bytes-discrete _ (key a n) m r.resources d e p),
        )
      ]
