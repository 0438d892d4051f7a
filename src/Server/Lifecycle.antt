-- ===== src/Server/Lifecycle.antt =====
-- The states of a server: what can be registered, and when.
use viam_cpp_sdk.Prelude.{
  finished, thrown, crashed, Bool, true, false, List, Bytes, Option, none, some, Option-cases, ◌≡◌,
  refl, inl, inr, ◌⊎◌, arith, exception, k_general, Result-cases,
}
use viam_cpp_sdk.Prelude.Dict.{find}
use viam_cpp_sdk.Names.Api.{Api, Api-discrete}
use viam_cpp_sdk.Manager.{add_short}
use viam_cpp_sdk.Split.{Splitter}
use viam_cpp_sdk.Server.{
  ResourceClass, Builder, Server, new_server, register_service, add_listening_port, start,
  add_resource,
}

module _ {c : ResourceClass} where
  -- A call that returns.
  pub data Step (b : Splitter) (s t : Server c) : Type 0 where
    registers : (service : Bytes) → register_service service s ≡ finished t → Step b s t
    listens : (address : Bytes) → add_listening_port address s ≡ finished t → Step b s t
    starts : (built : Bool) → start built s ≡ finished t → Step b s t
    adds :
        (resource : Option c.Resource) (expired : Bool)
        → add_resource b resource expired s ≡ finished t
        → Step b s t

  pub data Reach (b : Splitter) (s : Server c) : Server c → Type 0 where
    here : Reach b s s
    next : {t u : Server c} → Reach b s t → Step b t u → Reach b s u

  -- No builder is left beside a server that runs.
  abbrev pub IsExclusive : Server c → Type 0
  IsExclusive s = (s.server ≡ none) ⊎ (s.builder ≡ none)

  -- An addition leaves the builder and the server alone.
  add_resource_rest :
      (b : Splitter) (resource : Option c.Resource) (expired : Bool) (s t : Server c)
      → add_resource b resource expired s ≡ finished t
      → (t.builder ≡ s.builder) × (t.server ≡ s.server)
  unfolding add_resource
  add_resource_rest b resource true s t e = cc
  add_resource_rest b none false s t e = cc
  add_resource_rest b (some r) false s t e =
      elim (Option-cases (find Api-discrete (c.api r) s.managed_servers)) [
        | inl f ↦ ground (arith, f)
        | inr (m, f) ↦ elim (Result-cases (add_short b (c.name r) r m)) [
          | inl (x, g) ↦ ground (arith, f, g)
          | inr (m', g) ↦ ground (arith, f, g)
        ]
      ]

  Step-IsExclusive : {b : Splitter} {s t : Server c} → Step b s t → IsExclusive s → IsExclusive t
  unfolding register_service add_listening_port start
  Step-IsExclusive (registers service e) h = ground arith
  Step-IsExclusive (listens address e) h = ground arith
  Step-IsExclusive (starts built e) h = ground arith
  Step-IsExclusive {b} {s} {t} (adds resource expired e) h =
      ground (arith, add_resource_rest b resource expired s t e)

  Reach-IsExclusive : {b : Splitter} {s t : Server c} → Reach b s t → IsExclusive s → IsExclusive t
  Reach-IsExclusive here h = h
  Reach-IsExclusive (next r st) h = Step-IsExclusive st (Reach-IsExclusive r h)

  -- No call changes what a running server was built from.
  Step-running :
      {b : Splitter} {s t : Server c} {x : Builder}
      → Step b s t
      → s.server ≡ some x
      → t.server ≡ some x
  unfolding register_service add_listening_port start
  Step-running (registers service e) h = ground arith
  Step-running (listens address e) h = ground arith
  Step-running (starts built e) h = ground arith
  Step-running {b} {s} {t} (adds resource expired e) h =
      ground (arith, add_resource_rest b resource expired s t e)

  Reach-running :
      {b : Splitter} {s t : Server c} {x : Builder}
      → Reach b s t
      → s.server ≡ some x
      → t.server ≡ some x
  Reach-running here h = h
  Reach-running (next r st) h = Step-running st (Reach-running r h)

  -- From a new server on, once the server runs it goes on with the services and the ports that it
  -- was built from, whatever calls return, and every call that would register a service or a port, or
  -- start it again, throws.
  pub running_server_frozen :
      (b : Splitter) (registered : List (Api × Bytes)) (s t : Server c) (x : Builder)
      (service address : Bytes) (built : Bool)
      → Reach b (new_server registered) s
      → s.server ≡ some x
      → Reach b s t
      → (t.server ≡ some x)
        × (register_service service t ≡ thrown (exception k_general))
        × (add_listening_port address t ≡ thrown (exception k_general))
        × (start built t ≡ thrown (exception k_general))
  unfolding register_service add_listening_port start new_server
  running_server_frozen b registered s t x service address built r h q =
      let e : IsExclusive t = Reach-IsExclusive q (Reach-IsExclusive r (inl refl)) in
      let w : t.server ≡ some x = Reach-running q h in (w, ground arith, ground arith, ground arith)

  -- Where gRPC cannot build the server, `start` returns all the same, and the next `start` follows the
  -- null pointer that is left of the builder.
  pub start_twice_crashes :
      (s t : Server c) (built : Bool) → start false s ≡ finished t → start built t ≡ crashed
  unfolding start
  start_twice_crashes s t built h = ground arith
