-- ===== src/Registry/Resources.antt =====
-- `Registry::register_resources`: the components and services of the SDK, under the APIs that
-- components/*.cpp and services/*.cpp give them in `API::traits`.
use viam_cpp_sdk.Prelude.{
  List, [], ◌∷◌, Bytes, Bytes-discrete, ℕ_discrete, codes, some, none, Result, ok, ◌>>=◌, ◌≡◌, refl,
  All,
}
use viam_cpp_sdk.Prelude.Dict.{Dict, find, emplace}
use viam_cpp_sdk.Names.Api.{Api, Api-discrete}
use viam_cpp_sdk.Registry.{
  Types, ModelRegistration, Registry, register_resource_server, register_resource_client,
  lookup_resource_server, lookup_resource_client,
}

abbrev pub component : Bytes → Api
component s = record {
  type_namespace = codes "rdk";
  resource_type = codes "component";
  resource_subtype = s;
}

abbrev pub service : Bytes → Bytes → Api
service ns s = record { type_namespace = ns; resource_type = codes "service"; resource_subtype = s }

abbrev pub component_apis : List Api
component_apis =
    component (codes "arm")
    ∷ component (codes "audio_in")
    ∷ component (codes "audio_out")
    ∷ component (codes "base")
    ∷ component (codes "board")
    ∷ component (codes "button")
    ∷ component (codes "camera")
    ∷ component (codes "encoder")
    ∷ component (codes "gantry")
    ∷ component (codes "generic")
    ∷ component (codes "gripper")
    ∷ component (codes "motor")
    ∷ component (codes "movement_sensor")
    ∷ component (codes "pose_tracker")
    ∷ component (codes "power_sensor")
    ∷ component (codes "sensor")
    ∷ component (codes "servo")
    ∷ component (codes "switch")
    ∷ []

abbrev pub discovery : Api
discovery = service (codes "rdk") (codes "discovery")

abbrev pub frame_system : Api
frame_system = service (codes "rdk-internal") (codes "frame_system")

abbrev pub generic_service : Api
generic_service = service (codes "rdk") (codes "generic")

abbrev pub mlmodel : Api
mlmodel = service (codes "rdk") (codes "mlmodel")

abbrev pub motion : Api
motion = service (codes "rdk") (codes "motion")

module _ {t : Types} (client : Api → t.ClientRegistration)
    (server : Api → t.ServerRegistration) where
  -- The descriptor of a service is one that the generated code has: where it has none
  -- `get_service_descriptor_` throws, which is left out.
  abbrev pub register_resource : Api → Registry t → Result (Registry t)
  register_resource a r = do
    s ← register_resource_client a (client a) r
    register_resource_server a (server a) s

  abbrev pub register_each : List Api → Registry t → Result (Registry t)
  register_each [] r = ok r
  register_each (a ∷ apis) r = do s ← register_resource a r; register_each apis s

  pub register_resources : Registry t → Result (Registry t)
  register_resources r = do
    components ← register_each component_apis r
    s ← register_resource discovery components
    frames ← register_resource_client frame_system (client frame_system) s
    register_each (generic_service ∷ mlmodel ∷ motion ∷ []) frames

  -- Both sides of an API are registered.
  abbrev pub Served : Registry t → Api → Type 0
  Served s a =
      (lookup_resource_client a s ≡ some (client a))
      × (lookup_resource_server a s ≡ some (server a))

  abbrev pub started_with : Dict Bytes (ModelRegistration t) → Registry t
  started_with resources = record { resources = resources; client_apis = []; server_apis = [] }

  abbrev all_resources : Dict Bytes (ModelRegistration t) → Result (Registry t)
  all_resources resources = register_resources (started_with resources)

  -- Whatever models are there already, registering the resources of the SDK does not throw: no two
  -- of them have one API. Each has its client and its server then, the frame system its client
  -- alone, and the models are the same.
  pub register_resources_complete :
      (resources : Dict Bytes (ModelRegistration t))
      → (s : Registry t) × (register_resources (started_with resources) ≡ ok s)
        × (s.resources ≡ resources)
        × All (Served s) component_apis
        × All (Served s) (discovery ∷ generic_service ∷ mlmodel ∷ motion ∷ [])
        × (lookup_resource_client frame_system s ≡ some (client frame_system))
        × (lookup_resource_server frame_system s ≡ none)
  unfolding register_resources register_resource_client register_resource_server
      lookup_resource_client lookup_resource_server find emplace Api-discrete Bytes-discrete
      ℕ_discrete
  register_resources_complete resources = (
    _,
    refl,
    refl,
    (
      (refl, refl),
      (
        (refl, refl),
        (
          (refl, refl),
          (
            (refl, refl),
            (
              (refl, refl),
              (
                (refl, refl),
                (
                  (refl, refl),
                  (
                    (refl, refl),
                    (
                      (refl, refl),
                      (
                        (refl, refl),
                        (
                          (refl, refl),
                          (
                            (refl, refl),
                            (
                              (refl, refl),
                              (
                                (refl, refl),
                                ((refl, refl), ((refl, refl), ((refl, refl), ((refl, refl), tt)))),
                              ),
                            ),
                          ),
                        ),
                      ),
                    ),
                  ),
                ),
              ),
            ),
          ),
        ),
      ),
    ),
    ((refl, refl), ((refl, refl), ((refl, refl), ((refl, refl), tt)))),
    refl,
    refl,
  )
