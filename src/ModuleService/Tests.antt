-- ===== src/ModuleService/Tests.antt =====
-- A module with one API for arms, and the theorems at requests to it.
use viam_cpp_sdk.Prelude.{
  Bool, true, false, List, [], ◌∷◌, Bytes, Bytes-discrete, ℕ_discrete, codes, none, some, Result,
  ok, err, Error, exception, k_connection, k_general, ◌≡◌, ◌≢◌, refl, arith,
}
use viam_cpp_sdk.Prelude.Dict.{find, update, emplace}
use viam_cpp_sdk.Split.Reference.{splitter, split_onto}
use viam_cpp_sdk.Regex.{regex_match}
use viam_cpp_sdk.Names.Words.{is_word_byte}
use viam_cpp_sdk.Names.Api.{Api, Api-discrete}
use viam_cpp_sdk.Names.Api
use viam_cpp_sdk.Names.Model.{Model, make}
use viam_cpp_sdk.Names.Model
use viam_cpp_sdk.Names.Name.{Name, short_name}
use viam_cpp_sdk.Names.Name as Names
use viam_cpp_sdk.Config.{make_config, resource_name}
use viam_cpp_sdk.Config.Message.{Contents, Config}
use viam_cpp_sdk.Logging.{info}
use viam_cpp_sdk.Config.Message as Message
use viam_cpp_sdk.Registry.{ModelRegistration, no_registrations, Registry, lookup_model, key}
use viam_cpp_sdk.Registry.Resources.{component}
use viam_cpp_sdk.Manager.{
  Manager, resource, find_resource, add_short, remove, do_add_short, do_remove, emplace_short,
  get_shortcut_name,
}
use viam_cpp_sdk.Server.{Server, new_server, lookup_resource_server, add_resource}
use viam_cpp_sdk.ModuleService.{
  World, types, Environment, Service, get_dependencies, add_dependencies,
}
use viam_cpp_sdk.ModuleService.Handlers.{
  Reply, status_ok, status_internal, crashes, ConfigRequest, Request, remove_request, handle,
  add_request, add_resource_handler, remove_resource_handler, reconfigure_resource_handler,
}
use viam_cpp_sdk.ModuleService.WellFormed.{serve}
use viam_cpp_sdk.ModuleService.Removal.{served_removal}
use viam_cpp_sdk.ModuleService.Outcomes.{add_resource_registered}
use viam_cpp_sdk.ModuleService.Failures.{
  add_resource_failed, unregistered_model_crashes, remote_removal, reconfigure_loses,
}

-- An arm has a name, and may be `Stoppable`.
record Arm : Type 0 where
  pub name : Bytes
  pub stoppable : Bool

abbrev arm_api : Api
arm_api = component (codes "arm")

-- Attributes and frames are texts, and their messages too.
abbrev texts : Contents
texts = record {
  Attributes = Bytes;
  AttributesMessage = Bytes;
  attributes_to_proto = λ a. a;
  attributes_from_proto = λ a. a;
  Frame = Bytes;
  FrameMessage = Bytes;
  frame_to_proto = λ f. f;
  frame_from_proto = λ f. ok f;
  default_frame = [];
}

abbrev arms : World
arms = record {
  class = record { Resource = Arm; api = λ _. arm_api; name = λ a. a.name };
  contents = texts;
  stop = λ a. elim a.stoppable [ true ↦ some (ok tt) | false ↦ none ];
}

abbrev fake : Model
fake = make (codes "acme") (codes "demo") (codes "fake")

abbrev plain_arm : Arm
plain_arm = record { name = codes "a"; stoppable = false }

abbrev remote_arm : Arm
remote_arm = record { name = codes "r:a"; stoppable = true }

abbrev registration : Result Arm → ModelRegistration (types arms)
registration result = record {
  construct_resource = λ _ _. result;
  validate = λ _. ok [];
  model = fake;
  api = arm_api;
}

abbrev environment : Registry (types arms) → Environment arms
environment registry = record {
  registry = registry;
  deadline_expired = false;
  no_module_parent = true;
  at_local_socket = λ _. err (exception k_connection);
  resource_by_name = λ _ _. ok none;
}

abbrev with_fake : Result Arm → Environment arms
with_fake result = environment (record {
  resources = (codes "rdk:component:arm/acme:demo:fake", registration result) ∷ [];
  client_apis = [];
  server_apis = [];
})

abbrev service_of : Server arms.class → Service arms
service_of server = record {
  server = server;
  handles = [];
  ready = true;
  parent_addr = [];
  parent = none;
  grpc_conn_protocol = codes "unix:";
  stopped = [];
}

abbrev empty_service : Service arms
empty_service = service_of (new_server ((arm_api, codes "ArmService") ∷ []))

-- Both arms, the remote one under its shortcut.
abbrev two_arms : Manager Arm
two_arms = record {
  resources = (codes "b", plain_arm) ∷ (codes "r:a", remote_arm) ∷ [];
  short_names = (codes "a", codes "r:a") ∷ [];
}

abbrev full_service : Service arms
full_service =
    service_of
      (record { managed_servers = (arm_api, two_arms) ∷ []; builder = none; server = none })

abbrev request : Bytes → ConfigRequest arms
request name = record {
  config = record {
    service_configs = [];
    name = name;
    namespace = codes "rdk";
    type = codes "arm";
    log_configuration = none;
    depends_on = [];
    api = codes "rdk:component:arm";
    model = codes "acme:demo:fake";
    attributes = [];
    frame = none;
  };
  dependencies = [];
}

abbrev config : Bytes → Config texts
config name = record {
  api = arm_api;
  frame = some [];
  model = fake;
  name = name;
  namespace = codes "rdk";
  type = codes "arm";
  depends_on = [];
  service_config = [];
  attributes = [];
  log_level = info;
}

read_config :
    (name : Bytes) → Message.from_proto texts splitter (request name).config ≡ ok (config name)
unfolding Message.from_proto Model.from_str make_config Api.from_string regex_match is_word_byte
    split_onto splitter ℕ_discrete Bytes-discrete
read_config name = refl

no_dependencies :
    (env : Environment arms) (s : Server arms.class)
    → (get_dependencies splitter env [] (service_of s)).1 ≡ ok []
unfolding get_dependencies add_dependencies Bytes-discrete
no_dependencies env s = refl

-- The manager after the arm was added.
abbrev one_arm : Manager Arm
one_arm = record { resources = (codes "a", plain_arm) ∷ []; short_names = [] }

abbrev history : List (Environment arms × Request arms)
history =
    (with_fake (ok plain_arm), remove_request (codes "x"))
    ∷ (with_fake (ok plain_arm), add_request (request (codes "a")))
    ∷ []

one_arm_served :
    lookup_resource_server arm_api (serve arms splitter history empty_service).server ≡ some one_arm
unfolding serve handle lookup_resource_server new_server Names.from_string Message.from_proto
    Model.from_str make_config Api.from_string regex_match is_word_byte split_onto splitter
    ℕ_discrete Bytes-discrete add_resource_handler get_dependencies add_dependencies add_resource
    add_short do_add_short resource remove do_remove emplace_short get_shortcut_name lookup_model
    key Api.to_string Model.to_string find emplace update Api-discrete remove_resource_handler
one_arm_served = refl

empty_manager_served :
    lookup_resource_server arm_api empty_service.server
    ≡ some (record { resources = []; short_names = [] })
unfolding lookup_resource_server new_server find emplace Api-discrete Bytes-discrete ℕ_discrete
empty_manager_served = refl

two_arms_served : lookup_resource_server arm_api full_service.server ≡ some two_arms
unfolding lookup_resource_server find Api-discrete Bytes-discrete ℕ_discrete
two_arms_served = refl

fake_registered :
    (result : Result Arm)
    → lookup_model arm_api fake (with_fake result).registry ≡ some (registration result)
unfolding lookup_model key Api.to_string Model.to_string find Bytes-discrete ℕ_discrete
fake_registered result = refl

add_resource_registered_example :
    ((add_resource_handler splitter
        (with_fake (ok plain_arm))
        (request (codes "a"))
        empty_service).1
      ≡ status_ok)
    × ((m' : Manager Arm) × (lookup_resource_server arm_api
            (add_resource_handler splitter
              (with_fake (ok plain_arm))
              (request (codes "a"))
              empty_service).0.server
          ≡ some m')
        × (resource (codes "a") m' ≡ some plain_arm))
unfolding find
add_resource_registered_example =
    add_resource_registered arms splitter (with_fake (ok plain_arm)) (request (codes "a"))
      empty_service (config (codes "a")) [] (registration (ok plain_arm)) plain_arm
      (record { resources = []; short_names = [] }) (read_config (codes "a"))
      (no_dependencies (with_fake (ok plain_arm)) (new_server ((arm_api, codes "ArmService") ∷ [])))
      (fake_registered (ok plain_arm)) refl refl empty_manager_served refl

-- The name `b` is taken.
taken_name :
    (add_resource_handler splitter
      (with_fake (ok (record plain_arm { name = codes "b" })))
      (request (codes "b"))
      full_service).1
    ≡ status_internal
unfolding lookup_resource_server Message.from_proto Model.from_str make_config Api.from_string
    regex_match is_word_byte split_onto splitter ℕ_discrete Bytes-discrete add_resource_handler
    get_dependencies add_dependencies add_resource add_short do_add_short lookup_model key
    Api.to_string Model.to_string find Api-discrete
taken_name = refl

is_internal : {r : Reply} → r ≡ status_internal → r ≢ status_ok
is_internal p q = cc

nothing_registered : lookup_model arm_api fake (no_registrations (types arms)) ≡ none
unfolding lookup_model find
nothing_registered = refl

add_resource_failed_example :
    (add_resource_handler splitter
      (with_fake (ok (record plain_arm { name = codes "b" })))
      (request (codes "b"))
      full_service).0.server
    ≡ full_service.server
add_resource_failed_example =
    add_resource_failed arms splitter (with_fake (ok (record plain_arm { name = codes "b" })))
      (request (codes "b")) full_service (λ e. is_internal taken_name e)

unregistered_model_crashes_example :
    (add_resource_handler splitter
      (environment (no_registrations (types arms)))
      (request (codes "a"))
      empty_service).1
    ≡ crashes
unregistered_model_crashes_example =
    unregistered_model_crashes arms splitter (environment (no_registrations (types arms)))
      (request (codes "a")) empty_service (config (codes "a")) [] (read_config (codes "a"))
      (no_dependencies (environment (no_registrations (types arms)))
        (new_server ((arm_api, codes "ArmService") ∷ [])))
      nothing_registered refl

arm_a : Name
arm_a = record { api = arm_api; remote_name = []; name = codes "a" }

read_arm_a : Names.from_string splitter (codes "rdk:component:arm/a") ≡ ok arm_a
unfolding Names.from_string Api.from_string regex_match is_word_byte split_onto splitter ℕ_discrete
    arm_a
read_arm_a = refl

never_throws : (a : Arm) (x : Error) → arms.stop a ≢ some (err x)
never_throws a x e = ground (arith, e)

stands_in_full : find_resource (short_name arm_a) one_arm.resources ≡ some plain_arm
unfolding find short_name Bytes-discrete ℕ_discrete arm_a
stands_in_full = refl

found_by_name : resource arm_a.name one_arm ≡ some plain_arm
unfolding resource find Bytes-discrete ℕ_discrete arm_a
found_by_name = refl

served_removal_example :
    let s = serve arms splitter history empty_service in
    let (s', reply) =
      remove_resource_handler splitter (with_fake (ok plain_arm)) (codes "rdk:component:arm/a") s in
    (reply ≡ status_ok)
    × (s'.stopped ≡ s.stopped)
    × ((m' : Manager Arm) × (lookup_resource_server arm_a.api s'.server ≡ some m')
        × (resource (short_name arm_a) m' ≡ none)
        × ((k : Bytes)
            → k ≢ short_name arm_a
            → find_resource k m'.resources ≡ find_resource k one_arm.resources))
    × ((a : Api)
        → a ≢ arm_a.api
        → lookup_resource_server a s'.server ≡ lookup_resource_server a s.server)
unfolding arm_a
served_removal_example =
    served_removal arms splitter ((arm_api, codes "ArmService") ∷ []) empty_service history
      (with_fake (ok plain_arm)) (codes "rdk:component:arm/a") arm_a one_arm plain_arm refl
      read_arm_a one_arm_served stands_in_full found_by_name (never_throws plain_arm)

short_name_absent : find_resource (short_name arm_a) two_arms.resources ≡ none
unfolding find short_name Bytes-discrete ℕ_discrete arm_a
short_name_absent = refl

shortcut_found : resource arm_a.name two_arms ≡ some remote_arm
unfolding resource find Bytes-discrete ℕ_discrete arm_a
shortcut_found = refl

remote_removal_example :
    ((remove_resource_handler splitter
        (with_fake (ok plain_arm))
        (codes "rdk:component:arm/a")
        full_service).1
      ≡ status_ok)
    × ((remove_resource_handler splitter
          (with_fake (ok plain_arm))
          (codes "rdk:component:arm/a")
          full_service).0.stopped
        ≡ remote_arm ∷ [])
    × (lookup_resource_server arm_a.api
          (remove_resource_handler splitter
            (with_fake (ok plain_arm))
            (codes "rdk:component:arm/a")
            full_service).0.server
        ≡ some two_arms)
unfolding arm_a
remote_removal_example =
    remote_removal arms splitter (with_fake (ok plain_arm)) (codes "rdk:component:arm/a") arm_a
      full_service two_arms remote_arm read_arm_a two_arms_served short_name_absent shortcut_found
      (never_throws remote_arm)

arm_b : Name
arm_b = record { api = arm_api; remote_name = []; name = codes "b" }

named_b : resource_name splitter (config (codes "b")) ≡ ok arm_b
unfolding resource_name split_onto splitter Bytes-discrete ℕ_discrete arm_b
named_b = refl

arm_b_found : resource arm_b.name two_arms ≡ some plain_arm
unfolding resource find Bytes-discrete ℕ_discrete arm_b
arm_b_found = refl

arm_b_stands : find_resource (short_name arm_b) two_arms.resources ≡ some plain_arm
unfolding find short_name Bytes-discrete ℕ_discrete arm_b
arm_b_stands = refl

reconfigure_loses_example :
    let (s', reply) =
      reconfigure_resource_handler splitter
        (with_fake (err (exception k_general)))
        (request (codes "b"))
        full_service in
    (reply ≡ status_ok)
    × ((m' : Manager Arm) × (lookup_resource_server arm_api s'.server ≡ some m')
        × (find_resource (short_name arm_b) m'.resources ≡ none)
        × ((k : Bytes)
            → k ≢ short_name arm_b
            → find_resource k m'.resources ≡ find_resource k two_arms.resources))
reconfigure_loses_example =
    reconfigure_loses arms splitter (with_fake (err (exception k_general))) (request (codes "b"))
      full_service (exception k_general) (config (codes "b")) [] arm_b
      (registration (err (exception k_general))) plain_arm two_arms (read_config (codes "b"))
      (no_dependencies (with_fake (err (exception k_general))) full_service.server) two_arms_served
      named_b arm_b_found arm_b_stands (never_throws plain_arm)
      (fake_registered (err (exception k_general))) refl
