-- ===== src/Config.antt =====
-- `ResourceConfig` of config/resource.hpp and config/resource.cpp. The attributes and the frame are
-- values of any type. The fields that nothing reads are left out.
pub mod Fix
pub mod Message
pub mod ResourceName
pub mod RoundTrip
pub mod Sdk
mod Tests
use viam_cpp_sdk.Prelude.{
  ℕ, Bool, true, false, ◌||◌, ◌&&◌, not, ◌==◌, List, [], ◌∷◌, ◌++◌, Bytes, codes, Bytes-discrete,
  ite, if◌then◌else◌, Option, none, some, Result, ok, err, exception, k_general, at, ◌>>=◌,
}
use viam_cpp_sdk.Split.{Splitter}
use viam_cpp_sdk.Names.Api
use viam_cpp_sdk.Names.Api.{Api}
use viam_cpp_sdk.Names.Model.{Model}
use viam_cpp_sdk.Names.Name.{Name}
use viam_cpp_sdk.Logging.{LogLevel}

-- `ResourceLevelServiceConfig`.
pub record ServiceConfig (Attributes : Type 0) : Type 0 where
  pub type : Bytes
  pub attributes : Attributes

module _ (Attributes Frame : Type 0) where
  pub record ResourceConfig : Type 0 where
    pub api : Api
    pub frame : Option Frame
    pub model : Model
    pub name : Bytes
    pub namespace : Bytes
    pub type : Bytes
    pub depends_on : List Bytes
    pub service_config : List (ServiceConfig Attributes)
    pub attributes : Attributes
    pub log_level : LogLevel

abbrev pub is_empty : Bytes → Bool
is_empty [] = true
is_empty (_ ∷ _) = false

abbrev pub rdk : Bytes
rdk = codes "rdk"

abbrev pub api_of : Bytes → Bytes → Bytes → Api
api_of ns t s = record { type_namespace = ns; resource_type = t; resource_subtype = s }

-- `api.find(':') != npos`.
unfoldable pub has_colon : Bytes → Bool
has_colon [] = false
has_colon (c ∷ s) = c == b':' || has_colon s

module _ {Attributes Frame : Type 0} where
  abbrev pub with_names :
      ResourceConfig Attributes Frame → Api → Bytes → Bytes → ResourceConfig Attributes Frame
  with_names c api namespace type = record {
    api = api;
    frame = c.frame;
    model = c.model;
    name = c.name;
    namespace = namespace;
    type = type;
    depends_on = c.depends_on;
    service_config = c.service_config;
    attributes = c.attributes;
    log_level = c.log_level;
  }

  -- The three parts of `fix_api`: the namespace, the type of the resource and its subtype.
  abbrev pub fix_namespace : ResourceConfig Attributes Frame → ResourceConfig Attributes Frame
  fix_namespace c =
      if is_empty c.api.type_namespace && is_empty c.namespace
      then with_names c (api_of rdk c.api.resource_type c.api.resource_subtype) rdk c.type
      else if is_empty c.api.type_namespace
      then with_names c (api_of c.namespace c.api.resource_type c.api.resource_subtype) c.namespace
          c.type
      else with_names c c.api c.api.type_namespace c.type

  abbrev pub fix_type : ResourceConfig Attributes Frame → ResourceConfig Attributes Frame
  fix_type c =
      if is_empty c.api.resource_type
      then with_names c (api_of c.api.type_namespace (codes "component") c.api.resource_subtype)
          c.namespace c.type
      else c

  abbrev pub fix_subtype : ResourceConfig Attributes Frame → ResourceConfig Attributes Frame
  fix_subtype c =
      if is_empty c.api.resource_subtype
      then with_names c (api_of c.api.type_namespace c.api.resource_type c.type) c.namespace c.type
      else if is_empty c.type
      then with_names c c.api c.namespace c.api.resource_subtype
      else c

  -- The test at the end of `fix_api`.
  abbrev pub check_names :
      ResourceConfig Attributes Frame → Result (ResourceConfig Attributes Frame)
  check_names c =
      ite (Bytes-discrete c.api.type_namespace c.namespace)
        (ite (Bytes-discrete c.api.resource_subtype c.type) (ok c) (err (exception k_general)))
        (err (exception k_general))

  unfoldable pub fix_api :
      ResourceConfig Attributes Frame → Result (ResourceConfig Attributes Frame)
  fix_api c = check_names (fix_subtype (fix_type (fix_namespace c)))

  -- The constructors, with and without a frame.
  unfoldable pub make_config :
      Splitter
      → Bytes
      → Bytes
      → Bytes
      → Attributes
      → Bytes
      → Model
      → Option Frame
      → LogLevel
      → Result (ResourceConfig Attributes Frame)
  unfolding fix_api has_colon
  make_config b type name namespace attributes api model frame lvl = do
    a ← if has_colon api then Api.from_string b api else ok (api_of rdk type [])
    fix_api (record {
      api = a;
      frame = frame;
      model = model;
      name = name;
      namespace = namespace;
      type = type;
      depends_on = [];
      service_config = [];
      attributes = attributes;
      log_level = lvl;
    })

-- `remotes.back()` and the sum of the others onto the start of the `accumulate`.
unfoldable pub last_and_sum : Bytes → Bytes → List Bytes → Bytes × Bytes
last_and_sum acc x [] = (acc, x)
last_and_sum acc x (y ∷ r) = last_and_sum (acc ++ x) y r

-- The remote and the short name of `resource_name`; a split has a part at least.
unfoldable pub remote_of : List Bytes → Bytes × Bytes
unfolding last_and_sum
remote_of [] = ([], [])
remote_of (x ∷ []) = ([], x)
remote_of (x ∷ y ∷ r) = last_and_sum (codes ":") x (y ∷ r)

module _ {Attributes Frame : Type 0} where
  unfoldable pub resource_name : Splitter → ResourceConfig Attributes Frame → Result Name
  unfolding fix_api remote_of
  resource_name b c = do
    fixed ← fix_api c
    let (remote, str_name) = remote_of (b.split b':' fixed.name)
    ok (record { api = fixed.api; remote_name = remote; name = str_name })
