-- ===== src/Config/Message.antt =====
-- The messages of configurations, of config/resource.cpp.
use viam_cpp_sdk.Prelude.{List, Bytes, Option, none, some, Result, ok, ◌>>=◌}
use viam_cpp_sdk.Split.{Splitter}
use viam_cpp_sdk.Logging as Logging
use viam_cpp_sdk.Logging.{LogLevel, info, level_from_string}
use viam_cpp_sdk.Spatial.Convert.{to_repeated_field}
use viam_cpp_sdk.Names.Api
use viam_cpp_sdk.Names.Model
use viam_cpp_sdk.Config.{ResourceConfig, ServiceConfig, make_config}

-- The attributes and the frame of a configuration with their messages; `default_frame` is
-- `LinkConfig{}`.
pub record Contents : Type 1 where
  pub Attributes : Type 0
  pub AttributesMessage : Type 0
  pub attributes_to_proto : Attributes → AttributesMessage
  pub attributes_from_proto : AttributesMessage → Attributes
  pub Frame : Type 0
  pub FrameMessage : Type 0
  pub frame_to_proto : Frame → FrameMessage
  pub frame_from_proto : FrameMessage → Result Frame
  pub default_frame : Frame

module _ (k : Contents) where
  abbrev pub Config : Type 0
  Config = ResourceConfig k.Attributes k.Frame

  -- `app::v1::ResourceLevelServiceConfig`.
  pub record ServiceConfigMessage : Type 0 where
    pub type : Bytes
    pub attributes : k.AttributesMessage

  -- `app::v1::ComponentConfig`; `log_configuration` has a level alone.
  pub record ComponentConfig : Type 0 where
    pub service_configs : List ServiceConfigMessage
    pub name : Bytes
    pub namespace : Bytes
    pub type : Bytes
    pub api : Bytes
    pub log_configuration : Option Bytes
    pub model : Bytes
    pub attributes : k.AttributesMessage
    pub depends_on : List Bytes
    pub frame : Option k.FrameMessage

abbrev pub log_level_of : Option Bytes → LogLevel
log_level_of none = info
log_level_of (some level) = level_from_string level

module _ (k : Contents) where
  abbrev pub service_config_to_proto : ServiceConfig k.Attributes → ServiceConfigMessage k
  service_config_to_proto self = record {
    type = self.type;
    attributes = k.attributes_to_proto self.attributes;
  }

  unfoldable pub to_proto : Config k → ComponentConfig k
  to_proto self = record {
    service_configs = to_repeated_field service_config_to_proto self.service_config;
    name = self.name;
    namespace = self.namespace;
    type = self.type;
    api = Api.to_string self.api;
    log_configuration = some (Logging.to_string self.log_level);
    model = Model.to_string self.model;
    attributes = k.attributes_to_proto self.attributes;
    depends_on = self.depends_on;
    frame = elim self.frame [ none ↦ none | some frame ↦ some (k.frame_to_proto frame) ];
  }

  abbrev pub frame_of : Option k.FrameMessage → Result k.Frame
  frame_of none = ok k.default_frame
  frame_of (some frame) = k.frame_from_proto frame

  -- Where several parts of the message are refused, the order of the arguments of the constructor is
  -- not specified: the model comes first here.
  unfoldable pub from_proto : Splitter → ComponentConfig k → Result (Config k)
  from_proto b proto = do
    model ← Model.from_str b proto.model
    frame ← frame_of proto.frame
    make_config b proto.type proto.name proto.namespace (k.attributes_from_proto proto.attributes)
        proto.api model (some frame) (log_level_of proto.log_configuration)
