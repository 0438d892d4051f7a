-- ===== src/Config/Sdk.antt =====
-- Configurations with the attributes and the frames that the SDK has: `ProtoStruct` and `LinkConfig`.
use viam_cpp_sdk.Prelude.{ok, ◌≡◌}
use viam_cpp_sdk.Prelude.Double.{Double}
use viam_cpp_sdk.Split.{Splitter}
use viam_cpp_sdk.Names.Api.Parse as ApiParse
use viam_cpp_sdk.Names.Model.Parse as ModelParse
use viam_cpp_sdk.Proto.{ProtoStruct, Struct, to_struct, from_struct}
use viam_cpp_sdk.Proto.RoundTrip.{StructIsMaps, struct-from_proto-to_proto}
use viam_cpp_sdk.Spatial.Frame as Frame
use viam_cpp_sdk.Spatial.Frame.{
  LinkConfig, FrameMessage, default_link, plain_geometry, frame-from_proto-to_proto,
}
use viam_cpp_sdk.Config.Message.{Contents, Config, from_proto, to_proto}
use viam_cpp_sdk.Config.RoundTrip.{received, config-from_proto-to_proto}

abbrev pub sdk_contents : Double → Contents
sdk_contents d = record {
  Attributes = ProtoStruct d.D;
  AttributesMessage = Struct d.D;
  attributes_to_proto = to_struct;
  attributes_from_proto = from_struct;
  Frame = LinkConfig d;
  FrameMessage = FrameMessage d;
  frame_to_proto = Frame.to_proto d;
  frame_from_proto = Frame.from_proto d;
  default_frame = default_link d;
}

-- A configuration of a resource whose names are complete and agree, with a valid API and a valid model,
-- and whose attributes have each key once, comes back from its message with its names, its model and
-- its attributes. Its frame loses the orientation of its geometry, and is the default one if there is
-- none; a level `fatal` becomes `error`; the dependencies and the configurations of services are lost.
pub resource_config-from_proto-to_proto :
    (d : Double) (b : Splitter) (c : Config (sdk_contents d))
    → StructIsMaps c.attributes
    → ApiParse.IsValid c.api
    → ModelParse.IsValid c.model
    → c.api.type_namespace ≡ c.namespace
    → c.api.resource_subtype ≡ c.type
    → from_proto (sdk_contents d) b (to_proto (sdk_contents d) c)
      ≡ ok (received (sdk_contents d) (plain_geometry d) c)
resource_config-from_proto-to_proto d b c maps va vm n t =
    config-from_proto-to_proto (sdk_contents d) b (plain_geometry d) c
      (struct-from_proto-to_proto c.attributes maps) (frame-from_proto-to_proto d) va vm n t
