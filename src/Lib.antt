-- ===== src/Lib.antt =====
-- The Viam C++ SDK: the names, registries, conversions and checks that its clients, servers and
-- modules share, modelled from the sources under src/viam/sdk.
--
-- A robot's resources are named by an API, a remote and a short name. A module or a server keeps its
-- resources in a `ResourceManager` under their short names, finds the code for a model or an API in
-- the `Registry`, and exchanges values with other processes as protobuf messages. The parts:
--
-- Prelude     lists, texts as bytes, what the code throws, associative containers, integers, and
--             the interface `Double` for floating-point numbers.
-- Split       `boost::split` at one byte, which is not in the repository, as an interface;
--             Split/Reference shows that its laws determine one function, and gives it.
-- Regex       the part of `std::regex` that resource_api.cpp uses, with the language of an
--             expression in Regex/Language.
-- Names       resource/resource_api.cpp and `long_name_to_remote_and_short` of common/utils.cpp.
--             Names/Api is `API`, Names/Model is `ModelFamily` and `Model`, Names/Name is `Name` and
--             `RPCSubtype`. `to_string`, `from_string`, `from_str`, `to_proto` and `from_proto` keep
--             their names; the modules under them hold the proofs.
-- Manager     resource/resource_manager.cpp. A `Manager` is the two maps, `resources_` and
--             `short_names_`; each method under the lock is a function from a manager to a manager,
--             and `run` is a sequence of calls. Manager/Refinement relates it to a map of resources
--             alone, Manager/Invariant and Manager/Coverage to what the shortcuts lead to.
-- Registry    registry/registry.cpp. `Registry` is the three maps; `register_model`,
--             `register_resource_server`, `register_resource_client` and the lookups keep their
--             names. Registry/Resources is `register_resources`. Models and APIs come from Names.
-- ModelTable  referenceframe/kinematics_model_table.cpp behind `parse_urdf`. ModelTable/Joint is
--             `to_row`, ModelTable/Chain `walk_urdf_chain`, ModelTable/Tensor the two conversions
--             between a table and a tensor.
-- Spatial     spatialmath/orientation.cpp, spatialmath/geometry.cpp, common/pose.cpp, common/mesh.cpp
--             and common/kinematics.cpp: the values and the messages they are sent as. Spatial/Frame
--             is referenceframe/frame.cpp, Spatial/WorldState common/world_state.cpp. They and the
--             kinematic model use geometries and orientations; Spatial/Convert is
--             common/private/repeated_ptr_convert.hpp.
-- Trajectory  components/private/arm_trajectory_validation.cpp: the validator of a stream of points.
-- HandlerMap  module/handler_map.cpp: the models that a module has for each API, and their message.
-- Config      config/resource.cpp: the constructors are `make_config`; `fix_api` and `resource_name`
--             keep their names. Config/Message is the messages of configurations, over `Contents`, the
--             messages of the attributes and of the frame; Config/Sdk gives those of Proto and Spatial/Frame.
--             Config/Fix, Config/ResourceName and Config/RoundTrip hold the proofs.
-- Logging     the levels of log/logging.cpp, as configurations and messages name them.
-- Proto       common/proto_value.cpp: `ProtoValue`, `ProtoList` and `ProtoStruct` and their messages.
-- Remote      a call from a client to a component in another process. Remote.antt is `ServiceHelper`
--             of common/private/service_helper.hpp and `ClientHelper` of common/client_helper.hpp;
--             Remote/Shared the code that the clients and servers of components/private and
--             services/private repeat, and what a component is to a caller; a file per component its
--             client and its server, such as `motor_client` and `motor_server` in Remote/Motor, for
--             each modelled method of the class and each call of the service. Remote/Classes puts
--             them behind one interface, `Component`, over the resource manager. Remote/Maps is on
--             loops that copy a map, Remote/Int32 on casts; Remote/MotionRequests and
--             Remote/MotionPlans are what the motion service is sent and sends.
-- Server      rpc/server.cpp: the server, its services and ports until it starts.
-- ModuleService
--             module/service.cpp: what a module answers to viam-server. A `World` says what
--             resources, attributes and frames are and what `stop` does; an `Environment` is the
--             registry, the clock and what viam-server answers. `Handlers` has a function per
--             request, `Managers` and the files beside it the proofs. It uses Registry, Manager,
--             Config, HandlerMap and Server.
-- Time        the conversions of time points and durations in common/utils.cpp. Time/Laws is on what
--             comes back, Time/Rounding on how durations are rounded.
--
-- What throws returns a `Result`: `exception` with its `ErrorCondition`, or `out_of_range` of a
-- checked access. A null pointer or an empty optional is `none`. Protobuf messages are records of
-- their fields, with an option for a field that is a message.
--
-- Bounds. `walk_urdf_chain` loops until it meets a link again; the model walks on fuel, two rounds
-- more than there are joints, and the walk is shown to end within it. Every other loop is by
-- recursion on a list. Counts of time are integers without the limit of 64 bits. The order of an
-- `unordered_map` or of a map of protobuf is not specified; it is the order of a list over which the
-- theorems range. Casts to 32 bits wrap around. `float` is the same interface as `double`.
--
-- Parameters. The registry's constructors, what a resource does, the answers of viam-server and the
-- clock are arguments of the handlers. A component is a function from a state to a state and an
-- outcome for each of its methods. gRPC calls the handler of the other process, on a thread of its own,
-- with the request as the client sent it, and gives back its status and response.
--
-- Not modelled: messages of exceptions and log lines; hashes; `parse_urdf`, which reads a
-- `boost::property_tree`; generated protobuf code; connections, deadlines and metadata of calls,
-- streams and threads; constructors of the registry that return a null pointer, and services
-- without a descriptor; the kinematics of arms and gantries over gRPC; board, audio in, and the
-- services but motion and the generic one; the client of a robot; dialling; signals; traces.
pub mod Prelude
pub mod Split
pub mod Regex
pub mod Names
pub mod Manager
pub mod ModelTable
pub mod Registry
pub mod Spatial
pub mod Trajectory
pub mod Time
pub mod Logging
pub mod Proto
pub mod Remote
pub mod Config
pub mod HandlerMap
pub mod Server
pub mod ModuleService
