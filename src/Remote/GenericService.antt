-- ===== src/Remote/GenericService.antt =====
-- `GenericService` of services/generic.hpp, and its client and server,
-- services/private/generic_client.cpp and services/private/generic_server.cpp.
pub mod Relayed
use viam_cpp_sdk.Prelude.{Bytes, Option}
use viam_cpp_sdk.Prelude.Double.{Double}
use viam_cpp_sdk.Proto.{ProtoStruct, Struct}
use viam_cpp_sdk.Proto.RoundTrip.{StructIsMaps}
use viam_cpp_sdk.Remote.{Call, Handler}
use viam_cpp_sdk.Remote.Shared.{
  Component, do_command_handler, do_command_client, get_status_handler, get_status_client,
}

module _ (d : Double) where
  open d use {D}

  -- The virtual methods; an overload without `extra` calls one with `{}`.
  pub data Method : Type 0 where
    do_command : (command : ProtoStruct D) → Method
    get_status : Method

  abbrev pub Answer : Method → Type 0
  Answer (do_command _) = ProtoStruct D
  Answer get_status = ProtoStruct D

  abbrev pub IsSent : Method → Type 0
  IsSent (do_command c) = StructIsMaps c
  IsSent _ = Unit

  abbrev pub IsCarried : (m : Method) → Answer m → Type 0
  IsCarried (do_command _) r = StructIsMaps r
  IsCarried get_status r = StructIsMaps r

  abbrev pub arrives : (m : Method) → Answer m → Answer m
  arrives m a = a

  module _ (S : Type 0) where
    abbrev pub GenericService : Type 0
    GenericService = (m : Method) → Call S (Answer m)

    -- `GenericServiceService`.
    pub record Service : Type 0 where
      pub do_command_rpc : Handler D S (Struct D) (Struct D)
      pub get_status_rpc : Handler D S (Unit {0}) (Struct D)

    unfoldable pub generic_service_server : (Bytes → Option GenericService) → Service
    generic_service_server lookup = record {
      do_command_rpc =
          do_command_handler d lookup
            (λ command generic_service. generic_service (do_command command));
      get_status_rpc = get_status_handler d lookup (λ generic_service. generic_service get_status);
    }

    -- `GenericServiceClient` is a `GenericService`.
    unfoldable pub generic_service_client : Bytes → Service → GenericService
    generic_service_client name stub (do_command command) =
        do_command_client d stub.do_command_rpc name command
    generic_service_client name stub get_status = get_status_client d stub.get_status_rpc name

    abbrev pub generic_service_component : Component S
    generic_service_component = record {
      Method = Method;
      Answer = Answer;
      Service = Service;
      server = generic_service_server;
      client = generic_service_client;
      IsSent = IsSent;
      IsCarried = IsCarried;
      arrives = arrives;
    }
