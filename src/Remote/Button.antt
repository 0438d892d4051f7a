-- ===== src/Remote/Button.antt =====
-- `Button` of components/button.hpp, and its client and server, components/private/button_client.cpp and
-- components/private/button_server.cpp.
pub mod Relayed
use viam_cpp_sdk.Prelude.{Bytes, Option, finished}
use viam_cpp_sdk.Prelude.Double.{Double}
use viam_cpp_sdk.Proto.{ProtoStruct, Struct}
use viam_cpp_sdk.Proto.RoundTrip.{StructIsMaps}
use viam_cpp_sdk.Remote.{Call, Handler}
use viam_cpp_sdk.Remote.Laws.{IsSendable}
use viam_cpp_sdk.Remote.Shared.{
  Component, same, do_command_handler, do_command_client, get_status_handler, get_status_client,
  extra_handler, extra_client,
}

module _ (d : Double) where
  open d use {D}

  -- The virtual methods; an overload without `extra` calls one with `{}`.
  pub data Method : Type 0 where
    push : (extra : ProtoStruct D) → Method
    do_command : (command : ProtoStruct D) → Method
    get_status : Method

  abbrev pub Answer : Method → Type 0
  Answer (do_command _) = ProtoStruct D
  Answer get_status = ProtoStruct D
  Answer _ = Unit

  abbrev pub IsSent : Method → Type 0
  IsSent (push e) = IsSendable e
  IsSent (do_command c) = StructIsMaps c
  IsSent _ = Unit

  abbrev pub IsCarried : (m : Method) → Answer m → Type 0
  IsCarried (do_command _) r = StructIsMaps r
  IsCarried get_status r = StructIsMaps r
  IsCarried _ r = Unit

  abbrev pub arrives : (m : Method) → Answer m → Answer m
  arrives m a = a

  module _ (S : Type 0) where
    abbrev pub Button : Type 0
    Button = (m : Method) → Call S (Answer m)

    -- `ButtonService`.
    pub record Service : Type 0 where
      pub push_rpc : Handler D S (Unit {0}) (Unit {0})
      pub do_command_rpc : Handler D S (Struct D) (Struct D)
      pub get_status_rpc : Handler D S (Unit {0}) (Struct D)

    unfoldable pub button_server : (Bytes → Option Button) → Service
    button_server lookup = record {
      push_rpc = extra_handler d same lookup (λ extra button. button (push extra));
      do_command_rpc = do_command_handler d lookup (λ command button. button (do_command command));
      get_status_rpc = get_status_handler d lookup (λ button. button get_status);
    }

    -- `ButtonClient` is a `Button`.
    unfoldable pub button_client : Bytes → Service → Button
    button_client name stub (push extra) = extra_client d finished stub.push_rpc name extra
    button_client name stub (do_command command) =
        do_command_client d stub.do_command_rpc name command
    button_client name stub get_status = get_status_client d stub.get_status_rpc name

    abbrev pub button_component : Component S
    button_component = record {
      Method = Method;
      Answer = Answer;
      Service = Service;
      server = button_server;
      client = button_client;
      IsSent = IsSent;
      IsCarried = IsCarried;
      arrives = arrives;
    }
