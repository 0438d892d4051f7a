-- ===== src/Remote/Switch.antt =====
-- `Switch` of components/switch.hpp, and its client and server, components/private/switch_client.cpp and
-- components/private/switch_server.cpp.
pub mod Relayed
use viam_cpp_sdk.Prelude.{
  Bool, true, List, [], ◌∷◌, Bytes, Option, Outcome, finished, thrown, crashed, ◌≡◌, ℕ, exception,
  k_general,
}
use viam_cpp_sdk.Prelude.Double.{Double}
use viam_cpp_sdk.Proto.{ProtoStruct, Struct}
use viam_cpp_sdk.Proto.RoundTrip.{StructIsMaps}
use viam_cpp_sdk.Prelude.{length, if◌then◌else◌, ◌==◌, ◌%◌, ◌^◌}
use viam_cpp_sdk.Remote.{Call, Handler, service_helper, get_extra, invoke_with, responds}
use viam_cpp_sdk.Remote.Laws.{IsSendable}
use viam_cpp_sdk.Remote.Shared.{
  Component, same, do_command_handler, do_command_client, get_status_handler, get_status_client,
  extra_handler, extra_client,
}

module _ (d : Double) where
  open d use {D}

  pub record PositionInfo : Type 0 where
    pub num_positions : ℕ
    pub position_labels : List Bytes

  pub record GetNumberOfPositions : Type 0 where
    pub number_of_positions : ℕ
    pub labels : List Bytes

  -- Labels are as many as the positions, or none; their number is cast to 32 bits.
  unfoldable pub labels_match : ℕ → List Bytes → Bool
  labels_match n [] = true
  labels_match n (x ∷ labels) = length (x ∷ labels) % 2 ^ 32 == n

  abbrev pub kept : {A : Type 0} → (A → Bool) → Outcome A → Outcome A
  kept test (finished a) = if test a then finished a else thrown (exception k_general)
  kept test (thrown e) = thrown e
  kept test crashed = crashed

  -- What is returned is tested before it is set in the response.
  abbrev pub throw_unless : {S A : Type 0} → (A → Bool) → Call S A → Call S A
  throw_unless test call s = let (s', o) = call s in (s', kept test o)

  abbrev pub info_from_proto : GetNumberOfPositions → Outcome PositionInfo
  info_from_proto response =
      if labels_match response.number_of_positions response.labels
      then finished (record {
        num_positions = response.number_of_positions;
        position_labels = response.labels;
      })
      else thrown (exception k_general)

  -- The virtual methods; an overload without `extra` calls one with `{}`.
  pub data Method : Type 0 where
    set_position : (position : ℕ) (extra : ProtoStruct D) → Method
    get_position : (extra : ProtoStruct D) → Method
    get_number_of_positions : (extra : ProtoStruct D) → Method
    do_command : (command : ProtoStruct D) → Method
    get_status : Method

  abbrev pub Answer : Method → Type 0
  Answer (get_position _) = ℕ
  Answer (get_number_of_positions _) = PositionInfo
  Answer (do_command _) = ProtoStruct D
  Answer get_status = ProtoStruct D
  Answer _ = Unit

  abbrev pub IsSent : Method → Type 0
  IsSent (set_position _ e) = IsSendable e
  IsSent (get_position e) = IsSendable e
  IsSent (get_number_of_positions e) = IsSendable e
  IsSent (do_command c) = StructIsMaps c
  IsSent _ = Unit

  abbrev pub IsCarried : (m : Method) → Answer m → Type 0
  IsCarried (get_number_of_positions _) r = labels_match r.num_positions r.position_labels ≡ true
  IsCarried (do_command _) r = StructIsMaps r
  IsCarried get_status r = StructIsMaps r
  IsCarried _ r = Unit

  abbrev pub arrives : (m : Method) → Answer m → Answer m
  arrives m a = a

  module _ (S : Type 0) where
    abbrev pub Switch : Type 0
    Switch = (m : Method) → Call S (Answer m)

    -- `SwitchService`.
    pub record Service : Type 0 where
      pub set_position_rpc : Handler D S ℕ (Unit {0})
      pub get_position_rpc : Handler D S (Unit {0}) ℕ
      pub get_number_of_positions_rpc : Handler D S (Unit {0}) GetNumberOfPositions
      pub do_command_rpc : Handler D S (Struct D) (Struct D)
      pub get_status_rpc : Handler D S (Unit {0}) (Struct D)

    unfoldable pub switch_server : (Bytes → Option Switch) → Service
    switch_server lookup = record {
      set_position_rpc = service_helper lookup (λ request switch.
          responds same (switch (set_position request.fields (get_extra request))));
      get_position_rpc = extra_handler d same lookup (λ extra switch. switch (get_position extra));
      get_number_of_positions_rpc =
          extra_handler d
            (λ info. record {
              number_of_positions = info.num_positions;
              labels = info.position_labels;
            })
            lookup
            (λ extra switch.
              throw_unless (λ info. labels_match info.num_positions info.position_labels)
                (switch (get_number_of_positions extra)));
      do_command_rpc = do_command_handler d lookup (λ command switch. switch (do_command command));
      get_status_rpc = get_status_handler d lookup (λ switch. switch get_status);
    }

    -- `SwitchClient` is a `Switch`.
    unfoldable pub switch_client : Bytes → Service → Switch
    switch_client name stub (set_position position extra) =
        invoke_with stub.set_position_rpc name extra position finished
    switch_client name stub (get_position extra) =
        extra_client d finished stub.get_position_rpc name extra
    switch_client name stub (get_number_of_positions extra) =
        extra_client d info_from_proto stub.get_number_of_positions_rpc name extra
    switch_client name stub (do_command command) =
        do_command_client d stub.do_command_rpc name command
    switch_client name stub get_status = get_status_client d stub.get_status_rpc name

    abbrev pub switch_component : Component S
    switch_component = record {
      Method = Method;
      Answer = Answer;
      Service = Service;
      server = switch_server;
      client = switch_client;
      IsSent = IsSent;
      IsCarried = IsCarried;
      arrives = arrives;
    }
