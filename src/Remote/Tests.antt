-- ===== src/Remote/Tests.antt =====
-- Remote calls of a motor that is in the manager of a server.
use viam_cpp_sdk.Prelude.{
  ℕ, ℕ_discrete, List, [], ◌∷◌, Bytes-discrete, codes, Option, none, some, ite, finished, thrown,
  exception, k_grpc, k_general, ◌≡◌, refl, arith,
}
use viam_cpp_sdk.Prelude.Int.{ℤ, pos}
use viam_cpp_sdk.Prelude.Double.{whole_numbers}
use viam_cpp_sdk.Prelude.Dict.{find, emplace, erase}
use viam_cpp_sdk.Split.Reference.{splitter, split_onto}
use viam_cpp_sdk.Names.Name.{Name, short_name}
use viam_cpp_sdk.Manager.{Manager, adds, run, resource, get_shortcut_name, do_add, add}
use viam_cpp_sdk.Manager.Induction.{empty_manager}
use viam_cpp_sdk.Proto.{ProtoStruct, text, end, field}
use viam_cpp_sdk.Proto as Proto
use viam_cpp_sdk.Remote.{resource_as, debug_map_value, debug_map_key}
use viam_cpp_sdk.Remote.Shared.{Object}
use viam_cpp_sdk.Remote.Motor.{motor_client, motor_server, go_for, get_position, stop}
use viam_cpp_sdk.Remote.Classes.{class_of, motor, remote_call, remote_call_missing}

-- A motor that keeps the speeds it was told, and cannot be stopped.
abbrev test_motor : Object (class_of whole_numbers (List ℤ) motor)
test_motor (go_for rpm revolutions extra) s = (rpm ∷ s, finished tt)
test_motor (get_position extra) s = (s, finished (pos 7))
test_motor _ s = (s, thrown (exception k_general))

-- The resources of the server: the motor has the number 1.
abbrev cast : ℕ → Option (Object (class_of whole_numbers (List ℤ) motor))
cast r = ite (ℕ_discrete r 1) (some test_motor) none

abbrev motor_name : Name
motor_name = record {
  api = record {
    type_namespace = codes "rdk";
    resource_type = codes "component";
    resource_subtype = codes "motor";
  };
  remote_name = [];
  name = codes "m";
}

abbrev server_manager : Manager ℕ
server_manager = run splitter (adds motor_name 1 ∷ []) empty_manager

abbrev debug_extra : ProtoStruct ℤ
debug_extra = field debug_map_key (text (codes "k")) end

remote_call_example :
    motor_client whole_numbers
      (List ℤ)
      (codes "m")
      (motor_server whole_numbers (List ℤ) (resource_as cast server_manager))
      (go_for (pos 3) (pos 2) debug_extra)
      []
    ≡ (pos 3 ∷ [], finished tt)
unfolding run resource resource_as splitter split_onto ℕ_discrete Bytes-discrete find emplace erase
    add do_add short_name get_shortcut_name debug_map_value Proto.find
remote_call_example =
    remote_call whole_numbers (List ℤ) motor cast server_manager (codes "m") test_motor
      (go_for (pos 3) (pos 2) debug_extra) [] refl ((tt, tt, tt), (λ e. ground (arith, e)))
      (λ a f. tt)

remote_call_missing_example :
    motor_client whole_numbers
      (List ℤ)
      (codes "n")
      (motor_server whole_numbers (List ℤ) (resource_as cast server_manager))
      (stop end)
      []
    ≡ ([], thrown (exception k_grpc))
unfolding run resource resource_as splitter split_onto ℕ_discrete Bytes-discrete find emplace erase
    add do_add short_name get_shortcut_name debug_map_value Proto.find
remote_call_missing_example =
    remote_call_missing whole_numbers (List ℤ) motor cast server_manager (codes "n") (stop end) []
      refl (tt, (λ e. ground (arith, e)))
