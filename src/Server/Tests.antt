-- ===== src/Server/Tests.antt =====
-- The theorems on a server with one API that is started.
use viam_cpp_sdk.Prelude.{
  finished, thrown, crashed, true, false, [], ◌∷◌, Bytes, codes, none, some, exception, k_general,
  ◌≡◌, refl,
}
use viam_cpp_sdk.Split.Reference.{splitter}
use viam_cpp_sdk.Registry.Resources.{component}
use viam_cpp_sdk.Server.{
  ResourceClass, Builder, Server, new_server, register_service, add_listening_port, start,
}
use viam_cpp_sdk.Server.Lifecycle.{
  Reach, here, next, registers, starts, running_server_frozen, start_twice_crashes,
}

abbrev named : ResourceClass
named = record { Resource = Bytes; api = λ _. component (codes "arm"); name = λ n. n }

abbrev fresh : Server named
fresh = new_server ((component (codes "arm"), codes "ArmService") ∷ [])

abbrev built_from : Builder
built_from = record { services = codes "ArmService" ∷ codes "ModuleService" ∷ []; ports = [] }

abbrev registered : Server named
registered = record fresh { builder = some built_from }

abbrev running : Server named
running = record fresh { builder = none; server = some built_from }

started : Reach splitter fresh running
unfolding new_server register_service start
started =
    next {t = registered} (next {t = fresh} here (registers (codes "ModuleService") refl))
      (starts true refl)

running_server_frozen_example :
    (running.server ≡ some built_from)
    × (register_service (codes "x") running ≡ thrown (exception k_general))
    × (add_listening_port (codes "x") running ≡ thrown (exception k_general))
    × (start true running ≡ thrown (exception k_general))
running_server_frozen_example =
    running_server_frozen splitter ((component (codes "arm"), codes "ArmService") ∷ []) running
      running built_from (codes "x") (codes "x") true started refl here

-- No server is built.
abbrev failed : Server named
failed = record fresh { builder = none; server = none }

failed_to_start : start false fresh ≡ finished failed
unfolding start new_server
failed_to_start = refl

start_twice_crashes_example : start true failed ≡ crashed
start_twice_crashes_example = start_twice_crashes fresh failed true failed_to_start
