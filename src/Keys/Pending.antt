-- ===== src/Keys/Pending.antt =====
-- KeyStorage.cpp: the list of the key directories whose upgrade waits for the checkpoint.
pub mod Lists
mod Moves
pub mod States
mod Calls
mod Upgrades
mod Storage
use platform_system_vold.Base.{List}
use platform_system_vold.Keys.World.{System, World}
use platform_system_vold.Keys.Operations.{KeyOp, run, run_induction}
use States.{IsSound}
use Storage.{perform-IsSound}

-- From a state in which no directory is listed twice and each listed directory holds an upgraded
-- key, every sequence of operations, with whatever failures, leads to such a state.
pub run-IsSound :
    (sys : System) (ops : List KeyOp) (w : World) → IsSound sys w → IsSound sys (run sys ops w)
run-IsSound sys = run_induction sys (perform-IsSound sys)
