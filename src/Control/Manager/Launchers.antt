-- ===== src/Control/Manager/Launchers.antt =====
-- The launchers of launcher/launcher.py as launchers of the job manager.
use smart_sim.Common.{List, Text}
use smart_sim.Control.Manager.Rounds.{IsLauncher}
use smart_sim.Launcher.StepInfo.{StepInfo, Psutil}
use smart_sim.Launcher.StepMapping.{StepMapping}
use smart_sim.Launcher.Updates.{TaskUpdate, get_step_update}
use smart_sim.Launcher.Updates.Names.{get_step_update-mem}

-- A launcher tells only of the steps that it is asked for, whatever its map has and whatever the
-- workload manager and the task manager answer.
pub get_step_update-IsLauncher :
    (managed_update : List Text → List StepInfo) (psutil : Psutil)
    (get_task_update : Text → TaskUpdate) (mapping : StepMapping)
    → IsLauncher (get_step_update managed_update psutil get_task_update mapping)
unfolding IsLauncher
get_step_update-IsLauncher managed_update psutil get_task_update mapping =
    get_step_update-mem managed_update psutil get_task_update mapping
