-- ===== src/Launcher/Updates.antt =====
-- launcher/launcher.py, `WLMLauncher.get_step_update`: what a launcher tells of the steps that it is
-- asked for. The queries of the workload manager and of the task manager are parameters.
pub mod Names
use smart_sim.Common.{
  ℕ, Bool, true, false, List, [], ◌∷◌, ◌++◌, map, Option, none, some, Text, codes,
}
use smart_sim.Common.Int.{ℤ}
use smart_sim.Launcher.StepInfo.{StepInfo, Psutil, unmanaged_step_info}
use smart_sim.Launcher.StepMapping.{StepMapping, get_ids}

-- str(id)
abbrev pub id_text : Option Text → Text
id_text none = codes "None"
id_text (some id) = id

-- zip(names, infos), which ends with the shorter list.
unfoldable pub zip : List Text → List StepInfo → List (Text × Option StepInfo)
zip [] infos = []
zip (name ∷ names) [] = []
zip (name ∷ names) (info ∷ infos) = (name, some info) ∷ zip names infos

-- What task_manager.get_task_update returns: a status, a return code, the output and the error.
abbrev pub TaskUpdate : Type 0
TaskUpdate = Text × Option ℤ × Option Text × Option Text

abbrev info_of : Psutil → TaskUpdate → StepInfo
info_of psutil (status, code, output, error) = unmanaged_step_info psutil status code output error

unfoldable pub get_unmanaged_step_update : Psutil → (Text → TaskUpdate) → List Text → List StepInfo
get_unmanaged_step_update psutil get_task_update [] = []
get_unmanaged_step_update psutil get_task_update (task_id ∷ task_ids) =
    info_of psutil (get_task_update task_id)
    ∷ get_unmanaged_step_update psutil get_task_update task_ids

-- The updates of one kind of step: nothing is asked if there is no such step.
unfoldable pub updates_of :
    (List Text → List StepInfo) → List Text × List (Option Text) → List (Text × Option StepInfo)
updates_of query (names, []) = []
updates_of query (names, id ∷ ids) = zip names (query (map id_text (id ∷ ids)))

unfoldable pub get_step_update :
    (List Text → List StepInfo)
    → Psutil
    → (Text → TaskUpdate)
    → StepMapping
    → List Text
    → List (Text × Option StepInfo)
unfolding updates_of
get_step_update managed_update psutil get_task_update mapping step_names =
    updates_of managed_update (get_ids step_names true mapping)
    ++ updates_of (get_unmanaged_step_update psutil get_task_update)
        (get_ids step_names false mapping)
