-- ===== src/Wlm/Local.antt =====
-- launcher/local/local.py: the launcher of processes on this machine.
use smart_sim.Common.{false, List, map, Option, none, some, Text, codes}
use smart_sim.Common.Dict.{get?}
use smart_sim.Common.Results.{Outcome, returned, raised}
use smart_sim.Launcher.StepInfo.{StepInfo, Psutil, unmanaged_step_info}
use smart_sim.Launcher.StepMapping.{add, get_ids}
use smart_sim.Launcher.Updates.{TaskUpdate, id_text, zip, get_unmanaged_step_update}
use smart_sim.Tasks.{Task, Processes, start_task, remove_task, get_task_update}
use smart_sim.Wlm.{Launcher, LaunchError, unknown_step, start_monitor}

-- The process of the step is the one that start_task starts; its pid is returned.
unfoldable pub run : Task → Text → Launcher → Launcher × Text
unfolding start_monitor start_task add
run task name l =
    let (manager, task_id) = start_task task (start_monitor l.task_manager) in
    (
      record {
        task_manager = manager;
        step_mapping = add name none (some task_id) false l.step_mapping;
      },
      task_id,
    )

unfoldable pub get_step_update :
    Psutil → Processes → List Text → Launcher → List (Text × Option StepInfo)
unfolding get_ids get_unmanaged_step_update get_task_update zip
get_step_update names psutil step_names l =
    let (s_names, s_ids) = get_ids step_names false l.step_mapping in
    zip s_names
      (get_unmanaged_step_update names (get_task_update psutil l.task_manager) (map id_text s_ids))

abbrev cancelled : Psutil → TaskUpdate → StepInfo
cancelled names (status, code, output, error) =
    unmanaged_step_info names (codes "Cancelled") code output error

-- psutil is asked again for the update, with what it tells `after` the removal.
unfoldable pub stop :
    Psutil → (psutil after : Processes) → Text → Launcher → Launcher × Outcome LaunchError StepInfo
unfolding remove_task get_task_update
stop names psutil after step_name l = elim (get? step_name l.step_mapping) [
  | none ↦ (l, raised (unknown_step step_name))
  | some m ↦
      let manager = remove_task psutil (id_text m.task_id) l.task_manager in
      (
        record l { task_manager = manager },
        returned (cancelled names (get_task_update after manager (id_text m.task_id))),
      )
]
