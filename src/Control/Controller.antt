-- ===== src/Control/Controller.antt =====
-- control/controller.py: how the controller launches a step, and how it stops an entity.
pub mod Histories
use smart_sim.Common.{
  ℕ, Bool, true, false, ◌&&◌, ◌||◌, not, List, [], ◌∷◌, Option, none, some, Text, if◌then◌else◌,
  ◌==◌,
}
use smart_sim.Common.Dict.{get?, contains}
use smart_sim.Launcher.StepInfo.{StepInfo}
use smart_sim.Status.{SmartSimStatus, is_terminal}
use smart_sim.Control.Job.{Job, Entity}
use smart_sim.Control.Manager.{
  Manager, get_item, write_item, set_status_of, move_to_completed, query_restart, restart_job,
  add_job, is_finished, get_status,
}

pub data LaunchError : Type 0 where
  launch_failed duplicate_name : LaunchError

pub data Launched : Type 0 where
  running_on : Manager → Launched
  refused : LaunchError → Launched

-- Whether the entity may be launched: its name is free, or it has run and completed.
unfoldable pub may_launch : Entity → Manager → Bool
may_launch entity m = elim (get? entity.name m.completed) [
  | none ↦ not (contains entity.name m.jobs) && not (contains entity.name m.db_jobs)
  | some job ↦ job.entity.ident == entity.ident
]

-- `restart_job` is asked only for a name that `query_restart` has found.
unfoldable pub start_job : Text → Option Text → Entity → Bool → ℕ → Manager → Option Manager
start_job step_name job_id entity is_task now m =
    if query_restart entity.name m
    then restart_job step_name job_id entity.name is_task now m
    else some (add_job step_name job_id entity is_task now m)

-- `_launch_step`, with the answer of launcher.run for the step: `none` where it raises
-- LauncherError.
unfoldable pub launch_step :
    Option (Option Text) → Text → Bool → Entity → ℕ → Manager → Option Launched
launch_step answer step_name managed entity now m =
    if may_launch entity m
    then elim answer [
      | none ↦ some (refused launch_failed)
      | some job_id ↦ elim (start_job step_name job_id entity (not managed) now m) [
        | none ↦ none
        | some n ↦ some (running_on n)
      ]
    ]
    else some (refused duplicate_name)

-- `stop_entity`, with the answer of launcher.stop; `none` where no job has the name.
unfoldable pub stop_entity : (Text → StepInfo) → Entity → ℕ → Manager → Option Manager
stop_entity stop entity now m = elim (get_item entity.name m) [
  | none ↦ none
  | some job ↦
      if is_terminal job.status
      then some m
      else let stopped = set_status_of (stop job.name) job in
        some (move_to_completed now stopped (write_item entity.name stopped m))
]
