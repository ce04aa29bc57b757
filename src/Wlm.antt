-- ===== src/Wlm.antt =====
-- The launchers of smartsim/_core/launcher: how they start a step, what they note of it, and how they
-- stop it. The commands of the workload manager, and the processes, are parameters of each call.
pub mod Local
pub mod Slurm
pub mod Lsf
pub mod Stops
pub mod Starts
pub mod Cancels
pub mod Restored
mod Tests
use smart_sim.Common.{Bool, false, true, Text, if◌then◌else◌, Option, some, none, map}
use smart_sim.Common.Dict.{get?}
use smart_sim.Launcher.StepInfo.{StepInfo}
use smart_sim.Launcher.StepMapping.{StepMapping}
use smart_sim.Tasks.{TaskManager}

-- What launcher.py keeps of a launcher.
pub record Launcher : Type 0 where
  pub task_manager : TaskManager
  pub step_mapping : StepMapping

-- A batch script, a step of the manager's own launch command, or another process (MPI, local).
pub data StepKind : Type 0 where
  batch direct other : StepKind

pub record Step : Type 0 where
  pub name : Text
  pub kind : StepKind
  pub managed : Bool

-- The exceptions, by what has gone wrong.
pub data LaunchError : Type 0 where
  -- LauncherError
  not_available : LaunchError
  submission_failed : LaunchError
  no_step_id : LaunchError
  no_step_info : LaunchError
  -- IndexError
  index_error : LaunchError
  -- KeyError
  unknown_step : Text → LaunchError

-- self.task_manager.start(), unless it runs
unfoldable pub start_monitor : TaskManager → TaskManager
start_monitor m = if m.actively_monitoring then m else record m { actively_monitoring = true }
