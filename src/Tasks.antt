-- ===== src/Tasks.antt =====
-- launcher/taskManager.py: the tasks of the asynchronous shell interface and what has become of them.
-- What psutil tells of a process is a parameter of each operation, as it is at the time of the call.
pub mod Invariant
pub mod Histories
pub mod Rounds
pub mod Drained
pub mod Reported
mod Tests
use smart_sim.Common.{
  ℕ, zero, suc, Bool, true, false, List, [], ◌∷◌, ◌++◌, Option, none, some, Text, codes, text_eq,
  if◌then◌else◌, length, get_elem?, ◌==◌, ◌&&◌,
}
use smart_sim.Common.Int.{ℤ, pos, negsuc, is_nonzero}
use smart_sim.Common.Dict.{Dict, get?, set}
use smart_sim.Launcher.Updates.{TaskUpdate}

-- `owned`: the process is a psutil.Popen, not a psutil.Process.
pub record Task : Type 0 where
  pub pid : Text
  pub owned : Bool

-- What the calls of psutil give for a task.
pub record Processes : Type 0 where
  pub poll : Task → Option ℤ
  pub communicate : Task → Option Text × Option Text
  pub is_running : Task → Bool
  -- `none`: NoSuchProcess is raised
  pub status : Task → Option Text
  -- `false`: a kill of the children or of the process raises NoSuchProcess
  pub can_kill : Task → Bool
  -- is_running() and poll() when kill() has returned
  pub runs_on : Task → Bool
  pub poll_killed : Task → Option ℤ
  -- `none`: psutil.Process(pid) raises NoSuchProcess or AccessDenied
  pub find_process : Text → Option Task

abbrev pub History : Type 0
History = Option ℤ × Option Text × Option Text

pub record TaskManager : Type 0 where
  pub actively_monitoring : Bool
  pub task_history : Dict History
  pub tasks : List Task

abbrev pub init : TaskManager
init = record { actively_monitoring = false; task_history = []; tasks = [] }

-- Task.returncode of a process that is not ours
abbrev code_of : Bool → Option ℤ
code_of running = if running then none else some (pos 0)

unfoldable pub check_status : Processes → Task → Option ℤ
check_status psutil task = if task.owned then psutil.poll task else code_of (psutil.is_running task)

-- Task.check_status after Task.kill
unfoldable pub check_killed : Processes → Task → Option ℤ
check_killed psutil task =
    if task.owned then psutil.poll_killed task else code_of (psutil.runs_on task)

unfoldable pub get_io : Processes → Task → Option Text × Option Text
get_io psutil task = if task.owned then psutil.communicate task else (none, none)

unfoldable pub add_task_history :
    Text → Option ℤ → Option Text × Option Text → TaskManager → TaskManager
add_task_history task_id code (output, error) m = record m {
  task_history = set task_id (code, output, error) m.task_history;
}

-- self[task_id]: the first task with this pid, `none` where KeyError is raised.
unfoldable pub get_item : Text → List Task → Option Task
get_item task_id [] = none
get_item task_id (task ∷ tasks) =
    if text_eq task.pid task_id then some task else get_item task_id tasks

-- self.tasks.remove(self[task_id]): the tasks before that one have other pids.
unfoldable pub remove : Text → List Task → List Task
remove task_id [] = []
remove task_id (task ∷ tasks) =
    let rest = remove task_id tasks in if text_eq task.pid task_id then tasks else task ∷ rest

unfoldable pub drop_task : Text → TaskManager → TaskManager
unfolding remove
drop_task task_id m = record m { tasks = remove task_id m.tasks }

-- A process that is gone when it is to be killed stays among the tasks: the handler only logs.
unfoldable pub remove_task : Processes → Text → TaskManager → TaskManager
unfolding get_item drop_task add_task_history check_killed get_io
remove_task psutil task_id m = elim (get_item task_id m.tasks) [
  | none ↦ m
  | some task ↦
      if psutil.is_running task
      then if psutil.can_kill task
        then drop_task task_id
            (add_task_history task_id (check_killed psutil task) (get_io psutil task) m)
        else m
      else drop_task task_id m
]

-- The body of the loop of run: a task with a return code is recorded and removed.
unfoldable pub visit : Processes → Task → TaskManager → TaskManager
unfolding check_status remove_task add_task_history get_io
visit psutil task m = elim (check_status psutil task) [
  | none ↦ m
  | some code ↦
      remove_task psutil task.pid (add_task_history task.pid (some code) (get_io psutil task) m)
]

-- `for task in self.tasks` reads the list by a position, while the body removes from this list.
-- Each turn takes one unit of fuel and moves one position on.
unfoldable pub visit_from : Processes → (fuel position : ℕ) → TaskManager → TaskManager
unfolding visit
visit_from psutil zero position m = m
visit_from psutil (suc fuel) position m = elim (get_elem? m.tasks position) [
  | none ↦ m
  | some task ↦ visit_from psutil fuel (suc position) (visit psutil task m)
]

unfoldable pub stop_idle : TaskManager → TaskManager
stop_idle m = if length m.tasks == 0 then record m { actively_monitoring = false } else m

-- One round of the loop of run.
unfoldable pub run_round : Processes → TaskManager → TaskManager
unfolding visit_from stop_idle
run_round psutil m = stop_idle (visit_from psutil (length m.tasks) 0 m)

-- The loop of run, for what psutil tells in each round.
unfoldable pub run_loop : List Processes → TaskManager → TaskManager
unfolding run_round
run_loop [] m = m
run_loop (psutil ∷ psutils) m =
    let rest = run_loop psutils (run_round psutil m) in if m.actively_monitoring then rest else m

unfoldable pub run : List Processes → TaskManager → TaskManager
unfolding run_loop
run psutils m = run_loop psutils (record m { actively_monitoring = true })

unfoldable pub add_task : Task → TaskManager → TaskManager
add_task task m = record m {
  tasks = m.tasks ++ task ∷ [];
  task_history = set task.pid (none, none, none) m.task_history;
}

-- start_task, for the task of the process that execute_async_cmd starts; it returns the pid.
unfoldable pub start_task : Task → TaskManager → TaskManager × Text
unfolding add_task
start_task task m = (add_task task m, task.pid)

-- `none`: LauncherError
unfoldable pub add_existing : Processes → Text → TaskManager → Option TaskManager
unfolding add_task
add_existing psutil task_id m = elim (psutil.find_process task_id) [
  | none ↦ none
  | some task ↦ some (add_task task m)
]

abbrev status_or_completed : Option Text → Text
status_or_completed none = codes "Completed"
status_or_completed (some status) = status

-- task.status of self[task_id], `none` for KeyError and NoSuchProcess.
unfoldable pub find_status : Processes → Text → List Task → Option Text
unfolding get_item
find_status psutil task_id tasks = elim (get_item task_id tasks) [
  | none ↦ none
  | some task ↦ psutil.status task
]

unfoldable pub get_task_update : Processes → TaskManager → Text → TaskUpdate
unfolding find_status
get_task_update psutil m task_id = elim (get? task_id m.task_history) [
  | none ↦ (codes "Failed", some (negsuc 0), some [], some [])
  | some (none, output, error) ↦
      (status_or_completed (find_status psutil task_id m.tasks), none, output, error)
  | some (some code, output, error) ↦
      (if is_nonzero code then codes "Failed" else codes "Completed", some code, output, error)
]
