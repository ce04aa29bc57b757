-- ===== src/Tasks/Reported.antt =====
-- launcher/taskManager.py, get_task_update, and launcher/stepInfo.py: what the job manager is told of a
-- task when the monitoring has ended.
use smart_sim.Common.{
  ◌≤◌, ◌≡◌, ◌∙◌, ap, inl, inr, ◌∷◌, List, Text, codes, Option, some, All, length, if◌then◌else◌,
  Bool-cases, text_eq,
}
use smart_sim.Common.Int.{ℤ, is_nonzero}
use smart_sim.Common.Entries.{All-map}
use smart_sim.Status.{completed, failed, status_of_value}
use smart_sim.Launcher.StepInfo.{StepInfo, Psutil, unmanaged_step_info, get_smartsim_status}
use smart_sim.Launcher.Updates.{TaskUpdate}
use smart_sim.Tasks.{Task, Processes, TaskManager, get_task_update, run}
use smart_sim.Tasks.Rounds.{AreDistinct}
use smart_sim.Tasks.Drained.{AllReturned, IsRecorded, run-IsDrained}

-- The StepInfo that the launcher makes of a task's update.
abbrev pub told : Psutil → TaskUpdate → StepInfo
told names (status, code, output, error) = unmanaged_step_info names status code output error

-- The StepInfo of a task that has returned with this code and these outputs.
abbrev pub info_of : ℤ → Option Text × Option Text → StepInfo
info_of code (output, error) = record {
  status = if is_nonzero code then failed else completed;
  launcher_status = if is_nonzero code then codes "Failed" else codes "Completed";
  returncode = some code;
  output = output;
  error = error;
}

abbrev update_of : ℤ → Option Text × Option Text → TaskUpdate
update_of code (output, error) =
    (if is_nonzero code then codes "Failed" else codes "Completed", some code, output, error)

told-update_of :
    (names : Psutil) (code : ℤ) (io : Option Text × Option Text)
    → told names (update_of code io) ≡ info_of code io
unfolding unmanaged_step_info get_smartsim_status status_of_value text_eq
told-update_of names code (output, error) = elim (Bool-cases (is_nonzero code)) [
  | inl bad ↦ rw bad
  | inr fine ↦ rw fine
]

module _ (code : Text → ℤ) (io : Text → Option Text × Option Text) where
  IsRecorded-get_task_update :
      (psutil : Processes) (m : TaskManager) (t : Task)
      → IsRecorded code io m.task_history t
      → get_task_update psutil m t.pid ≡ update_of (code t.pid) (io t.pid)
  unfolding get_task_update
  IsRecorded-get_task_update psutil m t e = rw (get_task_update, e)

  IsRecorded-told :
      (names : Psutil) (psutil : Processes) (m : TaskManager) (t : Task)
      → IsRecorded code io m.task_history t
      → told names (get_task_update psutil m t.pid) ≡ info_of (code t.pid) (io t.pid)
  IsRecorded-told names psutil m t e =
      ap (told names) (IsRecorded-get_task_update psutil m t e)
      ∙ told-update_of names (code t.pid) (io t.pid)

  -- If the processes of all tasks, each with its own pid, have returned in each of as many rounds as
  -- there are tasks, and psutil tells the same codes and outputs in each, then the step of each task
  -- is told afterwards as completed if its code is 0 and as failed if not, with this code and with
  -- the task's output and error, whatever psutil tells at that time.
  pub run-told :
      (names : Psutil) (psutil later : Processes) (psutils : List Processes) (m : TaskManager)
      → AreDistinct m.tasks
      → AllReturned code io m.tasks (psutil ∷ psutils)
      → length m.tasks ≤ length (psutil ∷ psutils)
      → All
          (λ t.
            told names (get_task_update later (run (psutil ∷ psutils) m) t.pid)
            ≡ info_of (code t.pid) (io t.pid))
          m.tasks
  run-told names psutil later psutils m distinct done enough =
      All-map (IsRecorded-told names later (run (psutil ∷ psutils) m)) m.tasks
        (run-IsDrained code io psutil psutils m distinct done enough).2
