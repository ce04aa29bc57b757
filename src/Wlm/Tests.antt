-- ===== src/Wlm/Tests.antt =====
-- The theorems about the launchers at concrete inputs.
use smart_sim.Common.{◌≡◌, refl, true, false, [], ◌∷◌, List, Text, codes, text_eq, none, some}
use smart_sim.Common.Dict.{get?, set}
use smart_sim.Common.Decimal.{show}
use smart_sim.Common.Int.{pos, negsuc}
use smart_sim.Common.Results.{returned, raised}
use smart_sim.Common.Split.{has_char, strip, split, words, starts_with}
use smart_sim.Launcher.StepInfo.{Psutil}
use smart_sim.Launcher.StepMapping.{add}
use smart_sim.Launcher.Slurm.{parse_step_id_from_sacct, step_id_lines}
use smart_sim.Tasks.{Task, Processes, start_task, add_task}
use smart_sim.Wlm.{Launcher, Step, direct, no_step_id, start_monitor}
use smart_sim.Wlm.Local
use smart_sim.Wlm.Lsf
use smart_sim.Wlm.Lsf.{jskill}
use smart_sim.Wlm.Lsf.Restored.{IsLeft, stop-run_lsf}
use smart_sim.Launcher.Lsf.{parse_max_step_id_from_jslist, max_step_lines}
use smart_sim.Wlm.Slurm
use smart_sim.Wlm.Slurm.{StartAnswers, cancelled_id, updates_of}
use smart_sim.Wlm.Stops.{IsStopped, stop-run}
use smart_sim.Wlm.Starts.{HasStarted, run-HasStarted}
use smart_sim.Wlm.Restored.{IsRestored, stop-run_slurm}

-- The names of psutil for the statuses of processes.
abbrev names : Psutil
names = record {
  running = codes "running";
  sleeping = codes "sleeping";
  waking = codes "waking";
  disk_sleep = codes "disk-sleep";
  dead = codes "dead";
  tracing_stop = codes "tracing-stop";
  waiting = codes "waiting";
  stopped = codes "stopped";
  locked = codes "locked";
  parked = codes "parked";
  idle = codes "idle";
  zombie = codes "zombie";
}

-- Each process sleeps until it is killed.
abbrev asleep : Processes
asleep = record {
  poll = λ t. none;
  communicate = λ t. (none, none);
  is_running = λ t. true;
  status = λ t. some (codes "sleeping");
  can_kill = λ t. true;
  runs_on = λ t. false;
  poll_killed = λ t. some (negsuc 8);
  find_process = λ pid. none;
}

abbrev task : Text → Task
task pid = record { pid = pid; owned = true }

-- A launcher that runs one task.
abbrev busy : Launcher
busy = record {
  task_manager = record {
    actively_monitoring = true;
    task_history = [];
    tasks = task (codes "11") ∷ [];
  };
  step_mapping = [];
}

stop-run_example : IsStopped (task (codes "11") ∷ []) (
    Local.stop names asleep asleep
      (codes "model")
      (Local.run (task (codes "12")) (codes "model") busy).0)
unfolding text_eq
stop-run_example =
    stop-run names asleep asleep (task (codes "12")) (codes "model") busy refl (refl, tt) refl

abbrev srun_step : Step
srun_step = record { name = codes "m-0"; kind = direct; managed = true }

-- sacct finds the step in the second trial, if it is asked twice.
abbrev answers : List Text → StartAnswers
answers outputs = record {
  has_sbatch = true;
  has_sacct = true;
  submission = (pos 0, codes "");
  task = task (codes "12");
  sacct_outputs = outputs;
}

abbrev found : StartAnswers
found = answers (codes "extern|7.extern|" ∷ codes "m-0|7+1.0|" ∷ [])

abbrev started_busy : Launcher
started_busy = (Slurm.run found srun_step busy).0

unfoldable program : Unit {0}
unfolding Slurm.run Slurm.launch Slurm.finish_run Slurm.get_slurm_step_id parse_step_id_from_sacct
    step_id_lines split strip text_eq start_monitor start_task add_task add set get? Slurm.stop
    cancelled_id Slurm.before_plus Slurm.remove_task_of has_char
program = tt

run_sample : Slurm.run found srun_step busy ≡ (started_busy, returned (some (codes "7+1.0")))
unfolding program
run_sample = refl

-- The task runs though the step is not noted.
lost_sample : (Slurm.run (answers []) srun_step busy).1 ≡ raised no_step_id
unfolding program
lost_sample = refl

run-HasStarted_example :
    HasStarted srun_step
      (some (codes "12"))
      (task (codes "12") ∷ [])
      busy
      (Slurm.run (answers []) srun_step busy)
run-HasStarted_example = run-HasStarted (answers []) srun_step busy

-- Outside of a heterogeneous job the parent step is cancelled.
stop-run_slurm_example : IsRestored (task (codes "11") ∷ []) false true (some (codes "7+1.0")) (
    Slurm.stop false asleep
      (updates_of (λ text. pos 0) (codes "") names asleep)
      (codes "m-0")
      started_busy)
unfolding program
stop-run_slurm_example =
    stop-run_slurm false (λ text. pos 0) (codes "") names asleep asleep found srun_step busy
      started_busy (some (codes "7+1.0")) run_sample refl refl (refl, tt) refl

abbrev jsrun_step : Step
jsrun_step = record { name = codes "j-0"; kind = direct; managed = true }

abbrev lsf_answers : Lsf.StartAnswers
lsf_answers = record {
  submission = (pos 0, codes "");
  task = task (codes "12");
  alloc = some (codes "55");
  jslist_outputs = codes "7 1 2 1 4 0 Running" ∷ [];
}

abbrev lsf_busy : Launcher
lsf_busy = (Lsf.run lsf_answers jsrun_step busy).0

unfoldable lsf_program : Unit {0}
unfolding Lsf.run Lsf.launch Lsf.get_lsf_step_id parse_max_step_id_from_jslist max_step_lines split
    words starts_with show start_monitor start_task add_task add set text_eq Lsf.kill_of
    Lsf.after_dots has_char
lsf_program = tt

lsf_run_sample : Lsf.run lsf_answers jsrun_step busy ≡ (lsf_busy, returned (some (codes "55.7")))
unfolding lsf_program
lsf_run_sample = refl

-- The task of the jsrun step stays.
stop-run_lsf_example :
    IsLeft (task (codes "11") ∷ task (codes "12") ∷ []) true (some (codes "55.7")) (
      Lsf.stop asleep
        (Lsf.updates_of (λ text. pos 0) (λ id. codes "") (λ id. codes "") names asleep)
        (codes "j-0")
        lsf_busy)
unfolding lsf_program
stop-run_lsf_example =
    stop-run_lsf (λ text. pos 0) (λ id. codes "") (λ id. codes "") names asleep asleep lsf_answers
      jsrun_step busy lsf_busy (some (codes "55.7")) lsf_run_sample refl refl (refl, tt) refl
