-- ===== src/Launcher/Tests.antt =====
-- The theorems about the launchers at concrete inputs.
use smart_sim.Common.{
  arith, map, true, false, List, [], ◌∷◌, Option, none, some, Text, codes, text_eq, count,
  if◌then◌else◌, ◌≡◌, refl,
}
use smart_sim.Common.Dict.{contains, keys}
use smart_sim.Common.Split.{has_char, has_text, split, words, strip, split_text, starts_with}
use smart_sim.Common.Decimal.{show}
use smart_sim.Common.Int.{pos}
use smart_sim.Status.{status_of_value}
use smart_sim.Launcher.StepInfo.{StepInfo, Psutil}
use smart_sim.Launcher.StepInfo.Mapping.{step_info, slurm, step_info-launched, is_launched}
use smart_sim.Launcher.Updates.{TaskUpdate, get_step_update}
use smart_sim.Launcher.Updates.Names.{get_step_update_counts, IsComplete}
use smart_sim.Launcher.StepMapping.{StepMapping, add, get_ids}
use smart_sim.Launcher.StepMapping.Ids.{get_ids-Beside, Beside, of_kind}
use smart_sim.Launcher.Slurm.{last, parse_sacct, parse_salloc, parse_salloc_error}
use smart_sim.Launcher.Slurm.Reports.{Row, JobId, print, first_row, parse_sacct-print, IsRow}
use smart_sim.Launcher.Lsf.{parse_bsub, parse_max_step_id_from_jslist}
use smart_sim.Launcher.Sge.{parse_qacct_job_output, word}

step_info-launched_example :
    is_launched (step_info slurm (codes "NODE_FAIL") (some (pos 1)) none none).status ≡ true
unfolding status_of_value text_eq
step_info-launched_example =
    step_info-launched slurm (codes "NODE_FAIL") (some (pos 1)) none none refl

-- One step of a workload manager and one process.
abbrev two_steps : StepMapping
unfolding add
two_steps =
    add (codes "sim") (some (codes "17.0")) none true
      (add (codes "viz") none (some (codes "4711")) false [])

abbrev asked : List Text
asked = codes "viz" ∷ codes "lost" ∷ codes "sim" ∷ []

get_ids-Beside_example :
    ((get_ids asked false two_steps).0 ≡ of_kind false two_steps asked)
    × Beside false two_steps (get_ids asked false two_steps).0 (get_ids asked false two_steps).1
get_ids-Beside_example = get_ids-Beside asked false two_steps

abbrev psutil_names : Psutil
psutil_names = record {
  running = codes "running";
  sleeping = codes "sleeping";
  waking = codes "waking";
  disk_sleep = codes "disk-sleep";
  dead = codes "dead";
  tracing_stop = codes "tracing-stop";
  waiting = codes "waiting";
  stopped = codes "stopped";
  locked = codes "locked";
  parked = codes "parked";
  idle = codes "idle";
  zombie = codes "zombie";
}

-- A workload manager on which every step runs.
abbrev all_run : List Text → List StepInfo
all_run = map (λ id. step_info slurm (codes "RUNNING") none none none)

all_run-IsComplete : IsComplete all_run
unfolding IsComplete
all_run-IsComplete [] = refl
all_run-IsComplete (id ∷ ids) = omega (arith, all_run-IsComplete ids)

abbrev asleep : Text → TaskUpdate
asleep task_id = (codes "sleeping", none, none, none)

get_step_update_counts_example :
    count (codes "viz") (keys (get_step_update all_run psutil_names asleep two_steps asked))
    ≡ (if contains (codes "viz") two_steps then count (codes "viz") asked else 0)
get_step_update_counts_example =
    get_step_update_counts all_run psutil_names asleep two_steps asked (codes "viz")
      all_run-IsComplete

abbrev row : Text → Option Text → Text → Text → Row
row allocation step state code = record {
  id = record { allocation = allocation; step = step };
  state = state;
  code = code;
  signal = codes "0";
}

-- Job 1 stands behind job 11, whose id it begins.
abbrev rows : List Row
rows =
    row (codes "11") none (codes "RUNNING") (codes "0")
    ∷ row (codes "1") (some (codes "10")) (codes "FAILED") (codes "2")
    ∷ row (codes "1") (some (codes "1")) (codes "COMPLETED") (codes "0")
    ∷ []

abbrev step_one : JobId
step_one = record { allocation = codes "1"; step = some (codes "1") }

parse_sacct-print_example : parse_sacct (print rows) (codes "1.1") ≡ first_row rows step_one
unfolding IsRow has_char
parse_sacct-print_example = parse_sacct-print step_one refl rows (
  ((refl, refl), (refl, refl), (refl, refl), (refl, refl), refl, refl),
  (
    ((refl, refl), (refl, refl), (refl, refl), (refl, refl), refl, refl),
    (((refl, refl), (refl, refl), (refl, refl), (refl, refl), refl, refl), tt),
  ),
)

salloc_sample :
    parse_salloc (codes "salloc: Pending\nsalloc: Granted job allocation 118568\n")
    ≡ some (codes "118568")
unfolding parse_salloc split starts_with last words
salloc_sample = refl

salloc_error_sample :
    parse_salloc_error
      (some (codes "/bin/salloc"))
      (codes "/bin/salloc: error: Job violates limits")
    ≡ some (codes "Job violates limits")
unfolding parse_salloc_error split starts_with strip split_text
salloc_error_sample = refl

bsub_sample : parse_bsub (codes "Job <12345> is submitted to queue <batch>.") ≡ some (codes "12345")
unfolding parse_bsub split starts_with words
bsub_sample = refl

max_step_sample :
    parse_max_step_id_from_jslist
      (codes "===\n1 1 2 various 1 0 Complete\n12 1 2 various 1 0 Running\n3 1 2 v 1 0 Running")
    ≡ some (codes "12")
unfolding parse_max_step_id_from_jslist split starts_with words show
max_step_sample = refl

qacct_sample :
    parse_qacct_job_output (codes "qname all.q\nexit_status  0\n") (codes "exit_status")
    ≡ some (word (codes "0"))
unfolding parse_qacct_job_output has_text words
qacct_sample = refl
