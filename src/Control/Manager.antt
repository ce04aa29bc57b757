-- ===== src/Control/Manager.antt =====
-- control/jobmanager.py: the jobs by the names of their entities, active ones apart from completed
-- ones. Each function is one locked operation; `now` is the clock that it reads.
pub mod Invariant
pub mod Steps
pub mod Rounds
pub mod Settled
pub mod Launchers
pub mod Reported
use smart_sim.Common.{
  ℕ, ◌+◌, ◌<◌, Bool, true, false, ◌&&◌, ◌||◌, not, List, [], ◌∷◌, ◌++◌, map, Option, none, some,
  Text, codes, text_eq, if◌then◌else◌, ltb, length,
}
use smart_sim.Common.Dict.{Dict, get?, set, del, contains, keys, values}
use smart_sim.Common.Decimal.{show}
use smart_sim.Launcher.StepInfo.{StepInfo}
use smart_sim.Status.{SmartSimStatus, never_started, is_terminal}
use smart_sim.Control.Job.{
  Job, Entity, Kind, db_node, orchestrator, job_entity, other, is_database, is_job_entity, is_db,
  new_job, ename, set_status, record_history, reset,
}

-- `launcher` is the text of the launcher, `none` while the manager has none.
pub record Manager : Type 0 where
  pub jobs : Dict Job
  pub db_jobs : Dict Job
  pub completed : Dict Job
  pub actively_monitoring : Bool
  pub launcher : Option Text
  pub kill_on_interrupt : Bool

-- JobManager(lock, launcher)
abbrev pub init : Option Text → Manager
init launcher = record {
  jobs = [];
  db_jobs = [];
  completed = [];
  actively_monitoring = false;
  launcher = launcher;
  kill_on_interrupt = true;
}

unfoldable pub move_to_completed : ℕ → Job → Manager → Manager
move_to_completed now job m =
    let name = ename job in
    let kept = record m { completed = set name (record_history now job) m.completed } in
    if contains name m.db_jobs
    then record kept { db_jobs = del name m.db_jobs }
    else if contains name m.jobs
    then record kept { jobs = del name m.jobs }
    else kept

-- `__getitem__`: the chain of db_jobs, jobs and completed; `none` where Python raises KeyError.
unfoldable pub get_item : Text → Manager → Option Job
get_item entity_name m = elim (get? entity_name m.db_jobs) [
  | some job ↦ some job
  | none ↦ elim (get? entity_name m.jobs) [
    | some job ↦ some job
    | none ↦ get? entity_name m.completed
  ]
]

-- {**first, **second}
unfoldable pub merge : Dict Job → Dict Job → Dict Job
merge first [] = first
merge first ((k, job) ∷ second) = merge (set k job first) second

-- `__call__`
unfoldable pub active : Manager → Dict Job
active m = merge m.jobs m.db_jobs

-- `__contains__`
abbrev pub is_known : Text → Manager → Bool
is_known key m = elim (get_item key m) [ none ↦ false | some job ↦ true ]

-- `__len__`
abbrev pub number_active : Manager → ℕ
number_active m = length m.db_jobs + length m.jobs

-- str(launcher)
abbrev pub launcher_text : Option Text → Text
launcher_text none = codes "None"
launcher_text (some launcher) = launcher

-- Whether a new job is put with those of databases.
abbrev pub goes_to_db : Entity → Bool
goes_to_db entity =
    if is_database entity.kind then true else is_job_entity entity.kind && is_db entity.type_name

unfoldable pub add_job : Text → Option Text → Entity → Bool → ℕ → Manager → Manager
unfolding new_job
add_job job_name job_id entity is_task now m =
    let job = new_job job_name job_id entity (launcher_text m.launcher) is_task now in
    if goes_to_db entity
    then record m { db_jobs = set entity.name job m.db_jobs }
    else record m { jobs = set entity.name job m.jobs }

-- `none` where the lookup of the entity raises KeyError.
unfoldable pub is_finished : Entity → Manager → Option Bool
is_finished entity m = elim (get_item entity.name m) [
  | none ↦ none
  | some job ↦ some (contains entity.name m.completed && is_terminal job.status)
]

-- What a launcher tells of the steps that it is asked for.
abbrev pub Updates : Type 0
Updates = List (Text × Option StepInfo)

-- A job whose object `get_item` has found, with its fields written.
unfoldable pub write_item : Text → Job → Manager → Manager
write_item entity_name job m =
    if contains entity_name m.db_jobs
    then record m { db_jobs = set entity_name job m.db_jobs }
    else if contains entity_name m.jobs
    then record m { jobs = set entity_name job m.jobs }
    else record m { completed = set entity_name job m.completed }

-- {job.name: job.ename for job in jobs}
unfoldable pub names_of : List Job → Dict Text → Dict Text
names_of [] d = d
names_of (job ∷ jobs) d = names_of jobs (set job.name (ename job) d)

abbrev pub set_status_of : StepInfo → Job → Job
set_status_of info =
    set_status info.status info.launcher_status info.returncode info.error info.output

-- One (job name, status) pair; `none` where a name is not of this manager.
unfoldable pub apply_update : Dict Text → Text → Option StepInfo → Manager → Option Manager
apply_update job_name_map job_name status m = elim (get? job_name job_name_map) [
  | none ↦ none
  | some entity_name ↦ elim (get_item entity_name m) [
    | none ↦ none
    | some job ↦ elim status [
      | none ↦ some m
      | some info ↦ some (write_item entity_name (set_status_of info job) m)
    ]
  ]
]

unfoldable pub apply_updates : Dict Text → Updates → Manager → Option Manager
apply_updates job_name_map [] m = some m
apply_updates job_name_map ((job_name, status) ∷ statuses) m =
    elim (apply_update job_name_map job_name status m) [
      | none ↦ none
      | some n ↦ apply_updates job_name_map statuses n
    ]

-- With `get_step_update` of the launcher, which is asked once for the names of all steps.
unfoldable pub check_jobs : (List Text → Updates) → Manager → Option Manager
check_jobs get_step_update m =
    let job_name_map = names_of (values (active m)) [] in
    elim m.launcher [
      | none ↦ some m
      | some launcher ↦ apply_updates job_name_map (get_step_update (keys job_name_map)) m
    ]

-- `job.returncode is not None and job.status in TERMINAL_STATUSES`
abbrev pub is_over : Job → Bool
is_over job = elim job.returncode [ none ↦ false | some code ↦ is_terminal job.status ]

-- The jobs that are over are moved, one after the other.
unfoldable pub move_over : ℕ → Dict Job → Manager → Manager
move_over now [] m = m
move_over now ((k, job) ∷ items) m =
    move_over now items (if is_over job then move_to_completed now job m else m)

abbrev pub is_none_active : Dict Job → Bool
is_none_active [] = true
is_none_active (item ∷ items) = false

-- The monitoring stops when nothing is active.
unfoldable pub stop_idle : Manager → Manager
unfolding active
stop_idle m = if is_none_active (active m) then record m { actively_monitoring = false } else m

-- One round of the loop in `run`, after its sleep.
unfoldable pub run_round : (List Text → Updates) → ℕ → Manager → Option Manager
run_round get_step_update now m = elim (check_jobs get_step_update m) [
  | none ↦ none
  | some n ↦ some (stop_idle (move_over now (active n) n))
]

-- `run` for as many rounds as there are answers of the launcher, each with its time.
run_rounds : List ((List Text → Updates) × ℕ) → Manager → Option Manager
run_rounds [] m = some m
run_rounds ((answer, now) ∷ rounds) m =
    if m.actively_monitoring
    then elim (run_round answer now m) [ none ↦ none | some n ↦ run_rounds rounds n ]
    else some m

unfoldable pub run : List ((List Text → Updates) × ℕ) → Manager → Option Manager
unfolding run_rounds
run rounds m = run_rounds rounds (record m { actively_monitoring = true })

unfoldable pub get_status : Entity → Manager → SmartSimStatus
get_status entity m = elim (get? entity.name m.completed) [
  | some job ↦ job.status
  | none ↦ elim (get_item entity.name m) [ some job ↦ job.status | none ↦ never_started ]
]

abbrev pub set_launcher : Text → Manager → Manager
set_launcher launcher m = record m { launcher = some launcher }

abbrev pub query_restart : Text → Manager → Bool
query_restart entity_name m = contains entity_name m.completed

-- `none` where no completed job has the name.
unfoldable pub restart_job : Text → Option Text → Text → Bool → ℕ → Manager → Option Manager
restart_job job_name job_id entity_name is_task now m = elim (get? entity_name m.completed) [
  | none ↦ none
  | some job ↦
      let again = reset job_name job_id is_task now job in
      let taken = record m { completed = del entity_name m.completed } in
      if is_database job.entity.kind
      then some (record taken { db_jobs = set entity_name again m.db_jobs })
      else some (record taken { jobs = set entity_name again m.jobs })
]
