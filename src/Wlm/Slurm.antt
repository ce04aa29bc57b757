-- ===== src/Wlm/Slurm.antt =====
-- launcher/slurm/slurmLauncher.py: the launcher of Slurm.
use smart_sim.Common.{
  Bool, true, false, not, ◌&&◌, ◌==◌, List, [], ◌∷◌, map, Option, none, some, Text, if◌then◌else◌,
}
use smart_sim.Common.Dict.{get?}
use smart_sim.Common.Int.{ℤ, is_nonzero}
use smart_sim.Common.Results.{Outcome, returned, raised}
use smart_sim.Common.Split.{has_char, strip}
use smart_sim.Status
use smart_sim.Launcher.StepInfo.{StepInfo, Psutil, slurm_step_info}
use smart_sim.Launcher.StepMapping.{StepMap, StepMapping, add, get_task_id, truthy}
use smart_sim.Launcher.Slurm.{parse_sacct, parse_step_id_from_sacct}
use smart_sim.Launcher.Updates.{TaskUpdate, id_text, get_step_update}
use smart_sim.Tasks.{Task, TaskManager, Processes, start_task, remove_task, get_task_update}
use smart_sim.Wlm.{
  Launcher, Step, batch, direct, other, LaunchError, not_available, submission_failed, no_step_id,
  no_step_info, index_error, unknown_step, start_monitor,
}

-- What the commands give while a step is started.
pub record StartAnswers : Type 0 where
  -- which("sbatch") and which("sacct")
  pub has_sbatch : Bool
  pub has_sacct : Bool
  -- the return code and the output of the submission
  pub submission : ℤ × Text
  -- the task of the process that is started
  pub task : Task
  -- the output of sacct in each of the CONFIG.wlm_trials trials
  pub sacct_outputs : List Text

-- bool(text)
abbrev pub is_any : Option Text → Bool
is_any none = false
is_any (some []) = false
is_any (some (c ∷ cs)) = true

-- _get_slurm_step_id, `none` where LauncherError is raised.
unfoldable pub get_slurm_step_id : Text → List Text → Option Text
unfolding parse_step_id_from_sacct
get_slurm_step_id name [] = none
get_slurm_step_id name (output ∷ outputs) =
    let found = parse_step_id_from_sacct output name in
    let later = get_slurm_step_id name outputs in if is_any found then found else later

-- The end of run: the id of a managed step, and the entry of the map.
unfoldable pub finish_run :
    List Text
    → Step
    → (step_id task_id : Option Text) → Launcher
    → Launcher × Outcome LaunchError (Option Text)
unfolding get_slurm_step_id add
finish_run sacct_outputs step step_id task_id l =
    let noted : Option Text → Launcher =
      λ id. record l { step_mapping = add step.name id task_id step.managed l.step_mapping } in
    if not (is_any step_id) && step.managed
    then elim (get_slurm_step_id step.name sacct_outputs) [
      | none ↦ (l, raised no_step_id)
      | some id ↦ (noted (some id), returned (some id))
    ]
    else (noted step_id, returned step_id)

-- out.strip(), if there is any output
abbrev pub submitted_id : Text → Option Text
submitted_id [] = none
submitted_id (c ∷ cs) = some (strip (c ∷ cs))

-- The launch of a step, when Slurm is there and the monitoring runs.
unfoldable pub launch :
    StartAnswers → Step → Launcher → Launcher × Outcome LaunchError (Option Text)
unfolding finish_run start_task
launch a step l =
    let (manager, task_id) = start_task a.task l.task_manager in
    let with_task =
      finish_run a.sacct_outputs step none (some task_id) (record l { task_manager = manager }) in
    elim step.kind [
      | batch ↦
          if is_nonzero a.submission.0
          then (l, raised submission_failed)
          else finish_run a.sacct_outputs step (submitted_id a.submission.1) none l
      | direct ↦ with_task
      | other ↦ with_task
    ]

unfoldable pub run : StartAnswers → Step → Launcher → Launcher × Outcome LaunchError (Option Text)
unfolding start_monitor launch
run a step l =
    if not a.has_sbatch && not a.has_sacct
    then (l, raised not_available)
    else launch a step (record l { task_manager = start_monitor l.task_manager })

-- int(rc) if rc else None, for the int of a text
abbrev int_or_none : (Text → ℤ) → Option Text → Option ℤ
int_or_none int none = none
int_or_none int (some []) = none
int_or_none int (some (c ∷ cs)) = some (int (c ∷ cs))

-- The output and the error of the process are told if it has failed.
abbrev with_io : TaskUpdate → StepInfo → StepInfo
with_io (status, none, output, error) info = info
with_io (status, some code, output, error) info =
    if is_nonzero code then record info { output = output; error = error } else info

unfoldable pub managed_update :
    (Text → ℤ) → Text → (Text → TaskUpdate) → StepMapping → Text → StepInfo
unfolding parse_sacct slurm_step_info get_task_id
managed_update int sacct_out task_update mapping step_id =
    let (status, code) = parse_sacct sacct_out step_id in
    let info = slurm_step_info status (int_or_none int code) none none in
    elim (get_task_id step_id mapping) [
      | none ↦ info
      | some [] ↦ info
      | some (c ∷ cs) ↦ with_io (task_update (c ∷ cs)) info
    ]

-- _get_managed_step_update, for the output of sacct
unfoldable pub get_managed_step_update :
    (Text → ℤ) → Text → (Text → TaskUpdate) → StepMapping → List Text → List StepInfo
unfolding managed_update
get_managed_step_update int sacct_out task_update mapping step_ids =
    map (managed_update int sacct_out task_update mapping) step_ids

-- step_id.split("+", maxsplit=1)[0]
unfoldable pub before_plus : Text → Text
before_plus [] = []
before_plus (c ∷ cs) = let rest = before_plus cs in if c == b'+' then [] else c ∷ rest

-- The id that scancel gets: that of the parent step, unless the job is heterogeneous.
unfoldable pub cancelled_id : (het_job : Bool) → Text → Text
unfolding has_char before_plus
cancelled_id het_job step_id =
    if has_char b'+' step_id && not het_job then before_plus step_id else step_id

-- The task of a step on the map is removed, of a managed one if it has any.
unfoldable pub remove_task_of : Processes → StepMap → TaskManager → TaskManager
unfolding remove_task
remove_task_of psutil m manager =
    if truthy m.managed && not (is_any m.task_id)
    then manager
    else remove_task psutil (id_text m.task_id) manager

abbrev pub as_cancelled : List (Text × Option StepInfo) → Outcome LaunchError StepInfo
as_cancelled [] = raised index_error
as_cancelled ((name, none) ∷ updates) = raised no_step_info
as_cancelled ((name, some info) ∷ updates) = returned (record info { status = Status.cancelled })

-- The ids that are cancelled are given beside the launcher. A failure of scancel is only logged.
-- `updates` is what get_step_update gives for the step after the removal.
unfoldable pub stop :
    (het_job : Bool)
    → Processes
    → (Launcher → List Text → List (Text × Option StepInfo))
    → Text
    → Launcher
    → Launcher × List Text × Outcome LaunchError StepInfo
unfolding cancelled_id remove_task_of
stop het_job psutil updates step_name l = elim (get? step_name l.step_mapping) [
  | none ↦ (l, [], raised (unknown_step step_name))
  | some m ↦
      let stopped = record l { task_manager = remove_task_of psutil m l.task_manager } in
      (
        stopped,
        if truthy m.managed then cancelled_id het_job (id_text m.step_id) ∷ [] else [],
        as_cancelled (updates stopped (step_name ∷ [])),
      )
]

-- get_step_update of the launcher, with the output of sacct and what psutil tells.
unfoldable pub updates_of :
    (Text → ℤ) → Text → Psutil → Processes → Launcher → List Text → List (Text × Option StepInfo)
unfolding get_managed_step_update get_step_update get_task_update
updates_of int sacct_out names psutil l step_names =
    let task_update = get_task_update psutil l.task_manager in
    get_step_update (get_managed_step_update int sacct_out task_update l.step_mapping) names
      task_update l.step_mapping step_names
