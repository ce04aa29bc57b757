-- ===== src/Wlm/Lsf.antt =====
-- launcher/lsf/lsfLauncher.py: the launcher of LSF.
pub mod Kills
pub mod Restored
use smart_sim.Common.{
  ℕ, Bool, true, false, not, ◌&&◌, ◌==◌, List, [], ◌∷◌, ◌++◌, map, Option, none, some, Text,
  text_eq, codes, if◌then◌else◌,
}
use smart_sim.Common.Dict.{get?}
use smart_sim.Common.Int.{ℤ, pos, is_nonzero}
use smart_sim.Common.Results.{Outcome, returned, raised}
use smart_sim.Common.Split.{has_char}
use smart_sim.Status
use smart_sim.Launcher.StepInfo.{StepInfo, Psutil, lsf_batch_step_info, lsf_jsrun_step_info}
use smart_sim.Launcher.StepMapping.{StepMap, add, truthy}
use smart_sim.Launcher.Lsf.{
  parse_bsub, parse_max_step_id_from_jslist, parse_jslist_stepid, parse_bjobs_jobid,
}
use smart_sim.Launcher.Updates.{id_text, get_step_update}
use smart_sim.Tasks.{Task, Processes, start_task, get_task_update}
use smart_sim.Wlm.{
  Launcher, Step, StepKind, batch, direct, other, LaunchError, submission_failed, no_step_id,
  index_error, unknown_step, start_monitor,
}
use smart_sim.Wlm.Slurm.{is_any, remove_task_of, as_cancelled}

-- What the commands give while a step is started, and the allocation of a jsrun step.
pub record StartAnswers : Type 0 where
  pub submission : ℤ × Text
  pub task : Task
  pub alloc : Option Text
  -- the output of jslist in each of the CONFIG.wlm_trials trials
  pub jslist_outputs : List Text

-- _get_lsf_step_id, `none` where LauncherError is raised.
unfoldable pub get_lsf_step_id : Option Text → List Text → Option Text
unfolding parse_max_step_id_from_jslist
get_lsf_step_id alloc [] = none
get_lsf_step_id alloc (output ∷ outputs) =
    let later = get_lsf_step_id alloc outputs in
    elim (parse_max_step_id_from_jslist output) [
      | none ↦ later
      | some [] ↦ later
      | some (c ∷ cs) ↦ some (id_text alloc ++ b'.' ∷ c ∷ cs)
    ]

-- The end of run
abbrev pub noted :
    Step → (id task_id : Option Text) → Launcher → Launcher × Outcome LaunchError (Option Text)
noted step id task_id l =
    (record l { step_mapping = add step.name id task_id step.managed l.step_mapping }, returned id)

-- The id of a batch step from the output of bsub; parse_bsub raises IndexError on a short line.
unfoldable pub noted_batch : Step → Text → Launcher → Launcher × Outcome LaunchError (Option Text)
unfolding add parse_bsub
noted_batch step [] l = noted step none none l
noted_batch step (c ∷ cs) l = elim (parse_bsub (c ∷ cs)) [
  | none ↦ (l, raised index_error)
  | some id ↦ noted step (some id) none l
]

-- The launch of a step when the monitoring runs. The task id of a jsrun step is not kept.
unfoldable pub launch :
    StartAnswers → Step → Launcher → Launcher × Outcome LaunchError (Option Text)
unfolding noted_batch get_lsf_step_id start_task add
launch a step l =
    let (manager, task_id) = start_task a.task l.task_manager in
    let with_task = record l { task_manager = manager } in
    elim step.kind [
      | batch ↦
          if is_nonzero a.submission.0
          then (l, raised submission_failed)
          else noted_batch step a.submission.1 l
      | direct ↦ elim (get_lsf_step_id a.alloc a.jslist_outputs) [
        | none ↦ (with_task, raised no_step_id)
        | some id ↦ noted step (some id) none with_task
      ]
      | other ↦ noted step none (some task_id) with_task
    ]

unfoldable pub run : StartAnswers → Step → Launcher → Launcher × Outcome LaunchError (Option Text)
unfolding start_monitor launch
run a step l = launch a step (record l { task_manager = start_monitor l.task_manager })

-- step_id.rpartition(".")[-1]
unfoldable pub after_dots : Text → Text
unfolding has_char
after_dots [] = []
after_dots (c ∷ cs) =
    let rest = after_dots cs in if has_char b'.' cs then rest else if c == b'.' then cs else c ∷ cs

-- The command that cancels a managed step, with its argument.
pub data Kill : Type 0 where
  jskill bkill : Text → Kill

unfoldable pub kill_of : Option Text → Kill
unfolding has_char after_dots
kill_of none = bkill (id_text none)
kill_of (some id) = if has_char b'.' id then jskill (after_dots id) else bkill id

-- A command that fails is only logged. `updates` is what get_step_update gives for the step after the
-- removal.
unfoldable pub stop :
    Processes
    → (Launcher → List Text → List (Text × Option StepInfo))
    → Text
    → Launcher
    → Launcher × List Kill × Outcome LaunchError StepInfo
unfolding kill_of remove_task_of
stop psutil updates step_name l = elim (get? step_name l.step_mapping) [
  | none ↦ (l, [], raised (unknown_step step_name))
  | some m ↦
      let stopped = record l { task_manager = remove_task_of psutil m l.task_manager } in
      (
        stopped,
        if truthy m.managed then kill_of m.step_id ∷ [] else [],
        as_cancelled (updates stopped (step_name ∷ [])),
      )
]

abbrev int_or_none : (Text → ℤ) → Option Text → Option ℤ
int_or_none int none = none
int_or_none int (some code) = some (int code)

-- A batch step that is completed has the return code 0.
unfoldable pub batch_info : Text → StepInfo
unfolding lsf_batch_step_info text_eq
batch_info status =
    let info = lsf_batch_step_info status none none none in
    if text_eq (Status.status_value info.status) (Status.status_value Status.completed)
    then record info { returncode = some (pos 0) }
    else info

-- The outputs of jslist and of bjobs are those of the calls for the step.
unfoldable pub managed_update : (Text → ℤ) → (jslist_out bjobs_out : Text → Text) → Text → StepInfo
unfolding has_char after_dots parse_jslist_stepid parse_bjobs_jobid lsf_jsrun_step_info batch_info
managed_update int jslist_out bjobs_out step_id =
    let (status, code) = parse_jslist_stepid (jslist_out step_id) (after_dots step_id) in
    if has_char b'.' step_id
    then lsf_jsrun_step_info status (int_or_none int code) none none
    else batch_info (parse_bjobs_jobid (bjobs_out step_id) step_id)

unfoldable pub get_managed_step_update :
    (Text → ℤ) → (jslist_out bjobs_out : Text → Text) → List Text → List StepInfo
unfolding managed_update
get_managed_step_update int jslist_out bjobs_out step_ids =
    map (managed_update int jslist_out bjobs_out) step_ids

-- get_step_update of the launcher
unfoldable pub updates_of :
    (Text → ℤ)
    → (jslist_out bjobs_out : Text → Text) → Psutil
    → Processes
    → Launcher
    → List Text
    → List (Text × Option StepInfo)
unfolding get_managed_step_update get_step_update get_task_update
updates_of int jslist_out bjobs_out names psutil l step_names =
    get_step_update (get_managed_step_update int jslist_out bjobs_out) names
      (get_task_update psutil l.task_manager) l.step_mapping step_names
