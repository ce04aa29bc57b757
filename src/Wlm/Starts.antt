-- ===== src/Wlm/Starts.antt =====
-- launcher/slurm/slurmLauncher.py: what the start of a step leaves, whether it succeeds or not.
use mathlib.Core.List.{append-nil}
use smart_sim.Common.{
  ◌≡◌, refl, ◌∙◌, sym, ap, subst, Bool, true, not, ◌||◌, ◌&&◌, ◌∷◌, [], ◌++◌, List, Text, arith,
  Option, some, none, if◌then◌else◌, Bool-cases, Option-cases, inl, inr,
}
use smart_sim.Common.Int.{is_nonzero}
use smart_sim.Common.Results.{Outcome, returned, raised}
use smart_sim.Launcher.StepMapping.{StepMapping, add}
use smart_sim.Launcher.Slurm.{parse_step_id_from_sacct}
use smart_sim.Tasks.{Task, start_task, add_task}
use smart_sim.Wlm.{Launcher, Step, StepKind, batch, direct, other, LaunchError, start_monitor}
use smart_sim.Wlm.Slurm.{
  StartAnswers, is_any, get_slurm_step_id, finish_run, launch, run, submitted_id,
}
use smart_sim.Wlm.Stops.{start_monitor-tasks}

-- The step is on the map, with an id if it is managed, exactly if it has been started.
abbrev pub IsNoted :
    Step → Option Text → StepMapping → Launcher × Outcome LaunchError (Option Text) → Type 0
IsNoted step task_id mapping (l, returned id) =
    (l.step_mapping ≡ add step.name id task_id step.managed mapping)
    × ((not step.managed || is_any id) ≡ true)
IsNoted step task_id mapping (l, raised error) = l.step_mapping ≡ mapping

get_slurm_step_id-is_any :
    (name : Text) (outputs : List Text) (id : Text)
    → get_slurm_step_id name outputs ≡ some id
    → is_any (some id) ≡ true
unfolding get_slurm_step_id
get_slurm_step_id-is_any name [] id e = absurd (ground (arith, e))
get_slurm_step_id-is_any name (output ∷ outputs) id e =
    elim (Bool-cases (is_any (parse_step_id_from_sacct output name))) [
      | inl any ↦ ground (arith, any, e)
      | inr other_name ↦ get_slurm_step_id-is_any name outputs id (ground (arith, other_name, e))
    ]

finish_run-IsNoted :
    (outputs : List Text) (step : Step) (step_id task_id : Option Text) (l : Launcher)
    → IsNoted step task_id l.step_mapping (finish_run outputs step step_id task_id l)
unfolding finish_run
finish_run-IsNoted outputs step step_id task_id l =
    elim (Bool-cases (not (is_any step_id) && step.managed)) [
      | inl searched ↦ elim (Option-cases (get_slurm_step_id step.name outputs)) [
        | inl missing ↦ rw (finish_run, searched, missing) refl
        | inr (id, found) ↦
            rw (finish_run, searched, found)
              (refl, ground (arith, get_slurm_step_id-is_any step.name outputs id found))
      ]
      | inr given ↦ rw (finish_run, given) (refl, ground (arith, given))
    ]

finish_run-task_manager :
    (outputs : List Text) (step : Step) (step_id task_id : Option Text) (l : Launcher)
    → (finish_run outputs step step_id task_id l).0.task_manager ≡ l.task_manager
unfolding finish_run
finish_run-task_manager outputs step step_id task_id l =
    elim (Bool-cases (not (is_any step_id) && step.managed)) [
      | inl searched ↦ elim (Option-cases (get_slurm_step_id step.name outputs)) [
        | inl missing ↦ rw (finish_run, searched, missing) refl
        | inr (id, found) ↦ rw (finish_run, searched, found) refl
      ]
      | inr given ↦ rw (finish_run, given) refl
    ]

-- The task that is started for a step: sbatch is run to its end, without one.
abbrev pub started : StartAnswers → StepKind → List Task
started a batch = []
started a direct = a.task ∷ []
started a other = a.task ∷ []

abbrev pub task_id_of : StartAnswers → StepKind → Option Text
task_id_of a batch = none
task_id_of a direct = some a.task.pid
task_id_of a other = some a.task.pid

-- What a start leaves of the launcher: the tasks `ts` are new, and the step is noted or is not.
abbrev pub HasStarted :
    Step
    → Option Text
    → List Task
    → Launcher
    → Launcher × Outcome LaunchError (Option Text)
    → Type 0
HasStarted step task_id ts l result =
    (result.0.task_manager.tasks ≡ l.task_manager.tasks ++ ts)
    × IsNoted step task_id l.step_mapping result

finish_run-HasStarted :
    (outputs : List Text) (step : Step) (step_id task_id : Option Text) (ts : List Task)
    (l after : Launcher)
    → after.task_manager.tasks ≡ l.task_manager.tasks ++ ts
    → after.step_mapping ≡ l.step_mapping
    → HasStarted step task_id ts l (finish_run outputs step step_id task_id after)
finish_run-HasStarted outputs step step_id task_id ts l after tasks mapping = (
  ap (λ m. m.tasks) (finish_run-task_manager outputs step step_id task_id after) ∙ tasks,
  subst (λ m. IsNoted step task_id m (finish_run outputs step step_id task_id after)) mapping
      (finish_run-IsNoted outputs step step_id task_id after),
)

abbrev with_task : Task → Launcher → Launcher
with_task t l = record l { task_manager = (start_task t l.task_manager).0 }

launch-HasStarted :
    (a : StartAnswers) (name : Text) (kind : StepKind) (managed : Bool) (l : Launcher)
    → let step : Step = record { name = name; kind = kind; managed = managed } in
      HasStarted step (task_id_of a kind) (started a kind) l (launch a step l)
unfolding launch start_task add_task
launch-HasStarted a name batch managed l = elim (Bool-cases (is_nonzero a.submission.0)) [
  | inl failed ↦ rw (launch, failed) (sym (append-nil l.task_manager.tasks), refl)
  | inr submitted ↦
      rw (launch, submitted)
        (finish_run-HasStarted a.sacct_outputs
          (record { name = name; kind = batch; managed = managed }) (submitted_id a.submission.1)
          none [] l l (sym (append-nil l.task_manager.tasks)) refl)
]
launch-HasStarted a name direct managed l =
    finish_run-HasStarted a.sacct_outputs (record { name = name; kind = direct; managed = managed })
      none (some a.task.pid) (a.task ∷ []) l (with_task a.task l) refl refl
launch-HasStarted a name other managed l =
    finish_run-HasStarted a.sacct_outputs (record { name = name; kind = other; managed = managed })
      none (some a.task.pid) (a.task ∷ []) l (with_task a.task l) refl refl

-- Whatever Slurm answers, a start puts a step on the map exactly if it raises no exception, a managed
-- one with an id, and adds the task of a step that is not a batch step also if it raises an exception
-- because no id is found.
pub run-HasStarted :
    (a : StartAnswers) (step : Step) (l : Launcher)
    → HasStarted step
        (task_id_of a step.kind)
        (if not a.has_sbatch && not a.has_sacct then [] else started a step.kind)
        l
        (run a step l)
unfolding run
run-HasStarted a step l =
    let monitored = record l { task_manager = start_monitor l.task_manager } in
    let (tasks, noted) = launch-HasStarted a step.name step.kind step.managed monitored in
    elim (Bool-cases (not a.has_sbatch && not a.has_sacct)) [
      | inl missing ↦ rw (run, missing) (sym (append-nil l.task_manager.tasks), refl)
      | inr there ↦
          rw (run, there)
            (
              tasks ∙ ap (λ ts. ts ++ started a step.kind) (start_monitor-tasks l.task_manager),
              noted,
            )
    ]
