-- ===== src/Wlm/Restored.antt =====
-- launcher/slurm/slurmLauncher.py: stop of a step that run has started.
use mathlib.Core.List.{append-nil}
use smart_sim.Common.{
  map, ◌≡◌, refl, ◌∙◌, subst, Bool, true, false, not, ◌||◌, ◌&&◌, ◌∷◌, [], ◌++◌, List, Text, arith,
  All, Option, some, Bool-cases, inl, inr,
}
use smart_sim.Common.Dict.{get?, get?-set_self, set}
use smart_sim.Common.Int.{ℤ}
use smart_sim.Common.Results.{Outcome, returned}
use smart_sim.Status.{cancelled}
use smart_sim.Launcher.StepInfo.{StepInfo, Psutil}
use smart_sim.Launcher.StepMapping.{StepMap, StepMapping, add, get_ids, pick, truthy, str_or_none}
use smart_sim.Launcher.Updates
use smart_sim.Launcher.Updates.{
  TaskUpdate, id_text, zip, get_unmanaged_step_update, get_step_update,
}
use smart_sim.Tasks.{Task, Processes, TaskManager, get_task_update}
use smart_sim.Tasks.Rounds.{Apart}
use smart_sim.Wlm.{Launcher, Step, StepKind, batch, direct, other, LaunchError}
use smart_sim.Wlm.Slurm
use smart_sim.Wlm.Slurm.{
  managed_update, StartAnswers, is_any, cancelled_id, remove_task_of, as_cancelled,
  get_managed_step_update, updates_of,
}
use smart_sim.Wlm.Cancels.{Cancels, cancelled_id-Cancels}
use smart_sim.Wlm.Starts.{HasStarted, run-HasStarted, started, task_id_of}
use smart_sim.Wlm.Stops.{remove_task-last}

-- A step is told as cancelled.
abbrev pub IsCancelled : Outcome LaunchError StepInfo → Type 0
IsCancelled outcome = (info : StepInfo) × (outcome ≡ returned info) × (info.status ≡ cancelled)

-- A launcher that is asked for one step on its map tells of it.
pub get_step_update-IsCancelled :
    (managed_update : Text → StepInfo) (names : Psutil) (task_update : Text → TaskUpdate)
    (mapping : StepMapping) (name : Text) (m : StepMap)
    → get? name mapping ≡ some m
    → IsCancelled
        (as_cancelled (get_step_update (map managed_update) names task_update mapping (name ∷ [])))
unfolding get_step_update Updates.updates_of get_unmanaged_step_update get_ids pick zip
get_step_update-IsCancelled managed_update names task_update mapping name m found =
    elim (Bool-cases (truthy m.managed)) [
      | inl managed ↦ rw (get_step_update, get_ids, found, pick, managed) (_, refl, refl)
      | inr unmanaged ↦ rw (get_step_update, get_ids, found, pick, unmanaged) (_, refl, refl)
    ]

-- The entry of a step that run has started for this task.
abbrev pub entry : Step → Option Text → Option Text → StepMap
entry step id task_id = record {
  step_id = id;
  task_id = str_or_none task_id;
  managed = some step.managed;
}

abbrev pub is_batch : StepKind → Bool
is_batch batch = true
is_batch direct = false
is_batch other = false

str_or_none-is_any : (pid : Text) → is_any (some pid) ≡ true → str_or_none (some pid) ≡ some pid
str_or_none-is_any [] any = absurd (ground (arith, any))
str_or_none-is_any (c ∷ cs) any = refl

-- The task of a step, if it has an id, goes.
pub remove_task_of-last :
    (psutil : Processes) (t : Task) (step_id : Option Text) (managed : Bool) (ts : List Task)
    (m : TaskManager)
    → m.tasks ≡ ts ++ t ∷ []
    → is_any (some t.pid) ≡ true
    → All (λ u. Apart u t) ts
    → (psutil.is_running t && not (psutil.can_kill t)) ≡ false
    → (remove_task_of psutil
        (record { step_id = step_id; task_id = str_or_none (some t.pid); managed = some managed })
        m).tasks
      ≡ ts
unfolding remove_task_of
remove_task_of-last psutil t step_id managed ts m e any apart can = elim (Bool-cases managed) [
  | inl own ↦
      rw (str_or_none-is_any t.pid any, own, any) (remove_task-last psutil t ts m e apart can)
  | inr plain ↦
      rw (str_or_none-is_any t.pid any, plain) (remove_task-last psutil t ts m e apart can)
]

remove_task_of-started :
    (psutil : Processes) (a : StartAnswers) (name : Text) (kind : StepKind) (managed : Bool)
    (id : Option Text) (ts : List Task) (m : TaskManager)
    → m.tasks ≡ ts ++ started a kind
    → (is_batch kind && not managed) ≡ false
    → is_any (some a.task.pid) ≡ true
    → All (λ u. Apart u a.task) ts
    → (psutil.is_running a.task && not (psutil.can_kill a.task)) ≡ false
    → (remove_task_of psutil
        (entry (record { name = name; kind = kind; managed = managed }) id (task_id_of a kind))
        m).tasks
      ≡ ts
unfolding remove_task_of
remove_task_of-started psutil a name batch true id ts m e own any apart can = e ∙ append-nil ts
remove_task_of-started psutil a name batch false id ts m e own any apart can =
    absurd (ground (arith, own))
remove_task_of-started psutil a name direct managed id ts m e own any apart can =
    remove_task_of-last psutil a.task id managed ts m e any apart can
remove_task_of-started psutil a name other managed id ts m e own any apart can =
    remove_task_of-last psutil a.task id managed ts m e any apart can

run-returned :
    (a : StartAnswers) (step : Step) (l running : Launcher) (id : Option Text)
    → Slurm.run a step l ≡ (running, returned id)
    → (running.task_manager.tasks ≡ l.task_manager.tasks ++ started a step.kind)
      × (running.step_mapping
          ≡ set step.name (entry step id (task_id_of a step.kind)) l.step_mapping)
      × ((not step.managed || is_any id) ≡ true)
unfolding Slurm.run add
run-returned a step l running id e =
    let (tasks, noted) = subst (HasStarted step _ _ l) e (run-HasStarted a step l) in
    elim (Bool-cases (not a.has_sbatch && not a.has_sacct)) [
      | inl missing ↦ absurd (ground (arith, missing, e))
      | inr there ↦ (tasks ∙ rw there refl, noted.0, noted.1)
    ]

-- What a stop is to leave of a step that was started: the tasks, the ids that are cancelled, and what
-- is told.
abbrev pub IsRestored :
    List Task
    → (het_job managed : Bool) → Option Text
    → Launcher × List Text × Outcome LaunchError StepInfo
    → Type 0
IsRestored tasks het_job managed step_id (l, cancelled_ids, outcome) =
    (l.task_manager.tasks ≡ tasks)
    × Cancels het_job managed step_id cancelled_ids
    × IsCancelled outcome

-- A step that the launcher of Slurm has started, with a process whose pid is not empty and that none of
-- its tasks has, unless it is a batch step that is not managed: a stop leaves the tasks from before the
-- start, if the process has ended or can be killed, and tells the step as cancelled. For a managed step,
-- to which run has then given an id, it cancels one id: that id in a heterogeneous job, and else what
-- stands in front of its first plus sign, or all of it if it has none. For other steps it cancels none.
pub stop-run_slurm :
    (het_job : Bool) (int : Text → ℤ) (sacct_out : Text) (names : Psutil) (psutil after : Processes)
    (a : StartAnswers) (step : Step) (l running : Launcher) (id : Option Text)
    → Slurm.run a step l ≡ (running, returned id)
    → (is_batch step.kind && not step.managed) ≡ false
    → is_any (some a.task.pid) ≡ true
    → All (λ u. Apart u a.task) l.task_manager.tasks
    → (psutil.is_running a.task && not (psutil.can_kill a.task)) ≡ false
    → IsRestored l.task_manager.tasks het_job step.managed id
        (Slurm.stop het_job psutil (updates_of int sacct_out names after) step.name running)
unfolding Slurm.stop updates_of get_managed_step_update
stop-run_slurm het_job int sacct_out names psutil after a step l running id e own any apart can =
    let (tasks, mapping, any_id) = run-returned a step l running id e in
    let found : get? step.name running.step_mapping
        ≡ some (entry step id (task_id_of a step.kind)) =
      rw mapping (get?-set_self step.name _ l.step_mapping) in
    let stopped : Launcher = record running {
      task_manager =
          remove_task_of psutil (entry step id (task_id_of a step.kind)) running.task_manager;
    } in
    let task_update = get_task_update after stopped.task_manager in
    rw (Slurm.stop, found)
      (
        remove_task_of-started psutil a step.name step.kind step.managed id l.task_manager.tasks
            running.task_manager tasks own any apart can,
        cancelled_id-Cancels het_job step.managed id any_id,
        get_step_update-IsCancelled (managed_update int sacct_out task_update running.step_mapping)
            names task_update running.step_mapping step.name _ found,
      )
