-- ===== src/Wlm/Lsf/Restored.antt =====
-- launcher/lsf/lsfLauncher.py: stop of a step that run has started.
use mathlib.Core.List.{append-nil}
use smart_sim.Common.{
  ◌≡◌, refl, ◌∙◌, sym, ap, subst, Bool, true, false, not, ◌||◌, ◌&&◌, ◌∷◌, [], ◌++◌, List, Text,
  arith, All, Option, some, none, Bool-cases, Option-cases, inl, inr,
}
use smart_sim.Common.Dict.{get?, get?-set_self, set}
use smart_sim.Common.Int.{ℤ, is_nonzero}
use smart_sim.Common.Results.{Outcome, returned, raised}
use smart_sim.Launcher.Lsf.{parse_bsub}
use smart_sim.Launcher.StepInfo.{StepInfo, Psutil}
use smart_sim.Launcher.StepMapping.{add}
use smart_sim.Tasks.{Task, Processes, TaskManager, get_task_update, start_task, add_task}
use smart_sim.Tasks.Rounds.{Apart}
use smart_sim.Wlm.{Launcher, Step, StepKind, batch, direct, other, LaunchError, start_monitor}
use smart_sim.Wlm.Slurm.{is_any, remove_task_of}
use smart_sim.Wlm.Stops.{start_monitor-tasks}
use smart_sim.Wlm.Restored.{IsCancelled, get_step_update-IsCancelled, entry, remove_task_of-last}
use smart_sim.Wlm.Lsf
use smart_sim.Wlm.Lsf.Kills.{Kills, kill_of-Kills}
use smart_sim.Wlm.Lsf.{
  StartAnswers, Kill, kill_of, get_lsf_step_id, launch, noted_batch, get_managed_step_update,
  managed_update, updates_of,
}

-- The tasks that a start and a stop together leave of a step: that of a jsrun step.
abbrev pub left_over : Task → StepKind → List Task
left_over t batch = []
left_over t direct = t ∷ []
left_over t other = []

abbrev pub is_other : StepKind → Bool
is_other batch = false
is_other direct = false
is_other other = true

abbrev task_id_of : Task → StepKind → Option Text
task_id_of t batch = none
task_id_of t direct = none
task_id_of t other = some t.pid

abbrev started : Task → StepKind → List Task
started t batch = []
started t direct = t ∷ []
started t other = t ∷ []

-- What a start leaves of the launcher if it is successful.
abbrev HasStarted : Step → Task → Launcher → Launcher × Outcome LaunchError (Option Text) → Type 0
HasStarted step t l (after, returned id) =
    (after.task_manager.tasks ≡ l.task_manager.tasks ++ started t step.kind)
    × (after.step_mapping ≡ set step.name (entry step id (task_id_of t step.kind)) l.step_mapping)
HasStarted step t l (after, raised error) = Unit

noted_batch-HasStarted :
    (t : Task) (name : Text) (managed : Bool) (out : Text) (l : Launcher)
    → let step : Step = record { name = name; kind = batch; managed = managed } in
      HasStarted step t l (noted_batch step out l)
unfolding noted_batch add
noted_batch-HasStarted t name managed [] l = (sym (append-nil l.task_manager.tasks), refl)
noted_batch-HasStarted t name managed (c ∷ cs) l = elim (Option-cases (parse_bsub (c ∷ cs))) [
  | inl short ↦ rw (noted_batch, short) tt
  | inr (id, read) ↦ rw (noted_batch, read) (sym (append-nil l.task_manager.tasks), refl)
]

launch-HasStarted :
    (a : StartAnswers) (name : Text) (kind : StepKind) (managed : Bool) (l : Launcher)
    → let step : Step = record { name = name; kind = kind; managed = managed } in
      HasStarted step a.task l (launch a step l)
unfolding launch start_task add_task add
launch-HasStarted a name batch managed l = elim (Bool-cases (is_nonzero a.submission.0)) [
  | inl failed ↦ rw (launch, failed) tt
  | inr submitted ↦
      rw (launch, submitted) (noted_batch-HasStarted a.task name managed a.submission.1 l)
]
launch-HasStarted a name direct managed l =
    elim (Option-cases (get_lsf_step_id a.alloc a.jslist_outputs)) [
      | inl missing ↦ rw (launch, missing) tt
      | inr (id, found) ↦ rw (launch, found) (refl, refl)
    ]
launch-HasStarted a name other managed l = (refl, refl)

remove_task_of-started :
    (psutil : Processes) (t : Task) (name : Text) (kind : StepKind) (managed : Bool)
    (id : Option Text) (ts : List Task) (m : TaskManager)
    → m.tasks ≡ ts ++ started t kind
    → (is_other kind || managed) ≡ true
    → is_any (some t.pid) ≡ true
    → All (λ u. Apart u t) ts
    → (psutil.is_running t && not (psutil.can_kill t)) ≡ false
    → (remove_task_of psutil
        (entry (record { name = name; kind = kind; managed = managed }) id (task_id_of t kind))
        m).tasks
      ≡ ts ++ left_over t kind
unfolding remove_task_of
remove_task_of-started psutil t name batch true id ts m e own any apart can = e
remove_task_of-started psutil t name direct true id ts m e own any apart can = e
remove_task_of-started psutil t name batch false id ts m e own any apart can =
    absurd (ground (arith, own))
remove_task_of-started psutil t name direct false id ts m e own any apart can =
    absurd (ground (arith, own))
remove_task_of-started psutil t name other managed id ts m e own any apart can =
    remove_task_of-last psutil t id managed ts m e any apart can ∙ sym (append-nil ts)

-- What a stop is to leave of a step that was started.
abbrev pub IsLeft :
    List Task
    → (managed : Bool) → Option Text
    → Launcher × List Kill × Outcome LaunchError StepInfo
    → Type 0
IsLeft tasks managed step_id (l, killed, outcome) =
    (l.task_manager.tasks ≡ tasks) × Kills managed step_id killed × IsCancelled outcome

-- A step that the launcher of LSF has started, a managed one if it is a batch or a jsrun step, with a
-- process whose pid is not empty and that none of its tasks has: a stop tells the step as cancelled, and
-- leaves the tasks from before the start, if the process has ended or can be killed; but the task of a
-- jsrun step stays. For a managed step it runs one command: jskill with what stands behind the last dot
-- of the id that run has returned, if that has a dot, and else bkill with the id, or with "None" if
-- there is no id. For other steps it runs no command.
pub stop-run_lsf :
    (int : Text → ℤ) (jslist_out bjobs_out : Text → Text) (names : Psutil)
    (psutil after : Processes) (a : StartAnswers) (step : Step) (l running : Launcher)
    (id : Option Text)
    → Lsf.run a step l ≡ (running, returned id)
    → (is_other step.kind || step.managed) ≡ true
    → is_any (some a.task.pid) ≡ true
    → All (λ u. Apart u a.task) l.task_manager.tasks
    → (psutil.is_running a.task && not (psutil.can_kill a.task)) ≡ false
    → IsLeft
        (l.task_manager.tasks ++ left_over a.task step.kind)
        step.managed
        id
        (Lsf.stop psutil (updates_of int jslist_out bjobs_out names after) step.name running)
unfolding Lsf.run Lsf.stop updates_of get_managed_step_update
stop-run_lsf int jslist_out bjobs_out names psutil after a step l running id e own any apart can =
    let monitored : Launcher = record l { task_manager = start_monitor l.task_manager } in
    let (grown, mapping) =
      subst (HasStarted step a.task monitored) e
        (launch-HasStarted a step.name step.kind step.managed monitored) in
    let tasks =
      grown ∙ ap (λ ts. ts ++ started a.task step.kind) (start_monitor-tasks l.task_manager) in
    let found : get? step.name running.step_mapping
        ≡ some (entry step id (task_id_of a.task step.kind)) =
      rw mapping (get?-set_self step.name _ l.step_mapping) in
    let stopped : Launcher = record running {
      task_manager =
          remove_task_of psutil (entry step id (task_id_of a.task step.kind)) running.task_manager;
    } in
    rw (Lsf.stop, found)
      (
        remove_task_of-started psutil a.task step.name step.kind step.managed id
            l.task_manager.tasks running.task_manager tasks own any apart can,
        kill_of-Kills step.managed id,
        get_step_update-IsCancelled (managed_update int jslist_out bjobs_out) names
            (get_task_update after stopped.task_manager) running.step_mapping step.name _ found,
      )
