-- ===== src/Wlm/Stops.antt =====
-- launcher/local/local.py and launcher/slurm/slurmLauncher.py: what a stop leaves.
use mathlib.Core.List.{append-nil}
use smart_sim.Common.{
  ◌≡◌, refl, ap, inl, inr, false, not, ◌&&◌, ◌∷◌, [], ◌++◌, List, Text, codes, text_eq, arith, All,
  Option, some, none, Bool-cases,
}
use smart_sim.Common.Int.{ℤ}
use smart_sim.Common.Dict.{get?, get?-set_self}
use smart_sim.Common.Results.{Outcome, returned}
use smart_sim.Status.{cancelled, status_of_value}
use smart_sim.Launcher.StepInfo.{StepInfo, Psutil, unmanaged_step_info, get_smartsim_status}
use smart_sim.Launcher.StepMapping.{StepMap, add, str_or_none}
use smart_sim.Tasks.{
  Task, Processes, TaskManager, add_task, start_task, get_item, remove, drop_task, remove_task,
  add_task_history,
}
use smart_sim.Tasks.Rounds.{Apart, get_item-append, remove-append}
use smart_sim.Wlm.{Launcher, LaunchError, start_monitor}
use smart_sim.Wlm.Local

-- The tasks once a task that was added last has been removed, if its process can be killed.
pub remove_task-last :
    (psutil : Processes) (t : Task) (ts : List Task) (m : TaskManager)
    → m.tasks ≡ ts ++ t ∷ []
    → All (λ u. Apart u t) ts
    → (psutil.is_running t && not (psutil.can_kill t)) ≡ false
    → (remove_task psutil t.pid m).tasks ≡ ts
unfolding remove_task drop_task add_task_history
remove_task-last psutil t ts m e apart can =
    let found : get_item t.pid m.tasks ≡ some t = rw e (get_item-append ts [] t apart) in
    let gone : remove t.pid m.tasks ≡ ts = rw (e, remove-append ts [] t apart, append-nil) in
    elim (Bool-cases (psutil.is_running t)) [
      | inl running ↦ elim (Bool-cases (psutil.can_kill t)) [
        | inl kills ↦ rw (remove_task, found, running, kills) gone
        | inr fails ↦ absurd (ground (arith, running, fails))
      ]
      | inr over ↦ rw (remove_task, found, over) gone
    ]

cancelled_text :
    (names : Psutil) (code : Option ℤ) (output error : Option Text)
    → (unmanaged_step_info names (codes "Cancelled") code output error).status ≡ cancelled
unfolding unmanaged_step_info get_smartsim_status status_of_value text_eq
cancelled_text names code output error = refl

pub start_monitor-tasks : (m : TaskManager) → (start_monitor m).tasks ≡ m.tasks
unfolding start_monitor
start_monitor-tasks m = elim (Bool-cases m.actively_monitoring) [
  | inl active ↦ ground arith
  | inr idle ↦ ground arith
]

-- What a stop is to leave: the launcher has these tasks, and the step is told as cancelled.
abbrev pub IsStopped : List Task → Launcher × Outcome LaunchError StepInfo → Type 0
IsStopped tasks (l, outcome) =
    (l.task_manager.tasks ≡ tasks)
    × ((info : StepInfo) × (outcome ≡ returned info) × (info.status ≡ cancelled))

stop-IsStopped :
    (names : Psutil) (psutil after : Processes) (t : Task) (ts : List Task) (name : Text)
    (l : Launcher) (m : StepMap)
    → get? name l.step_mapping ≡ some m
    → m.task_id ≡ some t.pid
    → l.task_manager.tasks ≡ ts ++ t ∷ []
    → All (λ u. Apart u t) ts
    → (psutil.is_running t && not (psutil.can_kill t)) ≡ false
    → IsStopped ts (Local.stop names psutil after name l)
unfolding Local.stop
stop-IsStopped names psutil after t ts name l m found id e apart can =
    rw (Local.stop, found, id)
      (
        remove_task-last psutil t ts l.task_manager e apart can,
        (_, refl, cancelled_text names _ _ _),
      )

-- A step that the local launcher has started, with a pid that is not empty and that none of its tasks
-- has, is told as cancelled when it is stopped, and the tasks are those before the start, if the
-- process has ended or can be killed.
pub stop-run :
    (names : Psutil) (psutil after : Processes) (task : Task) (name : Text) (l : Launcher)
    → str_or_none (some task.pid) ≡ some task.pid
    → All (λ u. Apart u task) l.task_manager.tasks
    → (psutil.is_running task && not (psutil.can_kill task)) ≡ false
    → IsStopped l.task_manager.tasks (Local.stop names psutil after name (Local.run task name l).0)
unfolding Local.run start_task add_task add
stop-run names psutil after task name l pid apart can =
    stop-IsStopped names psutil after task l.task_manager.tasks name (Local.run task name l).0
      (record { step_id = none; task_id = str_or_none (some task.pid); managed = some false })
      (get?-set_self name _ l.step_mapping) pid
      (ap (λ ts. ts ++ task ∷ []) (start_monitor-tasks l.task_manager)) apart can
