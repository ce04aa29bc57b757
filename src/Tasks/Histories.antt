-- ===== src/Tasks/Histories.antt =====
-- launcher/taskManager.py: the history of a task manager after any calls.
use smart_sim.Common.{
  mem_text-append, ◌≡◌, refl, inl, inr, true, ◌||◌, ◌∷◌, [], ◌++◌, List, Text, text_eq_refl,
  Option-cases, arith, Option, some, none, mem_text,
}
use smart_sim.Common.Dict.{contains, set, contains-set}
use smart_sim.Common.Entries.{All-map, All-append}
use smart_sim.Tasks.{
  Task, Processes, TaskManager, init, remove_task, run_round, add_task, start_task, add_existing,
}
use smart_sim.Tasks.Invariant.{AreKnown, remove_task-Keeps, run_round-Keeps}

-- The calls of a task manager: a task that is started or adopted, a removal, a round of monitoring.
pub data Event : Type 0 where
  start : Task → Event
  adopt : Processes → Text → Event
  remove_one : Processes → Text → Event
  monitor : Processes → Event

abbrev or_else : TaskManager → Option TaskManager → TaskManager
or_else m none = m
or_else m (some n) = n

unfoldable pub perform : Event → TaskManager → TaskManager
unfolding start_task add_existing remove_task run_round
perform (start task) m = (start_task task m).0
perform (adopt psutil task_id) m = or_else m (add_existing psutil task_id m)
perform (remove_one psutil task_id) m = remove_task psutil task_id m
perform (monitor psutil) m = run_round psutil m

unfoldable pub performs : List Event → TaskManager → TaskManager
unfolding perform
performs [] m = m
performs (event ∷ events) m = performs events (perform event m)

abbrev pid_of : Option Task → List Text
pid_of none = []
pid_of (some task) = task.pid ∷ []

-- The pids of the tasks that an event has added.
unfoldable pub added : Event → List Text
added (start task) = task.pid ∷ []
added (adopt psutil task_id) = pid_of (psutil.find_process task_id)
added (remove_one psutil task_id) = []
added (monitor psutil) = []

unfoldable pub all_added : List Event → List Text
unfolding added
all_added [] = []
all_added (event ∷ events) = added event ++ all_added events

add_task-Adds :
    (t : Task) (m : TaskManager)
    → AreKnown m
    → AreKnown (add_task t m)
      × ((j : Text)
          → contains j (add_task t m).task_history
            ≡ (mem_text j (t.pid ∷ []) || contains j m.task_history))
unfolding add_task mem_text
add_task-Adds t m known = (
  All-append (λ u. contains u.pid (set t.pid (none, none, none) m.task_history) ≡ true) m.tasks
      (t ∷ [])
      (All-map
        (λ u k. ground (arith, k, contains-set u.pid t.pid (none, none, none) m.task_history))
        m.tasks known)
      (rw (contains-set, text_eq_refl) refl, tt),
  λ j. ground (arith, contains-set j t.pid (none, none, none) m.task_history),
)

abbrev Adds : Event → TaskManager → Type 0
Adds event m =
    AreKnown (perform event m)
    × ((j : Text)
        → contains j (perform event m).task_history
          ≡ (mem_text j (added event) || contains j m.task_history))

perform-Adds : (event : Event) (m : TaskManager) → AreKnown m → Adds event m
unfolding perform start_task add_existing added mem_text
perform-Adds (start task) m known = add_task-Adds task m known
perform-Adds (adopt psutil task_id) m known = elim (Option-cases (psutil.find_process task_id)) [
  | inl gone ↦ rw (perform, add_existing, added, gone) (known, λ j. refl)
  | inr (t, e) ↦ rw (perform, add_existing, added, e) (add_task-Adds t m known)
]
perform-Adds (remove_one psutil task_id) m known = remove_task-Keeps psutil task_id m known
perform-Adds (monitor psutil) m known = run_round-Keeps psutil m known

performs-Adds :
    (events : List Event) (m : TaskManager)
    → AreKnown m
    → AreKnown (performs events m)
      × ((j : Text)
          → contains j (performs events m).task_history
            ≡ (mem_text j (all_added events) || contains j m.task_history))
unfolding performs all_added mem_text
performs-Adds [] m known = (known, λ j. refl)
performs-Adds (event ∷ events) m known =
    let (next, first) = perform-Adds event m known in
    let (last, rest) = performs-Adds events (perform event m) next in
    (last, λ j. ground (arith, first j, rest j, mem_text-append j (added event) (all_added events)))

-- After any calls of a new task manager each of its tasks has an entry in the history, and the
-- history has entries for the pids of the tasks that were started or adopted and for no others.
pub performs-history :
    (events : List Event)
    → AreKnown (performs events init)
      × ((pid : Text)
          → contains pid (performs events init).task_history ≡ mem_text pid (all_added events))
unfolding contains
performs-history events =
    let (known, same) = performs-Adds events init tt in (known, λ pid. ground (arith, same pid))
