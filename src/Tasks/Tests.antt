-- ===== src/Tasks/Tests.antt =====
-- The theorems about the task manager at concrete inputs.
use smart_sim.Common.{
  ◌≡◌, refl, true, false, [], ◌∷◌, List, Text, codes, arith, text_eq, none, some, Option, mem_text,
  if◌then◌else◌, All,
}
use smart_sim.Common.Int.{ℤ, pos, negsuc, is_nonzero}
use smart_sim.Common.Dict.{get?, contains, set}
use smart_sim.Launcher.StepInfo.{Psutil}
use smart_sim.Tasks.{
  Task, Processes, TaskManager, init, check_status, check_killed, get_io, add_task_history,
  get_item, remove, drop_task, remove_task, visit, visit_from, stop_idle, run_round, run_loop, run,
  add_task, start_task, add_existing, find_status, get_task_update,
}
use smart_sim.Tasks.Rounds.{
  every_other, taken, record_all, AreDistinct, Returned, run_round-every_other,
}
use smart_sim.Tasks.Drained.{IsDrained, run-IsDrained}
use smart_sim.Tasks.Reported.{told, info_of, run-told}
use smart_sim.Tasks.Invariant.{AreKnown}
use smart_sim.Tasks.Histories.{
  Event, start, adopt, remove_one, monitor, perform, performs, added, all_added, performs-history,
}

unfoldable program : Unit {0}
unfolding check_status check_killed get_io add_task_history get_item remove drop_task remove_task
    visit visit_from stop_idle run_round run_loop run add_task start_task add_existing find_status
    get_task_update every_other taken record_all perform performs added all_added mem_text get?
    contains set text_eq is_nonzero
program = tt

abbrev code : Text → ℤ
code pid = if text_eq pid (codes "12") then pos 3 else pos 0

abbrev io : Text → Option Text × Option Text
io pid = (some (codes "out"), none)

-- Each process has returned.
abbrev over : Processes
over = record {
  poll = λ t. some (code t.pid);
  communicate = λ t. io t.pid;
  is_running = λ t. false;
  status = λ t. none;
  can_kill = λ t. false;
  runs_on = λ t. false;
  poll_killed = λ t. none;
  find_process = λ pid. some (record { pid = pid; owned = false });
}

abbrev running : Processes
running = record over {
  poll = λ t. none;
  is_running = λ t. true;
  status = λ t. some (codes "sleeping");
  can_kill = λ t. true;
  poll_killed = λ t. some (negsuc 8);
}

abbrev task : Text → Task
task pid = record { pid = pid; owned = true }

abbrev three : TaskManager
three = record {
  actively_monitoring = true;
  task_history = [];
  tasks = task (codes "11") ∷ task (codes "12") ∷ task (codes "13") ∷ [];
}

-- A task that is killed keeps the code of the kill; one that runs has the status of psutil.
killed_and_running :
    (get_task_update running
        (remove_task running (codes "12") (start_task (task (codes "12")) init).0)
        (codes "12")
      ≡ (codes "Failed", some (negsuc 8), some (codes "out"), none))
    × (get_task_update running (start_task (task (codes "12")) init).0 (codes "12")
        ≡ (codes "sleeping", none, none, none))
    × (get_task_update running init (codes "12")
        ≡ (codes "Failed", some (negsuc 0), some [], some []))
unfolding program
killed_and_running = (refl, refl, refl)

three-AreDistinct : AreDistinct three.tasks
unfolding program
three-AreDistinct = ((refl, (refl, tt)), ((refl, tt), (tt, tt)))

three-Returned : All (Returned code io over) three.tasks
unfolding program
three-Returned = ((refl, refl, refl), ((refl, refl, refl), ((refl, refl, refl), tt)))

run_round-every_other_example :
    run_round over three
    ≡ stop_idle (record three {
      task_history = record_all code io (taken three.tasks) [];
      tasks = every_other three.tasks;
    })
run_round-every_other_example =
    run_round-every_other code io over three three-AreDistinct three-Returned

run-IsDrained_example : IsDrained code io three.tasks (run (over ∷ over ∷ over ∷ []) three)
run-IsDrained_example =
    run-IsDrained code io over (over ∷ over ∷ []) three three-AreDistinct
      (three-Returned, (three-Returned, (three-Returned, tt))) (omega arith)

-- The names of psutil for the statuses of processes.
abbrev names : Psutil
names = record {
  running = codes "running";
  sleeping = codes "sleeping";
  waking = codes "waking";
  disk_sleep = codes "disk-sleep";
  dead = codes "dead";
  tracing_stop = codes "tracing-stop";
  waiting = codes "waiting";
  stopped = codes "stopped";
  locked = codes "locked";
  parked = codes "parked";
  idle = codes "idle";
  zombie = codes "zombie";
}

run-told_example :
    All
      (λ t.
        told names (get_task_update running (run (over ∷ over ∷ over ∷ []) three) t.pid)
        ≡ info_of (code t.pid) (io t.pid))
      three.tasks
run-told_example =
    run-told code io names over running (over ∷ over ∷ []) three three-AreDistinct
      (three-Returned, (three-Returned, (three-Returned, tt))) (omega arith)

abbrev events : List Event
events =
    start (task (codes "12"))
    ∷ adopt running (codes "14")
    ∷ remove_one running (codes "12")
    ∷ monitor over
    ∷ []

performs-history_example :
    AreKnown (performs events init)
    × ((pid : Text)
        → contains pid (performs events init).task_history ≡ mem_text pid (all_added events))
performs-history_example = performs-history events
