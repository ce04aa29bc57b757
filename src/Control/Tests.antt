-- ===== src/Control/Tests.antt =====
-- The theorems about the job manager and the controller at concrete inputs.
use mathlib.Core.Option
use smart_sim.Common.Entries.{All-map}
use smart_sim.Common.{
  any, map, mem_text, text_eq_refl, Bool, true, false, List, [], ◌∷◌, Option, none, some, Text,
  codes, text_eq, ◌≡◌, refl, arith,
}
use smart_sim.Common.Int.{pos}
use smart_sim.Common.Dict.{get?, keys, contains, set, del, values}
use smart_sim.Status.{completed, is_terminal}
use smart_sim.Launcher.StepInfo.{StepInfo}
use smart_sim.Control.Job.{db_node, Entity, other, job_entity, new_job}
use smart_sim.Control.Job.Runs.{put}
use smart_sim.Control.Controller.{launch_step, may_launch, start_job, stop_entity}
use smart_sim.Control.Manager.Steps.{is_active, add_job-Inv}
use smart_sim.Control.Manager.{
  get_status, apply_updates, apply_update, move_over, stop_idle, get_item, write_item, names_of,
  active, merge, Manager, init, Updates, run_round, number_active, add_job, restart_job,
  move_to_completed, check_jobs,
}
use smart_sim.Control.Manager.Invariant.{Inv}
use smart_sim.Control.Manager.Rounds.{IsLauncher}
use smart_sim.Control.Manager.Reported.{run_round-get_status}
use smart_sim.Control.Manager.Launchers.{get_step_update-IsLauncher}
use smart_sim.Launcher.StepMapping.{StepMapping, add}
use smart_sim.Launcher.Updates.{get_step_update}
use smart_sim.Launcher.StepInfo.{Psutil}
use smart_sim.Control.Databases.{
  set_db_hosts, get_db_host_addresses, get_list, add_addresses, signal_interrupt,
}
use smart_sim.Control.Databases.Addresses.{serves, get_db_host_addresses-serves}
use smart_sim.Common.Decimal.{show}
use smart_sim.Control.Manager.Settled.{IsSettled, run_round-IsSettled}
use smart_sim.Control.Controller.Histories.{
  Event, launch, halt, round, perform, performs, AreLaunchers, controller_history, init-Inv,
}

abbrev model : Entity
model = record {
  ident = 1;
  name = codes "model";
  type_name = codes "Model";
  path = [];
  kind = other;
}

abbrev ended : StepInfo
ended = record {
  status = completed;
  launcher_status = codes "COMPLETED";
  returncode = some (pos 0);
  output = none;
  error = none;
}

-- Every step that is asked for has completed.
abbrev all_ended : List Text → Updates
all_ended [] = []
all_ended (name ∷ names) = (name, some ended) ∷ all_ended names

all_ended-IsLauncher : IsLauncher all_ended
unfolding IsLauncher mem_text
all_ended-IsLauncher [] = tt
all_ended-IsLauncher (name ∷ names) = (
  ground (arith, text_eq_refl name),
  All-map (λ u h. ground (arith, h)) (all_ended names) (all_ended-IsLauncher names),
)

-- The model is launched, ends, is launched again and is stopped.
abbrev life : List Event
life =
    launch (some (some (codes "7"))) (codes "model-1") true model 1
    ∷ round all_ended 2
    ∷ launch (some (some (codes "8"))) (codes "model-2") true model 3
    ∷ halt (λ name. ended) model 4
    ∷ []

life-AreLaunchers : AreLaunchers life
unfolding AreLaunchers
life-AreLaunchers = (all_ended-IsLauncher, tt)

-- What a run has to unfold.
unfoldable program : Unit {0}
unfolding performs perform launch_step may_launch start_job stop_entity run_round check_jobs
    apply_updates apply_update add_job restart_job move_to_completed move_over stop_idle get_item
    write_item names_of active merge new_job put get? contains set del keys values mem_text text_eq
    is_terminal
program = tt

abbrev at_end : Manager
unfolding program
at_end = elim (performs life (init (some (codes "Slurm")))) [ none ↦ init none | some m ↦ m ]

life_runs :
    Option.map (λ job. job.history.statuses) (get? (codes "model") at_end.completed)
    ≡ some ((0, completed) ∷ (1, completed) ∷ [])
unfolding at_end
life_runs = refl

controller_history_example : Inv at_end
unfolding at_end
controller_history_example =
    controller_history (some (codes "Slurm")) life at_end life-AreLaunchers refl

-- A manager with one job that a round finds ended.
abbrev one_job : Manager
one_job = add_job (codes "model-1") (some (codes "7")) model true 1 (init (some (codes "Slurm")))

one_job-Inv : Inv one_job
unfolding is_active contains
one_job-Inv =
    add_job-Inv (codes "model-1") (some (codes "7")) model true 1 (init (some (codes "Slurm")))
      (init-Inv (some (codes "Slurm"))) refl refl

run_round-IsSettled_example :
    (n : Manager) × (run_round all_ended 2 one_job ≡ some n)
    × Inv n
    × IsSettled n.jobs
    × IsSettled n.db_jobs
    × (number_active n ≡ 0 → n.actively_monitoring ≡ false)
run_round-IsSettled_example =
    run_round-IsSettled all_ended 2 one_job all_ended-IsLauncher one_job-Inv

-- A database of the telemetry monitor starts among the database jobs and restarts among the others.
abbrev watched : Entity
watched = record {
  ident = 2;
  name = codes "db";
  type_name = codes "dbnode";
  path = [];
  kind = job_entity;
}

abbrev restarted : Option Manager
unfolding program
restarted =
    let m = add_job (codes "db-1") none watched true 1 (init none) in
    elim (get_item (codes "db") m) [
      | none ↦ none
      | some job ↦ restart_job (codes "db-2") none (codes "db") true 3 (move_to_completed 2 job m)
    ]

restarted_dict :
    Option.map {B = Bool × Bool}
      (λ m. (contains (codes "db") m.db_jobs, contains (codes "db") m.jobs))
      restarted
    ≡ some (false, true)
unfolding restarted
restarted_dict = refl

run_round-get_status_example :
    (c : Manager) × (n : Manager) × (check_jobs all_ended one_job ≡ some c)
    × (run_round all_ended 2 one_job ≡ some n)
    × (get_status model n ≡ get_status model c)
run_round-get_status_example =
    run_round-get_status all_ended 2 one_job model all_ended-IsLauncher one_job-Inv

-- The map of a launcher with the step of the model.
abbrev one_step : StepMapping
unfolding add
one_step = add (codes "model-1") (some (codes "7")) none true []

abbrev no_names : Psutil
no_names = record {
  running = [];
  sleeping = [];
  waking = [];
  disk_sleep = [];
  dead = [];
  tracing_stop = [];
  waiting = [];
  stopped = [];
  locked = [];
  parked = [];
  idle = [];
  zombie = [];
}

get_step_update-IsLauncher_example :
    IsLauncher
      (get_step_update (map (λ id. ended)) no_names (λ id. ([], none, none, none)) one_step)
get_step_update-IsLauncher_example =
    get_step_update-IsLauncher (map (λ id. ended)) no_names (λ id. ([], none, none, none)) one_step

-- A shard of a database on two hosts.
abbrev shard : Entity
shard = record {
  ident = 3;
  name = codes "db_0";
  type_name = codes "DBNode";
  path = [];
  kind = db_node (codes "db") (6379 ∷ 6380 ∷ []);
}

abbrev with_shard : Manager
with_shard =
    let m = add_job (codes "db_0-1") (some (codes "9")) shard true 1 one_job in
    elim (set_db_hosts
      (record {
        name = codes "db";
        batch = false;
        hosts = [];
        entities =
            record {
              name = codes "db_0";
              is_mpmd = true;
              host = [];
              hosts = codes "n1" ∷ codes "n2" ∷ [];
            }
            ∷ [];
      })
      m) [ none ↦ m | some n ↦ n ]

get_db_host_addresses-serves_example :
    mem_text (codes "n2:6380") (get_list (codes "db") (get_db_host_addresses (λ h. h) with_shard))
    ≡ any (serves (λ h. h) (codes "db") (codes "n2:6380")) (values with_shard.db_jobs)
get_db_host_addresses-serves_example =
    get_db_host_addresses-serves (λ h. h) with_shard (codes "db") (codes "n2:6380")

shard_addresses :
    get_list (codes "db") (get_db_host_addresses (λ h. h) with_shard)
    ≡ codes "n1:6379" ∷ codes "n1:6380" ∷ codes "n2:6379" ∷ codes "n2:6380" ∷ []
unfolding program set_db_hosts get_db_host_addresses add_addresses get_list show
shard_addresses = refl

interrupted :
    signal_interrupt (record with_shard { actively_monitoring = true })
    ≡ codes "model-1" ∷ codes "db_0-1" ∷ []
unfolding program set_db_hosts signal_interrupt
interrupted = refl
