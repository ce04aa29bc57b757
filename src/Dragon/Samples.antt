-- ===== src/Dragon/Samples.antt =====
-- Small backends and worlds, and what the backend does on them.
use smart_sim.Common.{ℕ, true, false, List, [], ◌∷◌, none, some, Text, codes, text_eq, ◌≡◌, refl}
use smart_sim.Common.Dict.{get?, contains, set, del, keys, values}
use smart_sim.Common.Decimal.{show}
use smart_sim.Common.Int.{pos, is_nonzero}
use smart_sim.Status.{is_terminal}
use smart_sim.Dragon.State.{
  DragonRunRequest, GroupState, World, Launch, Node, Config, DragonBackend,
}
use smart_sim.Dragon.Policies.{
  run_group, run_policies, create_redirect_workers, host_policy, can_honor,
}
use smart_sim.Dragon.Stop.{stop_steps, stop_all, stop_step}
use smart_sim.Dragon.Start.{start_steps, start_loop, start_step}
use smart_sim.Dragon.Refresh.{refresh_statuses, poll_all, poll, retire_all, retire}
use smart_sim.Dragon.Shutdown.{update, update_shutdown_status}
use smart_sim.Dragon.Server.{
  init, run, Event, request, tick, step, history, step_name, process_request,
}

abbrev pub two_nodes : List Node
two_nodes =
    record { hostname = codes "n1"; num_cpus = 4; num_gpus = 1 }
    ∷ record { hostname = codes "n2"; num_cpus = 8; num_gpus = 0 }
    ∷ []

abbrev pub two_hosts : List Text
two_hosts = codes "n1" ∷ codes "n2" ∷ []

abbrev pub small_config : Config
small_config = record { telemetry_enabled = true; telemetry_frequency = 5 }

abbrev pub fresh : DragonBackend
fresh = init 17 two_hosts two_nodes small_config 0

abbrev pub on_nodes : ℕ → DragonRunRequest
on_nodes n = record {
  exe = codes "sim";
  exe_args = [];
  path = codes "/tmp";
  nodes = n;
  tasks = 1;
  tasks_per_node = 1;
  hostlist = none;
  output_file = some (codes "out");
  error_file = none;
  env = [];
  name = none;
  pmi_enabled = true;
  current_env = [];
  policy = none;
}

-- A runtime that launches one process on each group, all of them in one given state.
abbrev pub runtime : Launch → GroupState → World
runtime l state = record {
  launch = λ step_id group. l;
  group_state = λ step_id group. state;
  kill_raises = λ step_id. false;
  return_code = λ puid. some (pos 0);
}

abbrev pub good_launch : Launch
good_launch = record {
  raises = false;
  puids = some (some 101 ∷ []);
  inactive_puids = [];
  redirects = true;
}

abbrev pub busy : World
busy = runtime good_launch GroupState.running

abbrev pub done : World
done = runtime good_launch GroupState.other

abbrev pub broken_pipes : World
broken_pipes = runtime (record good_launch { redirects = false }) GroupState.running

abbrev pub first_id : Text
first_id = codes "ab-0"

abbrev pub submit : ℕ → Event
submit n = request 1 (codes "ab") (run (on_nodes n))

abbrev pub mute : World
mute = runtime (record good_launch { puids = none }) GroupState.running

-- What a test has to unfold.
unfoldable pub program : Unit {0}
unfolding init history step process_request update update_shutdown_status stop_steps stop_all
    stop_step start_steps start_loop start_step refresh_statuses poll_all poll retire_all retire
    run_group run_policies create_redirect_workers host_policy can_honor get? contains set del keys
    values text_eq show is_nonzero is_terminal step_name
program = tt

-- One step on one node, launched and still running.
abbrev pub launched : DragonBackend
unfolding program
launched = history (submit 1 ∷ tick 2 busy ∷ []) fresh

launched_hosts :
    (launched.free_hosts ≡ codes "n2" ∷ [])
    × (get? (codes "n1") launched.allocated_hosts ≡ some first_id)
    × (launched.running_steps ≡ first_id ∷ [])
unfolding launched
launched_hosts = (refl, refl, refl)

finished_hosts : (history (tick 3 done ∷ []) launched).free_hosts ≡ codes "n2" ∷ codes "n1" ∷ []
unfolding launched
finished_hosts = refl

-- The redirect workers of the first round fail, all later calls succeed.
pub jammed : DragonBackend
unfolding program
jammed = history (submit 1 ∷ tick 2 broken_pipes ∷ tick 3 busy ∷ tick 4 done ∷ []) fresh

-- One node is lost and the other is free twice.
jammed_hosts :
    (jammed.free_hosts ≡ codes "n2" ∷ codes "n2" ∷ [])
    × (get? (codes "n1") jammed.allocated_hosts ≡ some first_id)
    × (jammed.completed_steps ≡ first_id ∷ first_id ∷ [])
unfolding jammed
jammed_hosts = (refl, refl, refl)
