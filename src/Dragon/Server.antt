-- ===== src/Dragon/Server.antt =====
-- dragonBackend.py: a new backend, the handlers of `process_request`, and histories of requests
-- and updates in the order in which the lock lets them through. The handler of a request is one step
-- of a history.
use smart_sim.Common.{
  ℕ, ◌+◌, Bool, true, false, List, [], ◌∷◌, ◌++◌, map, Option, none, some, Text, codes,
  if◌then◌else◌,
}
use smart_sim.Common.Dict.{Dict, get?, set}
use smart_sim.Common.Decimal.{show}
use smart_sim.Common.Int.{ℤ, negsuc}
use smart_sim.Status.{SmartSimStatus, failed, never_started, is_terminal}
use smart_sim.Dragon.State.{DragonRunRequest, ProcessGroupInfo, World, DragonBackend, Node, Config}
use smart_sim.Dragon.Policies.{honorable, refused, value_error, can_honor}
use smart_sim.Dragon.Shutdown.{
  update_shutdown_status, update, backend_of, cooldown_period, Phase, run_phase,
}

-- f"{create_short_id_str()}-{id}"; the short id comes from uuid4.
unfoldable pub step_name : Text → ℕ → Text
step_name short_id n = short_id ++ b'-' ∷ show n

-- A step that has no process group.
abbrev pub idle_info : SmartSimStatus → Option (List ℤ) → ProcessGroupInfo
idle_info status codes = record {
  status = status;
  process_group = none;
  puids = none;
  return_codes = codes;
  hosts = [];
  redir_workers = none;
}

-- `__init__`; `sorted_names` are the nodes' host names in order.
unfoldable pub init : ℕ → List Text → List Node → Config → ℕ → DragonBackend
unfolding cooldown_period
init pid sorted_names nodes config now = record {
  pid = pid;
  group_infos = [];
  next_step = 0;
  hosts = sorted_names;
  cpus = map (λ n. n.num_cpus) nodes;
  gpus = map (λ n. n.num_gpus) nodes;
  free_hosts = sorted_names;
  allocated_hosts = [];
  queued_steps = [];
  stop_requests = [];
  running_steps = [];
  completed_steps = [];
  last_beat = now;
  last_update_time = now;
  shutdown_requested = false;
  can_shutdown = false;
  frontend_shutdown = false;
  shutdown_initiation_time = none;
  cooldown_period = cooldown_period config;
  calls = [];
}

pub data DragonRequest : Type 0 where
  run : DragonRunRequest → DragonRequest
  update_status : List Text → DragonRequest
  stop : Text → DragonRequest
  handshake : DragonRequest
  bootstrap : Text → DragonRequest
  shutdown : (immediate frontend_shutdown : Bool) → DragonRequest

-- The responses; the last two are the exceptions ValueError and TypeError.
pub data DragonResponse : Type 0 where
  run_response : (step_id : Text) (error_message : Option Text) → DragonResponse
  update_status_response : Dict (SmartSimStatus × Option (List ℤ)) → DragonResponse
  stop_response : DragonResponse
  handshake_response : (dragon_pid : ℕ) → DragonResponse
  shutdown_response : DragonResponse
  value_error_raised : DragonResponse
  type_error_raised : DragonResponse

abbrev with_info : Text → ProcessGroupInfo → DragonBackend → DragonBackend
with_info step_id info s = record s { group_infos = set step_id info s.group_infos }

unfoldable pub process_run :
    Text → DragonRunRequest → DragonBackend → DragonBackend × DragonResponse
unfolding step_name
process_run short_id request s =
    let step_id = step_name short_id s.next_step in
    let s' = record s { next_step = s.next_step + 1 } in
    elim (can_honor s request) [
      | honorable ↦ (
        record s' {
          queued_steps = set step_id request s.queued_steps;
          group_infos = set step_id (idle_info never_started none) s.group_infos;
        },
        run_response step_id none,
      )
      | refused message ↦ (
        record s' {
          group_infos = set step_id (idle_info failed (some (negsuc 0 ∷ []))) s.group_infos;
        },
        run_response step_id (some message),
      )
      | value_error ↦ (s', value_error_raised)
    ]

-- The dict comprehension over the requested ids, from the left; unknown ids are left out.
unfoldable pub collect_statuses :
    Dict ProcessGroupInfo
    → List Text
    → Dict (SmartSimStatus × Option (List ℤ))
    → Dict (SmartSimStatus × Option (List ℤ))
collect_statuses infos [] found = found
collect_statuses infos (step_id ∷ step_ids) found =
    collect_statuses infos step_ids (elim (get? step_id infos) [
      | none ↦ found
      | some info ↦ set step_id (info.status, info.return_codes) found
    ])

-- A stop request for each step whose status is not final.
unfoldable pub unfinished : Dict ProcessGroupInfo → List Text
unfolding is_terminal
unfinished [] = []
unfinished ((step_id, info) ∷ infos) =
    let rest = unfinished infos in if is_terminal info.status then rest else step_id ∷ rest

unfoldable pub kill_all_running_jobs : DragonBackend → DragonBackend
unfolding unfinished
kill_all_running_jobs s = record s { stop_requests = s.stop_requests ++ unfinished s.group_infos }

-- The flag, the status and the stop requests are set in one step here, in the code one after the other.
unfoldable pub process_shutdown : ℕ → Bool → Bool → DragonBackend → DragonBackend
unfolding kill_all_running_jobs
process_shutdown now immediate frontend s =
    let s' = update_shutdown_status now (record s { shutdown_requested = true }) in
    record (if immediate then kill_all_running_jobs s' else s') { frontend_shutdown = frontend }

-- `process_request` at the time `now`, with the short id that a new step would get.
unfoldable pub process_request :
    ℕ → Text → DragonRequest → DragonBackend → DragonBackend × DragonResponse
unfolding process_run process_shutdown collect_statuses
process_request now short_id (run request) s = process_run short_id request s
process_request now short_id (update_status step_ids) s =
    (s, update_status_response (collect_statuses s.group_infos step_ids []))
process_request now short_id (stop step_id) s =
    (record s { stop_requests = s.stop_requests ++ step_id ∷ [] }, stop_response)
process_request now short_id handshake s = (s, handshake_response s.pid)
process_request now short_id (bootstrap address) s = (s, type_error_raised)
process_request now short_id (shutdown immediate frontend) s =
    (process_shutdown now immediate frontend s, shutdown_response)

-- What the server meets: a request, a whole round of the update thread, or one method of a round,
-- since other requests may come between two methods.
pub data Event : Type 0 where
  request : (now : ℕ) (short_id : Text) → DragonRequest → Event
  tick : (now : ℕ) → World → Event
  method : (now : ℕ) → World → Phase → Event

unfoldable pub step : Event → DragonBackend → DragonBackend
step (request now short_id r) s = (process_request now short_id r s).0
step (tick now world) s = backend_of (update now world s)
step (method now world phase) s = backend_of (run_phase now world phase s)

unfoldable pub history : List Event → DragonBackend → DragonBackend
history [] s = s
history (e ∷ es) s = history es (step e s)
