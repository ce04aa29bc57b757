-- ===== src/Dragon/State.antt =====
-- dragonBackend.py, the data: requests, process groups, their bookkeeping, and the backend's state.
-- The Dragon runtime is not part of the program: what it answers is a `World`, one for each call.
use smart_sim.Common.{ℕ, Bool, List, Option, Text}
use smart_sim.Common.Dict.{Dict}
use smart_sim.Common.Int.{ℤ}
use smart_sim.Status.{SmartSimStatus}

pub record DragonRunPolicy : Type 0 where
  pub cpu_affinity : List ℕ
  pub gpu_affinity : List ℕ

pub record DragonRunRequest : Type 0 where
  pub exe : Text
  pub exe_args : List Text
  pub path : Text
  pub nodes : ℕ
  pub tasks : ℕ
  pub tasks_per_node : ℕ
  pub hostlist : Option Text
  pub output_file : Option Text
  pub error_file : Option Text
  pub env : Dict (Option Text)
  pub name : Option Text
  pub pmi_enabled : Bool
  pub current_env : Dict (Option Text)
  pub policy : Option DragonRunPolicy

pub data Affinity : Type 0 where
  default specific : Affinity

-- dragon_policy.Policy, always placed by HOST_NAME.
pub record Policy : Type 0 where
  pub host_name : Text
  pub affinity : Affinity
  pub cpu_affinity : List ℕ
  pub gpu_affinity : List ℕ

-- dragon_process.ProcessTemplate of a task of the application.
pub record ProcessTemplate : Type 0 where
  pub target : Text
  pub args : List Text
  pub cwd : Text
  pub env : Dict (Option Text)
  pub policy : Policy

pub data Stream : Type 0 where
  stdout stderr : Stream

-- The template of a worker that copies one stream of one process to a file.
pub record RedirectTemplate : Type 0 where
  pub puid : Option ℕ
  pub stream : Stream
  pub file : Text
  pub policy : Policy

-- dragon_process_group.ProcessGroup as the program builds it: each template with its `nproc`.
pub record ProcessGroup (T : Type 0) : Type 0 where
  pub pmi_enabled : Bool
  pub policy : Policy
  pub processes : List (ℕ × T)

pub record ProcessGroupInfo : Type 0 where
  pub status : SmartSimStatus
  pub process_group : Option (ProcessGroup ProcessTemplate)
  pub puids : Option (List (Option ℕ))
  pub return_codes : Option (List ℤ)
  pub hosts : List Text
  pub redir_workers : Option (ProcessGroup RedirectTemplate)

-- The state of a process group, as the runtime reports it.
pub data GroupState : Type 0 where
  running error other : GroupState

-- What the runtime answers while a group is launched: whether `init` or `start` raises, the two
-- lists of PUIDs (`none` if reading them raises), and whether the redirect workers start.
pub record Launch : Type 0 where
  pub raises : Bool
  pub puids : Option (List (Option ℕ))
  pub inactive_puids : List (Option ℕ × ℤ)
  pub redirects : Bool

pub record World : Type 0 where
  pub launch : Text → ProcessGroup ProcessTemplate → Launch
  pub group_state : Text → ProcessGroup ProcessTemplate → GroupState
  -- `kill` raises DragonProcessGroupError for this step
  pub kill_raises : Text → Bool
  -- `none` where reading the return code raises
  pub return_code : Option ℕ → Option ℤ

-- A call that ends a process group.
pub data GroupCall : Type 0 where
  kill : Text → GroupCall
  stop : Text → GroupCall

-- Times are clock readings in whole seconds. `calls` is the trace of calls that end groups.
pub record DragonBackend : Type 0 where
  pub pid : ℕ
  pub group_infos : Dict ProcessGroupInfo
  pub next_step : ℕ
  pub hosts : List Text
  pub cpus : List ℕ
  pub gpus : List ℕ
  pub free_hosts : List Text
  pub allocated_hosts : Dict Text
  pub queued_steps : Dict DragonRunRequest
  pub stop_requests : List Text
  pub running_steps : List Text
  pub completed_steps : List Text
  pub last_beat : ℕ
  pub last_update_time : ℕ
  pub shutdown_requested : Bool
  pub can_shutdown : Bool
  pub frontend_shutdown : Bool
  pub shutdown_initiation_time : Option ℕ
  pub cooldown_period : ℕ
  pub calls : List GroupCall

-- One node of the allocation, as dragon_machine.Node describes it.
pub record Node : Type 0 where
  pub hostname : Text
  pub num_cpus : ℕ
  pub num_gpus : ℕ

-- get_config()
pub record Config : Type 0 where
  pub telemetry_enabled : Bool
  pub telemetry_frequency : ℕ

abbrev pub heartbeat : ℕ → DragonBackend → DragonBackend
heartbeat now s = record s { last_beat = now }
