-- ===== src/Dragon/Policies.antt =====
-- dragonBackend.py: which requests can be honored, and the policies and process groups that are
-- built from a request.
use smart_sim.Common.{
  ℕ, zero, suc, false, List, [], ◌∷◌, ◌++◌, map, Option, none, some, Text, codes, ltb, leb,
  if◌then◌else◌, length, max?,
}
use smart_sim.Common.Dict.{Dict, set}
use smart_sim.Common.Decimal.{show}
use smart_sim.Dragon.State.{
  DragonRunRequest, Affinity, default, specific, Policy, ProcessTemplate, Stream, stdout, stderr,
  RedirectTemplate, ProcessGroup, DragonBackend,
}

-- The answer of `_can_honor`; `value_error` is `max` of an empty list.
pub data Honor : Type 0 where
  honorable : Honor
  refused : Text → Honor
  value_error : Honor

abbrev pub no_cpus : Text
no_cpus = codes "Cannot satisfy request, not enough CPUs available"

abbrev pub no_gpus : Text
no_gpus = codes "Cannot satisfy request, not enough GPUs available"

abbrev pub shutting_down : Text
shutting_down = codes "Cannot satisfy request, server is shutting down."

-- "Cannot satisfy request. Requested {nodes} nodes, but only {hosts} nodes are available."
unfoldable pub too_many_nodes : ℕ → ℕ → Text
too_many_nodes nodes hosts =
    codes "Cannot satisfy request. Requested "
    ++ (show nodes ++ (codes " nodes, but only " ++ (show hosts ++ codes " nodes are available.")))

-- One affinity list against the counts of the nodes; an empty list asks for nothing.
unfoldable pub fits_some_node : List ℕ → List ℕ → Text → Honor
fits_some_node [] counts message = honorable
fits_some_node (i ∷ is) counts message = elim (max? counts) [
  | none ↦ value_error
  | some available ↦ elim (max? (i ∷ is)) [
    | none ↦ value_error
    | some requested ↦ if leb available requested then refused message else honorable
  ]
]

-- `a`, and `b` if that passes.
abbrev pub and_then : Honor → Honor → Honor
and_then honorable b = b
and_then (refused m) b = refused m
and_then value_error b = value_error

unfoldable pub can_honor_policy : DragonBackend → DragonRunRequest → Honor
unfolding fits_some_node
can_honor_policy s request = elim request.policy [
  | none ↦ honorable
  | some policy ↦
      and_then (fits_some_node policy.cpu_affinity s.cpus no_cpus)
        (fits_some_node policy.gpu_affinity s.gpus no_gpus)
]

unfoldable pub can_honor : DragonBackend → DragonRunRequest → Honor
unfolding can_honor_policy
can_honor s request =
    if ltb (length s.hosts) request.nodes
    then refused (too_many_nodes request.nodes (length s.hosts))
    else if s.shutdown_requested
    then refused shutting_down
    else can_honor_policy s request

affinity_of : List ℕ → List ℕ → Affinity
affinity_of [] [] = default
affinity_of [] (g ∷ gs) = specific
affinity_of (c ∷ cs) gs = specific

-- `create_run_policy` for a run request.
unfoldable pub create_run_policy : DragonRunRequest → Text → Policy
unfolding affinity_of
create_run_policy request node_name = elim request.policy [
  | none ↦ record {
    host_name = node_name;
    affinity = default;
    cpu_affinity = [];
    gpu_affinity = [];
  }
  | some policy ↦ record {
    host_name = node_name;
    affinity = affinity_of policy.cpu_affinity policy.gpu_affinity;
    cpu_affinity = policy.cpu_affinity;
    gpu_affinity = policy.gpu_affinity;
  }
]

-- {**base, **over}
unfoldable pub merge_env : Dict (Option Text) → Dict (Option Text) → Dict (Option Text)
merge_env base [] = base
merge_env base ((k, v) ∷ over) = merge_env (set k v base) over

abbrev pub replicate {ℓ} : {A : Type ℓ} → ℕ → A → List A
replicate zero x = []
replicate (suc n) x = x ∷ replicate n x

-- The `policies` of a launch: each host's, once for each of its tasks.
unfoldable pub run_policies : DragonRunRequest → List Text → List Policy
unfolding create_run_policy
run_policies request [] = []
run_policies request (host ∷ hosts) =
    replicate request.tasks_per_node (create_run_policy request host) ++ run_policies request hosts

unfoldable pub host_policy : Text → Policy
host_policy host = record {
  host_name = host;
  affinity = default;
  cpu_affinity = [];
  gpu_affinity = [];
}

process_of : DragonRunRequest → Text → ℕ × ProcessTemplate
unfolding create_run_policy merge_env
process_of request host = (
  request.tasks_per_node,
  record {
    target = request.exe;
    args = request.exe_args;
    cwd = request.path;
    env = merge_env request.current_env request.env;
    policy = create_run_policy request host;
  },
)

-- The group of a launch on `first ∷ rest`: one template for each host.
unfoldable pub run_group : DragonRunRequest → Text → List Text → ProcessGroup ProcessTemplate
unfolding host_policy process_of
run_group request first rest = record {
  pmi_enabled = request.pmi_enabled;
  policy = host_policy first;
  processes = map (process_of request) (first ∷ rest);
}

worker : Stream → Option ℕ → Policy → Option Text → List (ℕ × RedirectTemplate)
worker stream puid policy none = []
worker stream puid policy (some file) =
    (1, record { puid = puid; stream = stream; file = file; policy = policy }) ∷ []

workers : Option Text → Option Text → List Policy → List (Option ℕ) → List (ℕ × RedirectTemplate)
unfolding worker
workers out err [] puids = []
workers out err (policy ∷ policies) [] = []
workers out err (policy ∷ policies) (puid ∷ puids) =
    worker stdout puid policy out
    ++ (worker stderr puid policy err ++ workers out err policies puids)

unfoldable pub create_redirect_workers :
    Policy
    → List Policy
    → List (Option ℕ)
    → Option Text
    → Option Text
    → ProcessGroup RedirectTemplate
unfolding workers
create_redirect_workers global_policy policies puids out_file err_file = record {
  pmi_enabled = false;
  policy = global_policy;
  processes = workers out_file err_file policies puids;
}
