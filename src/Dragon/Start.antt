-- ===== src/Dragon/Start.antt =====
-- dragonBackend.py, `_allocate_step` and `_start_steps`: queued steps are launched on free hosts.
use smart_sim.Common.{
  ℕ, zero, suc, Bool, true, false, not, ◌||◌, ◌&&◌, List, [], ◌∷◌, ◌++◌, map, Option, none, some,
  Text, ltb, ◌==◌, if◌then◌else◌, length,
}
use smart_sim.Common.Dict.{Dict, set, del}
use smart_sim.Status.{SmartSimStatus, running, failed}
use smart_sim.Dragon.State.{
  DragonRunRequest, Policy, ProcessGroup, ProcessTemplate, ProcessGroupInfo, Launch, World,
  DragonBackend, heartbeat,
}
use smart_sim.Dragon.Policies.{run_policies, host_policy, run_group, create_redirect_workers}

-- The hosts that a step is given, and what is left.
pub record Allocation : Type 0 where
  pub to_allocate : List Text
  pub free_hosts : List Text
  pub allocated_hosts : Dict Text

abbrev pub prepend : Text → Allocation → Allocation
prepend host a = record a { to_allocate = host ∷ a.to_allocate }

-- `n` rounds of the loop: each takes the leftmost free host.
unfoldable pub take_hosts : Text → ℕ → List Text → Dict Text → Allocation
take_hosts step_id zero free allocated = record {
  to_allocate = [];
  free_hosts = free;
  allocated_hosts = allocated;
}
take_hosts step_id (suc n) [] allocated = record {
  to_allocate = [];
  free_hosts = [];
  allocated_hosts = allocated;
}
take_hosts step_id (suc n) (host ∷ free) allocated =
    prepend host (take_hosts step_id n free (set host step_id allocated))

unfoldable pub allocate_step :
    Text → DragonRunRequest → DragonBackend → Option (List Text × DragonBackend)
unfolding take_hosts
allocate_step step_id request s =
    if request.nodes == 0 || ltb (length s.free_hosts) request.nodes
    then none
    else (let a = take_hosts step_id request.nodes s.free_hosts s.allocated_hosts in
        some (
          a.to_allocate,
          record s { free_hosts = a.free_hosts; allocated_hosts = a.allocated_hosts },
        ))

puid_eq : Option ℕ → Option ℕ → Bool
puid_eq none none = true
puid_eq none (some b) = false
puid_eq (some a) none = false
puid_eq (some a) (some b) = a == b

mem_puid : Option ℕ → List (Option ℕ) → Bool
unfolding puid_eq
mem_puid a [] = false
mem_puid a (b ∷ bs) = puid_eq b a || mem_puid a bs

-- list(set(puids))
unfoldable pub distinct_puids : List (Option ℕ) → List (Option ℕ)
unfolding mem_puid
distinct_puids [] = []
distinct_puids (a ∷ bs) = let rest = distinct_puids bs in if mem_puid a rest then rest else a ∷ rest

-- What the attempt to read the PUIDs of a launched group gives.
unfoldable pub launched_puids : Launch → Option (List (Option ℕ))
unfolding distinct_puids
launched_puids l = elim l.puids [
  | none ↦ none
  | some puids ↦ some (distinct_puids (puids ++ map (λ p. p.0) l.inactive_puids))
]

abbrev pub launch_status : Launch → SmartSimStatus
launch_status l = if l.raises then failed else running

-- The loop's state: the backend and `started`, with IOError as a second exit.
pub data Starting : Type 0 where
  going : DragonBackend → List Text → Starting
  io_error : DragonBackend → Starting

abbrev pub started_info :
    ProcessGroup ProcessTemplate → SmartSimStatus → List Text → List (Option ℕ) → ProcessGroupInfo
started_info group status hosts puids = record {
  status = status;
  process_group = some group;
  puids = some puids;
  return_codes = some [];
  hosts = hosts;
  redir_workers = none;
}

-- The group is on record and the step counts as running.
unfoldable pub record_start : Text → ProcessGroupInfo → DragonBackend → DragonBackend
record_start step_id info s = record s {
  group_infos = set step_id info s.group_infos;
  running_steps = s.running_steps ++ step_id ∷ [];
}

-- Whether the streams of the new group can be redirected.
unfoldable pub can_redirect : Launch → List Policy → List (Option ℕ) → Bool
can_redirect l policies puids = (length puids == length policies) && not l.raises

-- What follows `_allocate_step` in the loop's body, on the hosts `first ∷ rest`. Of the exceptions of
-- the redirect workers only IOError is taken into account.
unfoldable pub launch_step :
    World → Text → DragonRunRequest → Text → List Text → DragonBackend → List Text → Starting
unfolding launched_puids record_start can_redirect
launch_step world step_id request first rest s started =
    let group = run_group request first rest in
    let policies = run_policies request (first ∷ rest) in
    let launch = world.launch step_id group in
    elim (launched_puids launch) [
      | none ↦ going s started
      | some puids ↦
          let info = started_info group (launch_status launch) (first ∷ rest) puids in
          let s' = record_start step_id info s in
          if can_redirect launch policies puids
          then (if launch.redirects
              then going
                  (record s' {
                    group_infos =
                        set step_id
                          (record info {
                            redir_workers = some (
                                create_redirect_workers (host_policy first) policies puids
                                  request.output_file request.error_file);
                          })
                          s'.group_infos;
                  })
                  (started ++ step_id ∷ [])
              else io_error s')
          else going s' (started ++ step_id ∷ [])
    ]

-- One round of the loop over the queue.
unfoldable pub start_step : World → Text → DragonRunRequest → DragonBackend → List Text → Starting
unfolding allocate_step launch_step
start_step world step_id request s started = elim (allocate_step step_id request s) [
  | none ↦ going s started
  | some ([], s') ↦ going s' started
  | some (first ∷ rest, s') ↦ launch_step world step_id request first rest s' started
]

unfoldable pub start_loop : World → Dict DragonRunRequest → DragonBackend → List Text → Starting
start_loop world [] s started = going s started
start_loop world ((step_id, request) ∷ queue) s started =
    elim (start_step world step_id request s started) [
      | going s' started' ↦ start_loop world queue s' started'
      | io_error s' ↦ io_error s'
    ]

-- The started steps leave the queue.
unfoldable pub dequeue : List Text → Dict DragonRunRequest → Dict DragonRunRequest
dequeue [] queue = queue
dequeue (step_id ∷ started) queue = dequeue started (del step_id queue)

-- A backend, and whether the method ended by an exception.
pub data Outcome : Type 0 where
  returned : DragonBackend → Outcome
  raised : DragonBackend → Outcome

unfoldable pub start_steps : ℕ → World → DragonBackend → Outcome
unfolding dequeue
start_steps now world s = elim (start_loop world s.queued_steps (heartbeat now s) []) [
  | going s' started ↦ returned (record s' { queued_steps = dequeue started s'.queued_steps })
  | io_error s' ↦ raised s'
]
