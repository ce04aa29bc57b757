-- ===== src/Dragon/Hosts/Histories.antt =====
-- The accounts over whole histories, and what they mean for a host.
use smart_sim.Common.{
  ℕ, ◌≤◌, List, [], ◌∷◌, none, some, Text, text_eq_refl, count, ◌≡◌, refl, ap, ◌∙◌, arith, ◌⊎◌, inl,
  inr, Option-cases,
}
use smart_sim.Common.Dict.{get?, contains, keys}
use smart_sim.Dragon.State.{DragonBackend, World, Node, Config}
use smart_sim.Dragon.Shutdown.{
  update, update_shutdown_status, Phase, stopping, starting, refreshing, settling, run_phase,
}
use smart_sim.Dragon.Stop.{stop_steps}
use smart_sim.Dragon.Start.{returned}
use smart_sim.Dragon.Server.{init, Event, request, tick, method, step, history}
use smart_sim.Dragon.Hosts.{Inv, IsHealthy, held, owned, hosts_of}
use smart_sim.Dragon.Hosts.Fixed.{history-hosts}
use smart_sim.Dragon.Hosts.Stops.{stop_steps-Inv}
use smart_sim.Dragon.Hosts.Loop.{start_steps-Inv}
use smart_sim.Dragon.Hosts.Refreshes.{refresh_statuses-Inv}
use smart_sim.Dragon.Hosts.Requests.{process_request-Inv}

-- A new backend whose nodes have different names is in order.
pub init-Inv :
    (pid : ℕ) (names : List Text) (nodes : List Node) (config : Config) (now : ℕ)
    → ((h : Text) → count h names ≤ 1)
    → Inv (init pid names nodes config now)
unfolding init held owned hosts_of get? contains keys count
init-Inv pid names nodes config now distinct = record {
  names = distinct;
  conserved = λ h. omega arith;
  on_record = λ st h r. absurd (omega arith);
  owners_run = λ st h r. refl;
  runs_once = λ st. omega arith;
  queued_once = λ st. omega arith;
  apart = λ st q. refl;
  running_known = λ st r. absurd (omega arith);
  queued_known = λ st q. absurd (omega arith);
  fresh = λ short n le. refl;
}

-- A round of the update thread that meets a healthy runtime, in a state that satisfies the accounts
-- of hosts and steps, ends without an exception and keeps these accounts.
pub update-Inv :
    (now : ℕ) (world : World) (s : DragonBackend)
    → IsHealthy world
    → Inv s
    → (s' : DragonBackend) × (update now world s ≡ returned s') × Inv s'
unfolding update update_shutdown_status
update-Inv now world s healthy v =
    let (s₁, started, e₁, v₁, b) =
      start_steps-Inv now world (stop_steps now world s) healthy (stop_steps-Inv now world s v) in
    let (s₂, e₂, v₂) = refresh_statuses-Inv now world s₁ v₁ in
    (update_shutdown_status now s₂, rw (e₁, update) (rw (e₂, update)), v₂)

-- The same for each of the methods that make up a round.
phase-Inv :
    (now : ℕ) (world : World) (phase : Phase) (s : DragonBackend)
    → IsHealthy world
    → Inv s
    → (s' : DragonBackend) × (run_phase now world phase s ≡ returned s') × Inv s'
unfolding run_phase update_shutdown_status
phase-Inv now world stopping s healthy v =
    (stop_steps now world s, refl, stop_steps-Inv now world s v)
phase-Inv now world starting s healthy v =
    let (s', started, e, v', b) = start_steps-Inv now world s healthy v in (s', e, v')
phase-Inv now world refreshing s healthy v = refresh_statuses-Inv now world s v
phase-Inv now world settling s healthy v = (update_shutdown_status now s, refl, v)

-- Rounds of the update thread, and their methods, meet a healthy runtime.
abbrev pub IsSound : Event → Type 0
IsSound (request now short r) = Unit {0}
IsSound (tick now world) = IsHealthy world
IsSound (method now world phase) = IsHealthy world

abbrev pub AreSound : List Event → Type 0
AreSound [] = Unit {0}
AreSound (e ∷ es) = IsSound e × AreSound es

pub step-Inv : (e : Event) (s : DragonBackend) → IsSound e → Inv s → Inv (step e s)
unfolding step
step-Inv (request now short r) s sound v = process_request-Inv now short r s v
step-Inv (tick now world) s sound v = let (s', e, v') = update-Inv now world s sound v in rw e v'
step-Inv (method now world phase) s sound v =
    let (s', e, v') = phase-Inv now world phase s sound v in rw e v'

pub history-Inv : (es : List Event) (s : DragonBackend) → AreSound es → Inv s → Inv (history es s)
unfolding history
history-Inv [] s sound v = v
history-Inv (e ∷ es) s sound v = history-Inv es (step e s) sound.1 (step-Inv e s sound.0 v)

-- Where a host is: free, once, and allocated to nobody; or not free, and allocated to a step that
-- is running and has the host on its record, once.
abbrev pub HostState : Text → DragonBackend → Type 0
HostState h s =
    ((count h s.free_hosts ≡ 1) × (get? h s.allocated_hosts ≡ none))
    ⊎ ((st : Text) × (count h s.free_hosts ≡ 0)
        × (get? h s.allocated_hosts ≡ some st)
        × (count st s.running_steps ≡ 1)
        × (count h (hosts_of st s.group_infos) ≡ 1))

pub Inv-HostState : (s : DragonBackend) (h : Text) → Inv s → count h s.hosts ≡ 1 → HostState h s
unfolding held owned
Inv-HostState s h v one = elim (Option-cases (get? h s.allocated_hosts)) [
  | inl e ↦ inl (ground (arith, v.conserved h), e)
  | inr (st, e) ↦
      let owns : owned st h s.allocated_hosts ≡ 1 = ground (arith, text_eq_refl st) in
      let runs : count st s.running_steps ≡ 1 = ground (arith, v.owners_run st h, v.runs_once st) in
      inr (st, ground (arith, v.conserved h), e, runs, ground (arith, v.on_record st h))
]

init-hosts :
    (pid : ℕ) (names : List Text) (nodes : List Node) (config : Config) (now : ℕ)
    → (init pid names nodes config now).hosts ≡ names
unfolding init
init-hosts pid names nodes config now = refl

-- After any history of requests, update rounds and single methods of update rounds that meets a healthy
-- runtime, from a new backend whose host names are all different, each host of the allocation is
-- either free, once, and allocated to nobody, or not free and allocated to exactly one step, which is
-- running and has the host on its record.
pub history_accounts :
    (pid : ℕ) (names : List Text) (nodes : List Node) (config : Config) (now : ℕ) (es : List Event)
    → ((h : Text) → count h names ≤ 1)
    → AreSound es
    → (h : Text) → count h names ≡ 1
    → HostState h (history es (init pid names nodes config now))
history_accounts pid names nodes config now es distinct sound h one =
    let s = init pid names nodes config now in
    Inv-HostState (history es s) h
      (history-Inv es s sound (init-Inv pid names nodes config now distinct))
      (ap (count h) (history-hosts es s ∙ init-hosts pid names nodes config now) ∙ one)
