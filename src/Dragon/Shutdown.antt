-- ===== src/Dragon/Shutdown.antt =====
-- dragonBackend.py: when the server may shut down, and one round of its update loop.
use smart_sim.Common.{
  ℕ, ◌+◌, ◌*◌, ◌-◌, Bool, true, false, ◌||◌, ◌&&◌, List, [], ◌∷◌, Option, none, some, ltb,
  if◌then◌else◌, all,
}
use smart_sim.Common.Dict.{values}
use smart_sim.Status.{is_terminal}
use smart_sim.Dragon.State.{ProcessGroupInfo, World, DragonBackend, heartbeat, Config}
use smart_sim.Dragon.Stop.{stop_steps}
use smart_sim.Dragon.Start.{Outcome, returned, raised, start_steps}
use smart_sim.Dragon.Refresh.{refresh_statuses}

abbrev pub is_none {ℓ} : {A : Type ℓ} → Option A → Bool
is_none none = true
is_none (some a) = false

-- A final status and no process group left.
unfoldable pub is_settled : ProcessGroupInfo → Bool
is_settled info =
    is_terminal info.status && (is_none info.process_group && is_none info.redir_workers)

unfoldable pub update_shutdown_status : ℕ → DragonBackend → DragonBackend
unfolding is_settled
update_shutdown_status now s = record (heartbeat now s) {
  can_shutdown = s.can_shutdown || (all is_settled (values s.group_infos) && s.shutdown_requested);
}

-- `_update`; an exception of one of the methods ends it, and the loop catches that.
unfoldable pub update : ℕ → World → DragonBackend → Outcome
update now world s = elim (start_steps now world (stop_steps now world s)) [
  | raised s' ↦ raised s'
  | returned s' ↦ elim (refresh_statuses now world s') [
    | raised s'' ↦ raised s''
    | returned s'' ↦ returned (update_shutdown_status now s'')
  ]
]

abbrev pub backend_of : Outcome → DragonBackend
backend_of (returned s) = s
backend_of (raised s) = s

-- The methods that `_update` calls in turn. Each takes the lock by itself.
pub data Phase : Type 0 where
  stopping starting refreshing settling : Phase

unfoldable pub run_phase : ℕ → World → Phase → DragonBackend → Outcome
run_phase now world stopping s = returned (stop_steps now world s)
run_phase now world starting s = start_steps now world s
run_phase now world refreshing s = refresh_statuses now world s
run_phase now world settling s = returned (update_shutdown_status now s)

unfoldable pub cooldown_period : Config → ℕ
cooldown_period c = if c.telemetry_enabled then c.telemetry_frequency * 2 + 5 else 5

-- The property `_has_cooled_down`: the first reading starts the cooldown.
unfoldable pub has_cooled_down : ℕ → DragonBackend → DragonBackend × Bool
has_cooled_down now s = elim s.shutdown_initiation_time [
  | none ↦ (record s { shutdown_initiation_time = some now }, ltb s.cooldown_period (now - now))
  | some since ↦ (s, ltb s.cooldown_period (now - since))
]

unfoldable pub should_shutdown : ℕ → DragonBackend → DragonBackend × Bool
unfolding has_cooled_down
should_shutdown now s =
    if s.shutdown_requested && s.can_shutdown then has_cooled_down now s else (s, false)

unfoldable pub should_print_status : ℕ → DragonBackend → DragonBackend × Bool
should_print_status now s =
    if ltb 10 (now - s.last_update_time)
    then (record s { last_update_time = now }, true)
    else (s, false)

-- The loop of the update thread, over what it meets in each round; `true` if it has ended.
unfoldable pub update_loop : List (ℕ × World) → DragonBackend → DragonBackend × Bool
unfolding should_shutdown update should_print_status
update_loop [] s = (s, false)
update_loop ((now, world) ∷ rounds) s =
    let (s', done) = should_shutdown now s in
    let rest = update_loop rounds (should_print_status now (backend_of (update now world s'))).0 in
    if done then (s', true) else rest
