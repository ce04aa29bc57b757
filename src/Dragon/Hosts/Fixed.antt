-- ===== src/Dragon/Hosts/Fixed.antt =====
-- What the three methods of a round leave alone, also when one ends by an exception: the hosts of
-- the allocation, the flags of the shutdown, its start, and the length of the cooldown.
use smart_sim.Common.{
  ℕ, Bool, List, [], ◌∷◌, Option, Text, true, false, ◌≡◌, refl, ◌∙◌, ap, arith, inl, inr,
  Option-cases,
}
use smart_sim.Common.Dict.{Dict, get?}
use smart_sim.Dragon.State.{DragonRunRequest, DragonBackend, World, heartbeat}
use smart_sim.Dragon.Stop.{stop_step, stop_all, stop_steps}
use smart_sim.Dragon.Start.{
  Starting, going, io_error, Outcome, returned, raised, start_step, start_loop, start_steps,
}
use smart_sim.Dragon.Refresh.{
  Polled, polled, key_error, poll_all, release_hosts, retire, retire_all, refresh_statuses,
}
use smart_sim.Dragon.Shutdown.{
  update, update_shutdown_status, backend_of, Phase, stopping, starting, refreshing, settling,
  run_phase,
}
use smart_sim.Dragon.Server.{
  DragonRequest, run, update_status, stop, handshake, bootstrap, shutdown, Event, request, tick,
  method, process_request, step, history,
}

-- The hosts, the flags of the shutdown, its start, and the cooldown.
abbrev pub Settings : Type 0
Settings = List Text × Bool × Bool × Option ℕ × ℕ

abbrev pub settings : DragonBackend → Settings
settings s =
    (s.hosts, s.shutdown_requested, s.can_shutdown, s.shutdown_initiation_time, s.cooldown_period)

stop_step-settings :
    (world : World) (id : Text) (s : DragonBackend) → settings (stop_step world id s) ≡ settings s
unfolding stop_step
stop_step-settings world id s = ground arith

stop_all-settings :
    (world : World) (ids : List Text) (s : DragonBackend)
    → settings (stop_all world ids s) ≡ settings s
unfolding stop_all
stop_all-settings world [] s = refl
stop_all-settings world (id ∷ ids) s =
    stop_all-settings world ids (stop_step world id s) ∙ stop_step-settings world id s

pub stop_steps-settings :
    (now : ℕ) (world : World) (s : DragonBackend) → settings (stop_steps now world s) ≡ settings s
unfolding stop_steps
stop_steps-settings now world s =
    stop_all-settings world s.stop_requests (record (heartbeat now s) { stop_requests = [] })

abbrev state_in : Starting → DragonBackend
state_in (going s started) = s
state_in (io_error s) = s

start_step-settings :
    (world : World) (id : Text) (req : DragonRunRequest) (s : DragonBackend) (started : List Text)
    → settings (state_in (start_step world id req s started)) ≡ settings s
unfolding start_step
start_step-settings world id req s started = ground arith

start_loop-settings :
    (world : World) (queue : Dict DragonRunRequest) (s : DragonBackend) (started : List Text)
    → settings (state_in (start_loop world queue s started)) ≡ settings s
unfolding start_loop
start_loop-settings world [] s started = refl
start_loop-settings world ((id, req) ∷ queue) s started =
    after_step (start_step world id req s started) (start_step-settings world id req s started)
      (start_loop-settings world queue)
  where
    after_step :
        (r : Starting)
        → settings (state_in r) ≡ settings s
        → ((s' : DragonBackend) (started' : List Text)
            → settings (state_in (start_loop world queue s' started')) ≡ settings s')
        → settings (
            state_in (elim r [
              | going s' started' ↦ start_loop world queue s' started'
              | io_error s' ↦ io_error s'
            ]))
          ≡ settings s
    after_step (going s' started') e rest = rest s' started' ∙ e
    after_step (io_error s') e rest = e

pub start_steps-settings :
    (now : ℕ) (world : World) (s : DragonBackend)
    → settings (backend_of (start_steps now world s)) ≡ settings s
unfolding start_steps
start_steps-settings now world s =
    ground (arith, start_loop-settings world s.queued_steps (heartbeat now s) [])

release_hosts-settings :
    (hs : List Text) (s : DragonBackend) → settings (release_hosts hs s) ≡ settings s
unfolding release_hosts
release_hosts-settings [] s = refl
release_hosts-settings (h ∷ hs) s = release_hosts-settings hs _

retire-settings : (id : Text) (s : DragonBackend) → settings (retire id s) ≡ settings s
unfolding retire
retire-settings id s = elim (Option-cases (get? id s.group_infos)) [
  | inl e ↦ rw (e, retire)
  | inr (info, e) ↦ rw (e, retire) (release_hosts-settings info.hosts _)
]

retire_all-settings :
    (ids : List Text) (s : DragonBackend) → settings (retire_all ids s) ≡ settings s
unfolding retire_all
retire_all-settings [] s = refl
retire_all-settings (id ∷ ids) s = retire_all-settings ids (retire id s) ∙ retire-settings id s

pub refresh_statuses-settings :
    (now : ℕ) (world : World) (s : DragonBackend)
    → settings (backend_of (refresh_statuses now world s)) ≡ settings s
unfolding refresh_statuses
refresh_statuses-settings now world s = after_poll (poll_all world s.running_steps s.group_infos)
  where
    after_poll :
        (r : Polled)
        → settings (
            backend_of (elim r [
              | key_error infos ↦ raised (record (heartbeat now s) { group_infos = infos })
              | polled infos done ↦
                  returned (retire_all done (record (heartbeat now s) { group_infos = infos }))
            ]))
          ≡ settings s
    after_poll (key_error infos) = refl
    after_poll (polled infos done) =
        retire_all-settings done (record (heartbeat now s) { group_infos = infos })

abbrev hosts_of_settings : Settings → List Text
hosts_of_settings t = t.0

update-hosts :
    (now : ℕ) (world : World) (s : DragonBackend)
    → (backend_of (update now world s)).hosts ≡ s.hosts
unfolding update update_shutdown_status
update-hosts now world s =
    let s₁ = stop_steps now world s in
    after_start (start_steps now world s₁)
      (ap hosts_of_settings (start_steps-settings now world s₁ ∙ stop_steps-settings now world s))
  where
    after_refresh :
        (r : Outcome)
        → (backend_of r).hosts ≡ s.hosts
        → (backend_of (elim r [
          | raised s'' ↦ raised s''
          | returned s'' ↦ returned (update_shutdown_status now s'')
        ])).hosts
          ≡ s.hosts
    after_refresh (raised s'') e = e
    after_refresh (returned s'') e = e

    after_start :
        (r : Outcome)
        → (backend_of r).hosts ≡ s.hosts
        → (backend_of (elim r [
          | raised s' ↦ raised s'
          | returned s' ↦ elim (refresh_statuses now world s') [
            | raised s'' ↦ raised s''
            | returned s'' ↦ returned (update_shutdown_status now s'')
          ]
        ])).hosts
          ≡ s.hosts
    after_start (raised s') e = e
    after_start (returned s') e =
        after_refresh (refresh_statuses now world s')
          (ap hosts_of_settings (refresh_statuses-settings now world s') ∙ e)

request-hosts :
    (now : ℕ) (short : Text) (r : DragonRequest) (s : DragonBackend)
    → (process_request now short r s).0.hosts ≡ s.hosts
unfolding process_request update_shutdown_status
request-hosts now short (run req) s = ground arith
request-hosts now short (update_status ids) s = refl
request-hosts now short (stop id) s = refl
request-hosts now short handshake s = refl
request-hosts now short (bootstrap address) s = refl
request-hosts now short (shutdown true frontend) s = refl
request-hosts now short (shutdown false frontend) s = refl

phase-hosts :
    (now : ℕ) (world : World) (phase : Phase) (s : DragonBackend)
    → (backend_of (run_phase now world phase s)).hosts ≡ s.hosts
unfolding run_phase update_shutdown_status
phase-hosts now world stopping s = ap hosts_of_settings (stop_steps-settings now world s)
phase-hosts now world starting s = ap hosts_of_settings (start_steps-settings now world s)
phase-hosts now world refreshing s = ap hosts_of_settings (refresh_statuses-settings now world s)
phase-hosts now world settling s = refl

step-hosts : (e : Event) (s : DragonBackend) → (step e s).hosts ≡ s.hosts
unfolding step
step-hosts (request now short r) s = request-hosts now short r s
step-hosts (tick now world) s = update-hosts now world s
step-hosts (method now world phase) s = phase-hosts now world phase s

pub history-hosts : (es : List Event) (s : DragonBackend) → (history es s).hosts ≡ s.hosts
unfolding history
history-hosts [] s = refl
history-hosts (e ∷ es) s = history-hosts es (step e s) ∙ step-hosts e s
