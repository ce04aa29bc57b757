-- ===== src/Dragon/Tests.antt =====
-- The theorems about the Dragon backend at concrete inputs.
use smart_sim.Common.{
  false, ◌↔◌, ◌+◌, ◌≤◌, true, List, [], ◌∷◌, none, some, Text, codes, text_eq, text_eq_iff, count,
  ◌≡◌, refl, arith, length,
}
use smart_sim.Common.Dict.{get?, keys}
use smart_sim.Status.{cancelled}
use smart_sim.Dragon.State.{DragonRunRequest, DragonBackend, ProcessGroupInfo}
use smart_sim.Dragon.Start.{start_steps, start_step, going, returned}
use smart_sim.Dragon.Admission.{can_honor-Available, PolicyAvailable}
use smart_sim.Dragon.Policies.{can_honor, honorable}
use smart_sim.Dragon.Stop.{stop_steps}
use smart_sim.Dragon.Refresh.{refresh_statuses}
use smart_sim.Dragon.Shutdown.{update_loop, update, backend_of, starting, refreshing}
use smart_sim.Dragon.Server.{history, Event, tick, method, stop, request, process_shutdown}
use smart_sim.Dragon.Samples.{
  two_nodes, two_hosts, small_config, fresh, on_nodes, busy, done, broken_pipes, mute, submit,
  first_id, program,
}
use smart_sim.Dragon.Hosts.{Inv, IsHealthy}
use mathlib.Core.Option
use smart_sim.Dragon.Hosts.Histories.{HostState, history_accounts, update-Inv, AreSound}
use smart_sim.Dragon.Lifecycle.{IsFinal}
use smart_sim.Dragon.Lifecycle.Kills.{HasCalls, stop_steps-HasCalls}
use smart_sim.Dragon.Lifecycle.Refreshes.{refresh_statuses-Refreshed, Refreshed}
use smart_sim.Dragon.Lifecycle.Histories.{history-IsFinal, history-IsReachable, IsReachable}
use smart_sim.Dragon.Lifecycle.Shutdown.{immediate_shutdown, HasEnded}
use smart_sim.Dragon.Cooldown.{update_loop_ends}
use smart_sim.Dragon.Failures.{start_steps_io_error, start_step_leaks}

hosts_distinct : (h : Text) → count h two_hosts ≤ 1
unfolding count text_eq
hosts_distinct h = ground (arith, text_eq_iff (codes "n1") h, text_eq_iff (codes "n2") h)

busy-IsHealthy : IsHealthy busy
busy-IsHealthy st group = (λ e. cc, refl)

done-IsHealthy : IsHealthy done
done-IsHealthy st group = (λ e. cc, refl)

-- A step on one node, launched and still running.
abbrev one_step : List Event
one_step = submit 1 ∷ tick 2 busy ∷ []

one_step-AreSound : AreSound one_step
one_step-AreSound = (tt, (busy-IsHealthy, tt))

launched-IsReachable : IsReachable (history one_step fresh)
launched-IsReachable =
    history-IsReachable 17 two_hosts two_nodes small_config 0 one_step hosts_distinct
      one_step-AreSound

-- A request between two methods of a round.
abbrev interleaved : List Event
interleaved =
    submit 1
    ∷ method 2 busy starting
    ∷ request 2 (codes "ab") (stop first_id)
    ∷ method 2 busy refreshing
    ∷ []

history_accounts_example : HostState (codes "n1") (history interleaved fresh)
unfolding count text_eq
history_accounts_example =
    history_accounts 17 two_hosts two_nodes small_config 0 interleaved hosts_distinct
      (tt, (busy-IsHealthy, (tt, (busy-IsHealthy, tt)))) (codes "n1") refl

history-IsFinal_example : IsFinal first_id (
    history
      (request 4 (codes "ab") (stop first_id) ∷ tick 5 busy ∷ [])
      (history (submit 1 ∷ tick 2 busy ∷ tick 3 done ∷ []) fresh))
unfolding program
history-IsFinal_example =
    history-IsFinal 17 two_hosts two_nodes small_config 0
      (submit 1 ∷ tick 2 busy ∷ tick 3 done ∷ [])
      (request 4 (codes "ab") (stop first_id) ∷ tick 5 busy ∷ []) hosts_distinct
      (tt, (busy-IsHealthy, (done-IsHealthy, tt))) (tt, (busy-IsHealthy, tt)) first_id
      (_, refl, refl)

update-Inv_example :
    (s' : DragonBackend) × (update 5 done (history one_step fresh) ≡ returned s') × Inv s'
update-Inv_example =
    update-Inv 5 done (history one_step fresh) done-IsHealthy launched-IsReachable.accounts

immediate_shutdown_example :
    (s' : DragonBackend) × (update 5 mute (process_shutdown 4 true true (history one_step fresh))
      ≡ returned s')
    × HasEnded s'
immediate_shutdown_example =
    immediate_shutdown 4 true (history one_step fresh) launched-IsReachable 5 mute

-- The request names the running step and one that does not exist.
abbrev asked_twice : DragonBackend
asked_twice = record (history one_step fresh) { stop_requests = codes "zz" ∷ first_id ∷ [] }

stop_steps-HasCalls_example :
    HasCalls busy first_id true asked_twice.calls (stop_steps 4 busy asked_twice).calls
unfolding program count
stop_steps-HasCalls_example =
    stop_steps-HasCalls 4 busy asked_twice first_id (_, _, refl, refl, refl, refl)

refresh_statuses-Refreshed_example :
    (s' : DragonBackend) × (refresh_statuses 4 done (history one_step fresh) ≡ returned s')
    × ((st : Text) (info : ProcessGroupInfo)
        → get? st (history one_step fresh).group_infos ≡ some info
        → Refreshed done (history one_step fresh) s' st info)
    × (s'.queued_steps ≡ (history one_step fresh).queued_steps)
    × ((st : Text) → count st (keys s'.group_infos) ≤ 1)
    × ((st : Text)
        → get? st (history one_step fresh).group_infos ≡ none
        → get? st s'.group_infos ≡ none)
refresh_statuses-Refreshed_example =
    refresh_statuses-Refreshed 4 done (history one_step fresh) launched-IsReachable.accounts
      launched-IsReachable.stages.once

-- The step of `submit 1`, queued.
abbrev queued : DragonBackend
queued = history (submit 1 ∷ []) fresh

-- What the failing redirection of its streams leaves.
abbrev after_io_error : DragonBackend
after_io_error = backend_of (start_steps 2 broken_pipes queued)

start_steps_io_error_example :
    (id : Text) × (1 ≤ count id (keys after_io_error.queued_steps))
    × (1 ≤ count id after_io_error.running_steps)
    × (after_io_error.queued_steps ≡ queued.queued_steps)
unfolding program
start_steps_io_error_example = start_steps_io_error 2 broken_pipes queued after_io_error refl

start_step_leaks_example :
    (s' : DragonBackend) × (start_step mute first_id (on_nodes 2) fresh [] ≡ going s' [])
    × (length s'.free_hosts + 2 ≡ length fresh.free_hosts)
    × (s'.running_steps ≡ fresh.running_steps)
    × (s'.group_infos ≡ fresh.group_infos)
    × (s'.queued_steps ≡ fresh.queued_steps)
unfolding program
start_step_leaks_example =
    start_step_leaks mute first_id (on_nodes 2) fresh [] (λ group. refl) (omega arith) (omega arith)

-- A step that has completed is turned into a cancelled one by a late stop request.
late_stop :
    Option.map
      (λ info. info.status)
      (get? first_id
        (history
          (submit 1
            ∷ tick 2 busy
            ∷ tick 3 done
            ∷ request 4 (codes "ab") (stop first_id)
            ∷ tick 5 done
            ∷ [])
          fresh).group_infos)
    ≡ some cancelled
unfolding program
late_stop = refl

-- Two nodes are asked for, with a CPU and a GPU that some node has.
abbrev pinned : DragonRunRequest
pinned = record (on_nodes 2) {
  policy = some (record { cpu_affinity = 0 ∷ 1 ∷ []; gpu_affinity = [] });
}

can_honor-Available_example : (can_honor fresh pinned ≡ honorable) ↔ (
    (pinned.nodes ≤ length fresh.hosts)
    × (fresh.shutdown_requested ≡ false)
    × PolicyAvailable fresh pinned.policy)
can_honor-Available_example = can_honor-Available fresh pinned

pinned_honored : can_honor fresh pinned ≡ honorable
unfolding program
pinned_honored = refl

-- A server without steps whose shutdown has been requested.
abbrev closing : DragonBackend
closing = process_shutdown 4 true true fresh

update_loop_ends_example : (update_loop ((5, mute) ∷ (7, busy) ∷ (30, busy) ∷ []) closing).1 ≡ true
unfolding program
update_loop_ends_example =
    update_loop_ends 5 mute ((7, busy) ∷ (30, busy) ∷ []) closing refl refl refl refl
