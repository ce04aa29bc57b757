-- ===== src/Dragon/Lifecycle/Shutdown.antt =====
-- The round of the update thread after a request for an immediate shutdown.
use smart_sim.Common.{
  ℕ, ◌≤◌, Bool, true, false, List, [], ◌∷◌, ◌++◌, none, some, Text, text_eq_iff, text_eq_refl,
  count, count-append, ◌≡◌, refl, sym, ap, subst, ◌∙◌, arith, inl, inr, Bool-cases, Option-cases,
}
use smart_sim.Common.Dict.{Dict, get?, keys, get?-contains, contains-get?}
use smart_sim.Status.{is_terminal}
use smart_sim.Dragon.State.{ProcessGroupInfo, DragonBackend, World, heartbeat}
use smart_sim.Dragon.Stop.{stop_steps, cancel}
use smart_sim.Dragon.Start.{returned, start_steps, start_loop, dequeue}
use smart_sim.Dragon.Refresh.{refresh_statuses}
use smart_sim.Dragon.Shutdown.{update, update_shutdown_status, is_settled, backend_of}
use smart_sim.Dragon.Server.{unfinished, process_shutdown}
use smart_sim.Dragon.Hosts.{Inv, held, owned}
use smart_sim.Dragon.Hosts.Fixed.{
  Settings, settings, stop_steps-settings, refresh_statuses-settings,
}
use smart_sim.Dragon.Hosts.Stops.{stop_steps-Inv}
use smart_sim.Dragon.Hosts.Refreshes.{refresh_statuses-Inv}
use smart_sim.Dragon.Lifecycle.{Life, all-values}
use smart_sim.Dragon.Lifecycle.Stops.{stop_steps-Life, stop_steps-Handled, cancel?-eq-some}
use smart_sim.Dragon.Lifecycle.Refreshes.{refresh_statuses-Refreshed, Refreshed, poll_terminal}
use smart_sim.Dragon.Lifecycle.Settles.{refresh_statuses-Life, zero_or_more}
use smart_sim.Dragon.Lifecycle.Histories.{IsReachable}

-- Every step whose status is not final is asked to stop.
count-unfinished :
    (st : Text) (info : ProcessGroupInfo) (d : Dict ProcessGroupInfo)
    → get? st d ≡ some info
    → is_terminal info.status ≡ false
    → 1 ≤ count st (unfinished d)
unfolding unfinished get? count
count-unfinished st info [] e h = absurd (cc)
count-unfinished st info ((j, i) ∷ d) e h =
    ground (arith, count-unfinished st info d, text_eq_iff j st)

no_keys {ℓ} : {V : Type ℓ} (d : Dict V) → ((st : Text) → count st (keys d) ≡ 0) → d ≡ []
unfolding keys count
no_keys [] h = refl
no_keys ((j, v) ∷ d) h = absurd (ground (arith, h j, text_eq_refl j))

no_elements : (xs : List Text) → ((st : Text) → count st xs ≡ 0) → xs ≡ []
unfolding count
no_elements [] h = refl
no_elements (x ∷ xs) h = absurd (ground (arith, h x, text_eq_refl x))

module _ (now : ℕ) (frontend : Bool) (s : DragonBackend) (r : IsReachable s) where
  abbrev asked : DragonBackend
  asked = process_shutdown now true frontend s

  asked-Inv : Inv asked
  unfolding process_shutdown update_shutdown_status
  asked-Inv = r.accounts

  asked-Life : Life asked
  unfolding process_shutdown update_shutdown_status
  asked-Life = r.stages

  asked-requests : asked.stop_requests ≡ s.stop_requests ++ unfinished s.group_infos
  unfolding process_shutdown update_shutdown_status
  asked-requests = refl

  asked-requested : asked.shutdown_requested ≡ true
  unfolding process_shutdown update_shutdown_status
  asked-requested = refl

  asked-infos : asked.group_infos ≡ s.group_infos
  unfolding process_shutdown update_shutdown_status
  asked-infos = refl

  asked_to_stop :
      (st : Text) (info : ProcessGroupInfo)
      → get? st asked.group_infos ≡ some info
      → is_terminal info.status ≡ false
      → 1 ≤ count st asked.stop_requests
  asked_to_stop st info e h = rw asked-requests (
      omega (
        arith,
        count-append st s.stop_requests (unfinished s.group_infos),
        count-unfinished st info s.group_infos (rw asked-infos at e) h,
      ))

  module _ (later : ℕ) (world : World) where
    abbrev stopped : DragonBackend
    stopped = stop_steps later world asked

    stopped_final :
        (st : Text) (info : ProcessGroupInfo)
        → get? st stopped.group_infos ≡ some info
        → is_terminal info.status ≡ true
    unfolding cancel is_terminal
    stopped_final st info e =
        let (p, _) = stop_steps-Handled later world asked st in
        elim (zero_or_more (count st asked.stop_requests)) [
          | inl spared ↦ elim (Bool-cases (is_terminal info.status)) [
            | inl final ↦ final
            | inr going ↦
                absurd (omega (arith, asked_to_stop st info (sym (p.untouched spared) ∙ e) going))
          ]
          | inr named ↦
              let (old, e', c) =
                cancel?-eq-some (get? st asked.group_infos) info (sym (p.cancelled named) ∙ e) in
              rw c refl
        ]

    stopped_queue : stopped.queued_steps ≡ []
    unfolding is_terminal
    stopped_queue = no_keys stopped.queued_steps λ st.
        let (p, _) = stop_steps-Handled later world asked st in
        elim (zero_or_more (count st (keys stopped.queued_steps))) [
          | inl gone ↦ gone
          | inr queued ↦ elim (zero_or_more (count st asked.stop_requests)) [
            | inl spared ↦
                let q : 1 ≤ count st (keys asked.queued_steps) =
                  omega (arith, p.still_queued spared) in
                let (info, e) = contains-get? st asked.group_infos (asked-Inv.queued_known st q) in
                absurd (
                  omega (
                    arith,
                    asked_to_stop st info e
                        (ground (arith, (asked-Life.idle st info q e).unstarted)),
                  ))
            | inr named ↦
                let v = stop_steps-Inv later world asked asked-Inv in
                let (info, e) = contains-get? st stopped.group_infos (v.queued_known st queued) in
                let (old, e', c) =
                  cancel?-eq-some (get? st asked.group_infos) info (sym (p.cancelled named) ∙ e) in
                absurd
                  (omega (arith, p.withdrawn named (get?-contains st asked.group_infos old e')))
          ]
        ]

    -- With an empty queue nothing is launched.
    abbrev unlaunched : DragonBackend
    unlaunched = heartbeat later stopped

    start_nothing : start_steps later world stopped ≡ returned unlaunched
    unfolding start_steps start_loop dequeue
    start_nothing = rw (stopped_queue, start_steps) (rw (← stopped_queue))

-- Nothing runs or waits, every host is free, every step has a final status, and the server may
-- shut down.
pub record HasEnded (s : DragonBackend) : Type 0 where
  pub may_stop : s.can_shutdown ≡ true
  pub none_running : s.running_steps ≡ []
  pub none_queued : s.queued_steps ≡ []
  pub all_free : (h : Text) → count h s.free_hosts ≡ count h s.hosts
  pub all_settled :
      (st : Text) (info : ProcessGroupInfo)
      → get? st s.group_infos ≡ some info
      → is_settled info ≡ true

module _ (s : DragonBackend) (v : Inv s) (l : Life s) (none_run : s.running_steps ≡ [])
    (none_wait : s.queued_steps ≡ []) where
  idle_settled :
      (st : Text) (info : ProcessGroupInfo)
      → get? st s.group_infos ≡ some info
      → is_settled info ≡ true
  unfolding count keys
  idle_settled st info e = elim (l.placed st info e) [
    | inl settled ↦ settled
    | inr (inl runs) ↦ absurd (omega (arith, ap (count st) none_run))
    | inr (inr queued) ↦ absurd (omega (arith, ap (λ q. count st (keys q)) none_wait))
  ]

  idle_free : (h : Text) → count h s.free_hosts ≡ count h s.hosts
  unfolding held owned count
  idle_free h = elim (Option-cases (get? h s.allocated_hosts)) [
    | inl e ↦ ground (arith, v.conserved h)
    | inr (st, e) ↦
        absurd (ground (arith, v.owners_run st h (ap (count st) none_run), text_eq_refl st))
  ]

  pub idle_ended : (now : ℕ) → s.shutdown_requested ≡ true → HasEnded (update_shutdown_status now s)
  unfolding update_shutdown_status
  idle_ended now requested = record {
    may_stop = ground (arith, requested, all-values is_settled s.group_infos l.once idle_settled);
    none_running = none_run;
    none_queued = none_wait;
    all_free = idle_free;
    all_settled = idle_settled;
  }

abbrev requested_of : Settings → Bool
requested_of t = t.1

-- A refresh of steps whose statuses are all final ends all of them.
module _ (later : ℕ) (world : World) (s : DragonBackend) (v : Inv s) (l : Life s)
    (final : (st : Text) (info : ProcessGroupInfo)
      → get? st s.group_infos ≡ some info
      → is_terminal info.status ≡ true) where
  Refreshed-stops :
      (s' : DragonBackend) (st : Text)
      → Inv s'
      → ((info : ProcessGroupInfo)
          → get? st s.group_infos ≡ some info
          → Refreshed world s s' st info)
      → (get? st s.group_infos ≡ none → get? st s'.group_infos ≡ none)
      → count st s'.running_steps ≡ 0
  Refreshed-stops s' st v' each unknown = elim (zero_or_more (count st s'.running_steps)) [
    | inl gone ↦ gone
    | inr runs ↦
        let (info', e') =
          contains-get? st s'.group_infos (v'.running_known st (omega (arith, v'.runs_once st))) in
        elim (Option-cases (get? st s.group_infos)) [
          | inl e ↦ let gone = unknown e in absurd (cc)
          | inr (info, e) ↦ elim (zero_or_more (count st s.running_steps)) [
            | inl idle ↦ ((each info e).absent idle).1
            | inr ran ↦ ((each info e).ended ran (poll_terminal world st info (final st info e))).1
          ]
        ]
  ]

  pub refresh_ends :
      s.queued_steps ≡ []
      → s.shutdown_requested ≡ true
      → (s' : DragonBackend) × (refresh_statuses later world s ≡ returned s')
        × HasEnded (update_shutdown_status later s')
  refresh_ends none_wait requested =
      let (s', e, each, queue, once, unknown) = refresh_statuses-Refreshed later world s v l.once in
      let (s₃, e₃, v₃) = refresh_statuses-Inv later world s v in
      let (s₄, e₄, l₄, final') = refresh_statuses-Life later world s v l in
      let same₃ : s₃ ≡ s' = cc in
      let same₄ : s₄ ≡ s' = cc in
      let v' : Inv s' = subst Inv same₃ v₃ in
      let l' : Life s' = subst Life same₄ l₄ in
      let kept : settings s' ≡ settings s =
        subst (λ o. settings (backend_of o) ≡ settings s) e
          (refresh_statuses-settings later world s) in
      (
        s',
        e,
        idle_ended s' v' l'
            (no_elements s'.running_steps (λ st. Refreshed-stops s' st v' (each st) (unknown st)))
            (queue ∙ none_wait) later (ap requested_of kept ∙ requested),
      )

-- In any state that a healthy runtime can bring about, after a request for an immediate shutdown
-- the next round of the update thread ends without an exception, whatever the runtime does in that
-- round, and leaves no step running or queued, every host free, every step with a final status and
-- without a process group, and the server allowed to shut down.
pub immediate_shutdown :
    (now : ℕ) (frontend : Bool) (s : DragonBackend)
    → IsReachable s
    → (later : ℕ) (world : World)
    → (s' : DragonBackend) × (update later world (process_shutdown now true frontend s)
        ≡ returned s')
      × HasEnded s'
unfolding update
immediate_shutdown now frontend s r later world =
    let asked' = asked now frontend s r in
    let kept : (stop_steps later world asked').shutdown_requested ≡ true =
      ap requested_of (stop_steps-settings later world asked') ∙ asked-requested now frontend s r in
    let (s', e, ended) =
      refresh_ends later world (unlaunched now frontend s r later world)
        (stop_steps-Inv later world asked' (asked-Inv now frontend s r))
        (stop_steps-Life later world asked' (asked-Life now frontend s r))
        (stopped_final now frontend s r later world) (stopped_queue now frontend s r later world)
        kept in
    (
      update_shutdown_status later s',
      rw (start_nothing now frontend s r later world, update) (rw (e, update)),
      ended,
    )
