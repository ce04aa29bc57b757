-- ===== src/Dragon/Lifecycle/Histories.antt =====
-- The stages of the steps over whole histories.
use smart_sim.Common.{
  ℕ, ◌≤◌, true, false, List, [], ◌∷◌, some, Text, text_eq, text_eq_iff, count, ◌≡◌, refl, arith,
  inl, inr, Bool-cases,
}
use smart_sim.Common.Dict.{
  get?, set, keys, get?-set, once-set, count-keys-set, contains-count, get?-contains,
}
use smart_sim.Status.{is_terminal}
use smart_sim.Dragon.State.{DragonRunRequest, ProcessGroupInfo, DragonBackend, World, Node, Config}
use smart_sim.Dragon.Policies.{can_honor}
use smart_sim.Dragon.Stop.{stop_steps}
use smart_sim.Dragon.Shutdown.{
  update, update_shutdown_status, is_settled, backend_of, Phase, stopping, starting, refreshing,
  settling, run_phase,
}
use smart_sim.Dragon.Server.{
  DragonRequest, run, update_status, stop, handshake, bootstrap, shutdown, Event, request, tick,
  method, process_run, process_request, step, history, init, step_name,
}
use smart_sim.Dragon.Hosts.{Inv, IsHealthy}
use smart_sim.Dragon.Hosts.Stops.{stop_steps-Inv}
use smart_sim.Dragon.Hosts.Loop.{start_steps-Inv}
use smart_sim.Dragon.Hosts.Histories.{IsSound, AreSound, step-Inv, init-Inv, history-Inv}
use smart_sim.Dragon.Hosts.Requests.{Honor-cases}
use smart_sim.Dragon.Lifecycle.{Life, IsIdle, IsFinal}
use smart_sim.Dragon.Lifecycle.Stops.{stop_steps-Life}
use smart_sim.Dragon.Lifecycle.Finals.{stop_steps-IsFinal}
use smart_sim.Dragon.Lifecycle.Starts.{Begun-Life, Begun-IsFinal}
use smart_sim.Dragon.Lifecycle.Settles.{refresh_statuses-Life}

init-Life :
    (pid : ℕ) (names : List Text) (nodes : List Node) (config : Config) (now : ℕ)
    → Life (init pid names nodes config now)
unfolding init get? keys count
init-Life pid names nodes config now = record {
  once = λ st. omega arith;
  idle = λ st info q e. absurd (omega arith);
  placed = λ st info e. absurd (cc);
}

update-Life :
    (now : ℕ) (world : World) (s : DragonBackend)
    → IsHealthy world
    → Inv s
    → Life s
    → Life (backend_of (update now world s))
      × ((st : Text) → IsFinal st s → IsFinal st (backend_of (update now world s)))
unfolding update update_shutdown_status
update-Life now world s healthy v l =
    let s₀ = stop_steps now world s in
    let (s₁, started, e₁, v₁, b) =
      start_steps-Inv now world s₀ healthy (stop_steps-Inv now world s v) in
    let l₀ = stop_steps-Life now world s l in
    let (s₂, e₂, l₂, final) =
      refresh_statuses-Life now world s₁ v₁ (Begun-Life s₀ s₁ started b l₀) in
    rw (e₁, update)
      (rw (e₂, update)
        (
          l₂,
          λ st f.
              final st (Begun-IsFinal s₀ s₁ started b l₀ st (stop_steps-IsFinal now world s st f)),
        ))

phase-Life :
    (now : ℕ) (world : World) (phase : Phase) (s : DragonBackend)
    → IsHealthy world
    → Inv s
    → Life s
    → Life (backend_of (run_phase now world phase s))
      × ((st : Text) → IsFinal st s → IsFinal st (backend_of (run_phase now world phase s)))
unfolding run_phase update_shutdown_status
phase-Life now world stopping s healthy v l =
    (stop_steps-Life now world s l, λ st f. stop_steps-IsFinal now world s st f)
phase-Life now world starting s healthy v l =
    let (s₁, started, e, v₁, b) = start_steps-Inv now world s healthy v in
    rw (run_phase, e) (Begun-Life s s₁ started b l, λ st f. Begun-IsFinal s s₁ started b l st f)
phase-Life now world refreshing s healthy v l =
    let (s₂, e, l₂, final) = refresh_statuses-Life now world s v l in rw (run_phase, e) (l₂, final)
phase-Life now world settling s healthy v l = (l, λ st f. f)

module _ (short : Text) (s : DragonBackend) (v : Inv s) (l : Life s) where
  abbrev id : Text
  id = step_name short s.next_step

  other_id :
      (st : Text) (info : ProcessGroupInfo)
      → get? st s.group_infos ≡ some info
      → text_eq id st ≡ false
  other_id st info e = ground (
    arith,
    text_eq_iff id st,
    v.fresh short s.next_step (omega arith),
    get?-contains st s.group_infos info,
  )

  recorded-IsFinal :
      (info : ProcessGroupInfo) (st : Text)
      → IsFinal st s
      → IsFinal st (record s { group_infos = set id info s.group_infos })
  recorded-IsFinal info st (old, e, final) =
      (old, ground (arith, other_id st old e, get?-set st id info s.group_infos), final)

  refused-Life :
      (info : ProcessGroupInfo)
      → is_settled info ≡ true
      → Life (record s { group_infos = set id info s.group_infos })
  refused-Life info settled = record {
    once = λ st. once-set st id info s.group_infos l.once;
    idle = λ st i q e. l.idle st i q (
        ground (
          arith,
          get?-set st id info s.group_infos,
          v.queued_known st q,
          v.fresh short s.next_step (omega arith),
          text_eq_iff id st,
        ));
    placed = λ st i e. elim (Bool-cases (text_eq id st)) [
      | inl same ↦ inl (ground (arith, get?-set st id info s.group_infos))
      | inr other ↦ l.placed st i (ground (arith, get?-set st id info s.group_infos))
    ];
  }

  queued-Life :
      (req : DragonRunRequest) (info : ProcessGroupInfo)
      → IsIdle info
      → Life (record s {
        group_infos = set id info s.group_infos;
        queued_steps = set id req s.queued_steps;
      })
  queued-Life req info idle_info = record {
    once = λ st. once-set st id info s.group_infos l.once;
    idle = λ st i q e. elim (Bool-cases (text_eq id st)) [
      | inl same ↦
          let eq : i ≡ info = ground (arith, get?-set st id info s.group_infos) in rw eq idle_info
      | inr other ↦
          l.idle st i (ground (arith, count-keys-set st id req s.queued_steps))
            (ground (arith, get?-set st id info s.group_infos))
    ];
    placed = λ st i e. elim (Bool-cases (text_eq id st)) [
      | inl same ↦ inr (
          inr (
            ground (
              arith,
              count-keys-set st id req s.queued_steps,
              contains-count id s.queued_steps,
              text_eq_iff id st,
            )))
      | inr other ↦ elim (l.placed st i (ground (arith, get?-set st id info s.group_infos))) [
        | inl settled ↦ inl settled
        | inr (inl runs) ↦ inr (inl runs)
        | inr (inr queued) ↦ inr (inr (ground (arith, count-keys-set st id req s.queued_steps)))
      ]
    ];
  }

process_run-Life :
    (short : Text) (req : DragonRunRequest) (s : DragonBackend)
    → Inv s
    → Life s
    → Life (process_run short req s).0
      × ((st : Text) → IsFinal st s → IsFinal st (process_run short req s).0)
unfolding process_run is_settled is_terminal
process_run-Life short req s v l = elim (Honor-cases (can_honor s req)) [
  | inl e ↦
      rw (e, process_run)
        (
          queued-Life short s v l req _
              (record { unstarted = refl; no_group = refl; no_workers = refl }),
          recorded-IsFinal short s v l _,
        )
  | inr (inl (m, e)) ↦
      rw (e, process_run) (refused-Life short s v l _ refl, recorded-IsFinal short s v l _)
  | inr (inr e) ↦ rw (e, process_run) (l, λ st f. f)
]

process_request-Life :
    (now : ℕ) (short : Text) (r : DragonRequest) (s : DragonBackend)
    → Inv s
    → Life s
    → Life (process_request now short r s).0
      × ((st : Text) → IsFinal st s → IsFinal st (process_request now short r s).0)
unfolding process_request update_shutdown_status
process_request-Life now short (run req) s v l = process_run-Life short req s v l
process_request-Life now short (update_status ids) s v l = (l, λ st f. f)
process_request-Life now short (stop step_id) s v l = (l, λ st f. f)
process_request-Life now short handshake s v l = (l, λ st f. f)
process_request-Life now short (bootstrap address) s v l = (l, λ st f. f)
process_request-Life now short (shutdown true frontend) s v l = (l, λ st f. f)
process_request-Life now short (shutdown false frontend) s v l = (l, λ st f. f)

step-Life :
    (e : Event) (s : DragonBackend)
    → IsSound e
    → Inv s
    → Life s
    → Life (step e s) × ((st : Text) → IsFinal st s → IsFinal st (step e s))
unfolding step
step-Life (request now short r) s sound v l = process_request-Life now short r s v l
step-Life (tick now world) s sound v l = update-Life now world s sound v l
step-Life (method now world phase) s sound v l = phase-Life now world phase s sound v l

history-Life :
    (es : List Event) (s : DragonBackend)
    → AreSound es
    → Inv s
    → Life s
    → Life (history es s) × ((st : Text) → IsFinal st s → IsFinal st (history es s))
unfolding history
history-Life [] s sound v l = (l, λ st f. f)
history-Life (e ∷ es) s sound v l =
    let (l', final) = step-Life e s sound.0 v l in
    let (l'', final') = history-Life es (step e s) sound.1 (step-Inv e s sound.0 v) l' in
    (l'', λ st f. final' st (final st f))

-- A state that a healthy runtime can bring about.
pub record IsReachable (s : DragonBackend) : Type 0 where
  pub accounts : Inv s
  pub stages : Life s

pub history-IsReachable :
    (pid : ℕ) (names : List Text) (nodes : List Node) (config : Config) (now : ℕ) (es : List Event)
    → ((h : Text) → count h names ≤ 1)
    → AreSound es
    → IsReachable (history es (init pid names nodes config now))
history-IsReachable pid names nodes config now es distinct sound =
    let v = init-Inv pid names nodes config now distinct in
    record {
      accounts = history-Inv es _ sound v;
      stages = (history-Life es _ sound v (init-Life pid names nodes config now)).0;
    }

-- Once a step's status is final in a history that meets a healthy runtime, from a new backend whose
-- host names are all different, it is final after every continuation of the history in such a
-- runtime.
pub history-IsFinal :
    (pid : ℕ) (names : List Text) (nodes : List Node) (config : Config) (now : ℕ)
    (before after : List Event)
    → ((h : Text) → count h names ≤ 1)
    → AreSound before
    → AreSound after
    → (st : Text) → IsFinal st (history before (init pid names nodes config now))
    → IsFinal st (history after (history before (init pid names nodes config now)))
history-IsFinal pid names nodes config now before after distinct sound sound' st f =
    let r = history-IsReachable pid names nodes config now before distinct sound in
    (history-Life after _ sound' r.accounts r.stages).1 st f
