-- ===== src/Dragon/Lifecycle/Refreshes.antt =====
-- `_refresh_statuses` as a whole: each step's record, before and after.
use smart_sim.Common.{
  ℕ, ◌≤◌, true, false, List, none, some, Text, count, ◌≡◌, arith, inl, inr, Bool-cases,
}
use smart_sim.Common.Dict.{Dict, get?, contains, keys, contains-get?, get?-contains}
use smart_sim.Status.{is_terminal}
use smart_sim.Dragon.State.{ProcessGroupInfo, DragonBackend, World, heartbeat}
use smart_sim.Dragon.Start.{returned}
use smart_sim.Dragon.Refresh.{poll, forget_groups, retire_all, refresh_statuses}
use smart_sim.Dragon.Shutdown.{is_settled}
use smart_sim.Dragon.Hosts.{Inv}
use smart_sim.Dragon.Lifecycle.Polls.{Polls, Retires, poll_all-Polls, retire_all-Retires}

module _ (world : World) (s : DragonBackend) (infos' : Dict ProcessGroupInfo) (done : List Text)
    (v : Inv s) (p : Polls world s.running_steps s.group_infos infos' done) where
  Polls-among : (st : Text) → count st done ≤ count st s.running_steps
  Polls-among st = elim (Bool-cases (contains st s.group_infos)) [
    | inl known ↦
        let (info, e) = contains-get? st s.group_infos known in
        ground (arith, p.read st info, p.unread st)
    | inr unknown ↦ ground (arith, v.running_known st, v.runs_once st, p.unread st)
  ]

  Polls-known : (st : Text) → 1 ≤ count st done → contains st infos' ≡ true
  Polls-known st h =
      let runs : count st s.running_steps ≡ 1 = omega (arith, Polls-among st, v.runs_once st) in
      let (info, e) = contains-get? st s.group_infos (v.running_known st runs) in
      get?-contains st infos' (poll world st info) (p.read st info (omega arith) e).0

pub poll_settles :
    (world : World) (id : Text) (info : ProcessGroupInfo)
    → is_settled info ≡ true
    → is_settled (forget_groups (poll world id info)) ≡ true
unfolding is_settled poll
poll_settles world id info h = ground arith

pub poll_terminal :
    (world : World) (id : Text) (info : ProcessGroupInfo)
    → is_terminal info.status ≡ true
    → is_terminal (poll world id info).status ≡ true
unfolding poll
poll_terminal world id info h = ground arith

pub none-contains :
    (st : Text) (d : Dict ProcessGroupInfo) → get? st d ≡ none → contains st d ≡ false
none-contains st d e = elim (Bool-cases (contains st d)) [
  | inl known ↦ let (info, e') = contains-get? st d known in cc
  | inr unknown ↦ unknown
]

-- What a poll makes of one step: a running step whose status is final, once it is polled, is
-- settled and runs no more; one whose status is not final goes on running; others are untouched.
pub record Refreshed (world : World) (before after : DragonBackend) (st : Text)
    (info : ProcessGroupInfo) : Type 0 where
  pub ended :
      1 ≤ count st before.running_steps
      → is_terminal (poll world st info).status ≡ true
      → (get? st after.group_infos ≡ some (forget_groups (poll world st info)))
        × (count st after.running_steps ≡ 0)
  pub goes_on :
      1 ≤ count st before.running_steps
      → is_terminal (poll world st info).status ≡ false
      → (get? st after.group_infos ≡ some (poll world st info))
        × (count st after.running_steps ≡ count st before.running_steps)
  pub absent :
      count st before.running_steps ≡ 0
      → (get? st after.group_infos ≡ some info) × (count st after.running_steps ≡ 0)

-- In a state that satisfies the accounts and has each step on record once, `_refresh_statuses` ends
-- without an exception, treats each step on record as `Refreshed` says (a running one is polled
-- and, if its status is then final, loses its groups and runs no more; others keep their records),
-- leaves the queue alone, keeps each step on record once, and adds no step.
pub refresh_statuses-Refreshed :
    (now : ℕ) (world : World) (s : DragonBackend)
    → Inv s
    → ((st : Text) → count st (keys s.group_infos) ≤ 1)
    → (s' : DragonBackend) × (refresh_statuses now world s ≡ returned s')
      × ((st : Text) (info : ProcessGroupInfo)
          → get? st s.group_infos ≡ some info
          → Refreshed world s s' st info)
      × (s'.queued_steps ≡ s.queued_steps)
      × ((st : Text) → count st (keys s'.group_infos) ≤ 1)
      × ((st : Text) → get? st s.group_infos ≡ none → get? st s'.group_infos ≡ none)
unfolding refresh_statuses
refresh_statuses-Refreshed now world s v once =
    let (infos', done, e, p) =
      poll_all-Polls world s.running_steps s.group_infos v.runs_once
        (λ st h. v.running_known st (omega (arith, v.runs_once st))) once in
    let s₀ = record (heartbeat now s) { group_infos = infos' } in
    let r : Retires done s₀ (retire_all done s₀) =
      retire_all-Retires done s₀ (Polls-among world s infos' done v p) v.runs_once
        (Polls-known world s infos' done v p) p.once in
    (
      retire_all done s₀,
      rw (e, refresh_statuses),
      (λ st info found. record {
        ended = λ runs final.
            let (polled_info, finds) = p.read st info runs found in
            (
              r.forgotten st (poll world st info) (ground arith) polled_info,
              ground (arith, r.leaves st, v.runs_once st),
            );
        goes_on = λ runs final.
            let (polled_info, finds) = p.read st info runs found in
            (ground (arith, r.kept st), ground (arith, r.leaves st));
        absent = λ idle.
            let (same, none_done) = p.unread st idle in
            (ground (arith, r.kept st), ground (arith, r.leaves st));
      }),
      r.same_queue,
      r.once,
      (λ st unknown.
          let idle : count st s.running_steps ≡ 0 = ground (
            arith,
            v.running_known st,
            v.runs_once st,
            contains-get? st s.group_infos,
            none-contains st s.group_infos unknown,
          ) in
          ground (arith, p.unread st idle, r.kept st)),
    )
