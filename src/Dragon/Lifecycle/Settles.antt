-- ===== src/Dragon/Lifecycle/Settles.antt =====
-- `_refresh_statuses` and the stages of the steps.
use smart_sim.Common.{
  ℕ, ◌≤◌, true, some, Text, count, ◌≡◌, arith, ◌⊎◌, inl, inr, Option-cases, Bool-cases,
}
use smart_sim.Common.Dict.{get?, keys}
use smart_sim.Status.{is_terminal}
use smart_sim.Dragon.State.{ProcessGroupInfo, DragonBackend, World}
use smart_sim.Dragon.Start.{returned}
use smart_sim.Dragon.Refresh.{poll, forget_groups, refresh_statuses}
use smart_sim.Dragon.Shutdown.{is_settled}
use smart_sim.Dragon.Hosts.{Inv}
use smart_sim.Dragon.Lifecycle.{Life, Placed, IsFinal}
use smart_sim.Dragon.Lifecycle.Refreshes.{Refreshed, refresh_statuses-Refreshed, poll_terminal}

pub zero_or_more : (n : ℕ) → (n ≡ 0) ⊎ (1 ≤ n)
zero_or_more n = grind arith

forget_settles :
    (info : ProcessGroupInfo)
    → is_terminal info.status ≡ true
    → is_settled (forget_groups info) ≡ true
unfolding is_settled
forget_settles info h = ground arith

module _ (now : ℕ) (world : World) (s : DragonBackend) (v : Inv s) (l : Life s) where
  Refreshed-Placed :
      (s' : DragonBackend) (st : Text) (info info' : ProcessGroupInfo)
      → Refreshed world s s' st info
      → s'.queued_steps ≡ s.queued_steps
      → get? st s.group_infos ≡ some info
      → get? st s'.group_infos ≡ some info'
      → Placed st info' s'.queued_steps s'.running_steps
  Refreshed-Placed s' st info info' r q e e' = elim (zero_or_more (count st s.running_steps)) [
    | inl idle ↦
        let same : info' ≡ info = ground (arith, r.absent idle) in
        elim (l.placed st info e) [
          | inl settled ↦ inl (rw same settled)
          | inr (inl runs) ↦ absurd (omega arith)
          | inr (inr queued) ↦ inr (inr (rw q queued))
        ]
    | inr runs ↦ elim (Bool-cases (is_terminal (poll world st info).status)) [
      | inl final ↦
          inl (ground (arith, r.ended runs final, forget_settles (poll world st info) final))
      | inr going_on ↦ inr (inl (ground (arith, r.goes_on runs going_on, v.runs_once st)))
    ]
  ]

  -- The refresh ends normally, keeps the stages, and keeps final statuses final.
  pub refresh_statuses-Life :
      (s' : DragonBackend) × (refresh_statuses now world s ≡ returned s')
      × Life s'
      × ((st : Text) → IsFinal st s → IsFinal st s')
  refresh_statuses-Life =
      let (s', e, each, q, once, unknown) = refresh_statuses-Refreshed now world s v l.once in
      (
        s',
        e,
        record {
          once = once;
          idle = λ st info' queued e'. elim (Option-cases (get? st s.group_infos)) [
            | inl none_before ↦ let gone = unknown st none_before in absurd (cc)
            | inr (info, known) ↦
                let queued' : 1 ≤ count st (keys s.queued_steps) = rw q at queued in
                let same : info' ≡ info =
                  ground (arith, (each st info known).absent (v.apart st queued')) in
                rw same (l.idle st info queued' known)
          ];
          placed = λ st info' e'. elim (Option-cases (get? st s.group_infos)) [
            | inl none_before ↦ let gone = unknown st none_before in absurd (cc)
            | inr (info, known) ↦ Refreshed-Placed s' st info info' (each st info known) q known e'
          ];
        },
        (λ st (info, known, final). refreshed_final s' st info (each st info known) final),
      )
    where
      refreshed_final :
          (s' : DragonBackend) (st : Text) (info : ProcessGroupInfo)
          → Refreshed world s s' st info
          → is_terminal info.status ≡ true
          → IsFinal st s'
      refreshed_final s' st info r final = elim (zero_or_more (count st s.running_steps)) [
        | inl idle ↦ (info, (r.absent idle).0, final)
        | inr runs ↦ (
          forget_groups (poll world st info),
          (r.ended runs (poll_terminal world st info final)).0,
          poll_terminal world st info final,
        )
      ]
