-- ===== src/Dragon/Lifecycle/Stops.antt =====
-- `_stop_steps`: what it does to the records and the queue.
use smart_sim.Common.{
  ℕ, ◌≤◌, true, false, List, [], ◌∷◌, Option, none, some, Text, text_eq, text_eq_iff, count,
  if◌then◌else◌, ◌≡◌, refl, Bool, arith, inl, inr, Option-cases, ◌∙◌, ◌&&◌, Bool-cases,
}
use smart_sim.Common.Dict.{
  get?, contains, keys, get?-set, once-set, count-keys-del, count-contains, get?-contains,
  contains-get?,
}
use smart_sim.Common.Int.{negsuc}
use smart_sim.Status.{is_terminal, cancelled}
use smart_sim.Dragon.State.{ProcessGroupInfo, DragonBackend, World, heartbeat}
use smart_sim.Dragon.Stop.{cancel, stop_step, stop_all, stop_steps}
use smart_sim.Dragon.Shutdown.{is_settled}
use smart_sim.Dragon.Lifecycle.{Life, IsIdle, Placed}

abbrev pub cancel? : Option ProcessGroupInfo → Option ProcessGroupInfo
cancel? none = none
cancel? (some info) = some (cancel info)

module _ (world : World) (id : Text) (s : DragonBackend) where
  pub stop_step-infos :
      (st : Text)
      → get? st (stop_step world id s).group_infos
        ≡ (if text_eq id st then cancel? (get? st s.group_infos) else get? st s.group_infos)
  unfolding stop_step
  stop_step-infos st = elim (Option-cases (get? id s.group_infos)) [
    | inl e ↦ ground (arith, text_eq_iff id st)
    | inr (info, e) ↦ ground (arith, text_eq_iff id st, get?-set st id (cancel info) s.group_infos)
  ]

  -- A known step leaves the queue.
  pub stop_step-queue :
      (st : Text)
      → count st (keys (stop_step world id s).queued_steps)
        ≡ (if text_eq id st && contains id s.group_infos then 0 else count st (keys s.queued_steps))
  unfolding stop_step
  stop_step-queue st = elim (Option-cases (get? id s.group_infos)) [
    | inl e ↦ ground (arith, contains-get? id s.group_infos)
    | inr (info, e) ↦ ground (
      arith,
      text_eq_iff id st,
      count-keys-del st id s.queued_steps,
      count-contains id s.queued_steps,
      get?-contains id s.group_infos info,
    )
  ]

  stop_step-known :
      (st : Text)
      → contains st s.group_infos ≡ true
      → contains st (stop_step world id s).group_infos ≡ true
  stop_step-known st known =
      let (info, e) = contains-get? st s.group_infos known in
      elim (Bool-cases (text_eq id st)) [
        | inl same ↦
            get?-contains st (stop_step world id s).group_infos (cancel info)
              (ground (arith, stop_step-infos st))
        | inr other ↦
            get?-contains st (stop_step world id s).group_infos info
              (ground (arith, stop_step-infos st))
      ]

  stop_step-running : (stop_step world id s).running_steps ≡ s.running_steps
  unfolding stop_step
  stop_step-running = ground arith

  stop_step-once :
      ((st : Text) → count st (keys s.group_infos) ≤ 1)
      → (st : Text) → count st (keys (stop_step world id s).group_infos) ≤ 1
  unfolding stop_step
  stop_step-once once st = elim (Option-cases (get? id s.group_infos)) [
    | inl e ↦ rw (e, stop_step) (once st)
    | inr (info, e) ↦ ground (arith, once-set st id (cancel info) s.group_infos once)
  ]

cancel_settled :
    (info : ProcessGroupInfo) → is_settled info ≡ true → is_settled (cancel info) ≡ true
unfolding is_settled cancel is_terminal
cancel_settled info h = ground arith

cancel_idle : (info : ProcessGroupInfo) → IsIdle info → is_settled (cancel info) ≡ true
unfolding is_settled cancel is_terminal
cancel_idle info h = ground (arith, h.no_group, h.no_workers)

pub cancel?-eq-some :
    (o : Option ProcessGroupInfo) (info : ProcessGroupInfo)
    → cancel? o ≡ some info
    → (old : ProcessGroupInfo) × (o ≡ some old) × (info ≡ cancel old)
cancel?-eq-some none info e = cc
cancel?-eq-some (some old) info e = (old, refl, ground arith)

module _ (world : World) (id : Text) (s : DragonBackend) (l : Life s) where
  cancelled-Placed :
      (st : Text) (info old : ProcessGroupInfo)
      → text_eq id st ≡ true
      → get? st s.group_infos ≡ some old
      → info ≡ cancel old
      → Placed st info (stop_step world id s).queued_steps (stop_step world id s).running_steps
  cancelled-Placed st info old same e c = elim (l.placed st old e) [
    | inl settled ↦ inl (ground (arith, cancel_settled old settled))
    | inr (inl runs) ↦ inr (inl (rw (stop_step-running world id s) runs))
    | inr (inr queued) ↦ inl (ground (arith, cancel_idle old (l.idle st old queued e)))
  ]

  other-Placed :
      (st : Text) (info : ProcessGroupInfo)
      → text_eq id st ≡ false
      → get? st s.group_infos ≡ some info
      → Placed st info (stop_step world id s).queued_steps (stop_step world id s).running_steps
  other-Placed st info other e = elim (l.placed st info e) [
    | inl settled ↦ inl settled
    | inr (inl runs) ↦ inr (inl (rw (stop_step-running world id s) runs))
    | inr (inr queued) ↦ inr (inr (ground (arith, stop_step-queue world id s st)))
  ]

  stop_step-Life : Life (stop_step world id s)
  stop_step-Life = record {
    once = stop_step-once world id s l.once;
    idle = λ st info q e. elim (Bool-cases (text_eq id st)) [
      | inl same ↦
          let (old, e', c) =
            cancel?-eq-some (get? st s.group_infos) info
              (ground (arith, stop_step-infos world id s st)) in
          absurd (
            ground (
              arith,
              stop_step-queue world id s st,
              text_eq_iff id st,
              get?-contains st s.group_infos old e',
            ))
      | inr other ↦
          l.idle st info (ground (arith, stop_step-queue world id s st))
            (ground (arith, stop_step-infos world id s st))
    ];
    placed = λ st info e. elim (Bool-cases (text_eq id st)) [
      | inl same ↦
          let (old, e', c) =
            cancel?-eq-some (get? st s.group_infos) info
              (ground (arith, stop_step-infos world id s st)) in
          cancelled-Placed st info old same e' c
      | inr other ↦ other-Placed st info other (ground (arith, stop_step-infos world id s st))
    ];
  }

stop_all-Life :
    (world : World) (ids : List Text) (s : DragonBackend) → Life s → Life (stop_all world ids s)
unfolding stop_all
stop_all-Life world [] s l = l
stop_all-Life world (id ∷ ids) s l =
    stop_all-Life world ids (stop_step world id s) (stop_step-Life world id s l)

pub stop_steps-Life :
    (now : ℕ) (world : World) (s : DragonBackend) → Life s → Life (stop_steps now world s)
unfolding stop_steps
stop_steps-Life now world s l =
    stop_all-Life world s.stop_requests (record (heartbeat now s) { stop_requests = [] }) l

stop_all-requests :
    (world : World) (ids : List Text) (s : DragonBackend)
    → (stop_all world ids s).stop_requests ≡ s.stop_requests
unfolding stop_all stop_step
stop_all-requests world [] s = refl
stop_all-requests world (id ∷ ids) s =
    stop_all-requests world ids (stop_step world id s) ∙ ground arith

-- What a pending stop request means for a step, and that the other steps are left alone.
pub record Handled (requests : List Text) (before after : DragonBackend) (st : Text) : Type 0 where
  pub cancelled :
      1 ≤ count st requests → get? st after.group_infos ≡ cancel? (get? st before.group_infos)
  pub withdrawn :
      1 ≤ count st requests
      → contains st before.group_infos ≡ true
      → count st (keys after.queued_steps) ≡ 0
  pub untouched : count st requests ≡ 0 → get? st after.group_infos ≡ get? st before.group_infos
  pub still_queued :
      count st requests ≡ 0
      → count st (keys after.queued_steps) ≡ count st (keys before.queued_steps)
  pub same_running : after.running_steps ≡ before.running_steps

cancel?_idem : (o : Option ProcessGroupInfo) → cancel? (cancel? o) ≡ cancel? o
unfolding cancel
cancel?_idem none = refl
cancel?_idem (some info) = refl

stop_all-Handled :
    (world : World) (ids : List Text) (s : DragonBackend) (st : Text)
    → Handled ids s (stop_all world ids s) st
unfolding stop_all count
stop_all-Handled world [] s st = record {
  cancelled = λ h. absurd (omega arith);
  withdrawn = λ h known. absurd (omega arith);
  untouched = λ h. refl;
  still_queued = λ h. refl;
  same_running = refl;
}
stop_all-Handled world (id ∷ ids) s st =
    let r = stop_all-Handled world ids (stop_step world id s) st in
    record {
      cancelled = λ h. ground (
        arith,
        r.cancelled,
        r.untouched,
        stop_step-infos world id s st,
        cancel?_idem (get? st s.group_infos),
      );
      withdrawn = λ h known. ground (
        arith,
        r.withdrawn,
        r.still_queued,
        stop_step-queue world id s st,
        text_eq_iff id st,
        stop_step-known world id s st known,
      );
      untouched = λ h. ground (arith, r.untouched, stop_step-infos world id s st);
      still_queued = λ h. ground (arith, r.still_queued, stop_step-queue world id s st);
      same_running = r.same_running ∙ stop_step-running world id s;
    }

pub stop_steps-Handled :
    (now : ℕ) (world : World) (s : DragonBackend) (st : Text)
    → Handled s.stop_requests s (stop_steps now world s) st
      × ((stop_steps now world s).stop_requests ≡ [])
unfolding stop_steps
stop_steps-Handled now world s st =
    let s₀ = record (heartbeat now s) { stop_requests = [] } in
    let r = stop_all-Handled world s.stop_requests s₀ st in
    (
      record {
        cancelled = r.cancelled;
        withdrawn = r.withdrawn;
        untouched = r.untouched;
        still_queued = r.still_queued;
        same_running = r.same_running;
      },
      stop_all-requests world s.stop_requests s₀,
    )

-- What is left of a step, whose stop is requested or not, and which is on record or not.
abbrev pub Stopped : Bool → Option ProcessGroupInfo → Text → (before after : DragonBackend) → Type 0
Stopped true none st before after = get? st after.group_infos ≡ none
Stopped true (some old) st before after =
    (get? st after.group_infos
      ≡ some (record old { status = cancelled; return_codes = some (negsuc 8 ∷ []) }))
    × (count st (keys after.queued_steps) ≡ 0)
Stopped false info st before after =
    (get? st after.group_infos ≡ info)
    × (count st (keys after.queued_steps) ≡ count st (keys before.queued_steps))
