-- ===== src/Dragon/Lifecycle/Kills.antt =====
-- dragonBackend.py, `_stop_steps`: which process groups it ends.
use smart_sim.Common.{
  ℕ, Bool, true, false, List, [], ◌∷◌, ◌++◌, Option, none, some, Text, text_eq, text_eq_iff,
  text_eq_refl, count, ◌≡◌, refl, arith, inl, inr, Option-cases, ◌∙◌, ◌&&◌, ◌||◌, Bool-cases, leb,
}
use smart_sim.Common.Dict.{get?, contains, count-contains, contains-count}
use smart_sim.Dragon.State.{
  ProcessGroup, ProcessTemplate, ProcessGroupInfo, GroupState, DragonBackend, World, GroupCall,
  kill, stop, heartbeat,
}
use smart_sim.Dragon.Stop.{cancel, end_group, withdraw, stop_step, stop_all, stop_steps}
use smart_sim.Dragon.Lifecycle.Stops.{stop_step-infos, stop_step-queue}

-- Is the group of the step killed, or stopped, by one of the calls?
unfoldable pub kills : Text → List GroupCall → Bool
kills st [] = false
kills st (kill id ∷ calls) = text_eq id st || kills st calls
kills st (stop id ∷ calls) = kills st calls

unfoldable pub stops : Text → List GroupCall → Bool
stops st [] = false
stops st (kill id ∷ calls) = stops st calls
stops st (stop id ∷ calls) = text_eq id st || stops st calls

kills-append : (st : Text) (a b : List GroupCall) → kills st (a ++ b) ≡ (kills st a || kills st b)
unfolding kills
kills-append st [] b = refl
kills-append st (kill id ∷ a) b = ground (arith, kills-append st a b)
kills-append st (stop id ∷ a) b = kills-append st a b

stops-append : (st : Text) (a b : List GroupCall) → stops st (a ++ b) ≡ (stops st a || stops st b)
unfolding stops
stops-append st [] b = refl
stops-append st (kill id ∷ a) b = stops-append st a b
stops-append st (stop id ∷ a) b = ground (arith, stops-append st a b)

-- The step is on record and not queued, and its group is running.
abbrev pub IsUp : World → Text → DragonBackend → Type 0
IsUp world st s =
    (info : ProcessGroupInfo) × (group : ProcessGroup ProcessTemplate) × (get? st s.group_infos
      ≡ some info)
    × (info.process_group ≡ some group)
    × (world.group_state st group ≡ GroupState.running)
    × (contains st s.queued_steps ≡ false)

-- The calls for another step.
end_group-other :
    (world : World) (id st : Text) (group : Option (ProcessGroup ProcessTemplate))
    → text_eq id st ≡ false
    → (kills st (end_group world id group) ≡ false) × (stops st (end_group world id group) ≡ false)
unfolding end_group kills stops
end_group-other world id st none other = (refl, refl)
end_group-other world id st (some group) other = (ground (arith, other), ground (arith, other))

module _ (world : World) (id st : Text) (s : DragonBackend) where
  stop_step_other :
      text_eq id st ≡ false
      → (kills st (stop_step world id s).calls ≡ kills st s.calls)
        × (stops st (stop_step world id s).calls ≡ stops st s.calls)
  unfolding stop_step withdraw
  stop_step_other other = elim (Option-cases (get? id s.group_infos)) [
    | inl e ↦ rw (stop_step, e) (refl, refl)
    | inr (info, e) ↦ elim (Bool-cases (contains id s.queued_steps)) [
      | inl queued ↦ rw (stop_step, e, withdraw, queued) (refl, refl)
      | inr gone ↦
          let (k, t) = end_group-other world id st info.process_group other in
          ground (
            arith,
            e,
            kills-append st s.calls (end_group world id info.process_group),
            stops-append st s.calls (end_group world id info.process_group),
            k,
            t,
          )
    ]
  ]

  end_group-running :
      (group : ProcessGroup ProcessTemplate)
      → world.group_state st group ≡ GroupState.running
      → (kills st (end_group world st (some group)) ≡ true)
        × (stops st (end_group world st (some group)) ≡ world.kill_raises st)
  unfolding end_group kills stops
  end_group-running group running = elim (Bool-cases (world.kill_raises st)) [
    | inl raises ↦ rw (end_group, running, raises, text_eq_refl) (refl, refl)
    | inr fine ↦ rw (end_group, running, fine, text_eq_refl) (refl, refl)
  ]

  stop_step-calls :
      (info : ProcessGroupInfo)
      → get? id s.group_infos ≡ some info
      → contains id s.queued_steps ≡ false
      → (stop_step world id s).calls ≡ s.calls ++ end_group world id info.process_group
  unfolding stop_step withdraw
  stop_step-calls info known gone = rw (stop_step, known, withdraw, gone) refl

  stop_step_self :
      text_eq id st ≡ true
      → IsUp world st s
      → (kills st (stop_step world id s).calls ≡ true)
        × (stops st (stop_step world id s).calls ≡ (stops st s.calls || world.kill_raises st))
  stop_step_self same (info, group, known, has, running, gone) =
      let e : id ≡ st = (text_eq_iff id st).0 same in
      let calls : (stop_step world id s).calls ≡ s.calls ++ end_group world st (some group) =
        stop_step-calls info (rw e known) (rw e gone) ∙ rw (e, has) refl in
      let (k, t) = end_group-running group running in
      (rw (calls, kills-append) (ground (arith, k)), rw (calls, stops-append) (ground (arith, t)))

  stop_step-IsUp : IsUp world st s → IsUp world st (stop_step world id s)
  unfolding cancel
  stop_step-IsUp (info, group, known, has, running, gone) =
      let queue : contains st (stop_step world id s).queued_steps ≡ false = ground (
        arith,
        stop_step-queue world id s st,
        count-contains st s.queued_steps,
        contains-count st (stop_step world id s).queued_steps,
        gone,
      ) in
      elim (Bool-cases (text_eq id st)) [
        | inl same ↦ (
          cancel info,
          group,
          ground (arith, stop_step-infos world id s st, same, known),
          has,
          running,
          queue,
        )
        | inr other ↦ (
          info,
          group,
          ground (arith, stop_step-infos world id s st, other, known),
          has,
          running,
          queue,
        )
      ]

-- What the calls for a step come to: `asked` tells whether its stop is requested.
abbrev pub HasCalls : World → Text → Bool → (before after : List GroupCall) → Type 0
HasCalls world st asked before after =
    (kills st after ≡ (kills st before || asked))
    × (stops st after ≡ (stops st before || (asked && world.kill_raises st)))

stop_all-HasCalls :
    (world : World) (ids : List Text) (s : DragonBackend) (st : Text)
    → IsUp world st s
    → HasCalls world st (leb 1 (count st ids)) s.calls (stop_all world ids s).calls
unfolding stop_all count
stop_all-HasCalls world [] s st up = (ground arith, ground arith)
stop_all-HasCalls world (id ∷ ids) s st up =
    let (k, t) =
      stop_all-HasCalls world ids (stop_step world id s) st (stop_step-IsUp world id st s up) in
    elim (Bool-cases (text_eq id st)) [
      | inl same ↦
          let (kk, tt') = stop_step_self world id st s same up in
          (ground (arith, k, kk, text_eq_iff id st), ground (arith, t, tt', text_eq_iff id st))
      | inr other ↦
          let (kk, tt') = stop_step_other world id st s other in
          (ground (arith, k, kk, text_eq_iff id st), ground (arith, t, tt', text_eq_iff id st))
    ]

-- For a step that is on record and not queued, and whose group is running: when the stop requests have
-- been handled, its group has been killed exactly if it had been before or its stop is requested, and
-- stopped exactly if it had been before, or its stop is requested and the kill raises the exception.
pub stop_steps-HasCalls :
    (now : ℕ) (world : World) (s : DragonBackend) (st : Text)
    → IsUp world st s
    → HasCalls world st (leb 1 (count st s.stop_requests)) s.calls (stop_steps now world s).calls
unfolding stop_steps
stop_steps-HasCalls now world s st up =
    stop_all-HasCalls world s.stop_requests (record (heartbeat now s) { stop_requests = [] }) st up
