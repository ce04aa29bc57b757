-- ===== src/Dragon/Failures.antt =====
-- `_start_steps` in a runtime that fails: what its two `except` clauses leave behind.
use smart_sim.Common.{
  ℕ, ◌+◌, ◌≤◌, List, [], ◌∷◌, none, Text, text_eq_refl, count, count-append, length, length-append,
  ◌≡◌, refl, ap, ◌∙◌, arith, inl, inr, List-cases,
}
use smart_sim.Common.Dict.{Dict, keys}
use smart_sim.Dragon.State.{
  DragonRunRequest, DragonBackend, World, heartbeat, ProcessGroup, ProcessTemplate,
}
use smart_sim.Dragon.Policies.{run_group}
use smart_sim.Dragon.Start.{
  take_hosts, launch_step, start_step, start_loop, start_steps, Starting, going, io_error, returned,
  raised, launched_puids, dequeue,
}
use smart_sim.Dragon.Hosts.Allocate.{take_hosts-split, allocate_step_cases}

-- The exit of the loop through IOError: the step at hand is already on the list of running steps.
abbrev Failed : Text → DragonBackend → Starting → Type 0
Failed id s (going s' started) = s'.queued_steps ≡ s.queued_steps
Failed id s (io_error s') = (1 ≤ count id s'.running_steps) × (s'.queued_steps ≡ s.queued_steps)

launch_step-Failed :
    (world : World) (id : Text) (request : DragonRunRequest) (first : Text) (rest : List Text)
    (s : DragonBackend) (started : List Text)
    → Failed id s (launch_step world id request first rest s started)
unfolding launch_step count
launch_step-Failed world id request first rest s started =
    ground (arith, count-append id s.running_steps (id ∷ []), text_eq_refl id)

start_step-Failed :
    (world : World) (id : Text) (request : DragonRunRequest) (s : DragonBackend)
    (started : List Text)
    → Failed id s (start_step world id request s started)
unfolding start_step
start_step-Failed world id request s started = elim (allocate_step_cases id request s) [
  | inl (e, _) ↦ rw (e, start_step) refl
  | inr (some_nodes, fits, e) ↦
      let a = take_hosts id request.nodes s.free_hosts s.allocated_hosts in
      elim (List-cases a.to_allocate) [
        | inl nothing ↦ rw (e, nothing, start_step) refl
        | inr (first, others, taken) ↦
            rw (e, taken, start_step)
              (launch_step-Failed world id request first others
                (record s { free_hosts = a.free_hosts; allocated_hosts = a.allocated_hosts })
                started)
      ]
]

start_loop-Failed :
    (world : World) (rest : Dict DragonRunRequest) (s s' : DragonBackend) (started : List Text)
    → start_loop world rest s started ≡ io_error s'
    → (id : Text) × (1 ≤ count id (keys rest))
      × (1 ≤ count id s'.running_steps)
      × (s'.queued_steps ≡ s.queued_steps)
unfolding start_loop keys count
start_loop-Failed world [] s s' started e = absurd (cc)
start_loop-Failed world ((id, request) ∷ rest) s s' started e =
    after_step (start_step world id request s started)
      (start_step-Failed world id request s started) e (start_loop-Failed world rest)
  where
    after_step :
        (r : Starting)
        → Failed id s r
        → (elim r [
          | going s₁ started₁ ↦ start_loop world rest s₁ started₁
          | io_error s₁ ↦ io_error s₁
        ])
          ≡ io_error s'
        → ((s₁ s₂ : DragonBackend) (started₁ : List Text)
            → start_loop world rest s₁ started₁ ≡ io_error s₂
            → (j : Text) × (1 ≤ count j (keys rest))
              × (1 ≤ count j s₂.running_steps)
              × (s₂.queued_steps ≡ s₁.queued_steps))
        → (j : Text) × (1 ≤ count j (keys ((id, request) ∷ rest)))
          × (1 ≤ count j s'.running_steps)
          × (s'.queued_steps ≡ s.queued_steps)
    after_step (going s₁ started₁) f e later =
        let (j, q, r, same) = later s₁ s' started₁ e in (j, omega arith, r, same ∙ f)
    after_step (io_error s₁) f e later =
        let same : s₁ ≡ s' = cc in
        (id, ground (arith, text_eq_refl id), rw (← same) f.0, rw (← same) f.1)

-- When `_start_steps` ends by IOError, some step that is queued is on the list of running steps as
-- well, and no step has left the queue.
pub start_steps_io_error :
    (now : ℕ) (world : World) (s s' : DragonBackend)
    → start_steps now world s ≡ raised s'
    → (id : Text) × (1 ≤ count id (keys s'.queued_steps))
      × (1 ≤ count id s'.running_steps)
      × (s'.queued_steps ≡ s.queued_steps)
unfolding start_steps
start_steps_io_error now world s s' e =
    let (id, q, r, same) =
      start_loop-Failed world s.queued_steps (heartbeat now s) s' []
        (from_raised (start_loop world s.queued_steps (heartbeat now s) []) e) in
    (id, rw same q, r, same)
  where
    from_raised :
        (r : Starting)
        → (elim r [
          | going s₁ started ↦
              returned (record s₁ { queued_steps = dequeue started s₁.queued_steps })
          | io_error s₁ ↦ raised s₁
        ])
          ≡ raised s'
        → r ≡ io_error s'
    from_raised (going s₁ started) e' = absurd (cc)
    from_raised (io_error s₁) e' = cc

launch_step_unread :
    (world : World) (id : Text) (request : DragonRunRequest) (first : Text) (rest : List Text)
    (s : DragonBackend) (started : List Text)
    → (world.launch id (run_group request first rest)).puids ≡ none
    → launch_step world id request first rest s started ≡ going s started
unfolding launch_step launched_puids
launch_step_unread world id request first rest s started e = rw (e, launch_step, launched_puids)

-- When the PUIDs of a launched group cannot be read, and the step asks for some hosts and for no
-- more than are free, as many hosts as it asks for are not free any more, but the lists of running
-- and queued steps and the records are those from before.
pub start_step_leaks :
    (world : World) (id : Text) (request : DragonRunRequest) (s : DragonBackend)
    (started : List Text)
    → ((group : ProcessGroup ProcessTemplate) → (world.launch id group).puids ≡ none)
    → 1 ≤ request.nodes
    → request.nodes ≤ length s.free_hosts
    → (s' : DragonBackend) × (start_step world id request s started ≡ going s' started)
      × (length s'.free_hosts + request.nodes ≡ length s.free_hosts)
      × (s'.running_steps ≡ s.running_steps)
      × (s'.group_infos ≡ s.group_infos)
      × (s'.queued_steps ≡ s.queued_steps)
unfolding start_step
start_step_leaks world id request s started unread some_nodes fits =
    elim (allocate_step_cases id request s) [
      | inl (e, refused) ↦ absurd (omega arith)
      | inr (_, _, e) ↦
          let a = take_hosts id request.nodes s.free_hosts s.allocated_hosts in
          let given = record s { free_hosts = a.free_hosts; allocated_hosts = a.allocated_hosts } in
          let (split, taken) =
            take_hosts-split id request.nodes s.free_hosts s.allocated_hosts fits in
          let total : length a.free_hosts + request.nodes ≡ length s.free_hosts =
            omega (arith, ap length split, length-append a.to_allocate a.free_hosts) in
          elim (List-cases a.to_allocate) [
            | inl nothing ↦ absurd (omega (arith, ap length nothing))
            | inr (first, others, cut) ↦ (
              given,
              rw (e, cut, start_step)
                  (launch_step_unread world id request first others given started
                    (unread (run_group request first others))),
              total,
              refl,
              refl,
              refl,
            )
          ]
    ]
