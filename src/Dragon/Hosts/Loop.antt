-- ===== src/Dragon/Hosts/Loop.antt =====
-- The loop of `_start_steps` over the queue and the accounts.
use smart_sim.Common.{
  ℕ, ◌≤◌, true, List, [], ◌∷◌, ◌++◌, some, Text, text_eq_iff, text_eq_refl, count, count-append,
  ◌≡◌, refl, ap, ◌∙◌, arith, inl, inr, List-cases, length,
}
use smart_sim.Common.Dict.{Dict, del, get?, contains, keys, count-keys-del}
use smart_sim.Dragon.State.{DragonRunRequest, DragonBackend, World, heartbeat}
use smart_sim.Dragon.Start.{
  take_hosts, allocate_step, start_step, start_loop, start_steps, dequeue, Starting, going,
  returned,
}
use smart_sim.Dragon.Hosts.{Inv, IsHealthy}
use smart_sim.Dragon.Hosts.Allocate.{take_hosts-split, allocate_step_cases}
use smart_sim.Dragon.Hosts.Starts.{
  head-apart, launch_step-Launched, skipped-Inv, launched-Inv, after_launch,
}

-- The loop before the steps `rest` of the queue. The queue itself is left alone until the loop has
-- ended: of the steps in it, those in `started` run.
record Progress (s₀ s : DragonBackend) (rest : Dict DragonRunRequest) (started : List Text)
    : Type 0 where
  inv : Inv (record s { queued_steps = rest })
  waiting :
      (st : Text)
      → 1 ≤ count st (keys s.queued_steps)
      → (count st s.running_steps ≡ count st started) × (contains st s.group_infos ≡ true)
  once : (st : Text) → count st (keys s.queued_steps) ≤ 1
  within : (st : Text) → count st (keys rest) ≤ count st (keys s.queued_steps)
  same_queue : s.queued_steps ≡ s₀.queued_steps
  begun :
      (st : Text)
      → 1 ≤ count st started
      → (count st s.running_steps ≡ 1) × (1 ≤ count st (keys s.queued_steps))
  untouched :
      (st : Text)
      → count st started ≡ 0
      → (get? st s.group_infos ≡ get? st s₀.group_infos)
        × (count st s.running_steps ≡ count st s₀.running_steps)
  records :
      ((st : Text) → count st (keys s₀.group_infos) ≤ 1)
      → (st : Text) → count st (keys s.group_infos) ≤ 1

module _ (world : World) (healthy : IsHealthy world) (id : Text) (request : DragonRunRequest)
    (rest : Dict DragonRunRequest) (s₀ s : DragonBackend) (started : List Text)
    (p : Progress s₀ s ((id, request) ∷ rest) started) where
  skip : Progress s₀ s rest started
  unfolding keys count
  skip = record {
    inv = skipped-Inv id request rest s p.inv;
    waiting = p.waiting;
    once = p.once;
    within = λ st. omega (arith, p.within st);
    same_queue = p.same_queue;
    begun = p.begun;
    untouched = p.untouched;
    records = p.records;
  }

  head-queued : 1 ≤ count id (keys s.queued_steps)
  unfolding keys count
  head-queued = ground (arith, p.within id, text_eq_refl id)

  abbrev Next : Starting → Type 0
  Next r =
      (s' : DragonBackend) × (started' : List Text) × (r ≡ going s' started')
      × Progress s₀ s' rest started'

  start_taken :
      request.nodes ≤ length s.free_hosts
      → 1 ≤ request.nodes
      → (let a = take_hosts id request.nodes s.free_hosts s.allocated_hosts in
          allocate_step id request s
          ≡ some (
            a.to_allocate,
            record s { free_hosts = a.free_hosts; allocated_hosts = a.allocated_hosts },
          ))
      → Next (start_step world id request s started)
  unfolding start_step count
  start_taken fits some_nodes e =
      let a = take_hosts id request.nodes s.free_hosts s.allocated_hosts in
      let given = record s { free_hosts = a.free_hosts; allocated_hosts = a.allocated_hosts } in
      elim (List-cases a.to_allocate) [
        | inl none_taken ↦ absurd (
            omega (
              arith,
              ap length none_taken,
              (take_hosts-split id request.nodes s.free_hosts s.allocated_hosts fits).1,
            ))
        | inr (first, others, taken) ↦
            let (infos, r, l) =
              launch_step-Launched world id request first others given started healthy in
            (
              after_launch id infos given,
              started ++ id ∷ [],
              rw (e, taken, start_step) r,
              record {
                inv = launched-Inv id request rest s p.inv request.nodes fits infos (
                    rw taken (record {
                      recorded = l.recorded;
                      known = l.known;
                      others = l.others;
                      once = l.once;
                    }));
                waiting = λ st q.
                    let (same, on_record) = p.waiting st q in
                    (
                      omega (
                        arith,
                        count-append st s.running_steps (id ∷ []),
                        count-append st started (id ∷ []),
                      ),
                      ground (arith, l.known st),
                    );
                once = p.once;
                within = skip.within;
                same_queue = p.same_queue;
                begun = λ st h. ground (
                  arith,
                  p.begun st,
                  head-queued,
                  text_eq_iff id st,
                  head-apart id request rest s p.inv,
                  count-append st s.running_steps (id ∷ []),
                  count-append st started (id ∷ []),
                  p.inv.apart st,
                  p.inv.runs_once st,
                  p.waiting st,
                );
                untouched = λ st h. ground (
                  arith,
                  p.untouched st,
                  l.others st,
                  count-append st s.running_steps (id ∷ []),
                  count-append st started (id ∷ []),
                );
                records = λ o. l.once (p.records o);
              },
            )
      ]

  start_step-Next : Next (start_step world id request s started)
  unfolding start_step
  start_step-Next = elim (allocate_step_cases id request s) [
    | inl (e, _) ↦ (s, started, rw (e, start_step), skip)
    | inr (some_nodes, fits, e) ↦ start_taken fits some_nodes e
  ]

start_loop-Progress :
    (world : World) (rest : Dict DragonRunRequest) (s₀ s : DragonBackend) (started : List Text)
    → IsHealthy world
    → Progress s₀ s rest started
    → (s' : DragonBackend) × (started' : List Text) × (start_loop world rest s started
        ≡ going s' started')
      × Progress s₀ s' [] started'
unfolding start_loop
start_loop-Progress world [] s₀ s started healthy p = (s, started, refl, p)
start_loop-Progress world ((id, request) ∷ rest) s₀ s started healthy p =
    let (s', started', r, p') = start_step-Next world healthy id request rest s₀ s started p in
    let (s'', started'', r', p'') = start_loop-Progress world rest s₀ s' started' healthy p' in
    (s'', started'', rw (r, start_loop) r', p'')

dequeue-le :
    (st : Text) (started : List Text) (queue : Dict DragonRunRequest)
    → count st (keys (dequeue started queue)) ≤ count st (keys queue)
unfolding dequeue
dequeue-le st [] queue = omega arith
dequeue-le st (id ∷ started) queue =
    ground (arith, dequeue-le st started (del id queue), count-keys-del st id queue)

dequeue_gone :
    (st : Text) (started : List Text) (queue : Dict DragonRunRequest)
    → 1 ≤ count st started
    → count st (keys (dequeue started queue)) ≡ 0
unfolding dequeue count
dequeue_gone st [] queue h = absurd (omega arith)
dequeue_gone st (id ∷ started) queue h = ground (
  arith,
  dequeue-le st started (del id queue),
  count-keys-del st id queue,
  dequeue_gone st started (del id queue),
)

-- What the launches did: the steps in `started` left the queue and run, all others are untouched.
pub record Begun (s s' : DragonBackend) (started : List Text) : Type 0 where
  pub runs :
      (st : Text)
      → 1 ≤ count st started
      → (count st s'.running_steps ≡ 1)
        × (count st (keys s'.queued_steps) ≡ 0)
        × (1 ≤ count st (keys s.queued_steps))
  pub untouched :
      (st : Text)
      → count st started ≡ 0
      → (get? st s'.group_infos ≡ get? st s.group_infos)
        × (count st s'.running_steps ≡ count st s.running_steps)
        × (count st (keys s'.queued_steps) ≡ count st (keys s.queued_steps))
  pub records :
      ((st : Text) → count st (keys s.group_infos) ≤ 1)
      → (st : Text) → count st (keys s'.group_infos) ≤ 1

dequeue_stays :
    (st : Text) (started : List Text) (queue : Dict DragonRunRequest)
    → count st started ≡ 0
    → count st (keys (dequeue started queue)) ≡ count st (keys queue)
unfolding dequeue count
dequeue_stays st [] queue h = refl
dequeue_stays st (id ∷ started) queue h =
    ground (arith, dequeue_stays st started (del id queue), count-keys-del st id queue)

module _ (s₀ s' : DragonBackend) (started : List Text) (p : Progress s₀ s' [] started) where
  abbrev shortened : DragonBackend
  shortened = record s' { queued_steps = dequeue started s'.queued_steps }

  dequeued-Inv : Inv shortened
  dequeued-Inv = record {
    names = p.inv.names;
    conserved = p.inv.conserved;
    on_record = p.inv.on_record;
    owners_run = p.inv.owners_run;
    runs_once = p.inv.runs_once;
    queued_once = λ st. omega (arith, p.once st, dequeue-le st started s'.queued_steps);
    apart = λ st q. ground (
      arith,
      (p.waiting st (omega (arith, dequeue-le st started s'.queued_steps))).0,
      dequeue_gone st started s'.queued_steps,
    );
    running_known = p.inv.running_known;
    queued_known = λ st q. (p.waiting st (omega (arith, dequeue-le st started s'.queued_steps))).1;
    fresh = p.inv.fresh;
  }

  dequeued-Begun : Begun s₀ shortened started
  dequeued-Begun = record {
    runs = λ st h. (
      (p.begun st h).0,
      dequeue_gone st started s'.queued_steps h,
      rw (← p.same_queue) (p.begun st h).1,
    );
    untouched = λ st h. (
      (p.untouched st h).0,
      (p.untouched st h).1,
      dequeue_stays st started s'.queued_steps h ∙ ap (λ q. count st (keys q)) p.same_queue,
    );
    records = p.records;
  }

-- In a healthy runtime the launches end normally, keep the accounts, and start queued steps only.
pub start_steps-Inv :
    (now : ℕ) (world : World) (s : DragonBackend)
    → IsHealthy world
    → Inv s
    → (s' : DragonBackend) × (started : List Text) × (start_steps now world s ≡ returned s')
      × Inv s'
      × Begun s s' started
unfolding start_steps count
start_steps-Inv now world s healthy v =
    let s₀ = heartbeat now s in
    let (s', started, r, p) = start_loop-Progress world s.queued_steps s₀ s₀ [] healthy (record {
      inv = v;
      waiting = λ st q. (v.apart st q, v.queued_known st q);
      once = v.queued_once;
      within = λ st. omega arith;
      same_queue = refl;
      begun = λ st h. absurd (omega arith);
      untouched = λ st h. (refl, refl);
      records = λ o. o;
    }) in
    let b = dequeued-Begun s₀ s' started p in
    (
      record s' { queued_steps = dequeue started s'.queued_steps },
      started,
      rw (r, start_steps),
      dequeued-Inv s₀ s' started p,
      record { runs = b.runs; untouched = b.untouched; records = b.records },
    )
