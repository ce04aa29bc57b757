-- ===== src/Control/Controller/Histories.antt =====
-- What holds after any sequence of launches, stops and monitoring rounds of control/controller.py.
use smart_sim.Common.{
  ℕ, ◌≡◌, sym, ap, subst, ◌∙◌, Bool, true, false, not, inl, inr, List, [], ◌∷◌, Option, none, some,
  Text, count, Bool-cases, Option-cases, arith,
}
use smart_sim.Common.Dict.{Dict, get?, set, set-set, contains, keys, get?-contains}
use smart_sim.Control.Job.{Job, Entity, ename, record_history}
use smart_sim.Control.Manager.{
  Manager, init, move_to_completed, get_item, write_item, set_status_of, run_round, Updates,
}
use smart_sim.Control.Manager.Invariant.{Inv, Held, IsActive, move_to_completed-Inv}
use smart_sim.Control.Manager.Steps.{
  get_item-IsActive, is_active, write_item-Inv, add_job-Inv, restart_job-Inv,
}
use smart_sim.Control.Manager.Settled.{run_round-IsSettled}
use smart_sim.Control.Manager.Rounds.{IsLauncher}
use smart_sim.Control.Controller.{
  Launched, running_on, refused, may_launch, start_job, launch_step, stop_entity,
}
use smart_sim.Launcher.StepInfo.{StepInfo}
use smart_sim.Status.{is_terminal}
use mathlib.Core.Option.{some-injective}

-- A launch that is allowed under a name without a completed job meets no active one either.
may_launch-free :
    (entity : Entity) (m : Manager)
    → may_launch entity m ≡ true
    → contains entity.name m.completed ≡ false
    → is_active m entity.name ≡ false
unfolding may_launch is_active
may_launch-free entity m h fresh = elim (Option-cases (get? entity.name m.completed)) [
  | inl absent ↦ ground (arith, absent)
  | inr (job, found) ↦ absurd (cc (get?-contains entity.name m.completed job found, fresh))
]

start_job-Inv :
    (step_name : Text) (job_id : Option Text) (entity : Entity) (is_task : Bool) (now : ℕ)
    (m n : Manager)
    → Inv m
    → may_launch entity m ≡ true
    → start_job step_name job_id entity is_task now m ≡ some n
    → Inv n
unfolding start_job
start_job-Inv step_name job_id entity is_task now m n inv allowed e =
    elim (Bool-cases (contains entity.name m.completed)) [
      | inl known ↦
          restart_job-Inv step_name job_id entity.name is_task now m n inv
            (rw (start_job, known) at e)
      | inr fresh ↦ subst Inv (some-injective _ _ (rw (start_job, fresh) at e)) (
          add_job-Inv step_name job_id entity is_task now m inv
            (may_launch-free entity m allowed fresh) fresh)
    ]

-- A name without an active job is written, and moved, among the completed ones.
write_idle :
    (k : Text) (job : Job) (m : Manager)
    → is_active m k ≡ false
    → write_item k job m ≡ record m { completed = set k job m.completed }
unfolding write_item is_active
write_idle k job m idle =
    let not_db : contains k m.db_jobs ≡ false = ground arith in
    let not_jobs : contains k m.jobs ≡ false = ground arith in rw (write_item, not_db, not_jobs)

move_idle :
    (now : ℕ) (job : Job) (m : Manager)
    → is_active m (ename job) ≡ false
    → move_to_completed now job m
      ≡ record m { completed = set (ename job) (record_history now job) m.completed }
unfolding move_to_completed is_active
move_idle now job m idle =
    let not_db : contains (ename job) m.db_jobs ≡ false = ground arith in
    let not_jobs : contains (ename job) m.jobs ≡ false = ground arith in
    rw (move_to_completed, not_db, not_jobs)

-- A job whose fields are written and that is then moved leaves as if it had been moved at once.
move-write :
    (now : ℕ) (job : Job) (m : Manager)
    → is_active m (ename job) ≡ false
    → move_to_completed now job (write_item (ename job) job m) ≡ move_to_completed now job m
unfolding is_active
move-write now job m idle =
    let k = ename job in
    let over = record_history now job in
    ap (move_to_completed now job) (write_idle k job m idle)
    ∙ move_idle now job (record m { completed = set k job m.completed }) idle
    ∙ ap {A = Dict Job} {B = Manager} (λ d. record m { completed = d })
        (set-set k over job m.completed)
    ∙ sym (move_idle now job m idle)

stop_entity-Inv :
    (stop : Text → StepInfo) (entity : Entity) (now : ℕ) (m n : Manager)
    → Inv m
    → stop_entity stop entity now m ≡ some n
    → Inv n
unfolding stop_entity IsActive
stop_entity-Inv stop entity now m n inv e = elim (Option-cases (get_item entity.name m)) [
  | inl absent ↦ absurd (ground (arith, absent))
  | inr (job, found) ↦
      let (named, kept) = get_item-IsActive entity.name job m inv found in
      let stopped = set_status_of (stop job.name) job in
      elim (Bool-cases (is_terminal job.status)) [
        | inl over ↦ subst Inv (some-injective _ _ (rw (stop_entity, found, over) at e)) inv
        | inr live ↦
            subst Inv (some-injective _ _ (rw (stop_entity, found, live) at e))
              (elim (Bool-cases (is_active m entity.name)) [
                | inl active ↦
                    move_to_completed-Inv now stopped (write_item entity.name stopped m)
                      (write_item-Inv entity.name stopped m inv active (named, kept)) kept
                | inr idle ↦
                    subst (λ k. Inv (move_to_completed now stopped (write_item k stopped m))) named
                      (subst Inv
                        (sym (
                          move-write now stopped m
                            (subst (λ k. is_active m k ≡ false) (sym named) idle)))
                        (move_to_completed-Inv now stopped m inv kept))
              ])
      ]
]

-- One operation: a launch with the answer of launcher.run, a stop with that of launcher.stop, or a
-- round of the monitoring with those of get_step_update.
pub data Event : Type 0 where
  launch : Option (Option Text) → Text → Bool → Entity → ℕ → Event
  halt : (Text → StepInfo) → Entity → ℕ → Event
  round : (List Text → Updates) → ℕ → Event

-- The manager after an answer of `launch_step`.
after_launch : Manager → Launched → Manager
after_launch m (running_on n) = n
after_launch m (refused error) = m

-- `none` where the operation raises KeyError.
unfoldable pub perform : Event → Manager → Option Manager
unfolding after_launch
perform (launch answer step_name managed entity now) m =
    elim (launch_step answer step_name managed entity now m) [
      | none ↦ none
      | some launched ↦ some (after_launch m launched)
    ]
perform (halt stop entity now) m = stop_entity stop entity now m
perform (round answer now) m = run_round answer now m

unfoldable pub performs : List Event → Manager → Option Manager
unfolding perform
performs [] m = some m
performs (event ∷ events) m = elim (perform event m) [ none ↦ none | some n ↦ performs events n ]

unfoldable pub AreLaunchers : List Event → Type 0
AreLaunchers [] = Unit
AreLaunchers (launch answer step_name managed entity now ∷ events) = AreLaunchers events
AreLaunchers (halt stop entity now ∷ events) = AreLaunchers events
AreLaunchers (round answer now ∷ events) = IsLauncher answer × AreLaunchers events

launch_step-Inv :
    (answer : Option (Option Text)) (step_name : Text) (managed : Bool) (entity : Entity) (now : ℕ)
    (m : Manager) (launched : Launched)
    → Inv m
    → launch_step answer step_name managed entity now m ≡ some launched
    → Inv (after_launch m launched)
unfolding launch_step after_launch
launch_step-Inv answer step_name managed entity now m launched inv e =
    elim (Bool-cases (may_launch entity m)) [
      | inr forbidden ↦
          subst (λ r. Inv (after_launch m r))
            (some-injective _ _ (rw (launch_step, forbidden) at e)) inv
      | inl allowed ↦ elim (Option-cases answer) [
        | inl failed ↦
            subst (λ r. Inv (after_launch m r))
              (some-injective _ _ (rw (launch_step, allowed, failed) at e)) inv
        | inr (job_id, started) ↦
            elim (Option-cases (start_job step_name job_id entity (not managed) now m)) [
              | inl missing ↦ absurd (cc (rw (launch_step, allowed, started, missing) at e))
              | inr (n, done) ↦
                  subst (λ r. Inv (after_launch m r))
                    (some-injective _ _ (rw (launch_step, allowed, started, done) at e))
                    (start_job-Inv step_name job_id entity (not managed) now m n inv allowed done)
            ]
      ]
    ]

perform-Inv :
    (event : Event) (m n : Manager)
    → AreLaunchers (event ∷ [])
    → Inv m
    → perform event m ≡ some n
    → Inv n
unfolding perform AreLaunchers
perform-Inv (launch answer step_name managed entity now) m n sound inv e =
    elim (Option-cases (launch_step answer step_name managed entity now m)) [
      | inl failed ↦ absurd (cc (rw (perform, failed) at e))
      | inr (launched, f) ↦
          subst Inv (some-injective _ _ (rw (perform, f) at e))
            (launch_step-Inv answer step_name managed entity now m launched inv f)
    ]
perform-Inv (halt stop entity now) m n sound inv e = stop_entity-Inv stop entity now m n inv e
perform-Inv (round answer now) m n sound inv e =
    let (r, f, inv_r, jobs, db, idle) = run_round-IsSettled answer now m sound.0 inv in
    subst Inv (some-injective r n (sym f ∙ e)) inv_r

pub init-Inv : (launcher : Option Text) → Inv (init launcher)
unfolding Held keys count
init-Inv launcher = ((λ k. omega arith), tt, tt, tt)

first_launcher :
    (event : Event) (events : List Event)
    → AreLaunchers (event ∷ events)
    → AreLaunchers (event ∷ [])
unfolding AreLaunchers
first_launcher (launch answer step_name managed entity now) events h = tt
first_launcher (halt stop entity now) events h = tt
first_launcher (round answer now) events h = (h.0, tt)

rest_launchers :
    (event : Event) (events : List Event) → AreLaunchers (event ∷ events) → AreLaunchers events
unfolding AreLaunchers
rest_launchers (launch answer step_name managed entity now) events h = h
rest_launchers (halt stop entity now) events h = h
rest_launchers (round answer now) events h = h.1

performs-Inv :
    (events : List Event) (m n : Manager)
    → AreLaunchers events
    → Inv m
    → performs events m ≡ some n
    → Inv n
unfolding performs AreLaunchers
performs-Inv [] m n sound inv e = subst Inv (some-injective m n e) inv
performs-Inv (event ∷ events) m n sound inv e = elim (Option-cases (perform event m)) [
  | inl failed ↦ absurd (cc (rw (performs, failed) at e))
  | inr (r, f) ↦
      performs-Inv events r n (rest_launchers event events sound)
        (perform-Inv event m r (first_launcher event events sound) inv f) (rw (performs, f) at e)
]

-- After any sequence of launches, stops and monitoring rounds from a new manager in which no
-- operation raises KeyError, with a launcher that tells of the steps it was asked for only: an
-- entity's name is in at most one of the dicts of plain jobs, database jobs and completed jobs,
-- each job is found under its entity's name, each earlier run of a job has left its status in the
-- history, and the history of a completed job has the id, the status and the return code of its
-- last run.
pub controller_history :
    (launcher : Option Text) (events : List Event) (n : Manager)
    → AreLaunchers events
    → performs events (init launcher) ≡ some n
    → Inv n
controller_history launcher events n sound e =
    performs-Inv events (init launcher) n sound (init-Inv launcher) e
