-- ===== src/Control/Manager/Reported.antt =====
-- What JobManager.get_status reports while jobs move to the completed ones.
use smart_sim.Common.{
  ℕ, ◌≤◌, ◌≡◌, ◌≢◌, refl, sym, subst, ◌∙◌, true, false, inl, inr, List, [], ◌∷◌, none, some, Text,
  text_eq, text_eq_iff, text_eq_refl, All, count, Bool-cases, Option-cases, arith,
}
use smart_sim.Common.Dict.{
  Dict, get?, set, contains, keys, get?-set_self, get?-set_other, get?-del_other, once-set,
  contains-count, get?-contains,
}
use smart_sim.Common.Entries.{All-map, All-zip, All-found, Other, absent-Other}
use smart_sim.Control.Job.{Job, Entity, ename, record_history}
use smart_sim.Control.Manager.{
  Manager, move_to_completed, get_item, get_status, active, merge, move_over, stop_idle, run_round,
  is_over, is_none_active, Updates, check_jobs,
}
use smart_sim.Control.Manager.Invariant.{Inv, Held, IsActive, move_to_completed-Inv}
use smart_sim.Control.Manager.Rounds.{active-is_active, IsLauncher, check_jobs-Inv}
use smart_sim.Control.Manager.Steps.{is_active}
use smart_sim.Control.Manager.Settled.{get?-merge}
use smart_sim.Status.{never_started}

-- A move leaves the lookups of other names alone.
move_other :
    (now : ℕ) (job : Job) (m : Manager) (k : Text)
    → ename job ≢ k
    → (get? k (move_to_completed now job m).db_jobs ≡ get? k m.db_jobs)
      × (get? k (move_to_completed now job m).jobs ≡ get? k m.jobs)
      × (get? k (move_to_completed now job m).completed ≡ get? k m.completed)
unfolding move_to_completed
move_other now job m k other =
    let n = ename job in
    let done = get?-set_other k n (record_history now job) m.completed other in
    elim (Bool-cases (contains n m.db_jobs)) [
      | inl db ↦ rw (move_to_completed, db) (get?-del_other k n m.db_jobs other, refl, done)
      | inr not_db ↦ elim (Bool-cases (contains n m.jobs)) [
        | inl jobs ↦
            rw (move_to_completed, not_db, jobs) (refl, get?-del_other k n m.jobs other, done)
        | inr not_jobs ↦ rw (move_to_completed, not_db, not_jobs) (refl, refl, done)
      ]
    ]

get_item-move_other :
    (now : ℕ) (job : Job) (m : Manager) (k : Text)
    → ename job ≢ k
    → get_item k (move_to_completed now job m) ≡ get_item k m
unfolding get_item
get_item-move_other now job m k other =
    let (db, jobs, done) = move_other now job m k other in ground (arith, db, jobs, done)

get?-move_self :
    (now : ℕ) (job : Job) (m : Manager)
    → get? (ename job) (move_to_completed now job m).completed ≡ some (record_history now job)
unfolding move_to_completed
get?-move_self now job m =
    let n = ename job in
    let done = get?-set_self n (record_history now job) m.completed in
    elim (Bool-cases (contains n m.db_jobs)) [
      | inl db ↦ rw (move_to_completed, db) done
      | inr not_db ↦ elim (Bool-cases (contains n m.jobs)) [
        | inl jobs ↦ rw (move_to_completed, not_db, jobs) done
        | inr not_jobs ↦ rw (move_to_completed, not_db, not_jobs) done
      ]
    ]

-- A completed job is the one that the lookup of its name finds.
completed_found :
    (k : Text) (job : Job) (m : Manager)
    → Inv m
    → get? k m.completed ≡ some job
    → get_item k m ≡ some job
unfolding Held get_item
completed_found k job m (apart, rest_jobs, rest_db, rest_completed) e =
    let one = contains-count k m.completed (get?-contains k m.completed job e) in
    let not_db = absent k m.db_jobs (omega (arith, apart k, one)) in
    let not_jobs = absent k m.jobs (omega (arith, apart k, one)) in
    rw (get_item, not_db, not_jobs, e)
  where
    absent : (k : Text) (d : Dict Job) → count k (keys d) ≡ 0 → get? k d ≡ none
    absent k d h = elim (Option-cases (get? k d)) [
      | inl e ↦ e
      | inr (j, e) ↦ absurd (omega (arith, h, contains-count k d (get?-contains k d j e)))
    ]

-- The reported status is that of the job that the lookup finds.
status-get_item :
    (entity : Entity) (m : Manager)
    → Inv m
    → get_status entity m
      ≡ (elim (get_item entity.name m) [ some job ↦ job.status | none ↦ never_started ])
unfolding get_status
status-get_item entity m inv = elim (Option-cases (get? entity.name m.completed)) [
  | inl e ↦ rw (get_status, e)
  | inr (job, e) ↦ rw (get_status, e, completed_found entity.name job m inv e)
]

-- A move of the job that is found under its name changes no report.
move-get_status :
    (now : ℕ) (job : Job) (m : Manager) (entity : Entity)
    → Inv m
    → get_item (ename job) m ≡ some job
    → get_status entity (move_to_completed now job m) ≡ get_status entity m
unfolding get_status
move-get_status now job m entity inv found = elim (Bool-cases (text_eq (ename job) entity.name)) [
  | inl same ↦
      let k = (text_eq_iff (ename job) entity.name).0 same in
      let self =
        subst (λ i. get? i (move_to_completed now job m).completed ≡ some (record_history now job))
          k (get?-move_self now job m) in
      let here = subst (λ i. get_item i m ≡ some job) k found in
      rw (get_status, self) (sym (status-get_item entity m inv ∙ found_status here))
  | inr other ↦
      let ne : ename job ≢ entity.name =
        λ e. cc ((text_eq_iff (ename job) entity.name).1 e, other) in
      let (db, jobs, done) = move_other now job m entity.name ne in
      ground (arith, done, get_item-move_other now job m entity.name ne)
]
  where
    found_status :
        get_item entity.name m ≡ some job
        → (elim (get_item entity.name m) [ some j ↦ j.status | none ↦ never_started ]) ≡ job.status
    found_status e = rw e

-- Each entry of the snapshot is the job that its key finds, under its entity's name, and stands once.
Present : Manager → Dict Job → Type 0
Present m = All (λ e. IsActive e × (get_item e.0 m ≡ some e.1))

Present-move :
    (now : ℕ) (job : Job) (m : Manager) (items : Dict Job)
    → Present m items
    → All (Other (ename job)) items
    → Present (move_to_completed now job m) items
unfolding Present
Present-move now job m items h other =
    All-map
      (λ e p. (
        p.0.0,
        get_item-move_other now job m e.0
              (λ same. cc ((text_eq_iff e.0 (ename job)).1 (sym same), p.1))
            ∙ p.0.1,
      ))
      items
      (All-zip (λ e. IsActive e × (get_item e.0 m ≡ some e.1)) (Other (ename job)) items h other)

move_over-get_status :
    (now : ℕ) (items : Dict Job) (m : Manager) (entity : Entity)
    → Inv m
    → Present m items
    → ((k : Text) → count k (keys items) ≤ 1)
    → get_status entity (move_over now items m) ≡ get_status entity m
unfolding move_over Present IsActive keys count
move_over-get_status now [] m entity inv h once = refl
move_over-get_status now ((k, job) ∷ items) m entity inv (((named, kept), found), h) once =
    elim (Bool-cases (is_over job)) [
      | inl over ↦
          let here = subst (λ i. get_item i m ≡ some job) (sym named) found in
          let fresh =
            absent-Other k items (not_there k items (ground (arith, once k, text_eq_refl k))) in
          let others = subst (λ i. All (Other i) items) (sym named) fresh in
          rw (move_over, over)
            (move_over-get_status now items (move_to_completed now job m) entity
                (move_to_completed-Inv now job m inv kept) (Present-move now job m items h others)
                (λ i. omega (arith, once i))
              ∙ move-get_status now job m entity inv here)
      | inr still ↦
          rw (move_over, still)
            (move_over-get_status now items m entity inv h (λ i. omega (arith, once i)))
    ]
  where
    not_there : (k : Text) (d : Dict Job) → count k (keys d) ≡ 0 → contains k d ≡ false
    not_there k d e = ground (arith, contains-count k d, e)

once-merge :
    (first second : Dict Job)
    → ((k : Text) → count k (keys first) ≤ 1)
    → (k : Text) → count k (keys (merge first second)) ≤ 1
unfolding merge
once-merge first [] once k = once k
once-merge first ((i, job) ∷ second) once k =
    once-merge (set i job first) second (λ j. once-set j i job first once) k

-- The snapshot of a round.
active-Present :
    (m : Manager) → Inv m → Present m (active m) × ((k : Text) → count k (keys (active m)) ≤ 1)
unfolding Present active Held get_item
active-Present m inv =
    let apart = inv.0 in
    let once_db : (i : Text) → count i (keys m.db_jobs) ≤ 1 = λ i. omega (arith, apart i) in
    let once_jobs : (i : Text) → count i (keys m.jobs) ≤ 1 = λ i. omega (arith, apart i) in
    let once = once-merge m.jobs m.db_jobs once_jobs in
    (
      All-map (λ e p. (p.0.0, ground (arith, p.1, get?-merge e.0 m.jobs m.db_jobs once_db)))
          (active m)
          (All-zip (λ e. IsActive e × (is_active m e.0 ≡ true))
            (λ e. get? e.0 (active m) ≡ some e.1) (active m) (active-is_active m inv)
            (All-found (active m) once)),
      once,
    )

stop_idle-get_status :
    (m : Manager) (entity : Entity) → get_status entity (stop_idle m) ≡ get_status entity m
unfolding stop_idle get_status get_item
stop_idle-get_status m entity = elim (Bool-cases (is_none_active (active m))) [
  | inl idle ↦ rw (stop_idle, idle) refl
  | inr busy ↦ rw (stop_idle, busy) refl
]

-- In a round of the monitoring only the answers of the launcher change what is reported: from a
-- manager that satisfies the invariant and with a launcher that tells of the steps it was asked for
-- only, the check of the jobs and the round both end without an exception, and the report on each
-- entity after the round is the one after the check.
pub run_round-get_status :
    (answer : List Text → Updates) (now : ℕ) (m : Manager) (entity : Entity)
    → IsLauncher answer
    → Inv m
    → (c : Manager) × (n : Manager) × (check_jobs answer m ≡ some c)
      × (run_round answer now m ≡ some n)
      × (get_status entity n ≡ get_status entity c)
unfolding run_round
run_round-get_status answer now m entity sound inv =
    let (c, e, inv_c) = check_jobs-Inv answer m sound inv in
    let (present, once) = active-Present c inv_c in
    let moved = move_over now (active c) c in
    (
      c,
      stop_idle moved,
      e,
      rw (run_round, e),
      stop_idle-get_status moved entity
          ∙ move_over-get_status now (active c) c entity inv_c present once,
    )
