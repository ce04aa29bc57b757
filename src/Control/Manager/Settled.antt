-- ===== src/Control/Manager/Settled.antt =====
-- Which jobs are active after a round of JobManager.run.
use smart_sim.Common.{
  ℕ, ◌+◌, ◌≤◌, ◌≡◌, refl, sym, subst, ◌∙◌, true, false, inl, inr, List, [], ◌∷◌, none, some, Text,
  text_eq, text_eq_iff, text_eq_refl, if◌then◌else◌, length, All, count, Bool-cases, Option-cases,
  arith,
}
use smart_sim.Common.Dict.{
  Dict, get?, set, del, contains, keys, get?-set, contains-count, get?-contains,
}
use smart_sim.Common.Entries.{All-del, All-map, All-zip, All-found, Other, del-Other, absent-Other}
use smart_sim.Control.Job.{Job, ename}
use smart_sim.Control.Manager.{
  Manager, move_to_completed, active, merge, move_over, stop_idle, run_round, is_over,
  is_none_active, number_active, Updates,
}
use smart_sim.Control.Manager.Rounds.{
  IsLauncher, check_jobs-Inv, move_over-Inv, active-is_active, stop_idle-Inv,
}
use mathlib.Core.Option.{some-injective}
use smart_sim.Control.Manager.Invariant.{Inv, Held, IsActive, move_to_completed-Inv}

-- The jobs of a snapshot that are over.
overs : Dict Job → Dict Job
overs [] = []
overs ((k, job) ∷ items) = let rest = overs items in if is_over job then (k, job) ∷ rest else rest

contains-overs :
    (k : Text) (job : Job) (items : Dict Job)
    → get? k items ≡ some job
    → is_over job ≡ true
    → contains k (overs items) ≡ true
unfolding get? contains overs
contains-overs k job [] e over = cc
contains-overs k job ((j, v) ∷ items) e over = elim (Bool-cases (text_eq j k)) [
  | inl same ↦ ground (arith, some-injective v job (rw same at e))
  | inr other ↦ ground (arith, contains-overs k job items)
]

-- The second dict of a merge wins.
pub get?-merge :
    (k : Text) (first second : Dict Job)
    → ((i : Text) → count i (keys second) ≤ 1)
    → get? k (merge first second)
      ≡ (elim (get? k second) [ none ↦ get? k first | some job ↦ some job ])
unfolding merge get? keys count
get?-merge k first [] once = refl
get?-merge k first ((i, job) ∷ second) once =
    get?-merge k (set i job first) second (λ j. ground (arith, once j)) ∙ settle
  where
    settle :
        elim (get? k second) [ none ↦ get? k (set i job first) | some j ↦ some j ]
        ≡ elim (get? k ((i, job) ∷ second)) [ none ↦ get? k first | some j ↦ some j ]
    settle = elim (Option-cases (get? k second)) [
      | inl absent ↦ ground (arith, get?-set k i job first)
      | inr (j, found) ↦
          let there = contains-count k second (get?-contains k second j found) in
          ground (arith, there, once i, text_eq_iff i k, text_eq_refl i)
    ]

-- Each entry that is over is still to be moved.
Pending : Dict Job → Dict Job → Type 0
Pending items = All (λ e. is_over e.1 ≡ true → contains e.0 (overs items) ≡ true)

Pending-del :
    (items : Dict Job) (k : Text) (d : Dict Job) → Pending items d → Pending items (del k d)
unfolding Pending
Pending-del items k d h =
    All-del (λ e. is_over e.1 ≡ true → contains e.0 (overs items) ≡ true) k d h

-- The head of the snapshot is done with.
Pending-tail :
    (k : Text) (job : Job) (items d : Dict Job)
    → Pending ((k, job) ∷ items) d
    → All (Other k) d
    → Pending items d
unfolding Pending overs contains
Pending-tail k job items d h other =
    All-map (λ e p over. ground (arith, p.0 over, p.1, text_eq_iff k e.0, text_eq_iff e.0 k)) d
      (All-zip _ _ d h other)

Moved : Dict Job → Manager → Type 0
Moved items m = Pending items m.jobs × Pending items m.db_jobs

move-Moved :
    (now : ℕ) (job : Job) (items : Dict Job) (m : Manager)
    → Inv m
    → Moved ((ename job, job) ∷ items) m
    → Moved items (move_to_completed now job m)
unfolding Moved move_to_completed Held
move-Moved now job items m (apart, held_jobs, held_db, held_completed) (in_jobs, in_db) =
    let k = ename job in
    let head = (k, job) ∷ items in
    elim (Bool-cases (contains k m.db_jobs)) [
      | inl db ↦
          rw (move_to_completed, db)
            (
              Pending-tail k job items m.jobs in_jobs (
                  absent-Other k m.jobs
                    (ground (arith, apart k, contains-count k m.db_jobs, contains-count k m.jobs))),
              Pending-tail k job items (del k m.db_jobs) (Pending-del head k m.db_jobs in_db)
                  (del-Other k m.db_jobs),
            )
      | inr not_db ↦ elim (Bool-cases (contains k m.jobs)) [
        | inl jobs ↦
            rw (move_to_completed, not_db, jobs)
              (
                Pending-tail k job items (del k m.jobs) (Pending-del head k m.jobs in_jobs)
                    (del-Other k m.jobs),
                Pending-tail k job items m.db_jobs in_db (absent-Other k m.db_jobs not_db),
              )
        | inr not_jobs ↦
            rw (move_to_completed, not_db, not_jobs)
              (
                Pending-tail k job items m.jobs in_jobs (absent-Other k m.jobs not_jobs),
                Pending-tail k job items m.db_jobs in_db (absent-Other k m.db_jobs not_db),
              )
      ]
    ]

Pending-still :
    (k : Text) (job : Job) (items d : Dict Job)
    → is_over job ≡ false
    → Pending ((k, job) ∷ items) d
    → Pending items d
unfolding Pending overs contains
Pending-still k job items d still h = All-map (λ e p over. ground (arith, p over)) d h

move_over-Moved :
    (now : ℕ) (items : Dict Job) (m : Manager)
    → Inv m
    → All IsActive items
    → Moved items m
    → Moved [] (move_over now items m)
unfolding move_over Moved IsActive
move_over-Moved now [] m inv h moved = moved
move_over-Moved now ((k, job) ∷ items) m inv ((named, kept), h) moved =
    elim (Bool-cases (is_over job)) [
      | inl over ↦
          rw (move_over, over)
            (move_over-Moved now items (move_to_completed now job m)
              (move_to_completed-Inv now job m inv kept) h
              (move-Moved now job items m inv
                (subst (λ i. Moved ((i, job) ∷ items) m) (sym named) moved)))
      | inr still ↦
          rw (move_over, still)
            (move_over-Moved now items m inv h (
              Pending-still k job items m.jobs still moved.0,
              Pending-still k job items m.db_jobs still moved.1,
            ))
    ]

-- A name with an active plain job has no database job.
only_job :
    (k : Text) (job : Job) (m : Manager)
    → Inv m
    → get? k m.jobs ≡ some job
    → get? k m.db_jobs ≡ none
unfolding Held
only_job k job m (apart, held_jobs, held_db, held_completed) e =
    elim (Option-cases (get? k m.db_jobs)) [
      | inl absent ↦ absent
      | inr (j, found) ↦
          let one = contains-count k m.db_jobs (get?-contains k m.db_jobs j found) in
          let two = contains-count k m.jobs (get?-contains k m.jobs job e) in
          absurd (omega (arith, apart k, one, two))
    ]

start-Moved : (m : Manager) → Inv m → Moved (active m) m
unfolding Moved Pending active Held
start-Moved m inv =
    let apart = inv.0 in
    let once_db : (i : Text) → count i (keys m.db_jobs) ≤ 1 = λ i. omega (arith, apart i) in
    let once_jobs : (i : Text) → count i (keys m.jobs) ≤ 1 = λ i. omega (arith, apart i) in
    (
      All-map
          (λ e h over.
            contains-overs e.0 e.1 (merge m.jobs m.db_jobs)
              (ground (arith, get?-merge e.0 m.jobs m.db_jobs once_db, h, only_job e.0 e.1 m inv h))
              over)
          m.jobs (All-found m.jobs once_jobs),
      All-map
          (λ e h over.
            contains-overs e.0 e.1 (merge m.jobs m.db_jobs)
              (ground (arith, get?-merge e.0 m.jobs m.db_jobs once_db, h)) over)
          m.db_jobs (All-found m.db_jobs once_db),
    )

-- No job of the dict is over.
unfoldable pub IsSettled : Dict Job → Type 0
IsSettled = All (λ e. is_over e.1 ≡ false)

Pending-IsSettled : (d : Dict Job) → Pending [] d → IsSettled d
unfolding Pending IsSettled overs contains
Pending-IsSettled d h = All-map (λ e p. ground (arith, p)) d h

is_empty-active :
    (m : Manager) → length m.db_jobs + length m.jobs ≡ 0 → is_none_active (active m) ≡ true
unfolding active merge
is_empty-active m e = empty_merge m.jobs m.db_jobs (omega arith) (omega arith)
  where
    empty_merge :
        (first second : Dict Job)
        → length first ≡ 0
        → length second ≡ 0
        → is_none_active (merge first second) ≡ true
    empty_merge [] [] h k = refl
    empty_merge (x ∷ first) second h k = absurd (omega arith)
    empty_merge [] (x ∷ second) h k = absurd (omega arith)

stop_idle-idle :
    (m : Manager)
    → (number_active (stop_idle m) ≡ 0 → (stop_idle m).actively_monitoring ≡ false)
      × ((stop_idle m).jobs ≡ m.jobs)
      × ((stop_idle m).db_jobs ≡ m.db_jobs)
unfolding stop_idle
stop_idle-idle m = elim (Bool-cases (is_none_active (active m))) [
  | inl idle ↦ rw (stop_idle, idle) ((λ e. refl), refl, refl)
  | inr busy ↦ rw (stop_idle, busy) ((λ e. absurd (cc (is_empty-active m e, busy))), refl, refl)
]

-- A round of the monitoring, started where the invariant holds and with a launcher that tells of the
-- steps it was asked for only, ends without an exception. It keeps the invariant, every job that is
-- still active is one that is not over, and the monitoring stops if no job is left.
pub run_round-IsSettled :
    (answer : List Text → Updates) (now : ℕ) (m : Manager)
    → IsLauncher answer
    → Inv m
    → (n : Manager) × (run_round answer now m ≡ some n)
      × Inv n
      × IsSettled n.jobs
      × IsSettled n.db_jobs
      × (number_active n ≡ 0 → n.actively_monitoring ≡ false)
unfolding Moved IsActive run_round stop_idle
run_round-IsSettled answer now m sound inv =
    let (c, e, inv_c) = check_jobs-Inv answer m sound inv in
    let items = active c in
    let entries = All-map (λ i h. h.0) items (active-is_active c inv_c) in
    let moved = move_over now items c in
    let (jobs, db) = move_over-Moved now items c inv_c entries (start-Moved c inv_c) in
    let inv_moved = move_over-Inv now items c inv_c (All-map (λ i h. h.1) items entries) in
    let (idle, same_jobs, same_db) = stop_idle-idle moved in
    (
      stop_idle moved,
      rw (run_round, e),
      stop_idle-Inv moved inv_moved,
      subst IsSettled (sym same_jobs) (Pending-IsSettled moved.jobs jobs),
      subst IsSettled (sym same_db) (Pending-IsSettled moved.db_jobs db),
      idle,
    )
