-- ===== src/Control/Manager/Invariant.antt =====
-- What holds of the manager of control/jobmanager.py between its operations: an entity's name is in
-- one of its dicts at most, under its own name, and the history of each job is complete.
use smart_sim.Common.{
  ℕ, suc, ◌+◌, ◌<◌, ◌≤◌, ◌≡◌, refl, Bool, true, false, ◌⊎◌, inl, inr, Option, some, Text, text_eq,
  text_eq_iff, All, count, Bool-cases, arith,
}
use smart_sim.Common.Dict.{
  Dict, set, del, contains, keys, count-keys-set, count-keys-del, contains-count, count-contains,
}
use smart_sim.Common.Entries.{All-set, All-del}
use smart_sim.Control.Job.{Job, Entity, ename, record_history, reset, new_job}
use smart_sim.Control.Job.Runs.{of_run, of_run-put_self, of_run-put_other}
use smart_sim.Control.Manager.{Manager, move_to_completed, set_status_of}
use smart_sim.Launcher.StepInfo.{StepInfo}
use smart_sim.Status.{SmartSimStatus}

-- Each earlier run of the job has left its status.
unfoldable pub IsKept : Job → Type 0
IsKept job =
    (i : ℕ) → i < job.history.runs → (s : SmartSimStatus) × (of_run i job.history.statuses ≡ some s)

-- The history has the id, the status and the return code of the job's last run.
unfoldable pub IsRecorded : Job → Type 0
IsRecorded job =
    let h = job.history in
    (of_run h.runs h.jids ≡ some job.jid)
    × (of_run h.runs h.statuses ≡ some job.status)
    × (of_run h.runs h.returns ≡ some job.returncode)

unfoldable pub IsActive : Text × Job → Type 0
unfolding IsKept
IsActive (name, job) = (ename job ≡ name) × IsKept job

unfoldable pub IsDone : Text × Job → Type 0
unfolding IsActive IsRecorded
IsDone (name, job) = IsActive (name, job) × IsRecorded job

unfoldable pub Held : Dict Job → Dict Job → Dict Job → Type 0
unfolding IsActive IsDone
Held jobs db_jobs completed =
    ((k : Text) → count k (keys jobs) + count k (keys db_jobs) + count k (keys completed) ≤ 1)
    × All IsActive jobs
    × All IsActive db_jobs
    × All IsDone completed

abbrev pub Inv : Manager → Type 0
Inv m = Held m.jobs m.db_jobs m.completed

Nat-cases : (i n : ℕ) → i < suc n → (i < n) ⊎ (i ≡ n)
Nat-cases i n h = ground arith

-- The record of a run completes the history.
pub record_history-IsDone :
    (now : ℕ) (job : Job) → IsKept job → IsDone (ename job, record_history now job)
unfolding IsDone IsActive IsKept IsRecorded
record_history-IsDone now job kept =
    let h = job.history in
    (
      (refl, λ i small. rw (of_run-put_other i h.runs job.status h.statuses small) (kept i small)),
      (
        of_run-put_self h.runs job.jid h.jids,
        of_run-put_self h.runs job.status h.statuses,
        of_run-put_self h.runs job.returncode h.returns,
      ),
    )

-- A job that starts again keeps the runs that it has recorded.
pub reset-IsActive :
    (name k : Text) (job_id : Option Text) (is_task : Bool) (now : ℕ) (job : Job)
    → IsDone (k, job)
    → IsActive (k, reset name job_id is_task now job)
unfolding IsDone IsActive IsKept IsRecorded
reset-IsActive name k job_id is_task now job ((named, kept), recorded) = (
  named,
  λ i small. elim (Nat-cases i job.history.runs small) [
    | inl less ↦ kept i less
    | inr same ↦ (job.status, rw same recorded.1)
  ],
)

pub set_status-IsActive :
    (k : Text) (info : StepInfo) (job : Job)
    → IsActive (k, job)
    → IsActive (k, set_status_of info job)
unfolding IsActive IsKept
set_status-IsActive k info job h = h

pub new_job-IsActive :
    (name : Text) (job_id : Option Text) (entity : Entity) (launcher : Text) (is_task : Bool)
    (now : ℕ)
    → IsActive (entity.name, new_job name job_id entity launcher is_task now)
unfolding IsActive IsKept new_job
new_job-IsActive name job_id entity launcher is_task now = (refl, λ i small. absurd (omega arith))

module _ {ℓ} {V : Type ℓ} where
  -- A key that is written to one dict and taken from another stays in one at most.
  pub apart-move :
      (k name : Text) (v : V) (from to : Dict V) (n : ℕ)
      → count k (keys from) + n + count k (keys to) ≤ 1
      → count name (keys from) + count name (keys to) ≤ 1
      → contains name from ≡ true
      → (text_eq name k ≡ true → n ≡ 0)
      → count k (keys (del name from)) + n + count k (keys (set name v to)) ≤ 1
  apart-move k name v from to n h g there none_else = ground (
    arith,
    contains-count name from,
    count-contains name to,
    count-keys-del k name from,
    count-keys-set k name v to,
    text_eq_iff name k,
  )

  -- A key that the others lack can be written to a dict.
  pub apart-add :
      (k name : Text) (v : V) (to : Dict V) (n : ℕ)
      → n + count k (keys to) ≤ 1
      → count name (keys to) ≤ 1
      → (text_eq name k ≡ true → n ≡ 0)
      → n + count k (keys (set name v to)) ≤ 1
  apart-add k name v to n h once none_else =
      ground (arith, count-contains name to, count-keys-set k name v to, text_eq_iff name k)

  pub count_zero : (k : Text) (d : Dict V) → contains k d ≡ false → count k (keys d) ≡ 0
  count_zero k d h = ground (arith, count-contains k d)

-- A finished job moves out of the dict that has it.
pub move_to_completed-Inv :
    (now : ℕ) (job : Job) (m : Manager) → Inv m → IsKept job → Inv (move_to_completed now job m)
unfolding Held move_to_completed
move_to_completed-Inv now job m (apart, jobs, db_jobs, completed) kept =
    let name = ename job in
    let over = record_history now job in
    let done =
      All-set IsDone name over m.completed completed (record_history-IsDone now job kept) in
    let once = apart name in
    elim (Bool-cases (contains name m.db_jobs)) [
      | inl in_db ↦ rw in_db (
        λ k. ground (
          arith,
          apart k,
          once,
          contains-count name m.db_jobs,
          text_eq_iff name k,
          apart-move k name over m.db_jobs m.completed (count k (keys m.jobs)),
        ),
        jobs,
        All-del IsActive name m.db_jobs db_jobs,
        done,
      )
      | inr not_db ↦ elim (Bool-cases (contains name m.jobs)) [
        | inl in_jobs ↦
            rw (not_db, in_jobs)
              (
                λ k. ground (
                  arith,
                  apart k,
                  once,
                  contains-count name m.jobs,
                  text_eq_iff name k,
                  apart-move k name over m.jobs m.completed (count k (keys m.db_jobs)),
                ),
                All-del IsActive name m.jobs jobs,
                db_jobs,
                done,
              )
        | inr not_jobs ↦
            rw (not_db, not_jobs)
              (
                λ k. ground (
                  arith,
                  apart k,
                  once,
                  count_zero name m.jobs not_jobs,
                  count_zero name m.db_jobs not_db,
                  text_eq_iff name k,
                  apart-add k name over m.completed
                      (count k (keys m.jobs) + count k (keys m.db_jobs)),
                ),
                jobs,
                db_jobs,
                done,
              )
      ]
    ]
