-- ===== src/Control/Manager/Steps.antt =====
-- The operations of control/jobmanager.py and the invariant of the manager.
use smart_sim.Common.{
  ℕ, ◌+◌, ◌≡◌, subst, Bool, true, false, ◌||◌, inl, inr, Option, some, Text, text_eq_iff, count,
  Bool-cases, Option-cases, arith,
}
use smart_sim.Common.Dict.{
  Dict, get?, set, contains, keys, count-keys-set, contains-count, contains-set, get?-contains,
}
use smart_sim.Common.Entries.{All-set, All-del, All-get?}
use smart_sim.Control.Job.{Job, Entity, reset, new_job, is_database}
use smart_sim.Control.Manager.{
  Manager, add_job, restart_job, goes_to_db, write_item, get_item, launcher_text,
}
use smart_sim.Control.Manager.Invariant.{
  Inv, Held, IsActive, IsDone, reset-IsActive, new_job-IsActive, apart-move, apart-add, count_zero,
}
use mathlib.Core.Option.{some-injective}

-- A job that the lookup finds has the name that it was asked for.
pub get_item-IsActive :
    (k : Text) (job : Job) (m : Manager) → Inv m → get_item k m ≡ some job → IsActive (k, job)
unfolding Held get_item IsDone
get_item-IsActive k job m (apart, jobs, db_jobs, completed) e =
    elim (Option-cases (get? k m.db_jobs)) [
      | inr (j, in_db) ↦ All-get? IsActive k m.db_jobs job db_jobs (ground arith)
      | inl not_db ↦ elim (Option-cases (get? k m.jobs)) [
        | inr (j, in_jobs) ↦ All-get? IsActive k m.jobs job jobs (ground arith)
        | inl not_jobs ↦ (All-get? IsDone k m.completed job completed (ground arith)).0
      ]
    ]

-- A key of a dict that is written again changes no count.
rewrite_count :
    {V : Type 0} (k name : Text) (v : V) (d : Dict V)
    → contains name d ≡ true
    → count k (keys (set name v d)) ≡ count k (keys d)
rewrite_count k name v d h = ground (arith, count-keys-set k name v d)

-- Whether an entity's job is active.
unfoldable pub is_active : Manager → Text → Bool
is_active m k = contains k m.jobs || contains k m.db_jobs

pub write_item-Inv :
    (k : Text) (job : Job) (m : Manager)
    → Inv m
    → is_active m k ≡ true
    → IsActive (k, job)
    → Inv (write_item k job m)
unfolding Held write_item is_active
write_item-Inv k job m (apart, jobs, db_jobs, completed) h p =
    elim (Bool-cases (contains k m.db_jobs)) [
      | inl in_db ↦ rw in_db (
        λ i. ground (arith, apart i, rewrite_count i k job m.db_jobs in_db),
        jobs,
        All-set IsActive k job m.db_jobs db_jobs p,
        completed,
      )
      | inr not_db ↦
          let in_jobs : contains k m.jobs ≡ true = ground arith in
          rw (not_db, in_jobs)
            (
              λ i. ground (arith, apart i, rewrite_count i k job m.jobs in_jobs),
              All-set IsActive k job m.jobs jobs p,
              db_jobs,
              completed,
            )
    ]

pub write_item-is_active :
    (i k : Text) (job : Job) (m : Manager)
    → is_active m k ≡ true
    → is_active (write_item k job m) i ≡ is_active m i
unfolding write_item is_active
write_item-is_active i k job m h =
    ground (arith, contains-set i k job m.db_jobs, contains-set i k job m.jobs, text_eq_iff k i)

-- A name that is new to the manager can be added.
pub add_job-Inv :
    (name : Text) (job_id : Option Text) (entity : Entity) (is_task : Bool) (now : ℕ) (m : Manager)
    → Inv m
    → is_active m entity.name ≡ false
    → contains entity.name m.completed ≡ false
    → Inv (add_job name job_id entity is_task now m)
unfolding Held add_job is_active
add_job-Inv name job_id entity is_task now m (apart, jobs, db_jobs, completed) free fresh =
    let key = entity.name in
    let launcher = launcher_text m.launcher in
    let job = new_job name job_id entity launcher is_task now in
    let p = new_job-IsActive name job_id entity launcher is_task now in
    let not_db : contains key m.db_jobs ≡ false = ground arith in
    let not_jobs : contains key m.jobs ≡ false = ground arith in
    let none_else : (i : Text)
        → count key (keys m.jobs) + count key (keys m.db_jobs) + count key (keys m.completed) ≡ 0 =
      λ i. omega (
        arith,
        count_zero key m.jobs not_jobs,
        count_zero key m.db_jobs not_db,
        count_zero key m.completed fresh,
      ) in
    elim (Bool-cases (goes_to_db entity)) [
      | inl db ↦ rw db (
        λ i. ground (
          arith,
          apart i,
          apart key,
          none_else key,
          text_eq_iff key i,
          apart-add i key job m.db_jobs (count i (keys m.jobs) + count i (keys m.completed)),
        ),
        jobs,
        All-set IsActive key job m.db_jobs db_jobs p,
        completed,
      )
      | inr plain ↦ rw plain (
        λ i. ground (
          arith,
          apart i,
          apart key,
          none_else key,
          text_eq_iff key i,
          apart-add i key job m.jobs (count i (keys m.db_jobs) + count i (keys m.completed)),
        ),
        All-set IsActive key job m.jobs jobs p,
        db_jobs,
        completed,
      )
    ]

-- A completed job can start again.
pub restart_job-Inv :
    (name : Text) (job_id : Option Text) (key : Text) (is_task : Bool) (now : ℕ) (m n : Manager)
    → Inv m
    → restart_job name job_id key is_task now m ≡ some n
    → Inv n
unfolding Held restart_job
restart_job-Inv name job_id key is_task now m n (apart, jobs, db_jobs, completed) e =
    elim (Option-cases (get? key m.completed)) [
      | inl absent ↦ absurd (ground arith)
      | inr (job, found) ↦
          let again = reset name job_id is_task now job in
          let p =
            reset-IsActive name key job_id is_task now job
              (All-get? IsDone key m.completed job completed found) in
          let there = get?-contains key m.completed job found in
          let left = All-del IsDone key m.completed completed in
          elim (Bool-cases (is_database job.entity.kind)) [
            | inl db ↦ subst Inv (some-injective _ _ (rw (restart_job, found, db) at e)) (
              λ i. ground (
                arith,
                apart i,
                apart key,
                text_eq_iff key i,
                contains-count key m.completed,
                apart-move i key again m.completed m.db_jobs (count i (keys m.jobs)),
              ),
              jobs,
              All-set IsActive key again m.db_jobs db_jobs p,
              left,
            )
            | inr plain ↦ subst Inv (some-injective _ _ (rw (restart_job, found, plain) at e)) (
              λ i. ground (
                arith,
                apart i,
                apart key,
                text_eq_iff key i,
                contains-count key m.completed,
                apart-move i key again m.completed m.jobs (count i (keys m.db_jobs)),
              ),
              All-set IsActive key again m.jobs jobs p,
              db_jobs,
              left,
            )
          ]
    ]
