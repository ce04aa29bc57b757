-- ===== src/Control/Job.antt =====
-- control/job.py: a job, the history of its runs, and the entity that it runs.
pub mod Runs
pub mod Metadata
use smart_sim.Common.{
  ℕ, suc, ◌-◌, Bool, true, false, ◌||◌, List, [], ◌∷◌, ◌++◌, Option, none, some, Text, codes,
  mem_text,
}
use smart_sim.Common.Int.{ℤ}
use smart_sim.Control.Job.Runs.{History, no_runs, record_run, new_run}
use smart_sim.Status.{SmartSimStatus, new}

-- What an entity is: a shard or the whole of a database with its identifier and its ports, an entity
-- of the telemetry monitor, or another entity.
pub data Kind : Type 0 where
  db_node orchestrator : Text → List ℕ → Kind
  job_entity other : Kind

-- An object that a job runs; `ident` stands for its identity, which Python compares by `is`.
pub record Entity : Type 0 where
  pub ident : ℕ
  pub name : Text
  pub type_name : Text
  pub path : Text
  pub kind : Kind

-- `isinstance(entity, (DBNode, Orchestrator))`
abbrev pub is_database : Kind → Bool
is_database (db_node identifier ports) = true
is_database (orchestrator identifier ports) = true
is_database job_entity = false
is_database other = false

abbrev pub is_job_entity : Kind → Bool
is_job_entity job_entity = true
is_job_entity (db_node identifier ports) = false
is_job_entity (orchestrator identifier ports) = false
is_job_entity other = false

-- JobEntity.is_db, by the name of the type.
abbrev pub is_db : Text → Bool
is_db type_name = mem_text type_name (codes "orchestrator" ∷ codes "dbnode" ∷ [])

-- Times are in ticks of the clock.
pub record Job : Type 0 where
  pub name : Text
  pub jid : Option Text
  pub entity : Entity
  pub status : SmartSimStatus
  pub raw_status : Option Text
  pub returncode : Option ℤ
  pub output : Option Text
  pub error : Option Text
  pub hosts : List Text
  pub launched_with : Text
  pub is_task : Bool
  pub start_time : ℕ
  pub history : History

-- Job(job_name, job_id, entity, launcher, is_task) at the time `now`.
unfoldable pub new_job : Text → Option Text → Entity → Text → Bool → ℕ → Job
new_job job_name job_id entity launcher is_task now = record {
  name = job_name;
  jid = job_id;
  entity = entity;
  status = new;
  raw_status = none;
  returncode = none;
  output = none;
  error = none;
  hosts = [];
  launched_with = launcher;
  is_task = is_task;
  start_time = now;
  history = no_runs;
}

abbrev pub ename : Job → Text
ename job = job.entity.name

abbrev pub set_status : SmartSimStatus → Text → Option ℤ → Option Text → Option Text → Job → Job
set_status new_status raw_status returncode error output job = record job {
  status = new_status;
  raw_status = some raw_status;
  returncode = returncode;
  error = error;
  output = output;
}

abbrev pub elapsed : ℕ → Job → ℕ
elapsed now job = now - job.start_time

abbrev pub record_history : ℕ → Job → Job
record_history now job = record job {
  history = record_run job.jid job.status job.returncode (elapsed now job) job.history;
}

abbrev pub reset : Text → Option Text → Bool → ℕ → Job → Job
reset new_job_name new_job_id is_task now job = record job {
  name = new_job_name;
  jid = new_job_id;
  status = new;
  returncode = none;
  output = none;
  error = none;
  hosts = [];
  is_task = is_task;
  start_time = now;
  history = new_run job.history;
}
