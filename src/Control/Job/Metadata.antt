-- ===== src/Control/Job/Metadata.antt =====
-- The class JobEntity of control/job.py: an entity that the telemetry monitor reads from a manifest.
use smart_sim.Common.{
  ℕ, Bool, true, false, [], ◌∷◌, none, some, Text, codes, if◌then◌else◌, mem_text, any,
}
use smart_sim.Common.Dict.{Dict, get?, set, values}

pub record JobEntity : Type 0 where
  pub name : Text
  pub path : Text
  pub step_id : Text
  pub task_id : Text
  pub type_name : Text
  pub timestamp : ℕ
  pub status_dir : Text
  pub telemetry_on : Bool
  pub collectors : Dict Text
  pub config : Dict Text
  pub completed : Bool

-- JobEntity()
abbrev pub blank : JobEntity
blank = record {
  name = [];
  path = [];
  step_id = [];
  task_id = [];
  type_name = [];
  timestamp = 0;
  status_dir = [];
  telemetry_on = false;
  collectors = [];
  config = [];
  completed = false;
}

abbrev pub truthy : Text → Bool
truthy [] = false
truthy (c ∷ cs) = true

-- JobEntity.is_db
abbrev pub is_db : JobEntity → Bool
is_db entity = mem_text entity.type_name (codes "orchestrator" ∷ codes "dbnode" ∷ [])

abbrev pub is_managed : JobEntity → Bool
is_managed entity = truthy entity.step_id

pub record JobKey : Type 0 where
  pub step_id : Text
  pub task_id : Text

abbrev pub key : JobEntity → JobKey
key entity = record { step_id = entity.step_id; task_id = entity.task_id }

-- With `stopped`, whether the file stop.json stands in the status directory.
unfoldable pub check_completion_status : (Text → Bool) → JobEntity → JobEntity
check_completion_status stopped entity =
    if entity.completed then entity else record entity { completed = stopped entity.status_dir }

-- d.get(k, "") for a dict of texts.
abbrev get_or_empty : Text → Dict Text → Text
get_or_empty k d = elim (get? k d) [ none ↦ [] | some v ↦ v ]

-- `_map_db_metadata`
unfoldable pub map_db_metadata : Dict Text → JobEntity → JobEntity
map_db_metadata entity_dict entity =
    let collectors =
      (codes "client", get_or_empty (codes "client_file") entity_dict)
      ∷ (codes "client_count", get_or_empty (codes "client_count_file") entity_dict)
      ∷ (codes "memory", get_or_empty (codes "memory_file") entity_dict)
      ∷ [] in
    if is_db entity
    then record entity {
      collectors = collectors;
      telemetry_on = any truthy (values collectors);
      config =
          set (codes "port") (get_or_empty (codes "port") entity_dict)
            (set (codes "host") (get_or_empty (codes "hostname") entity_dict) entity.config);
    }
    else entity
