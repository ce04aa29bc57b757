-- ===== src/Ensembles/Attachments.antt =====
-- entity/ensemble.py: what is added to all models of an ensemble.
use smart_sim.Common.Results.{returned, raised}
use smart_sim.Common.{Bool, List, [], ◌∷◌, ◌++◌, Option, none, some, Text, if◌then◌else◌, map, all}
use smart_sim.Ensembles.Models.{
  DbObject, Model, EntityError, Result, duplicate_object, enable_key_prefixing,
  register_incoming_entity,
}
use smart_sim.Ensembles.Groups.{
  Ensemble, is_duplicate, extend_entity_db_models, extend_entity_db_scripts,
}

-- The models up to the first one that an operation refuses are changed, the others are left alone.
unfoldable pub for_models : (Model → Result Model) → List Model → List Model × Option EntityError
for_models f [] = ([], none)
for_models f (m ∷ ms) =
    let rest = for_models f ms in
    elim (f m) [ raised e ↦ (m ∷ ms, some e) | returned n ↦ (n ∷ rest.0, rest.1) ]

abbrev with_entities : Ensemble → List Model × Option EntityError → Ensemble × Option EntityError
with_entities e (ms, error) = (record e { entities = ms }, error)

-- add_ml_model, for the object that is built of its arguments.
unfoldable pub add_ml_model : DbObject → Ensemble → Ensemble × Option EntityError
unfolding for_models extend_entity_db_models
add_ml_model object e =
    if is_duplicate object.name e.db_models
    then (e, some (duplicate_object object.name))
    else with_entities (record e { db_models = e.db_models ++ object ∷ [] })
        (for_models (extend_entity_db_models (object ∷ [])) e.entities)

-- add_script and add_function
unfoldable pub add_script : DbObject → Ensemble → Ensemble × Option EntityError
unfolding for_models extend_entity_db_scripts
add_script object e =
    if is_duplicate object.name e.db_scripts
    then (e, some (duplicate_object object.name))
    else with_entities (record e { db_scripts = e.db_scripts ++ object ∷ [] })
        (for_models (extend_entity_db_scripts (object ∷ [])) e.entities)

unfoldable pub register_incoming : Text → Ensemble → Ensemble × Option EntityError
unfolding for_models register_incoming_entity
register_incoming incoming e =
    with_entities e (for_models (register_incoming_entity incoming) e.entities)

unfoldable pub enable_all_prefixing : Ensemble → Ensemble
unfolding enable_key_prefixing
enable_all_prefixing e = record e { entities = map enable_key_prefixing e.entities }

unfoldable pub query_key_prefixing : Ensemble → Bool
query_key_prefixing e = all (λ m. m.key_prefixing_enabled) e.entities
