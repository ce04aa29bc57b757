-- ===== src/Ensembles/Models.antt =====
-- entity/model.py: a model, the command line arguments that its parameters become, and the objects
-- that are loaded into a database for it. Also `cat_arg_and_value` of _core/utils/helpers.py.
use smart_sim.Common.Results.{Outcome, returned, raised, ◌>>=◌}
use smart_sim.Common.{
  Bool, true, false, ◌&&◌, List, [], ◌∷◌, ◌++◌, Option, none, some, Text, codes, mem_text,
  if◌then◌else◌, length, ◌==◌,
}
use smart_sim.Common.Dict.{Dict, get?, set}
use smart_sim.Common.Split.{starts_with, words}

-- DBModel and DBScript: `in_memory` is bool(func) of a model, and of a script a func that is no text.
pub record DbObject : Type 0 where
  pub name : Text
  pub in_memory : Bool

-- The parts of the run settings that are read here are `exe_args` and `colocated`.
pub record Model : Type 0 where
  pub name : Text
  pub path : Text
  pub params : Dict Text
  pub params_as_args : Option (List Text)
  pub has_run_settings : Bool
  pub exe_args : List Text
  pub colocated : Bool
  pub incoming_entities : List Text
  pub key_prefixing_enabled : Bool
  pub db_models : List DbObject
  pub db_scripts : List DbObject

-- The exceptions, by what has gone wrong.
pub data EntityError : Type 0 where
  -- TypeError
  wrong_type : EntityError
  -- ValueError of params_to_args
  unknown_param : Text → EntityError
  no_run_settings : EntityError
  -- EntityExistsError
  entity_exists : Text → EntityError
  -- SSUnsupportedError
  from_memory : Text → EntityError
  duplicate_object : Text → EntityError
  unsupported_strategy : Text → EntityError
  -- UserStrategyError
  user_strategy : EntityError
  -- SmartSimError
  cannot_expand : EntityError
  no_settings : EntityError

abbrev pub Result {ℓ} : Type ℓ → Type ℓ
Result A = Outcome EntityError A

-- A value is `none` unless it is a text or a number; then it is its text, str(val).
unfoldable pub parse_from : Dict Text → Dict (Option Text) → Result (Dict Text)
parse_from done [] = returned done
parse_from done ((name, none) ∷ params) = raised wrong_type
parse_from done ((name, some val) ∷ params) = parse_from (set name val done) params

unfoldable pub parse_model_parameters : Dict (Option Text) → Result (Dict Text)
unfolding parse_from
parse_model_parameters = parse_from []

unfoldable pub new_model :
    Text
    → Dict (Option Text)
    → Text
    → Option (List Text)
    → (has_run_settings : Bool) → (exe_args : List Text) → (colocated : Bool) → Result Model
unfolding parse_model_parameters
new_model name params path params_as_args has_run_settings exe_args colocated = do
  parsed ← parse_model_parameters params
  returned (record {
    name = name;
    path = path;
    params = parsed;
    params_as_args = params_as_args;
    has_run_settings = has_run_settings;
    exe_args = exe_args;
    colocated = colocated;
    incoming_entities = [];
    key_prefixing_enabled = false;
    db_models = [];
    db_scripts = [];
  })

unfoldable pub register_incoming_entity : Text → Model → Result Model
unfolding mem_text
register_incoming_entity incoming m =
    if mem_text incoming m.incoming_entities
    then raised (entity_exists incoming)
    else returned (record m { incoming_entities = m.incoming_entities ++ incoming ∷ [] })

unfoldable pub enable_key_prefixing : Model → Model
enable_key_prefixing m = record m { key_prefixing_enabled = true }

unfoldable pub disable_key_prefixing : Model → Model
disable_key_prefixing m = record m { key_prefixing_enabled = false }

unfoldable pub cat_arg_and_value : Text → Text → Text
unfolding starts_with
cat_arg_and_value arg_name value =
    if starts_with (codes "--") arg_name
    then arg_name ++ b'=' ∷ value
    else if starts_with (codes "-") arg_name
    then arg_name ++ b' ' ∷ value
    else if length arg_name == 1
    then b'-' ∷ arg_name ++ b' ' ∷ value
    else b'-' ∷ b'-' ∷ arg_name ++ b'=' ∷ value

-- run_settings.add_exe_args(text): the words of the text.
unfoldable pub add_exe_args : Text → Model → Model
unfolding words
add_exe_args text m = record m { exe_args = m.exe_args ++ words text }

unfoldable pub params_loop : List Text → Model → Result Model
unfolding add_exe_args cat_arg_and_value
params_loop [] m = returned m
params_loop (param ∷ params) m = elim (get? param m.params) [
  | none ↦ raised (unknown_param param)
  | some value ↦
      let rest = params_loop params (add_exe_args (cat_arg_and_value param value) m) in
      if m.has_run_settings then rest else raised no_run_settings
]

unfoldable pub params_to_args : Model → Result Model
unfolding params_loop
params_to_args m = elim m.params_as_args [ none ↦ returned m | some params ↦ params_loop params m ]

unfoldable pub add_ml_model_object : DbObject → Model → Result Model
add_ml_model_object db_model m =
    if db_model.in_memory && m.colocated
    then raised (from_memory db_model.name)
    else returned (record m { db_models = m.db_models ++ db_model ∷ [] })

unfoldable pub add_script_object : DbObject → Model → Result Model
add_script_object db_script m =
    if db_script.in_memory && m.colocated
    then raised (from_memory db_script.name)
    else returned (record m { db_scripts = m.db_scripts ++ db_script ∷ [] })

-- The first object in memory, the models before the scripts.
unfoldable pub first_in_memory : List DbObject → Option Text
first_in_memory [] = none
first_in_memory (object ∷ objects) =
    if object.in_memory then some object.name else first_in_memory objects

unfoldable pub check_db_objects_colo : Model → Result (Unit {0})
unfolding first_in_memory
check_db_objects_colo m = elim (first_in_memory (m.db_models ++ m.db_scripts)) [
  | none ↦ returned tt
  | some name ↦ raised (from_memory name)
]
