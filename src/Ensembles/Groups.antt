-- ===== src/Ensembles/Groups.antt =====
-- entity/ensemble.py: how an ensemble makes its models and what it adds to them. A strategy of the
-- user and random.sample are parameters.
use smart_sim.Common.Results.{returned, raised, ◌>>=◌}
use smart_sim.Common.{
  ℕ, zero, suc, Bool, true, false, ◌&&◌, ◌||◌, not, List, [], ◌∷◌, ◌++◌, Option, none, some, Text,
  codes, text_eq, if◌then◌else◌, length, map, ◌==◌, any,
}
use smart_sim.Common.Dict.{Dict}
use smart_sim.Common.Split.{starts_with}
use smart_sim.Common.Decimal.{show}
use smart_sim.Ensembles.Strategies.{create_all_permutations, step_values, random_permutations}
use smart_sim.Ensembles.Models.{
  DbObject, Model, Result, wrong_type, entity_exists, duplicate_object, unsupported_strategy,
  user_strategy, cannot_expand, no_settings, new_model, enable_key_prefixing, params_to_args,
  add_ml_model_object, add_script_object,
}

-- The run settings are copied to each model; their parts that models read are kept here.
pub record Ensemble : Type 0 where
  pub name : Text
  pub path : Text
  pub params_as_args : List Text
  pub has_run_settings : Bool
  pub exe_args : List Text
  pub colocated : Bool
  pub has_batch_settings : Bool
  pub entities : List Model
  pub db_models : List DbObject
  pub db_scripts : List DbObject

-- The value of a parameter: a list, whose values are str(v), or a text or number, or something else.
pub data ParamValue : Type 0 where
  many : List Text → ParamValue
  one : Text → ParamValue
  other : ParamValue

-- What a strategy returns. A member is `none` if it is no dict; the values of a dict are as in Models.
pub data Generated : Type 0 where
  not_a_list : Generated
  generated : List (Option (Dict (Option Text))) → Generated

abbrev pub Strategy : Type 0
Strategy = List Text → List (List Text) → ℕ → Generated

-- The argument perm_strat: a text or a function.
pub data StrategyName : Type 0 where
  named : Text → StrategyName
  callable : Strategy → StrategyName

abbrev pub with_values : Dict Text → Option (Dict (Option Text))
with_values d = some (map (λ (name, value). (name, some value)) d)

abbrev pub built_in : (List Text → List (List Text) → ℕ → List (Dict Text)) → Strategy
built_in f names values n_models = generated (map with_values (f names values n_models))

unfoldable pub set_strategy :
    (List (Dict Text) → ℕ → List (Dict Text)) → StrategyName → Result Strategy
unfolding create_all_permutations step_values random_permutations
set_strategy sample (callable f) = returned f
set_strategy sample (named name) =
    if text_eq name (codes "all_perm")
    then returned (built_in create_all_permutations)
    else if text_eq name (codes "step")
    then returned (built_in step_values)
    else if text_eq name (codes "random")
    then returned (built_in (random_permutations sample))
    else raised (unsupported_strategy name)

abbrev values_of : ParamValue → Result (List Text)
values_of (many values) = returned values
values_of (one value) = returned (value ∷ [])
values_of other = raised wrong_type

unfoldable pub read_model_parameters : Dict ParamValue → Result (List Text × List (List Text))
read_model_parameters [] = returned ([], [])
read_model_parameters ((name, value) ∷ params) = do
  values ← values_of value
  rest ← read_model_parameters params
  returned (name ∷ rest.0, values ∷ rest.1)

-- "_".join((self.name, str(i)))
abbrev pub member_name : Text → ℕ → Text
member_name name i = name ++ b'_' ∷ show i

ends_with_slash : Text → Bool
ends_with_slash [] = false
ends_with_slash (c ∷ []) = c == b'/'
ends_with_slash (c ∷ (d ∷ path)) = ends_with_slash (d ∷ path)

-- osp.join(path, name)
unfoldable pub osp_join : Text → Text → Text
unfolding starts_with ends_with_slash
osp_join path name =
    if starts_with (codes "/") name
    then name
    else if (length path == 0) || ends_with_slash path
    then path ++ name
    else path ++ b'/' ∷ name

abbrev pub has_name : Text → Model → Bool
has_name name m = text_eq m.name name

-- _extend_entity_db_models: an empty name passes for none, so that it is never a duplicate.
unfoldable pub is_duplicate : Text → List DbObject → Bool
is_duplicate name objects = not (length name == 0) && any (λ o. text_eq o.name name) objects

unfoldable pub extend_entity_db_models : List DbObject → Model → Result Model
unfolding is_duplicate add_ml_model_object
extend_entity_db_models [] m = returned m
extend_entity_db_models (object ∷ objects) m =
    let added = (do n ← add_ml_model_object object m; extend_entity_db_models objects n) in
    if is_duplicate object.name m.db_models then raised (duplicate_object object.name) else added

unfoldable pub extend_entity_db_scripts : List DbObject → Model → Result Model
unfolding is_duplicate add_script_object
extend_entity_db_scripts [] m = returned m
extend_entity_db_scripts (object ∷ objects) m =
    let added = (do n ← add_script_object object m; extend_entity_db_scripts objects n) in
    if is_duplicate object.name m.db_scripts then raised (duplicate_object object.name) else added

-- A model is in the ensemble if one of its name is, since __eq__ compares names.
unfoldable pub add_model : Model → Ensemble → Result Ensemble
unfolding extend_entity_db_models extend_entity_db_scripts
add_model m e =
    let added = (do
      with_models ← extend_entity_db_models e.db_models m
      with_scripts ← extend_entity_db_scripts e.db_scripts with_models
      returned (record e { entities = e.entities ++ with_scripts ∷ [] })) in
    if any (has_name m.name) e.entities then raised (entity_exists m.name) else added

unfoldable pub make_member : ℕ → Dict (Option Text) → Option (List Text) → Ensemble → Result Model
unfolding new_model osp_join
make_member i params params_as_args e =
    let name = member_name e.name i in
    new_model name params (osp_join e.path name) params_as_args true e.exe_args e.colocated

-- for i, param_set in enumerate(all_model_params), from the number `i` on
unfoldable pub add_members : ℕ → List (Option (Dict (Option Text))) → Ensemble → Result Ensemble
unfolding make_member enable_key_prefixing params_to_args add_model
add_members i [] e = returned e
add_members i (none ∷ param_sets) e = raised user_strategy
add_members i (some param_set ∷ param_sets) e = do
  m ← make_member i param_set (some e.params_as_args) e
  n ← params_to_args (enable_key_prefixing m)
  added ← add_model n e
  add_members (suc i) param_sets added

-- for i in range(replicas), for the replicas that are left
unfoldable pub add_replicas : ℕ → ℕ → Ensemble → Result Ensemble
unfolding make_member enable_key_prefixing add_model
add_replicas i zero e = returned e
add_replicas i (suc left) e = do
  m ← make_member i [] none e
  added ← add_model (enable_key_prefixing m) e
  add_replicas (suc i) left added

abbrev pub expand : Generated → Ensemble → Result Ensemble
expand not_a_list e = raised user_strategy
expand (generated param_sets) e = add_members 0 param_sets e

unfoldable pub without_params : ℕ → Ensemble → Result Ensemble
unfolding add_replicas
without_params replicas e =
    if e.has_run_settings
    then if replicas == 0 then raised cannot_expand else add_replicas 0 replicas e
    else if not e.has_batch_settings
    then raised no_settings
    else returned e

unfoldable pub with_params : Strategy → Dict ParamValue → ℕ → Ensemble → Result Ensemble
unfolding read_model_parameters add_members
with_params strategy params n_models e =
    let made = (do
      read ← read_model_parameters params
      expand (strategy read.0 read.1 n_models) e) in
    if e.has_run_settings then made else raised cannot_expand

-- `replicas` is 0 where it is not given.
unfoldable pub initialize_entities :
    (List (Dict Text) → ℕ → List (Dict Text))
    → (params : Dict ParamValue) → StrategyName
    → (replicas n_models : ℕ) → Ensemble
    → Result Ensemble
unfolding set_strategy without_params with_params
initialize_entities sample [] perm_strat replicas n_models e = do
  strategy ← set_strategy sample perm_strat
  without_params replicas e
initialize_entities sample (param ∷ params) perm_strat replicas n_models e = do
  strategy ← set_strategy sample perm_strat
  with_params strategy (param ∷ params) n_models e
