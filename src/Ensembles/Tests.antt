-- ===== src/Ensembles/Tests.antt =====
-- The theorems about ensembles at concrete inputs.
use Prim.Native.Nat.{◌-◌}
use smart_sim.Common.{
  ◌≡◌, refl, true, false, [], ◌∷◌, List, Text, codes, text_eq, some, ℕ, mem_text, if◌then◌else◌,
  arith, length, get_elem?, ◌==◌, ltb, count, ◌≤◌,
}
use smart_sim.Common.Dict.{Dict, get?, set, contains}
use smart_sim.Common.Decimal.{show}
use smart_sim.Common.Split.{words, starts_with}
use smart_sim.Ensembles.Strategies.{
  cons_all, product, zip_cons, zip_all, dict_from, dict_zip, create_all_permutations, step_values,
  random_permutations,
}
use smart_sim.Ensembles.Models.{
  parse_from, parse_model_parameters, new_model, enable_key_prefixing, cat_arg_and_value,
  add_exe_args, params_loop, params_to_args, add_ml_model_object, from_memory,
}
use smart_sim.Ensembles.Groups.{
  Ensemble, ParamValue, many, one, named, set_strategy, read_model_parameters, osp_join,
  is_duplicate, extend_entity_db_models, extend_entity_db_scripts, add_model, make_member,
  add_members, add_replicas, without_params, with_params, initialize_entities, built_in,
}
use smart_sim.Ensembles.Attachments.{for_models, add_ml_model}
use smart_sim.Ensembles.Choices.{count_if, choices, reads, create_all_permutations-choices}
use smart_sim.Ensembles.Sizes.{product_of, shortest, strategies-length}
use smart_sim.Ensembles.Steps.{column, step_values-column}
use smart_sim.Ensembles.Members.{members, member, args_of}
use smart_sim.Ensembles.Replicas.{outcome, replicas_of, replica, initialize_entities-outcome}

unfoldable program : Unit {0}
unfolding cons_all product zip_cons zip_all dict_from dict_zip create_all_permutations step_values
    random_permutations parse_from parse_model_parameters new_model enable_key_prefixing
    cat_arg_and_value add_exe_args params_loop params_to_args add_ml_model_object set_strategy
    read_model_parameters osp_join is_duplicate extend_entity_db_models extend_entity_db_scripts
    add_model make_member add_members add_replicas without_params with_params initialize_entities
    for_models add_ml_model count_if choices reads product_of shortest column members member args_of
    outcome replicas_of replica show words starts_with mem_text count get? set contains text_eq
program = tt

-- random.sample that takes the first ones
abbrev first : List (Dict Text) → ℕ → List (Dict Text)
first [] n = []
first (d ∷ ds) n = if n == 0 then [] else d ∷ first ds (n - 1)

abbrev e : Ensemble
e = record {
  name = codes "e";
  path = codes "/tmp";
  params_as_args = codes "n" ∷ [];
  has_run_settings = true;
  exe_args = codes "run" ∷ [];
  colocated = false;
  has_batch_settings = false;
  entities = [];
  db_models = [];
  db_scripts = [];
}

abbrev names : List Text
names = codes "n" ∷ codes "size" ∷ []

abbrev lists : List (List Text)
lists = (codes "1" ∷ codes "2" ∷ []) ∷ (codes "8" ∷ []) ∷ []

abbrev params : Dict ParamValue
params = (codes "n", many (codes "1" ∷ codes "2" ∷ [])) ∷ (codes "size", one (codes "8")) ∷ []

-- A value with a space becomes two arguments of the command line.
spaced : cat_arg_and_value (codes "mode") (codes "a b") ≡ codes "--mode=a b"
unfolding program
spaced = refl

split_value :
    words (cat_arg_and_value (codes "mode") (codes "a b")) ≡ codes "--mode=a" ∷ codes "b" ∷ []
unfolding program
split_value = refl

-- A model in memory of a colocated ensemble is refused by the first member, but stays in the list.
refused :
    add_ml_model
      (record { name = codes "net"; in_memory = true })
      (record e { colocated = true; entities = replica (record e { colocated = true }) 0 ∷ [] })
    ≡ (
      record e {
        colocated = true;
        entities = replica (record e { colocated = true }) 0 ∷ [];
        db_models = record { name = codes "net"; in_memory = true } ∷ [];
      },
      some (from_memory (codes "net")),
    )
unfolding program
refused = refl

create_all_permutations-choices_example :
    count_if (reads names (codes "2" ∷ codes "8" ∷ [])) (create_all_permutations names lists 0)
    ≡ choices (codes "2" ∷ codes "8" ∷ []) lists
unfolding program
create_all_permutations-choices_example =
    create_all_permutations-choices names lists 0 (codes "2" ∷ codes "8" ∷ []) (refl, (refl, tt))
      refl

first-length : (ds : List (Dict Text)) (n : ℕ) → n ≤ length ds → length (first ds n) ≡ n
first-length [] n le = omega arith
first-length (d ∷ ds) n le = ground (arith, first-length ds (n - 1))

strategies-length_example :
    (length (create_all_permutations names lists 1) ≡ product_of lists)
    × (length (step_values names lists 1) ≡ shortest lists)
    × (length (random_permutations first names lists 1) ≡ (
        if 1 == 0
        then product_of lists
        else if ltb 1 (product_of lists)
        then 1
        else product_of lists))
strategies-length_example = strategies-length first names lists 1 (λ ds. first-length ds 1)

step_values-column_example :
    (d : Dict Text) × (get_elem? (step_values names lists 0) 0 ≡ some d)
    × (reads names (codes "1" ∷ codes "8" ∷ []) d ≡ true)
unfolding program
step_values-column_example =
    step_values-column names (codes "1" ∷ codes "2" ∷ []) ((codes "8" ∷ []) ∷ []) 0 0
      (codes "1" ∷ codes "8" ∷ []) (refl, (refl, tt)) refl refl

initialize_entities-outcome_example :
    initialize_entities first [] (named (codes "step")) 3 0 e ≡ outcome 3 e
unfolding program
initialize_entities-outcome_example =
    initialize_entities-outcome first (named (codes "step")) (built_in step_values) 3 0 e refl refl
      refl refl
