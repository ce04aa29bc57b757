-- ===== src/Ensembles/Replicas.antt =====
-- entity/ensemble.py, _initialize_entities: an ensemble without parameters.
use mathlib.Core.List.{append_assoc, append-nil}
use smart_sim.Common.Results.{returned, raised, ◌>>=◌}
use smart_sim.Common.{
  ℕ, zero, suc, ◌<◌, ◌≡◌, refl, ◌∙◌, sym, ap, Bool, true, false, ◌∷◌, [], ◌++◌, List, Text, arith,
  none, if◌then◌else◌, ◌==◌, not,
}
use smart_sim.Common.Dict.{Dict}
use smart_sim.Common.Entries.{All-append}
use smart_sim.Ensembles.Models.{
  Model, Result, cannot_expand, no_settings, new_model, parse_model_parameters, parse_from,
  enable_key_prefixing,
}
use smart_sim.Ensembles.Groups.{
  Ensemble, StrategyName, Strategy, member_name, osp_join, set_strategy, without_params,
  initialize_entities, make_member, add_replicas,
}
use smart_sim.Ensembles.Members.{AreBelow, AreBelow-fresh, AreBelow-suc, add_model-fresh}

-- The replica of an ensemble with this number.
unfoldable pub replica : Ensemble → ℕ → Model
unfolding osp_join
replica e i = record {
  name = member_name e.name i;
  path = osp_join e.path (member_name e.name i);
  params = [];
  params_as_args = none;
  has_run_settings = true;
  exe_args = e.exe_args;
  colocated = e.colocated;
  incoming_entities = [];
  key_prefixing_enabled = true;
  db_models = [];
  db_scripts = [];
}

unfoldable pub replicas_of : Ensemble → ℕ → ℕ → List Model
unfolding replica
replicas_of e i zero = []
replicas_of e i (suc left) = replica e i ∷ replicas_of e (suc i) left

replicas_of-entities :
    (e : Ensemble) (ms : List Model) (i left : ℕ)
    → replicas_of (record e { entities = ms }) i left ≡ replicas_of e i left
unfolding replicas_of
replicas_of-entities e ms i zero = refl
replicas_of-entities e ms i (suc left) =
    ap (◌∷◌ (replica e i)) (replicas_of-entities e ms (suc i) left)

add_replicas-replicas_of :
    (e : Ensemble) (i left : ℕ)
    → AreBelow e.name i e.entities
    → e.db_models ≡ []
    → e.db_scripts ≡ []
    → add_replicas i left e ≡ returned (record e { entities = e.entities ++ replicas_of e i left })
unfolding add_replicas replicas_of replica make_member new_model parse_model_parameters parse_from
    enable_key_prefixing
add_replicas-replicas_of e i zero below no_models no_scripts =
    ap (λ ms. returned (record e { entities = ms })) (sym (append-nil e.entities))
add_replicas-replicas_of e i (suc left) below no_models no_scripts =
    let m = replica e i in
    let next : Ensemble = record e { entities = e.entities ++ m ∷ [] } in
    ap (λ r. r >>= λ added. add_replicas (suc i) left added)
      (add_model-fresh e m (AreBelow-fresh e.name i e.entities below) no_models no_scripts)
    ∙ add_replicas-replicas_of next (suc i) left
        (All-append (λ m. (j : ℕ) × (j < suc i) × (m.name ≡ member_name e.name j)) e.entities
          (m ∷ []) (AreBelow-suc e.name i e.entities below) ((i, omega arith, refl), tt))
        no_models no_scripts
    ∙ ap (λ ms. returned (record e { entities = ms }))
        (append_assoc e.entities (m ∷ []) (replicas_of next (suc i) left)
          ∙ ap (λ ms. e.entities ++ m ∷ ms)
              (replicas_of-entities e (e.entities ++ m ∷ []) (suc i) left))

if_not {ℓ} : {A : Type ℓ} (b : Bool) (x y : A) → (if not b then x else y) ≡ (if b then y else x)
if_not true x y = refl
if_not false x y = refl

-- The outcome of an ensemble without parameters.
unfoldable pub outcome : ℕ → Ensemble → Result Ensemble
unfolding replicas_of
outcome replicas e =
    if e.has_run_settings
    then if replicas == 0
      then raised cannot_expand
      else returned (record e { entities = replicas_of e 0 replicas })
    else if e.has_batch_settings
    then returned e
    else raised no_settings

-- With a supported strategy, an ensemble without parameters and with nothing added to it gets as many
-- numbered members as replicas are asked for, if it has run settings; it raises SmartSimError if it
-- has run settings and no replicas are asked for, and if it has neither run settings nor batch
-- settings; with batch settings alone it stays empty.
pub initialize_entities-outcome :
    (sample : List (Dict Text) → ℕ → List (Dict Text)) (perm_strat : StrategyName)
    (strategy : Strategy) (replicas n_models : ℕ) (e : Ensemble)
    → set_strategy sample perm_strat ≡ returned strategy
    → e.entities ≡ []
    → e.db_models ≡ []
    → e.db_scripts ≡ []
    → initialize_entities sample [] perm_strat replicas n_models e ≡ outcome replicas e
unfolding initialize_entities without_params outcome
initialize_entities-outcome sample perm_strat strategy replicas n_models e chosen empty no_models
      no_scripts =
    ap (λ r. r >>= λ s. without_params replicas e) chosen
    ∙ ap
        (λ made.
          if e.has_run_settings then if replicas == 0 then raised cannot_expand else made else last)
        (add_replicas-replicas_of e 0 replicas (rw empty tt) no_models no_scripts
          ∙ ap (λ ms. returned (record e { entities = ms ++ replicas_of e 0 replicas })) empty)
    ∙ ap
        (λ rest.
          if e.has_run_settings
          then if replicas == 0
            then raised cannot_expand
            else returned (record e { entities = replicas_of e 0 replicas })
          else rest)
        (if_not e.has_batch_settings (raised no_settings) (returned e))
  where
    last : Result Ensemble
    last = if not e.has_batch_settings then raised no_settings else returned e
