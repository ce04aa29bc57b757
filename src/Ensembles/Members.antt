-- ===== src/Ensembles/Members.antt =====
-- entity/ensemble.py: the models that an ensemble makes of its parameters.
use mathlib.Core.List.{append_assoc, append-nil}
use smart_sim.Common.Results.{returned, ◌>>=◌, two_steps}
use smart_sim.Common.{
  ℕ, suc, ◌<◌, ◌≡◌, refl, ◌∙◌, sym, ap, inl, inr, true, false, ◌∷◌, [], ◌++◌, List, Text, text_eq,
  text_eq_iff, arith, All, some, none, map, any, Bool-cases,
}
use smart_sim.Common.Dict.{Dict, get?, contains, contains-get?}
use smart_sim.Common.Entries.{All-map, All-append}
use smart_sim.Common.Decimal.{show, show-injective}
use smart_sim.Common.Split.{words}
use smart_sim.Ensembles.Models.{
  Model, Result, new_model, parse_model_parameters, cat_arg_and_value, add_exe_args, params_loop,
  params_to_args, enable_key_prefixing,
}
use smart_sim.Ensembles.Groups.{
  Ensemble, member_name, osp_join, has_name, add_model, make_member, add_members, with_values,
  extend_entity_db_models, extend_entity_db_scripts,
}
use smart_sim.Ensembles.Pairs.{as_texts}

-- The command line arguments of some of the parameters.
unfoldable pub args_of : List Text → Dict Text → List Text
args_of [] d = []
args_of (param ∷ params) d = elim (get? param d) [
  | none ↦ args_of params d
  | some value ↦ words (cat_arg_and_value param value) ++ args_of params d
]

params_loop-args_of :
    (params : List Text) (m : Model)
    → m.has_run_settings ≡ true
    → All (λ param. contains param m.params ≡ true) params
    → params_loop params m
      ≡ returned (record m { exe_args = m.exe_args ++ args_of params m.params })
unfolding params_loop args_of add_exe_args
params_loop-args_of [] m settings known =
    ap (λ args. returned (record m { exe_args = args })) (sym (append-nil m.exe_args))
params_loop-args_of (param ∷ params) m settings known =
    let (value, found) = contains-get? param m.params known.0 in
    let ih =
      params_loop-args_of params (add_exe_args (cat_arg_and_value param value) m) settings
        known.1 in
    rw (params_loop, args_of, found, settings) (rw (settings, append_assoc) at ih)

-- The member of an ensemble with this number and these parameters.
unfoldable pub member : Ensemble → ℕ → Dict Text → Model
unfolding osp_join args_of
member e i params = record {
  name = member_name e.name i;
  path = osp_join e.path (member_name e.name i);
  params = params;
  params_as_args = some e.params_as_args;
  has_run_settings = true;
  exe_args = e.exe_args ++ args_of e.params_as_args params;
  colocated = e.colocated;
  incoming_entities = [];
  key_prefixing_enabled = true;
  db_models = [];
  db_scripts = [];
}

unfoldable pub members : Ensemble → ℕ → List (Dict Text) → List Model
unfolding member
members e i [] = []
members e i (params ∷ param_sets) = member e i params ∷ members e (suc i) param_sets

-- The parameters are read as they are, and have all that become arguments.
abbrev pub IsReady : Ensemble → Dict Text → Type 0
IsReady e d =
    (parse_model_parameters (as_texts d) ≡ returned d)
    × All (λ param. contains param d ≡ true) e.params_as_args

make_member-member :
    (e : Ensemble) (i : ℕ) (d : Dict Text)
    → IsReady e d
    → (make_member i (as_texts d) (some e.params_as_args) e >>= λ m.
        params_to_args (enable_key_prefixing m))
      ≡ returned (member e i d)
unfolding make_member new_model params_to_args enable_key_prefixing member
make_member-member e i d (parsed, known) =
    rw parsed (params_loop-args_of e.params_as_args _ refl known)

append-cancel : (a xs ys : Text) → a ++ xs ≡ a ++ ys → xs ≡ ys
append-cancel [] xs ys e = e
append-cancel (c ∷ a) xs ys e = append-cancel a xs ys (ground (arith, e))

member_name-injective : (name : Text) (i j : ℕ) → member_name name i ≡ member_name name j → i ≡ j
member_name-injective name i j e =
    show-injective i j (ground (arith, append-cancel name (b'_' ∷ show i) (b'_' ∷ show j) e))

-- The models have names with numbers below a bound.
abbrev pub AreBelow : Text → ℕ → List Model → Type 0
AreBelow name i ms = All (λ m. (j : ℕ) × (j < i) × (m.name ≡ member_name name j)) ms

pub AreBelow-fresh :
    (name : Text) (i : ℕ) (ms : List Model)
    → AreBelow name i ms
    → any (has_name (member_name name i)) ms ≡ false
AreBelow-fresh name i [] h = refl
AreBelow-fresh name i (m ∷ ms) ((j, below, e), h) =
    let other : text_eq m.name (member_name name i) ≡ false =
      elim (Bool-cases (text_eq m.name (member_name name i))) [
        | inl same ↦
            let clash = member_name-injective name j i (sym e ∙ (text_eq_iff m.name _).0 same) in
            absurd (omega arith)
        | inr other ↦ other
      ] in
    rw other (AreBelow-fresh name i ms h)

pub add_model-fresh :
    (e : Ensemble) (m : Model)
    → any (has_name m.name) e.entities ≡ false
    → e.db_models ≡ []
    → e.db_scripts ≡ []
    → add_model m e ≡ returned (record e { entities = e.entities ++ m ∷ [] })
unfolding add_model extend_entity_db_models extend_entity_db_scripts
add_model-fresh e m new no_models no_scripts = rw (new, no_models, no_scripts)

pub AreBelow-suc :
    (name : Text) (i : ℕ) (ms : List Model) → AreBelow name i ms → AreBelow name (suc i) ms
AreBelow-suc name i ms h = All-map (λ m (j, below, e). (j, omega arith, e)) ms h

members-entities :
    (e : Ensemble) (ms : List Model) (i : ℕ) (ds : List (Dict Text))
    → members (record e { entities = ms }) i ds ≡ members e i ds
unfolding members
members-entities e ms i [] = refl
members-entities e ms i (d ∷ ds) = ap (◌∷◌ (member e i d)) (members-entities e ms (suc i) ds)

-- A list of parameters that are all ready becomes members that are numbered on.
pub add_members-members :
    (e : Ensemble) (i : ℕ) (ds : List (Dict Text))
    → AreBelow e.name i e.entities
    → e.db_models ≡ []
    → e.db_scripts ≡ []
    → All (IsReady e) ds
    → add_members i (map with_values ds) e
      ≡ returned (record e { entities = e.entities ++ members e i ds })
unfolding add_members members
add_members-members e i [] below no_models no_scripts ready =
    ap (λ ms. returned (record e { entities = ms })) (sym (append-nil e.entities))
add_members-members e i (d ∷ ds) below no_models no_scripts ready =
    let m = member e i d in
    let next : Ensemble = record e { entities = e.entities ++ m ∷ [] } in
    let rest =
      add_members-members next (suc i) ds
        (All-append (λ m. (j : ℕ) × (j < suc i) × (m.name ≡ member_name e.name j)) e.entities
          (m ∷ []) (AreBelow-suc e.name i e.entities below) ((i, omega arith, refl), tt))
        no_models no_scripts ready.1 in
    let made = make_member i (as_texts d) (some e.params_as_args) e in
    let go : Ensemble → Result Ensemble = λ added. add_members (suc i) (map with_values ds) added in
    sym (two_steps made (λ m. params_to_args (enable_key_prefixing m)) (λ n. add_model n e >>= go))
    ∙ ap (λ r. r >>= λ n. add_model n e >>= go) (make_member-member e i d ready.0)
    ∙ ap (λ r. r >>= go)
        (add_model-fresh e m (AreBelow-fresh e.name i e.entities below) no_models no_scripts)
    ∙ rest
    ∙ ap (λ ms. returned (record e { entities = ms }))
        (append_assoc e.entities (m ∷ []) (members next (suc i) ds)
          ∙ ap (λ ms. e.entities ++ m ∷ ms) (members-entities e (e.entities ++ m ∷ []) (suc i) ds))
