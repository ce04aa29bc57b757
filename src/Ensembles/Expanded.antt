-- ===== src/Ensembles/Expanded.antt =====
-- entity/ensemble.py, _initialize_entities: the models that a new ensemble has.
use smart_sim.Common.{◌≡◌, true, [], List, Text, All, mem_text}
use smart_sim.Common.Dict.{Dict}
use smart_sim.Ensembles.Groups.{Ensemble}

-- An ensemble that has nothing yet but run settings.
abbrev pub IsNew : Ensemble → Type 0
IsNew e = (e.has_run_settings ≡ true) × (e.entities ≡ []) × (e.db_models ≡ []) × (e.db_scripts ≡ [])

-- The parameters that become arguments are among the names.
abbrev pub HasArgs : Ensemble → List Text → Type 0
HasArgs e names = All (λ param. mem_text param names ≡ true) e.params_as_args
