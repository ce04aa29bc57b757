-- ===== src/Settings/Sbatch.antt =====
-- settings/base.py, BatchSettings, and settings/slurmSettings.py, SbatchSettings: the arguments of a
-- batch job. A value of `batch_args` is a text or None.
use smart_sim.Common.{
  ℕ, ◌∷◌, [], ◌++◌, List, map, Option, none, some, Text, codes, if◌then◌else◌, ◌==◌,
}
use smart_sim.Common.Dict.{Dict, set}
use smart_sim.Common.Decimal.{show}
use smart_sim.Settings.Base.{ArgValue, text_or_none}
use smart_sim.Settings.Srun.{Names, joined, format_run_args}

pub record BatchSettings : Type 0 where
  pub batch_cmd : Text
  pub batch_args : Dict (Option Text)
  pub preamble : List Text

abbrev set_batch_arg : Text → Text → BatchSettings → BatchSettings
set_batch_arg arg value s = record s { batch_args = set arg (some value) s.batch_args }

-- A text that is empty, or not given, sets nothing.
abbrev set_if_any : Text → Text → BatchSettings → BatchSettings
set_if_any arg [] s = s
set_if_any arg (c ∷ cs) s = set_batch_arg arg (c ∷ cs) s

abbrev pub set_walltime : Text → BatchSettings → BatchSettings
set_walltime = set_if_any (codes "time")

-- A number 0, or none given, sets nothing.
unfoldable pub set_nodes : ℕ → BatchSettings → BatchSettings
set_nodes num_nodes s =
    if num_nodes == 0 then s else set_batch_arg (codes "nodes") (show num_nodes) s

abbrev pub set_account : Text → BatchSettings → BatchSettings
set_account = set_if_any (codes "account")

abbrev pub set_partition : Text → BatchSettings → BatchSettings
set_partition = set_batch_arg (codes "partition")

abbrev pub set_queue : Text → BatchSettings → BatchSettings
set_queue = set_if_any (codes "partition")

abbrev pub set_cpus_per_task : ℕ → BatchSettings → BatchSettings
set_cpus_per_task cpus = set_batch_arg (codes "cpus-per-task") (show cpus)

unfoldable pub set_hostlist : Names → BatchSettings → Option BatchSettings
unfolding joined
set_hostlist hosts s = elim (joined hosts) [
  | none ↦ none
  | some t ↦ some (set_batch_arg (codes "nodelist") t s)
]

-- BatchSettings.__init__ with these setters: 0 and the empty text stand for what is not given.
unfoldable pub new_batch :
    Dict (Option Text) → (nodes : ℕ) → (queue time account : Text) → BatchSettings
unfolding set_nodes
new_batch batch_args nodes queue time account = set_account account (
    set_walltime time (
      set_queue queue (
        set_nodes nodes
          (record { batch_cmd = codes "sbatch"; batch_args = batch_args; preamble = [] }))))

abbrev pub add_preamble : List Text → BatchSettings → BatchSettings
add_preamble lines s = record s { preamble = s.preamble ++ lines }

abbrev as_args : Dict (Option Text) → Dict ArgValue
as_args d = map (λ (arg, value). (arg, text_or_none value)) d

-- The same formatting as that of srun's arguments.
unfoldable pub format_batch_args : BatchSettings → List Text
unfolding format_run_args
format_batch_args s = format_run_args (as_args s.batch_args)
