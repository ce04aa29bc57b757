-- ===== src/Settings/Srun.antt =====
-- settings/slurmSettings.py, SrunSettings: the arguments of srun. The environment of the program is
-- an argument of the methods that read it.
use smart_sim.Common.Results.{Outcome, returned, raised}
use smart_sim.Common.{
  ℕ, Bool, ◌∷◌, [], ◌++◌, List, map, any, Option, none, some, Text, codes, if◌then◌else◌, length,
  leb, ◌==◌,
}
use smart_sim.Common.Int.{ℤ}
use smart_sim.Common.Dict.{Dict, del}
use smart_sim.Common.Decimal.{show}
use smart_sim.Common.Split.{join, has_char, strip}
use smart_sim.Settings.Base.{
  ArgValue, absent, number, text, RunSettings, set_arg, show_int, str_value, truthy, text_or_none,
}

pub record SrunSettings : Type 0 where
  pub settings : RunSettings
  pub alloc : Option Text
  pub mpmd : List RunSettings

-- The exceptions, by what has gone wrong.
pub data SlurmError : Type 0 where
  -- SSUnsupportedError
  colocated_mpmd : SlurmError
  container_mpmd : SlurmError
  -- ValueError
  mpmd_in_het_job : SlurmError
  no_het_job : SlurmError
  het_group_out_of_range : SlurmError

abbrev pub Result {ℓ} : Type ℓ → Type ℓ
Result A = Outcome SlurmError A

-- What is given as hosts or features; the last is neither a text nor a list of texts.
pub data Names : Type 0 where
  one_name : Text → Names
  names : List Text → Names
  ill_typed : Names

-- ",".join(names), a single text stripped; `none`: TypeError
unfoldable pub joined : Names → Option Text
unfolding join strip
joined (one_name name) = some (strip name)
joined (names ns) = some (join b',' ns)
joined ill_typed = none

abbrev set_names : Text → Names → RunSettings → Option RunSettings
set_names arg hosts s = elim (joined hosts) [ none ↦ none | some t ↦ some (set_arg arg (text t) s) ]

abbrev pub reserved_run_args : List Text
reserved_run_args = codes "chdir" ∷ codes "D" ∷ []

abbrev pub set_nodes : ℤ → RunSettings → RunSettings
set_nodes nodes = set_arg (codes "nodes") (number nodes)

abbrev pub set_hostlist : Names → RunSettings → Option RunSettings
set_hostlist = set_names (codes "nodelist")

abbrev pub set_hostlist_from_file : Text → RunSettings → RunSettings
set_hostlist_from_file file_path = set_arg (codes "nodefile") (text file_path)

abbrev pub set_excluded_hosts : Names → RunSettings → Option RunSettings
set_excluded_hosts = set_names (codes "exclude")

abbrev pub set_cpus_per_task : ℤ → RunSettings → RunSettings
set_cpus_per_task cpus = set_arg (codes "cpus-per-task") (number cpus)

abbrev pub set_tasks : ℤ → RunSettings → RunSettings
set_tasks tasks = set_arg (codes "ntasks") (number tasks)

abbrev pub set_tasks_per_node : ℤ → RunSettings → RunSettings
set_tasks_per_node tasks = set_arg (codes "ntasks-per-node") (number tasks)

-- A single number is a list of one.
unfoldable pub set_cpu_bindings : List ℤ → RunSettings → RunSettings
unfolding join
set_cpu_bindings bindings =
    set_arg (codes "cpu_bind") (text (codes "map_cpu:" ++ join b',' (map show_int bindings)))

abbrev pub set_memory_per_node : ℤ → RunSettings → RunSettings
set_memory_per_node memory = set_arg (codes "mem") (text (show_int memory ++ codes "M"))

-- self.run_args.pop(arg, None)
abbrev set_flag : Text → Bool → RunSettings → RunSettings
set_flag arg on s = if on then set_arg arg absent s else record s { run_args = del arg s.run_args }

abbrev pub set_verbose_launch : Bool → RunSettings → RunSettings
set_verbose_launch = set_flag (codes "verbose")

abbrev pub set_quiet_launch : Bool → RunSettings → RunSettings
set_quiet_launch = set_flag (codes "quiet")

abbrev pub set_broadcast : Option Text → RunSettings → RunSettings
set_broadcast dest_path = set_arg (codes "bcast") (text_or_none dest_path)

abbrev pub set_node_feature : Names → RunSettings → Option RunSettings
set_node_feature = set_names (codes "C")

abbrev pub set_walltime : Text → RunSettings → RunSettings
set_walltime walltime = set_arg (codes "time") (text walltime)

-- `het_size` is the variable SLURM_HET_SIZE.
unfoldable pub make_mpmd : (het_size : Option ℕ) → RunSettings → SrunSettings → Result SrunSettings
make_mpmd het_size other s =
    if s.settings.is_colocated
    then raised colocated_mpmd
    else if s.settings.has_container
    then raised container_mpmd
    else elim het_size [
      | none ↦ returned (record s { mpmd = s.mpmd ++ other ∷ [] })
      | some size ↦ raised mpmd_in_het_job
    ]

unfoldable pub set_het_group : (het_size : Option ℕ) → List ℕ → SrunSettings → Result SrunSettings
unfolding join
set_het_group none groups s = raised no_het_job
set_het_group (some het_size) groups s =
    if length s.mpmd == 0
    then if any (leb het_size) groups
      then raised het_group_out_of_range
      else returned (record s {
        settings = set_arg (codes "het-group") (text (join b',' (map show groups))) s.settings;
      })
    else raised mpmd_in_het_job

-- One argument of format_run_args: a flag, a short option and its value, or a long option.
unfoldable pub format_option : Text × ArgValue → List Text
unfolding str_value truthy
format_option (opt, value) =
    if length opt == 1
    then if truthy value then (b'-' ∷ opt) ∷ str_value value ∷ [] else (b'-' ∷ opt) ∷ []
    else if truthy value
    then (b'-' ∷ b'-' ∷ opt ++ b'=' ∷ str_value value) ∷ []
    else (b'-' ∷ b'-' ∷ opt) ∷ []

unfoldable pub format_run_args : Dict ArgValue → List Text
unfolding format_option
format_run_args [] = []
format_run_args (arg ∷ run_args) = format_option arg ++ format_run_args run_args

-- str(v) of a variable's value
abbrev pub value_text : Option Text → Text
value_text none = codes "None"
value_text (some value) = value

-- f"{k}={v}"
abbrev pub key_value : Text × Option Text → Text
key_value (key, value) = key ++ b'=' ∷ value_text value

-- "," in str(v)
unfoldable pub is_compound : Text × Option Text → Bool
unfolding has_char
is_compound (key, value) = has_char b',' (value_text value)

unfoldable pub format_env_vars : Dict (Option Text) → List Text
unfolding is_compound
format_env_vars [] = []
format_env_vars (var ∷ env_vars) =
    let rest = format_env_vars env_vars in if is_compound var then rest else key_value var ∷ rest

-- The variables that are exported by their keys only, and what is set for them.
unfoldable pub key_only : Dict (Option Text) → List Text
unfolding is_compound
key_only [] = []
key_only (var ∷ env_vars) =
    let rest = key_only env_vars in if is_compound var then var.0 ∷ rest else rest

unfoldable pub compound_env : Dict (Option Text) → List Text
unfolding is_compound
compound_env [] = []
compound_env (var ∷ env_vars) =
    let rest = compound_env env_vars in if is_compound var then key_value var ∷ rest else rest

-- The compound variables of the other programs, which stand in a set; `order` lists its elements.
unfoldable pub mpmd_env : (List Text → List Text) → List RunSettings → List Text
unfolding compound_env
mpmd_env order [] = []
mpmd_env order (s ∷ mpmd) = order (compound_env s.env_vars) ++ mpmd_env order mpmd

unfoldable pub format_comma_sep_env_vars : (List Text → List Text) → SrunSettings → Text × List Text
unfolding format_env_vars key_only mpmd_env compound_env join
format_comma_sep_env_vars order s =
    let env_vars = s.settings.env_vars in
    (
      join b',' (format_env_vars env_vars ++ key_only env_vars),
      compound_env env_vars ++ mpmd_env order s.mpmd,
    )
