-- ===== src/Settings/Tests.antt =====
-- The theorems about settings at concrete inputs.
use smart_sim.Common.Results.{raised}
use smart_sim.Common.{
  ◌≡◌, ◌<◌, ◌+◌, ◌*◌, refl, true, false, [], ◌∷◌, List, codes, text_eq, none, some, ℕ, All, arith,
  mem_text,
}
use smart_sim.Common.Int.{pos, is_nonzero}
use smart_sim.Common.Dict.{Dict, get?, set, contains}
use smart_sim.Common.Decimal.{show}
use smart_sim.Common.Split.{split, join, has_char, starts_with, strip}
use smart_sim.Settings.Base.{
  ArgValue, absent, number, text, RunSettings, arg_name, set_run_arg, str_value, truthy,
}
use smart_sim.Settings.Walltime.{fmt_walltime, hh_mm_ss, fmt_walltime-bounds}
use smart_sim.Settings.Srun.{
  SrunSettings, format_option, format_run_args, format_env_vars, key_only, compound_env, mpmd_env,
  format_comma_sep_env_vars, is_compound, reserved_run_args, set_het_group, no_het_job,
  het_group_out_of_range,
}
use smart_sim.Settings.Options.{cut, read_options, said}
use smart_sim.Settings.Exports.{IsExported, is_exported, format_comma_sep_env_vars-IsExported}
use smart_sim.Settings.Reserved.{Request, set_all, IsAsked, set_all-reserved}
use smart_sim.Settings.Sbatch.{new_batch, format_batch_args}

unfoldable program : Unit {0}
unfolding str_value truthy is_nonzero format_option format_run_args format_env_vars key_only
    compound_env mpmd_env format_comma_sep_env_vars is_compound cut read_options said arg_name
    set_run_arg set_all split join has_char starts_with strip show text_eq get? set contains
    mem_text set_het_group new_batch is_exported format_batch_args
program = tt

abbrev run : RunSettings
run = record {
  exe = codes "echo";
  exe_args = [];
  run_args = [];
  env_vars =
      (codes "A", some (codes "1")) ∷ (codes "B", some (codes "2,3")) ∷ (codes "C", none) ∷ [];
  has_container = false;
  is_colocated = false;
}

abbrev srun : SrunSettings
srun = record { settings = run; alloc = none; mpmd = run ∷ [] }

-- The value None is exported as a text.
exports :
    format_comma_sep_env_vars (λ ts. ts) srun
    ≡ (codes "A=1,C=None,B", codes "B=2,3" ∷ codes "B=2,3" ∷ [])
unfolding program
exports = refl

het_groups :
    (set_het_group none (0 ∷ []) srun ≡ raised no_het_job)
    × (set_het_group (some 2) (0 ∷ 2 ∷ []) (record srun { mpmd = [] })
        ≡ raised het_group_out_of_range)
unfolding program
het_groups = (refl, refl)

batch :
    format_batch_args (new_batch ((codes "exclusive", none) ∷ []) 2 [] (codes "10:00:00") [])
    ≡ codes "--exclusive" ∷ codes "--nodes=2" ∷ codes "--time=10:00:00" ∷ []
unfolding program
batch = refl

fmt_walltime-bounds_example :
    (h : ℕ) × (m : ℕ) × (s : ℕ) × (fmt_walltime 1 90 5 ≡ hh_mm_ss h m s)
    × (h < 24)
    × (m < 60)
    × (s < 60)
    × (h * 3600 + m * 60 + s ≡ 1 * 3600 + 90 * 60 + 5)
fmt_walltime-bounds_example = fmt_walltime-bounds 1 90 5 (omega arith)

abbrev args : Dict ArgValue
args =
    (codes "nodes", number (pos 4))
    ∷ (codes "C", text (codes "gpu"))
    ∷ (codes "quiet", absent)
    ∷ (codes "v", absent)
    ∷ []

format_comma_sep_env_vars-IsExported_example :
    let (exported, beside) = format_comma_sep_env_vars (λ ts. ts) srun in
    All (IsExported (split b',' exported) beside) run.env_vars
unfolding program
format_comma_sep_env_vars-IsExported_example =
    format_comma_sep_env_vars-IsExported (λ ts. ts) srun (codes "A", some (codes "1"))
      ((codes "B", some (codes "2,3")) ∷ (codes "C", none) ∷ []) refl (refl, (refl, (refl, tt)))

abbrev partition : Request
partition = record { arg = codes "--partition"; value = some (codes "debug"); condition = true }

abbrev requests : List Request
requests = record partition { arg = codes "-D" } ∷ partition ∷ []

set_all-reserved_example :
    let before = set_all reserved_run_args requests run in
    let asked =
      set_run_arg reserved_run_args (codes " --partition ") (some (codes "debug")) true before in
    (contains (codes "D") asked.run_args ≡ contains (codes "D") run.run_args)
    × IsAsked
        (mem_text (codes "partition") reserved_run_args)
        (codes "partition")
        (some (codes "debug"))
        before
        asked
unfolding mem_text text_eq starts_with
set_all-reserved_example =
    set_all-reserved reserved_run_args requests (codes " --partition ") (some (codes "debug")) run
      (codes "D") (codes "partition") refl (refl, refl)
      (codes " ", codes "--", codes " ", refl, refl, refl, refl)

-- A reserved argument is refused though it has dashes.
refused_sample : set_run_arg reserved_run_args (codes "-D") (some (codes "x")) true run ≡ run
unfolding program
refused_sample = refl
