-- ===== src/Settings/Base.antt =====
-- settings/base.py: the settings of a run and what the base class makes of them. The types of the
-- arguments of `set` are taken as the code demands them.
use smart_sim.Common.{
  ℕ, Bool, true, false, not, List, [], ◌∷◌, ◌++◌, Option, none, some, Text, codes, mem_text,
  if◌then◌else◌, ◌==◌, ◌+◌, ◌*◌,
}
use smart_sim.Common.Int.{ℤ, pos, negsuc, is_nonzero}
use smart_sim.Common.Dict.{Dict, set}
use smart_sim.Common.Decimal.{show}
use smart_sim.Common.Split.{words, strip}

-- The value of an argument: None, an int, a float by its text and its truth, a text.
pub data ArgValue : Type 0 where
  absent : ArgValue
  number : ℤ → ArgValue
  real : (str : Text) (nonzero : Bool) → ArgValue
  text : Text → ArgValue

-- str of an int
abbrev pub show_int : ℤ → Text
show_int (pos n) = show n
show_int (negsuc n) = b'-' ∷ show (n + 1)

-- str(value)
unfoldable pub str_value : ArgValue → Text
str_value absent = codes "None"
str_value (number n) = show_int n
str_value (real str nonzero) = str
str_value (text t) = t

-- bool(value)
unfoldable pub truthy : ArgValue → Bool
unfolding is_nonzero
truthy absent = false
truthy (number n) = is_nonzero n
truthy (real str nonzero) = nonzero
truthy (text []) = false
truthy (text (c ∷ cs)) = true

pub record RunSettings : Type 0 where
  pub exe : Text
  pub exe_args : List Text
  pub run_args : Dict ArgValue
  pub env_vars : Dict (Option Text)
  pub has_container : Bool
  pub is_colocated : Bool

-- What is given as arguments of an executable; the last is neither a text nor a list of texts.
pub data ExeArgs : Type 0 where
  nothing : ExeArgs
  one_text : Text → ExeArgs
  texts : List Text → ExeArgs
  ill_typed : ExeArgs

-- `none`: TypeError
unfoldable pub build_exe_args : ExeArgs → Option (List Text)
unfolding words
build_exe_args nothing = some []
build_exe_args (one_text t) = some (words t)
build_exe_args (texts ts) = some ts
build_exe_args ill_typed = none

-- The executable is expanded (expand_exe_path) unless it runs in a container.
unfoldable pub new_settings :
    (Text → Text)
    → Text
    → ExeArgs
    → Dict ArgValue
    → Dict (Option Text)
    → (has_container : Bool) → Option RunSettings
unfolding build_exe_args
new_settings expand exe exe_args run_args env_vars has_container = elim (build_exe_args exe_args) [
  | none ↦ none
  | some args ↦ some (record {
    exe = if has_container then exe else expand exe;
    exe_args = args;
    run_args = run_args;
    env_vars = env_vars;
    has_container = has_container;
    is_colocated = false;
  })
]

unfoldable pub add_exe_args : ExeArgs → RunSettings → Option RunSettings
unfolding build_exe_args
add_exe_args exe_args s = elim (build_exe_args exe_args) [
  | none ↦ none
  | some args ↦ some (record s { exe_args = s.exe_args ++ args })
]

-- self.run_args[arg] = value
abbrev pub set_arg : Text → ArgValue → RunSettings → RunSettings
set_arg arg value s = record s { run_args = set arg value s.run_args }

unfoldable pub lstrip_dashes : Text → Text
lstrip_dashes [] = []
lstrip_dashes (c ∷ cs) = let rest = lstrip_dashes cs in if c == b'-' then rest else c ∷ cs

-- arg.strip().lstrip("-")
unfoldable pub arg_name : Text → Text
unfolding strip lstrip_dashes
arg_name arg = lstrip_dashes (strip arg)

abbrev pub text_or_none : Option Text → ArgValue
text_or_none none = absent
text_or_none (some t) = text t

-- RunSettings.set of a class with these reserved arguments; `condition` guards the write.
unfoldable pub set_run_arg : List Text → Text → Option Text → Bool → RunSettings → RunSettings
unfolding arg_name mem_text
set_run_arg reserved arg value condition s =
    if not condition
    then s
    else if mem_text (arg_name arg) reserved
    then s
    else set_arg (arg_name arg) (text_or_none value) s

-- A value is `none` if it is no text, number or truth value, which raises TypeError; the values
-- before it are kept. The Boolean tells whether no exception was raised.
unfoldable pub update_env : Dict (Option Text) → RunSettings → RunSettings × Bool
update_env [] s = (s, true)
update_env ((name, none) ∷ env_vars) s = (s, false)
update_env ((name, some value) ∷ env_vars) s =
    update_env env_vars (record s { env_vars = set name (some value) s.env_vars })

-- format_run_args of the base class: the arguments as they are.
unfoldable pub format_literally : Dict ArgValue → List Text
unfolding str_value
format_literally [] = []
format_literally ((arg, value) ∷ run_args) = arg ∷ str_value value ∷ format_literally run_args

abbrev or_empty : Option Text → Text
or_empty none = []
or_empty (some value) = value

-- format_env_vars of the base class
unfoldable pub format_env_vars : Dict (Option Text) → List Text
format_env_vars [] = []
format_env_vars ((key, value) ∷ env_vars) =
    (key ++ b'=' ∷ or_empty value) ∷ format_env_vars env_vars

-- _fmt_walltime of the base class: the seconds.
unfoldable pub fmt_seconds : (hours minutes seconds : ℕ) → Text
fmt_seconds hours minutes seconds = show (hours * 3600 + minutes * 60 + seconds)
