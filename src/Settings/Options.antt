-- ===== src/Settings/Options.antt =====
-- settings/slurmSettings.py, format_run_args: the arguments can be read off the command line.
use smart_sim.Common.{
  ◌≡◌, Bool, true, false, ◌==◌, ◌∷◌, [], List, Text, codes, Option, some, none, length,
  if◌then◌else◌,
}
use smart_sim.Common.Dict.{Dict}
use smart_sim.Common.Split.{has_char, starts_with}
use smart_sim.Settings.Base.{ArgValue, str_value, truthy}

-- name, or name=value
unfoldable pub cut : Text → Text × Option Text
cut [] = ([], none)
cut (c ∷ cs) = let rest = cut cs in if c == b'=' then ([], some cs) else (c ∷ rest.0, rest.1)

abbrev drop_one : Text → Text
drop_one [] = []
drop_one (c ∷ cs) = cs

-- A reader of command lines: `--name`, `--name=value`, and `-c` with the next word as its value if
-- that does not begin with a dash.
unfoldable pub read_options : List Text → List (Text × Option Text)
unfolding cut starts_with
read_options [] = []
read_options (t ∷ []) =
    (if starts_with (codes "--") t then cut (drop_one (drop_one t)) else (drop_one t, none)) ∷ []
read_options (t ∷ (u ∷ ts)) =
    let rest = read_options (u ∷ ts) in
    let after = read_options ts in
    if starts_with (codes "--") t
    then cut (drop_one (drop_one t)) ∷ rest
    else if starts_with (codes "-") u
    then (drop_one t, none) ∷ rest
    else (drop_one t, some u) ∷ after

-- What an argument says: a value that counts as false is none.
unfoldable pub said : Dict ArgValue → List (Text × Option Text)
unfolding str_value truthy
said [] = []
said ((opt, value) ∷ run_args) =
    (opt, if truthy value then some (str_value value) else none) ∷ said run_args

-- The name has no equals sign, and a name of one letter is no dash and has no value with a dash in front.
abbrev pub IsPlain : Text × ArgValue → Type 0
IsPlain (opt, value) =
    (has_char b'=' opt ≡ false)
    × (length opt ≡ 1
        → (starts_with (codes "-") opt ≡ false)
          × (starts_with (codes "-") (str_value value) ≡ false))

-- The rest of a command line is empty or begins with a dash.
is_dashed : List Text → Bool
unfolding starts_with
is_dashed [] = true
is_dashed (u ∷ us) = starts_with (codes "-") u
