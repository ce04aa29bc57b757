-- ===== src/Settings/Exports.antt =====
-- settings/slurmSettings.py, format_comma_sep_env_vars: the variables that srun exports.
use smart_sim.Common.{
  mem_text-append, ◌≡◌, refl, sym, subst, inl, inr, Bool, true, false, ◌||◌, ◌&&◌, if◌then◌else◌,
  ◌∷◌, [], ◌++◌, List, Text, arith, All, Option, Bool-cases, mem_text, text_eq_refl,
}
use smart_sim.Common.Dict.{Dict}
use smart_sim.Common.Entries.{All-map, All-append}
use smart_sim.Common.Split.{has_char, has_char-append, split, join, split-join}
use smart_sim.Settings.Srun.{
  SrunSettings, value_text, key_value, is_compound, format_env_vars, key_only, compound_env,
  mpmd_env, format_comma_sep_env_vars,
}

-- A text without a comma.
abbrev HasNoComma : Text → Type 0
HasNoComma t = has_char b',' t ≡ false

abbrev pub HasPlainKey : Text × Option Text → Type 0
HasPlainKey (key, value) = has_char b',' key ≡ false

key_value-HasNoComma :
    (var : Text × Option Text)
    → HasPlainKey var
    → is_compound var ≡ false
    → HasNoComma (key_value var)
unfolding is_compound has_char
key_value-HasNoComma (key, value) plain single =
    rw (has_char-append b',' key (b'=' ∷ value_text value), plain, single)

format_env_vars-HasNoComma :
    (env_vars : Dict (Option Text))
    → All HasPlainKey env_vars
    → All HasNoComma (format_env_vars env_vars)
unfolding format_env_vars
format_env_vars-HasNoComma [] plain = tt
format_env_vars-HasNoComma (var ∷ env_vars) plain = elim (Bool-cases (is_compound var)) [
  | inl compound ↦ rw compound (format_env_vars-HasNoComma env_vars plain.1)
  | inr single ↦
      rw single
        (key_value-HasNoComma var plain.0 single, format_env_vars-HasNoComma env_vars plain.1)
]

key_only-HasNoComma :
    (env_vars : Dict (Option Text)) → All HasPlainKey env_vars → All HasNoComma (key_only env_vars)
unfolding key_only
key_only-HasNoComma [] plain = tt
key_only-HasNoComma (var ∷ env_vars) plain = elim (Bool-cases (is_compound var)) [
  | inl compound ↦ rw compound (plain.0, key_only-HasNoComma env_vars plain.1)
  | inr single ↦ rw single (key_only-HasNoComma env_vars plain.1)
]

-- A variable is among the parts with its value, or by its key alone with the value beside the
-- command.
abbrev IsShown : List Text → List Text → Text × Option Text → Type 0
IsShown parts beside var =
    (is_compound var ≡ false → mem_text (key_value var) parts ≡ true)
    × (is_compound var ≡ true
        → (mem_text var.0 parts ≡ true) × (mem_text (key_value var) beside ≡ true))

abbrev parts_of : Dict (Option Text) → List Text
parts_of env_vars = format_env_vars env_vars ++ key_only env_vars

-- One more variable leaves the others exported.
or_true : (a b : Bool) → b ≡ true → (a || b) ≡ true
or_true true b h = refl
or_true false b h = h

more_parts :
    (k : Text) (var : Text × Option Text) (env_vars : Dict (Option Text))
    → mem_text k (parts_of env_vars) ≡ true
    → mem_text k (parts_of (var ∷ env_vars)) ≡ true
unfolding format_env_vars key_only mem_text
more_parts k var env_vars h = elim (Bool-cases (is_compound var)) [
  | inl compound ↦ ground (
    arith,
    mem_text-append k (format_env_vars env_vars) (key_only env_vars),
    mem_text-append k (format_env_vars env_vars) (var.0 ∷ key_only env_vars),
  )
  | inr single ↦ rw single (or_true _ _ h)
]

more_beside :
    (k : Text) (var : Text × Option Text) (env_vars : Dict (Option Text))
    → mem_text k (compound_env env_vars) ≡ true
    → mem_text k (compound_env (var ∷ env_vars)) ≡ true
unfolding compound_env mem_text
more_beside k var env_vars h = elim (Bool-cases (is_compound var)) [
  | inl compound ↦ rw compound (or_true _ _ h)
  | inr single ↦ rw single h
]

All-IsShown :
    (env_vars : Dict (Option Text))
    → All (IsShown (parts_of env_vars) (compound_env env_vars)) env_vars
unfolding format_env_vars key_only compound_env mem_text
All-IsShown [] = tt
All-IsShown (var ∷ env_vars) = (
  (
    λ single. rw (single, text_eq_refl) refl,
    λ compound. (
      rw (compound, mem_text-append, text_eq_refl) (ground arith),
      rw (compound, text_eq_refl) refl,
    ),
  ),
  All-map
      (λ v (single, compound). (
        λ e. more_parts (key_value v) var env_vars (single e),
        λ e. (
          more_parts v.0 var env_vars (compound e).0,
          more_beside (key_value v) var env_vars (compound e).1,
        ),
      ))
      env_vars (All-IsShown env_vars),
)

mem-beside : (k : Text) (xs ys : List Text) → mem_text k xs ≡ true → mem_text k (xs ++ ys) ≡ true
mem-beside k xs ys h = ground (arith, mem_text-append k xs ys)

split-parts :
    (parts : List Text) (k : Text)
    → All HasNoComma parts
    → mem_text k parts ≡ true
    → split b',' (join b',' parts) ≡ parts
unfolding mem_text
split-parts [] k commas some_part = cc
split-parts (w ∷ ws) k commas some_part = split-join b',' w ws commas

IsShown-parts :
    (others : List Text) (var : Text × Option Text) (env_vars : Dict (Option Text))
    → All HasPlainKey (var ∷ env_vars)
    → All
        (IsShown
          (split b',' (join b',' (parts_of (var ∷ env_vars))))
          (compound_env (var ∷ env_vars) ++ others))
        (var ∷ env_vars)
IsShown-parts others var env_vars plain =
    let all = var ∷ env_vars in
    let exported = All-IsShown all in
    let commas =
      All-append HasNoComma (format_env_vars all) (key_only all)
        (format_env_vars-HasNoComma all plain) (key_only-HasNoComma all plain) in
    let back : split b',' (join b',' (parts_of all)) ≡ parts_of all =
      elim (Bool-cases (is_compound var)) [
        | inl compound ↦ split-parts (parts_of all) var.0 commas (exported.0.1 compound).0
        | inr single ↦ split-parts (parts_of all) (key_value var) commas (exported.0.0 single)
      ] in
    subst (λ parts. All (IsShown parts (compound_env all ++ others)) all) (sym back)
      (All-map
        (λ v (single, compound). (
          single,
          λ e. ((compound e).0, mem-beside (key_value v) (compound_env all) others (compound e).1),
        ))
        all exported)

-- The same as a test.
unfoldable pub is_exported : List Text → List Text → Text × Option Text → Bool
unfolding is_compound mem_text
is_exported parts beside var =
    if is_compound var
    then mem_text var.0 parts && mem_text (key_value var) beside
    else mem_text (key_value var) parts

abbrev pub IsExported : List Text → List Text → Text × Option Text → Type 0
IsExported parts beside var = is_exported parts beside var ≡ true

IsShown-IsExported :
    (parts beside : List Text) (var : Text × Option Text)
    → IsShown parts beside var
    → IsExported parts beside var
unfolding is_exported
IsShown-IsExported parts beside var (single, compound) = elim (Bool-cases (is_compound var)) [
  | inl h ↦ rw (is_exported, h, (compound h).0, (compound h).1) refl
  | inr h ↦ rw (is_exported, h) (single h)
]

-- If there is a variable and no key has a comma, then the list that srun gets is split at its commas
-- into parts, and each variable is exported: with its value as one part if the value has no comma,
-- and otherwise by its key as one part, with key and value among those that stand beside the command.
pub format_comma_sep_env_vars-IsExported :
    (order : List Text → List Text) (s : SrunSettings) (var : Text × Option Text)
    (env_vars : Dict (Option Text))
    → s.settings.env_vars ≡ var ∷ env_vars
    → All HasPlainKey (var ∷ env_vars)
    → let (exported, beside) = format_comma_sep_env_vars order s in
      All (IsExported (split b',' exported) beside) (var ∷ env_vars)
unfolding format_comma_sep_env_vars
format_comma_sep_env_vars-IsExported order s var env_vars given plain =
    subst
      (λ env.
        All
          (IsExported (split b',' (join b',' (parts_of env)))
            (compound_env env ++ mpmd_env order s.mpmd))
          (var ∷ env_vars))
      (sym given)
      (All-map (IsShown-IsExported _ _) (var ∷ env_vars)
        (IsShown-parts (mpmd_env order s.mpmd) var env_vars plain))
