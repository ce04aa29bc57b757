-- ===== src/Settings/Reserved.antt =====
-- settings/base.py and settings/slurmSettings.py: the reserved arguments of srun.
use smart_sim.Common.{
  ◌≡◌, refl, ◌∙◌, inl, inr, Bool, true, false, ◌∷◌, [], List, Text, text_eq_iff, arith, Option,
  some, Bool-cases, mem_text,
}
use smart_sim.Common.Dict.{contains, contains-set, get?, get?-set}
use smart_sim.Settings.Spelled.{IsName, IsSpelled, arg_name-IsSpelled}
use smart_sim.Settings.Base.{RunSettings, arg_name, set_run_arg, text_or_none}

-- A request to set an argument.
pub record Request : Type 0 where
  pub arg : Text
  pub value : Option Text
  pub condition : Bool

unfoldable pub set_all : List Text → List Request → RunSettings → RunSettings
unfolding set_run_arg
set_all reserved [] s = s
set_all reserved (r ∷ requests) s =
    set_all reserved requests (set_run_arg reserved r.arg r.value r.condition s)

set_run_arg-contains :
    (reserved : List Text) (arg : Text) (value : Option Text) (condition : Bool) (s : RunSettings)
    (k : Text)
    → mem_text k reserved ≡ true
    → contains k (set_run_arg reserved arg value condition s).run_args ≡ contains k s.run_args
unfolding set_run_arg
set_run_arg-contains reserved arg value condition s k kept = elim (Bool-cases condition) [
  | inr unmet ↦ rw unmet
  | inl met ↦ elim (Bool-cases (mem_text (arg_name arg) reserved)) [
    | inl refused ↦ rw (met, refused)
    | inr free ↦
        rw (met, free)
          (ground (
            arith,
            contains-set k (arg_name arg) (text_or_none value) s.run_args,
            text_eq_iff (arg_name arg) k,
          ))
  ]
]

set_all-contains :
    (reserved : List Text) (requests : List Request) (s : RunSettings) (k : Text)
    → mem_text k reserved ≡ true
    → contains k (set_all reserved requests s).run_args ≡ contains k s.run_args
unfolding set_all
set_all-contains reserved [] s k kept = refl
set_all-contains reserved (r ∷ requests) s k kept = ground (
  arith,
  set_all-contains reserved requests (set_run_arg reserved r.arg r.value r.condition s) k kept,
  set_run_arg-contains reserved r.arg r.value r.condition s k kept,
)

-- What a request for an argument comes to, which is reserved or is not.
abbrev pub IsAsked :
    (is_reserved : Bool) → Text → Option Text → (before asked : RunSettings) → Type 0
IsAsked true key value before asked = asked ≡ before
IsAsked false key value before asked = get? key asked.run_args ≡ some (text_or_none value)

set_run_arg-IsAsked :
    (reserved : List Text) (key arg : Text) (value : Option Text) (before : RunSettings)
    → arg_name arg ≡ key
    → IsAsked (mem_text key reserved) key value before (set_run_arg reserved arg value true before)
unfolding set_run_arg
set_run_arg-IsAsked reserved key arg value before e = elim (Bool-cases (mem_text key reserved)) [
  | inl refused ↦ rw (set_run_arg, e, refused) refl
  | inr free ↦
      rw (set_run_arg, e, free)
        (ground (arith, get?-set key key (text_or_none value) before.run_args, text_eq_iff key key))
]

-- Whatever is asked of `set`, no reserved argument comes in or goes. A request that is made after all
-- others, if its condition is met, for an argument that is written with whatever blanks around it and
-- dashes before it, changes nothing if the argument is reserved; and else the argument, by its name
-- alone, reads as the value of this request.
pub set_all-reserved :
    (reserved : List Text) (requests : List Request) (arg : Text) (value : Option Text)
    (s : RunSettings) (k key : Text)
    → mem_text k reserved ≡ true
    → IsName key
    → IsSpelled key arg
    → let before = set_all reserved requests s in
      let asked = set_run_arg reserved arg value true before in
      (contains k asked.run_args ≡ contains k s.run_args)
      × IsAsked (mem_text key reserved) key value before asked
set_all-reserved reserved requests arg value s k key kept is_name spelled =
    let before = set_all reserved requests s in
    (
      set_run_arg-contains reserved arg value true before k kept
          ∙ set_all-contains reserved requests s k kept,
      set_run_arg-IsAsked reserved key arg value before
          (arg_name-IsSpelled key arg is_name spelled),
    )
