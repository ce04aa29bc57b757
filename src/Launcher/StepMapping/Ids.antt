-- ===== src/Launcher/StepMapping/Ids.antt =====
-- `get_ids` of stepMapping.py for managed and for unmanaged steps.
use smart_sim.Common.{
  ◌+◌, Bool, true, false, List, [], ◌∷◌, Option, none, some, Text, text_eq_iff, count,
  if◌then◌else◌, ◌≡◌, refl, ◌≢◌, ◌⊎◌, ap, arith, inl, inr, Option-cases, Bool-cases,
}
use smart_sim.Common.Dict.{get?, contains, get?-contains, contains-get?}
use smart_sim.Launcher.StepMapping.{StepMap, StepMapping, pick, get_ids, str_or_none}

-- Each occurrence of a step on the map is listed for just one of the two kinds, and one of a step
-- that is not on the map for none.
pub get_ids_divides :
    (names : List Text) (mapping : StepMapping) (n : Text)
    → count n (get_ids names true mapping).0 + count n (get_ids names false mapping).0
      ≡ (if contains n mapping then count n names else 0)
unfolding get_ids pick count
get_ids_divides [] mapping n = ground arith
get_ids_divides (name ∷ names) mapping n = elim (Option-cases (get? name mapping)) [
  | inl e ↦
      ground
        (arith, get_ids_divides names mapping n, text_eq_iff name n, contains-get? name mapping)
  | inr (m, e) ↦
      ground
        (arith, get_ids_divides names mapping n, text_eq_iff name n, get?-contains name mapping m)
]

-- The kind of a step, by what its entry has for `managed`.
abbrev pub is_kind : Bool → Option Bool → Bool
is_kind true none = false
is_kind true (some b) = b
is_kind false none = true
is_kind false (some true) = false
is_kind false (some false) = true

-- The id of a step: the step id of a managed one, else the task id, where an empty one is none.
abbrev pub IsIdOf : Bool → StepMap → Option Text → Type 0
IsIdOf true m id = id ≡ m.step_id
IsIdOf false m id = ((id ≡ m.task_id) × (id ≢ some [])) ⊎ ((id ≡ none) × (m.task_id ≡ some []))

-- Each name is that of a step on the map that is of the kind, and has the step's own id beside it.
abbrev pub Beside : Bool → StepMapping → List Text → List (Option Text) → Type 0
Beside managed mapping [] [] = Unit {0}
Beside managed mapping [] (id ∷ ids) = ⊥
Beside managed mapping (n ∷ ns) [] = ⊥
Beside managed mapping (n ∷ ns) (id ∷ ids) =
    ((m : StepMap) × (get? n mapping ≡ some m)
      × (is_kind managed m.managed ≡ true)
      × IsIdOf managed m id)
    × Beside managed mapping ns ids

-- The names of the steps on the map that are of the kind, in their order.
unfoldable pub of_kind : Bool → StepMapping → List Text → List Text
of_kind managed mapping [] = []
of_kind managed mapping (n ∷ ns) = elim (get? n mapping) [
  | none ↦ of_kind managed mapping ns
  | some m ↦
      if is_kind managed m.managed
      then n ∷ of_kind managed mapping ns
      else of_kind managed mapping ns
]

str_or_none-IsIdOf :
    (task_id : Option Text)
    → ((str_or_none task_id ≡ task_id) × (str_or_none task_id ≢ some []))
      ⊎ ((str_or_none task_id ≡ none) × (task_id ≡ some []))
str_or_none-IsIdOf none = inl (refl, λ e. ground (arith, e))
str_or_none-IsIdOf (some []) = inr (refl, refl)
str_or_none-IsIdOf (some (c ∷ cs)) = inl (refl, λ e. ground (arith, e))

-- What pick gives for an entry.
pick-IsIdOf :
    (managed : Bool) (m : StepMap)
    → ((id : Option Text) × (pick managed m ≡ some id)
        × (is_kind managed m.managed ≡ true)
        × IsIdOf managed m id)
      ⊎ ((pick managed m ≡ none) × (is_kind managed m.managed ≡ false))
unfolding pick
pick-IsIdOf true m = elim (Option-cases m.managed) [
  | inl e ↦ inr (ground (arith, e), ground (arith, e))
  | inr (b, e) ↦ elim (Bool-cases b) [
    | inl h ↦ inl (m.step_id, ground (arith, e, h), ground (arith, e, h), refl)
    | inr h ↦ inr (ground (arith, e, h), ground (arith, e, h))
  ]
]
pick-IsIdOf false m = elim (Option-cases m.managed) [
  | inl e ↦
      inl
        (str_or_none m.task_id, ground (arith, e), ground (arith, e), str_or_none-IsIdOf m.task_id)
  | inr (b, e) ↦ elim (Bool-cases b) [
    | inl h ↦ inr (ground (arith, e, h), ground (arith, e, h))
    | inr h ↦ inl (
      str_or_none m.task_id,
      ground (arith, e, h),
      ground (arith, e, h),
      str_or_none-IsIdOf m.task_id,
    )
  ]
]

-- The listed names are those of the steps on the map that are of the kind that is asked for, in the
-- order of the question, and beside each stands its own id: the step id of a managed step, and of
-- another the task id, or none if that is empty.
pub get_ids-Beside :
    (names : List Text) (managed : Bool) (mapping : StepMapping)
    → ((get_ids names managed mapping).0 ≡ of_kind managed mapping names)
      × Beside managed mapping (get_ids names managed mapping).0 (get_ids names managed mapping).1
unfolding get_ids of_kind
get_ids-Beside [] managed mapping = (refl, tt)
get_ids-Beside (name ∷ names) managed mapping =
    let (same, beside) = get_ids-Beside names managed mapping in
    elim (Option-cases (get? name mapping)) [
      | inl e ↦ rw (get_ids, of_kind, e) (same, beside)
      | inr (m, e) ↦ elim (pick-IsIdOf managed m) [
        | inl (id, picked, kind, own) ↦
            rw (get_ids, of_kind, e, picked, kind) (ap (◌∷◌ name) same, ((m, e, kind, own), beside))
        | inr (picked, other) ↦ rw (get_ids, of_kind, e, picked, other) (same, beside)
      ]
    ]
