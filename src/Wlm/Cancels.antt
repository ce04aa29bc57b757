-- ===== src/Wlm/Cancels.antt =====
-- launcher/slurm/slurmLauncher.py: the id that is cancelled for a step.
use smart_sim.Common.{
  ◌≡◌, refl, ap, Bool, true, false, not, ◌∷◌, [], ◌++◌, List, Text, arith, Option, some, none, ◌⊎◌,
  inl, inr, Bool-cases, ◌==◌, ◌||◌, if◌then◌else◌,
}
use smart_sim.Common.Split.{has_char}
use smart_sim.Wlm.Slurm.{before_plus, cancelled_id, is_any}
use smart_sim.Launcher.Updates.{id_text}

-- In a heterogeneous job the id itself; else what stands in front of its first plus sign, if it has any.
abbrev pub IsCancelledId : (het_job : Bool) → Text → Text → Type 0
IsCancelledId true id cancelled = cancelled ≡ id
IsCancelledId false id cancelled =
    (has_char b'+' cancelled ≡ false)
    × ((cancelled ≡ id) ⊎ ((rest : Text) × (id ≡ cancelled ++ b'+' ∷ rest)))

-- What a stop cancels: one id for a managed step, which then has an id, and none else.
abbrev pub Cancels : (het_job managed : Bool) → Option Text → List Text → Type 0
Cancels het_job false step_id ids = ids ≡ []
Cancels het_job true step_id ids =
    (id : Text) × (cancelled : Text) × (step_id ≡ some id)
    × (ids ≡ cancelled ∷ [])
    × IsCancelledId het_job id cancelled

before_plus-IsCancelledId : (id : Text) → IsCancelledId false id (before_plus id)
unfolding before_plus has_char
before_plus-IsCancelledId [] = (refl, inl refl)
before_plus-IsCancelledId (c ∷ cs) =
    let (plain, front) = before_plus-IsCancelledId cs in
    elim (Bool-cases (c == b'+')) [
      | inl plus ↦ rw (before_plus, plus) (refl, inr (cs, ground (arith, plus)))
      | inr other ↦
          rw (before_plus, other)
            (
              ground (arith, plain, other),
              elim front [
                | inl whole ↦ inl (ap (◌∷◌ c) whole)
                | inr (rest, e) ↦ inr (rest, ap (◌∷◌ c) e)
              ],
            )
    ]

cancelled_id-IsCancelledId :
    (het_job : Bool) (id : Text) → IsCancelledId het_job id (cancelled_id het_job id)
unfolding cancelled_id
cancelled_id-IsCancelledId true id = elim (Bool-cases (has_char b'+' id)) [
  | inl plus ↦ rw (cancelled_id, plus) refl
  | inr plain ↦ rw (cancelled_id, plain) refl
]
cancelled_id-IsCancelledId false id = elim (Bool-cases (has_char b'+' id)) [
  | inl plus ↦ rw (cancelled_id, plus) (before_plus-IsCancelledId id)
  | inr plain ↦ rw (cancelled_id, plain) (plain, inl refl)
]

pub cancelled_id-Cancels :
    (het_job managed : Bool) (step_id : Option Text)
    → (not managed || is_any step_id) ≡ true
    → Cancels het_job managed step_id
        (if managed then cancelled_id het_job (id_text step_id) ∷ [] else [])
cancelled_id-Cancels het_job false step_id any = refl
cancelled_id-Cancels het_job true none any = absurd (ground (arith, any))
cancelled_id-Cancels het_job true (some id) any =
    (id, cancelled_id het_job id, refl, refl, cancelled_id-IsCancelledId het_job id)
