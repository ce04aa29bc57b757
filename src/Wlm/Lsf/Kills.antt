-- ===== src/Wlm/Lsf/Kills.antt =====
-- launcher/lsf/lsfLauncher.py: the command that kills a step.
use smart_sim.Common.{
  ◌≡◌, refl, ap, Bool, true, false, ◌∷◌, [], ◌++◌, List, Text, codes, arith, Option, some, none,
  inl, inr, Bool-cases, ◌==◌, if◌then◌else◌,
}
use smart_sim.Common.Split.{has_char}
use smart_sim.Wlm.Lsf.{Kill, jskill, bkill, kill_of, after_dots}

-- bkill gets an id without a dot, and "None" for no id; jskill what stands behind the last dot.
abbrev pub IsKillOf : Option Text → Kill → Type 0
IsKillOf none (bkill arg) = arg ≡ codes "None"
IsKillOf none (jskill arg) = ⊥
IsKillOf (some id) (bkill arg) = (arg ≡ id) × (has_char b'.' id ≡ false)
IsKillOf (some id) (jskill arg) =
    (has_char b'.' arg ≡ false) × ((front : Text) × (id ≡ front ++ b'.' ∷ arg))

-- What a stop runs: one command for a managed step, and none else.
abbrev pub Kills : (managed : Bool) → Option Text → List Kill → Type 0
Kills false step_id kills = kills ≡ []
Kills true step_id kills = (kill : Kill) × (kills ≡ kill ∷ []) × IsKillOf step_id kill

after_dots-IsKillOf :
    (id : Text) → has_char b'.' id ≡ true → IsKillOf (some id) (jskill (after_dots id))
unfolding has_char after_dots
after_dots-IsKillOf [] dot = absurd (ground (arith, dot))
after_dots-IsKillOf (c ∷ cs) dot = elim (Bool-cases (has_char b'.' cs)) [
  | inl later ↦
      let (plain, (front, e)) = after_dots-IsKillOf cs later in
      rw (after_dots, later) (plain, (c ∷ front, ap (◌∷◌ c) e))
  | inr last ↦ elim (Bool-cases (c == b'.')) [
    | inl here ↦ rw (after_dots, last, here) (last, ([], ground (arith, here)))
    | inr other ↦ absurd (ground (arith, last, other, dot))
  ]
]

pub kill_of-IsKillOf : (step_id : Option Text) → IsKillOf step_id (kill_of step_id)
unfolding kill_of
kill_of-IsKillOf none = refl
kill_of-IsKillOf (some id) = elim (Bool-cases (has_char b'.' id)) [
  | inl dot ↦ rw (kill_of, dot) (after_dots-IsKillOf id dot)
  | inr plain ↦ rw (kill_of, plain) (refl, plain)
]

pub kill_of-Kills :
    (managed : Bool) (step_id : Option Text)
    → Kills managed step_id (if managed then kill_of step_id ∷ [] else [])
kill_of-Kills false step_id = refl
kill_of-Kills true step_id = (kill_of step_id, refl, kill_of-IsKillOf step_id)
