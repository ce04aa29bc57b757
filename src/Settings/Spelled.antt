-- ===== src/Settings/Spelled.antt =====
-- settings/base.py: the name of an argument, however it is written.
use mathlib.Core.List.{reverse, reverse-append, reverse-reverse, append-nil}
use smart_sim.Common.{
  ℕ, ◌≡◌, refl, ap, ◌∙◌, sym, Bool, true, false, not, ◌==◌, ◌∷◌, [], ◌++◌, Text, arith, all,
  all-append, inl, inr, Bool-cases,
}
use smart_sim.Common.Split.{is_space, lstrip, strip, starts_with}
use smart_sim.Settings.Base.{arg_name, lstrip_dashes}

abbrev is_blank : Text → Bool
is_blank = all is_space

abbrev is_dash : Text → Bool
is_dash = all (λ c. c == b'-')

abbrev has_no_blank : Text → Bool
has_no_blank = all (λ c. not (is_space c))

-- A name without blanks, and without a dash in front.
abbrev pub IsName : Text → Type 0
IsName name = (has_no_blank name ≡ true) × (starts_with (b'-' ∷ []) name ≡ false)

-- The name with blanks around it and, behind those in front, dashes.
abbrev pub IsSpelled : Text → Text → Type 0
IsSpelled name arg =
    (front : Text) × (dashes : Text) × (back : Text) × (arg ≡ front ++ ((dashes ++ name) ++ back))
    × (is_blank front ≡ true)
    × (is_dash dashes ≡ true)
    × (is_blank back ≡ true)

lstrip-append : (front t : Text) → is_blank front ≡ true → lstrip (front ++ t) ≡ lstrip t
unfolding lstrip
lstrip-append [] t h = refl
lstrip-append (c ∷ front) t h = elim (Bool-cases (is_space c)) [
  | inl space ↦ rw space (lstrip-append front t (ground (arith, h, space)))
  | inr other ↦ absurd (ground (arith, h, other))
]

lstrip-no_blank : (t : Text) → has_no_blank t ≡ true → lstrip t ≡ t
unfolding lstrip
lstrip-no_blank [] h = refl
lstrip-no_blank (c ∷ t) h = elim (Bool-cases (is_space c)) [
  | inl space ↦ absurd (ground (arith, h, space))
  | inr other ↦ rw other refl
]

all-reverse : (p : ℕ → Bool) (t : Text) → all p (reverse t) ≡ all p t
all-reverse p [] = refl
all-reverse p (c ∷ t) =
    ap (all p) (reverse-append (c ∷ []) t)
    ∙ all-append p (reverse t) (c ∷ [])
    ∙ ground (arith, all-reverse p t)

strip-no_blank :
    (front t back : Text)
    → is_blank front ≡ true
    → has_no_blank t ≡ true
    → is_blank back ≡ true
    → strip (front ++ (t ++ back)) ≡ t
unfolding strip lstrip
strip-no_blank front [] back f h b =
    ap (λ u. reverse (lstrip (reverse u)))
      (lstrip-append front back f ∙ ap lstrip (sym (append-nil back)) ∙ lstrip-append back [] b)
strip-no_blank front (c ∷ t) back f h b =
    let whole = c ∷ t in
    let first : lstrip (whole ++ back) ≡ whole ++ back = elim (Bool-cases (is_space c)) [
      | inl space ↦ absurd (ground (arith, h, space))
      | inr other ↦ rw other refl
    ] in
    ap (λ u. reverse (lstrip (reverse u))) (lstrip-append front (whole ++ back) f ∙ first)
    ∙ ap (λ u. reverse (lstrip u)) (reverse-append whole back)
    ∙ ap reverse (
        lstrip-append (reverse back) (reverse whole) (all-reverse is_space back ∙ b)
        ∙ lstrip-no_blank (reverse whole) (all-reverse (λ x. not (is_space x)) whole ∙ h))
    ∙ reverse-reverse whole

lstrip_dashes-append :
    (dashes name : Text)
    → is_dash dashes ≡ true
    → lstrip_dashes (dashes ++ name) ≡ lstrip_dashes name
unfolding lstrip_dashes
lstrip_dashes-append [] name h = refl
lstrip_dashes-append (c ∷ dashes) name h = elim (Bool-cases (c == b'-')) [
  | inl dash ↦ rw dash (lstrip_dashes-append dashes name (ground (arith, h, dash)))
  | inr other ↦ absurd (ground (arith, h, other))
]

lstrip_dashes-plain :
    (name : Text) → starts_with (b'-' ∷ []) name ≡ false → lstrip_dashes name ≡ name
unfolding lstrip_dashes starts_with
lstrip_dashes-plain [] h = refl
lstrip_dashes-plain (c ∷ name) h = ground (arith, h)

is_dash-no_blank : (dashes : Text) → is_dash dashes ≡ true → has_no_blank dashes ≡ true
is_dash-no_blank [] h = refl
is_dash-no_blank (c ∷ dashes) h = ground (arith, is_dash-no_blank dashes, h)

pub arg_name-IsSpelled : (name arg : Text) → IsName name → IsSpelled name arg → arg_name arg ≡ name
unfolding arg_name
arg_name-IsSpelled name arg (plain, no_dash) (front, dashes, back, e, f, d, b) =
    let whole : has_no_blank (dashes ++ name) ≡ true =
      all-append (λ c. not (is_space c)) dashes name
      ∙ ground (arith, is_dash-no_blank dashes d, plain) in
    ap (λ t. lstrip_dashes (strip t)) e
    ∙ ap lstrip_dashes (strip-no_blank front (dashes ++ name) back f whole b)
    ∙ lstrip_dashes-append dashes name d
    ∙ lstrip_dashes-plain name no_dash
