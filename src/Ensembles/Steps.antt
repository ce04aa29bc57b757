-- ===== src/Ensembles/Steps.antt =====
-- entity/strategies.py: the models of the step strategy.
use mathlib.Core.Option.{some-injective}
use smart_sim.Common.{
  ℕ, zero, suc, ◌≡◌, refl, ◌∙◌, sym, ap, subst, inl, inr, true, ◌∷◌, [], List, Text, text_eq_refl,
  Option-cases, arith, Option, some, none, map, length, get_elem?,
}
use smart_sim.Common.Dict.{Dict}
use smart_sim.Ensembles.Strategies.{zip_cons, zip_all, dict_zip, step_values}
use smart_sim.Ensembles.Choices.{AreDistinct, reads, reads-dict_from, texts_eq}

abbrev cons_option : Option Text → Option (List Text) → Option (List Text)
cons_option none vs = none
cons_option (some v) none = none
cons_option (some v) (some vs) = some (v ∷ vs)

-- The value at a position of each list, `none` if some list is too short.
unfoldable pub column : ℕ → List (List Text) → Option (List Text)
column i [] = some []
column i (values ∷ lists) = cons_option (get_elem? values i) (column i lists)

zip_cons-get_elem? :
    (i : ℕ) (xs : List Text) (tuples : List (List Text))
    → get_elem? (zip_cons xs tuples) i ≡ cons_option (get_elem? xs i) (get_elem? tuples i)
unfolding zip_cons
zip_cons-get_elem? i [] tuples = refl
zip_cons-get_elem? zero (x ∷ xs) [] = refl
zip_cons-get_elem? (suc i) (x ∷ xs) [] = elim (Option-cases (get_elem? xs i)) [
  | inl e ↦ rw e
  | inr (v, e) ↦ rw e
]
zip_cons-get_elem? zero (x ∷ xs) (t ∷ tuples) = refl
zip_cons-get_elem? (suc i) (x ∷ xs) (t ∷ tuples) = zip_cons-get_elem? i xs tuples

map-get_elem? {ℓ κ} :
    {A : Type ℓ} {B : Type κ} (f : A → B) (xs : List A) (i : ℕ)
    → get_elem? (map f xs) i ≡ (elim (get_elem? xs i) [ none ↦ none | some x ↦ some (f x) ])
map-get_elem? f [] i = refl
map-get_elem? f (x ∷ xs) zero = refl
map-get_elem? f (x ∷ xs) (suc i) = map-get_elem? f xs i

zip_all-column :
    (i : ℕ) (values : List Text) (lists : List (List Text))
    → get_elem? (zip_all (values ∷ lists)) i ≡ column i (values ∷ lists)
unfolding zip_all column
zip_all-column i values [] = elim (Option-cases (get_elem? values i)) [
  | inl e ↦ rw (map-get_elem? (λ x. x ∷ []), e)
  | inr (v, e) ↦ rw (map-get_elem? (λ x. x ∷ []), e)
]
zip_all-column i values (more ∷ lists) =
    zip_cons-get_elem? i values (zip_all (more ∷ lists))
    ∙ ap (cons_option (get_elem? values i)) (zip_all-column i more lists)

column-length :
    (i : ℕ) (lists : List (List Text)) (c : List Text)
    → column i lists ≡ some c
    → length c ≡ length lists
unfolding column
column-length i [] c e = subst (λ d. length d ≡ 0) (some-injective _ _ e) refl
column-length i (values ∷ lists) c e = elim (Option-cases (get_elem? values i)) [
  | inl past ↦ absurd (ground (arith, past))
  | inr (v, f) ↦ elim (Option-cases (column i lists)) [
    | inl past ↦ absurd (ground (arith, past, f))
    | inr (vs, g) ↦
        subst (λ d. length d ≡ suc (length lists)) (some-injective _ _ (rw (column, f, g) at e))
          (ap suc (column-length i lists vs g))
  ]
]

texts_eq_refl : (c : List Text) → texts_eq c c ≡ true
unfolding texts_eq
texts_eq_refl [] = refl
texts_eq_refl (c ∷ cs) = rw (text_eq_refl, texts_eq_refl cs)

-- With different names, and as many lists of values but at least one, each of which has a value at a
-- position, there is a model at this position of the steps, and it has for each name the value at this
-- position of its list.
pub step_values-column :
    (names : List Text) (values : List Text) (lists : List (List Text)) (n_models i : ℕ)
    (c : List Text)
    → AreDistinct names
    → length names ≡ length (values ∷ lists)
    → column i (values ∷ lists) ≡ some c
    → (d : Dict Text) × (get_elem? (step_values names (values ∷ lists) n_models) i ≡ some d)
      × (reads names c d ≡ true)
unfolding step_values dict_zip
step_values-column names values lists n_models i c distinct same e = (
  dict_zip names c,
  rw (map-get_elem? (dict_zip names), zip_all-column i values lists, e),
  reads-dict_from [] names c c distinct (column-length i (values ∷ lists) c e ∙ sym same)
      ∙ texts_eq_refl c,
)
