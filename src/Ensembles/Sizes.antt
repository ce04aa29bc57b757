-- ===== src/Ensembles/Sizes.antt =====
-- entity/strategies.py: how many models the strategies make.
use Prim.Native.Nat.{min}
use smart_sim.Common.{
  ℕ, ◌*◌, ◌≤◌, ◌≡◌, refl, ◌∙◌, ap, ◌∷◌, [], List, Text, arith, map, length, length-append, ltb,
  ◌==◌, if◌then◌else◌,
}
use smart_sim.Common.Dict.{Dict}
use smart_sim.Ensembles.Strategies.{
  cons_all, product, zip_cons, zip_all, dict_zip, create_all_permutations, step_values,
  random_permutations,
}

unfoldable pub product_of : List (List Text) → ℕ
product_of [] = 1
product_of (values ∷ lists) = length values * product_of lists

-- The length of the shortest list, 0 for no list.
unfoldable pub shortest : List (List Text) → ℕ
shortest [] = 0
shortest (values ∷ []) = length values
shortest (values ∷ (more ∷ lists)) = min (length values) (shortest (more ∷ lists))

length-map {ℓ κ} :
    {A : Type ℓ} {B : Type κ} (f : A → B) (xs : List A) → length (map f xs) ≡ length xs
length-map f [] = refl
length-map f (x ∷ xs) = omega (arith, length-map f xs)

length-cons_all :
    (xs : List Text) (tuples : List (List Text))
    → length (cons_all xs tuples) ≡ length xs * length tuples
unfolding cons_all
length-cons_all [] tuples = omega arith
length-cons_all (x ∷ xs) tuples = grind (
  arith,
  length-append (map (◌∷◌ x) tuples) (cons_all xs tuples),
  length-map (◌∷◌ x) tuples,
  length-cons_all xs tuples,
)

length-product : (lists : List (List Text)) → length (product lists) ≡ product_of lists
unfolding product product_of
length-product [] = refl
length-product (values ∷ lists) =
    length-cons_all values (product lists) ∙ ap (λ n. length values * n) (length-product lists)

length-zip_cons :
    (xs : List Text) (tuples : List (List Text))
    → length (zip_cons xs tuples) ≡ min (length xs) (length tuples)
unfolding zip_cons
length-zip_cons [] tuples = omega arith
length-zip_cons (x ∷ xs) [] = omega arith
length-zip_cons (x ∷ xs) (t ∷ tuples) = omega (arith, length-zip_cons xs tuples)

length-zip_all : (lists : List (List Text)) → length (zip_all lists) ≡ shortest lists
unfolding zip_all shortest
length-zip_all [] = refl
length-zip_all (values ∷ []) = length-map (λ x. x ∷ []) values
length-zip_all (values ∷ (more ∷ lists)) =
    length-zip_cons values (zip_all (more ∷ lists))
    ∙ ap (min (length values)) (length-zip_all (more ∷ lists))

-- All permutations are as many as the product of the numbers of values, the steps as many as the
-- shortest list of values, and the random permutations, where random.sample gives as many elements as
-- it is asked for, as many as asked for, unless that is 0 or not less than all permutations: then
-- they are all permutations.
pub strategies-length :
    (sample : List (Dict Text) → ℕ → List (Dict Text)) (names : List Text)
    (lists : List (List Text)) (n_models : ℕ)
    → ((all : List (Dict Text)) → n_models ≤ length all → length (sample all n_models) ≡ n_models)
    → (length (create_all_permutations names lists n_models) ≡ product_of lists)
      × (length (step_values names lists n_models) ≡ shortest lists)
      × (length (random_permutations sample names lists n_models) ≡ (
          if n_models == 0
          then product_of lists
          else if ltb n_models (product_of lists)
          then n_models
          else product_of lists))
unfolding create_all_permutations step_values random_permutations
strategies-length sample names lists n_models samples =
    let all = length-map (dict_zip names) (product lists) ∙ length-product lists in
    (
      all,
      length-map (dict_zip names) (zip_all lists) ∙ length-zip_all lists,
      ground (arith, all, samples (map (dict_zip names) (product lists))),
    )
