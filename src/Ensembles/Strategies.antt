-- ===== src/Ensembles/Strategies.antt =====
-- entity/strategies.py: from the values of each parameter to the parameters of each model.
-- random.sample is a parameter.
use smart_sim.Common.{
  ℕ, ◌&&◌, not, List, [], ◌∷◌, ◌++◌, map, Text, if◌then◌else◌, length, ltb, ◌==◌,
}
use smart_sim.Common.Dict.{Dict, set}

module _ {ℓ} {A : Type ℓ} where
  -- Each first element before each of the tuples.
  unfoldable pub cons_all : List A → List (List A) → List (List A)
  cons_all [] tuples = []
  cons_all (x ∷ xs) tuples = map (◌∷◌ x) tuples ++ cons_all xs tuples

  -- itertools.product(*lists)
  unfoldable pub product : List (List A) → List (List A)
  unfolding cons_all
  product [] = [] ∷ []
  product (xs ∷ lists) = cons_all xs (product lists)

  unfoldable pub zip_cons : List A → List (List A) → List (List A)
  zip_cons [] tuples = []
  zip_cons (x ∷ xs) [] = []
  zip_cons (x ∷ xs) (tuple ∷ tuples) = (x ∷ tuple) ∷ zip_cons xs tuples

  -- zip(*lists), which ends with the shortest list and is empty for no list.
  unfoldable pub zip_all : List (List A) → List (List A)
  unfolding zip_cons
  zip_all [] = []
  zip_all (xs ∷ []) = map (λ x. x ∷ []) xs
  zip_all (xs ∷ (ys ∷ lists)) = zip_cons xs (zip_all (ys ∷ lists))

-- dict(zip(names, values)), on top of the pairs read so far.
unfoldable pub dict_from : Dict Text → List Text → List Text → Dict Text
dict_from done [] values = done
dict_from done (name ∷ names) [] = done
dict_from done (name ∷ names) (value ∷ values) = dict_from (set name value done) names values

unfoldable pub dict_zip : List Text → List Text → Dict Text
unfolding dict_from
dict_zip = dict_from []

unfoldable pub create_all_permutations : List Text → List (List Text) → ℕ → List (Dict Text)
unfolding product dict_zip
create_all_permutations param_names param_values n_models =
    map (dict_zip param_names) (product param_values)

unfoldable pub step_values : List Text → List (List Text) → ℕ → List (Dict Text)
unfolding zip_all dict_zip
step_values param_names param_values n_models = map (dict_zip param_names) (zip_all param_values)

unfoldable pub random_permutations :
    (List (Dict Text) → ℕ → List (Dict Text)) → List Text → List (List Text) → ℕ → List (Dict Text)
unfolding create_all_permutations
random_permutations sample param_names param_values n_models =
    let permutations = create_all_permutations param_names param_values 0 in
    if not (n_models == 0) && ltb n_models (length permutations)
    then sample permutations n_models
    else permutations
