-- ===== src/Ensembles/Choices.antt =====
-- entity/strategies.py: the parameters that the models of an ensemble get.
use smart_sim.Common.{
  ℕ, suc, ◌+◌, ◌*◌, ◌≡◌, refl, ◌∙◌, sym, ap, Bool, true, false, ◌&&◌, ◌∷◌, [], ◌++◌, List, Text,
  text_eq, text_eq_refl, arith, All, Option, some, none, map, length, if◌then◌else◌, mem_text,
  count,
}
use smart_sim.Common.Dict.{Dict, get?, set, get?-set}
use smart_sim.Common.Entries.{All-map, All-append}
use smart_sim.Ensembles.Strategies.{cons_all, product, dict_from, dict_zip, create_all_permutations}

-- The number of the elements that pass a test.
unfoldable pub count_if {ℓ} : {A : Type ℓ} → (A → Bool) → List A → ℕ
count_if p [] = 0
count_if p (x ∷ xs) = (if p x then 1 else 0) + count_if p xs

unfoldable pub texts_eq : List Text → List Text → Bool
texts_eq [] [] = true
texts_eq [] (d ∷ ds) = false
texts_eq (c ∷ cs) [] = false
texts_eq (c ∷ cs) (d ∷ ds) = text_eq c d && texts_eq cs ds

-- In how many ways a choice of one value for each parameter can be made.
unfoldable pub choices : List Text → List (List Text) → ℕ
choices [] [] = 1
choices [] (values ∷ lists) = 0
choices (c ∷ cs) [] = 0
choices (c ∷ cs) (values ∷ lists) = count c values * choices cs lists

abbrev has_value : Option Text → Text → Bool
has_value none c = false
has_value (some v) c = text_eq v c

-- Whether a dict gives these values to these names.
unfoldable pub reads : List Text → List Text → Dict Text → Bool
reads [] [] d = true
reads [] (c ∷ cs) d = false
reads (name ∷ names) [] d = false
reads (name ∷ names) (c ∷ cs) d = has_value (get? name d) c && reads names cs d

abbrev pub AreDistinct : List Text → Type 0
AreDistinct [] = Unit
AreDistinct (name ∷ names) = (mem_text name names ≡ false) × AreDistinct names

count_if-append {ℓ} :
    {A : Type ℓ} (p : A → Bool) (xs ys : List A)
    → count_if p (xs ++ ys) ≡ count_if p xs + count_if p ys
unfolding count_if
count_if-append p [] ys = omega arith
count_if-append p (x ∷ xs) ys = omega (arith, count_if-append p xs ys)

count_if-map {ℓ κ} :
    {A : Type ℓ} {B : Type κ} (f : A → B) (p : B → Bool) (q : A → Bool) (xs : List A)
    → All (λ x. p (f x) ≡ q x) xs
    → count_if p (map f xs) ≡ count_if q xs
unfolding count_if
count_if-map f p q [] h = refl
count_if-map f p q (x ∷ xs) h = rw (h.0, count_if-map f p q xs h.1)

count_if_none :
    (xs : List Text) (tuples : List (List Text))
    → count_if (λ t. texts_eq t []) (cons_all xs tuples) ≡ 0
unfolding count_if cons_all texts_eq
count_if_none [] tuples = refl
count_if_none (x ∷ xs) tuples = ground (
  arith,
  count_if-append (λ t. texts_eq t []) (map (◌∷◌ x) tuples) (cons_all xs tuples),
  heads x tuples,
  count_if_none xs tuples,
)
  where
    heads :
        (x : Text) (tuples : List (List Text))
        → count_if (λ t. texts_eq t []) (map (◌∷◌ x) tuples) ≡ 0
    heads x [] = refl
    heads x (t ∷ tuples) = omega (arith, heads x tuples)

count_if-cons :
    (c : Text) (cs : List Text) (x : Text) (tuples : List (List Text))
    → count_if (λ t. texts_eq t (c ∷ cs)) (map (◌∷◌ x) tuples)
      ≡ (if text_eq x c then count_if (λ t. texts_eq t cs) tuples else 0)
unfolding count_if texts_eq
count_if-cons c cs x [] = ground arith
count_if-cons c cs x (t ∷ tuples) = ground (arith, count_if-cons c cs x tuples)

count_if-cons_all :
    (c : Text) (cs : List Text) (xs : List Text) (tuples : List (List Text))
    → count_if (λ t. texts_eq t (c ∷ cs)) (cons_all xs tuples)
      ≡ count c xs * count_if (λ t. texts_eq t cs) tuples
unfolding count_if cons_all count
count_if-cons_all c cs [] tuples = omega arith
count_if-cons_all c cs (x ∷ xs) tuples = grind (
  arith,
  count_if-append (λ t. texts_eq t (c ∷ cs)) (map (◌∷◌ x) tuples) (cons_all xs tuples),
  count_if-cons c cs x tuples,
  count_if-cons_all c cs xs tuples,
)

-- Each choice stands in the product as often as it can be made.
count_if-product :
    (c : List Text) (lists : List (List Text))
    → count_if (λ t. texts_eq t c) (product lists) ≡ choices c lists
unfolding product choices count_if texts_eq
count_if-product [] [] = refl
count_if-product (c ∷ cs) [] = refl
count_if-product [] (values ∷ lists) = count_if_none values (product lists)
count_if-product (c ∷ cs) (values ∷ lists) =
    rw (count_if-cons_all c cs values (product lists), count_if-product cs lists)

get?-dict_from :
    (k : Text) (done : Dict Text) (names values : List Text)
    → mem_text k names ≡ false
    → get? k (dict_from done names values) ≡ get? k done
unfolding dict_from mem_text
get?-dict_from k done [] values h = refl
get?-dict_from k done (name ∷ names) [] h = refl
get?-dict_from k done (name ∷ names) (v ∷ values) h =
    ground (arith, get?-dict_from k (set name v done) names values, get?-set k name v done)

pub reads-dict_from :
    (done : Dict Text) (names c values : List Text)
    → AreDistinct names
    → length values ≡ length names
    → reads names c (dict_from done names values) ≡ texts_eq values c
unfolding reads dict_from texts_eq
reads-dict_from done [] [] [] distinct same = refl
reads-dict_from done [] (c ∷ cs) [] distinct same = refl
reads-dict_from done [] c (v ∷ values) distinct same = absurd (omega arith)
reads-dict_from done (name ∷ names) c [] distinct same = absurd (omega arith)
reads-dict_from done (name ∷ names) [] (v ∷ values) distinct same = refl
reads-dict_from done (name ∷ names) (c ∷ cs) (v ∷ values) distinct same = rw (
  get?-dict_from name (set name v done) names values distinct.0,
  get?-set,
  text_eq_refl,
  reads-dict_from (set name v done) names cs values distinct.1 (omega arith),
)

cons_all-length :
    (n : ℕ) (xs : List Text) (tuples : List (List Text))
    → All (λ t. length t ≡ n) tuples
    → All (λ t. length t ≡ suc n) (cons_all xs tuples)
unfolding cons_all
cons_all-length n [] tuples h = tt
cons_all-length n (x ∷ xs) tuples h =
    All-append (λ t. length t ≡ suc n) (map (◌∷◌ x) tuples) (cons_all xs tuples) (heads tuples h)
      (cons_all-length n xs tuples h)
  where
    heads :
        (ts : List (List Text))
        → All (λ t. length t ≡ n) ts
        → All (λ t. length t ≡ suc n) (map (◌∷◌ x) ts)
    heads [] h = tt
    heads (t ∷ ts) h = (ap suc h.0, heads ts h.1)

pub product-length : (lists : List (List Text)) → All (λ t. length t ≡ length lists) (product lists)
unfolding product
product-length [] = (refl, tt)
product-length (xs ∷ lists) =
    cons_all-length (length lists) xs (product lists) (product-length lists)

-- With different names, and as many lists of values, the number of the models whose parameters are a
-- choice of values is the number of ways to make this choice: each combination of values occurs, as
-- often as its values stand in the lists.
pub create_all_permutations-choices :
    (names : List Text) (lists : List (List Text)) (n_models : ℕ) (c : List Text)
    → AreDistinct names
    → length names ≡ length lists
    → count_if (reads names c) (create_all_permutations names lists n_models) ≡ choices c lists
unfolding create_all_permutations dict_zip
create_all_permutations-choices names lists n_models c distinct same =
    count_if-map (dict_zip names) (reads names c) (λ t. texts_eq t c) (product lists)
      (All-map (λ t h. reads-dict_from [] names c t distinct (h ∙ sym same)) (product lists)
        (product-length lists))
    ∙ count_if-product c lists
