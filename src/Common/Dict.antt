-- ===== src/Common/Dict.antt =====
-- Python's dict with text keys, as an association list in insertion order.
use Prim.Native.Nat.{◌+◌, ◌≤◌}
use mathlib.Core.Path.{◌≡◌, refl}
use mathlib.Core.Bool.{Bool, true, false, false, ◌||◌}
use mathlib.Core.Logic.{◌≢◌, inl, inr}
use mathlib.Core.Option.{Option, none, some}
use mathlib.Core.List.{List, [], ◌∷◌}
use native.Mathlib.Omega.{arith}
use smart_sim.Common.Tests.{if◌then◌else◌, Bool-cases}
use smart_sim.Common.Lists.{all}
use smart_sim.Common.Texts.{Text, text_eq, text_eq_iff, text_eq_refl, count}

abbrev pub Dict {ℓ} : Type ℓ → Type ℓ
Dict V = List (Text × V)

module _ {ℓ} {V : Type ℓ} where
  -- d.get(k)
  unfoldable pub get? : Text → Dict V → Option V
  get? k [] = none
  get? k ((j, v) ∷ d) = if text_eq j k then some v else get? k d

  -- k in d
  unfoldable pub contains : Text → Dict V → Bool
  contains k [] = false
  contains k ((j, v) ∷ d) = text_eq j k || contains k d

  -- d[k] = v: in place, or at the end.
  unfoldable pub set : Text → V → Dict V → Dict V
  set k v [] = (k, v) ∷ []
  set k v ((j, w) ∷ d) = if text_eq j k then (j, v) ∷ d else (j, w) ∷ set k v d

  -- del d[k] and d.pop(k), for a key that is present; nothing changes for one that is not.
  unfoldable pub del : Text → Dict V → Dict V
  del k [] = []
  del k ((j, v) ∷ d) = let rest = del k d in if text_eq j k then rest else (j, v) ∷ rest

  unfoldable pub keys : Dict V → List Text
  keys [] = []
  keys ((j, v) ∷ d) = j ∷ keys d

  unfoldable pub values : Dict V → List V
  values [] = []
  values ((j, v) ∷ d) = v ∷ values d

  pub get?-set :
      (j k : Text) (v : V) (d : Dict V)
      → get? j (set k v d) ≡ (if text_eq k j then some v else get? j d)
  unfolding get? set
  get?-set j k v [] = refl
  get?-set j k v ((i, w) ∷ d) =
      ground (arith, text_eq_iff k j, text_eq_iff i k, text_eq_iff i j, get?-set j k v d)

  pub get?-del :
      (j k : Text) (d : Dict V) → get? j (del k d) ≡ (if text_eq k j then none else get? j d)
  unfolding get? del
  get?-del j k [] = ground arith
  get?-del j k ((i, w) ∷ d) =
      ground (arith, text_eq_iff k j, text_eq_iff i k, text_eq_iff i j, get?-del j k d)

  pub set-set : (k : Text) (v w : V) (d : Dict V) → set k v (set k w d) ≡ set k v d
  unfolding set
  set-set k v w [] = rw (text_eq_refl k)
  set-set k v w ((i, u) ∷ d) = elim (Bool-cases (text_eq i k)) [
    | inl same ↦ ground arith
    | inr other ↦ ground (arith, set-set k v w d)
  ]

  pub get?-set_self : (k : Text) (v : V) (d : Dict V) → get? k (set k v d) ≡ some v
  get?-set_self k v d = rw (get?-set, text_eq_refl)

  pub get?-set_other : (j k : Text) (v : V) (d : Dict V) → k ≢ j → get? j (set k v d) ≡ get? j d
  get?-set_other j k v d ne = ground (arith, get?-set j k v d, text_eq_iff k j)

  pub get?-del_other : (j k : Text) (d : Dict V) → k ≢ j → get? j (del k d) ≡ get? j d
  get?-del_other j k d ne = ground (arith, get?-del j k d, text_eq_iff k j)

  -- What a test finds of all values holds of the one that is looked up.
  pub get?-all :
      (p : V → Bool) (k : Text) (d : Dict V) {v : V}
      → all (λ e. p e.1) d ≡ true
      → get? k d ≡ some v
      → p v ≡ true
  unfolding get?
  get?-all p k [] h e = cc
  get?-all p k ((j, w) ∷ d) h e = elim (Bool-cases (text_eq j k)) [
    | inl same ↦ ground arith
    | inr other ↦ get?-all p k d (ground arith) (rw other at e)
  ]

  pub contains-get? : (k : Text) (d : Dict V) → contains k d ≡ true → (v : V) × (get? k d ≡ some v)
  unfolding contains get?
  contains-get? k [] h = cc
  contains-get? k ((j, v) ∷ d) h = elim (Bool-cases (text_eq j k)) [
    | inl same ↦ (v, rw (same, get?))
    | inr other ↦ rw (other, get?) (contains-get? k d (rw other at h))
  ]

  pub get?-contains : (k : Text) (d : Dict V) (v : V) → get? k d ≡ some v → contains k d ≡ true
  unfolding contains get?
  get?-contains k [] v h = cc
  get?-contains k ((j, w) ∷ d) v h = ground (arith, get?-contains k d v)

  pub contains-set :
      (j k : Text) (v : V) (d : Dict V) → contains j (set k v d) ≡ (text_eq k j || contains j d)
  unfolding contains set
  contains-set j k v [] = ground arith
  contains-set j k v ((i, w) ∷ d) =
      ground (arith, text_eq_iff k j, text_eq_iff i k, text_eq_iff i j, contains-set j k v d)

  pub contains-count : (k : Text) (d : Dict V) → contains k d ≡ true → 1 ≤ count k (keys d)
  unfolding contains keys count
  contains-count k [] h = cc
  contains-count k ((j, v) ∷ d) h = ground (arith, contains-count k d)

  pub count-contains : (k : Text) (d : Dict V) → 1 ≤ count k (keys d) → contains k d ≡ true
  unfolding contains keys count
  count-contains k [] h = absurd (omega arith)
  count-contains k ((j, v) ∷ d) h = ground (arith, count-contains k d)

  pub count-keys-set :
      (j k : Text) (v : V) (d : Dict V)
      → count j (keys (set k v d))
        ≡ count j (keys d) + (if contains k d then 0 else if text_eq k j then 1 else 0)
  unfolding contains keys count set
  count-keys-set j k v [] = ground arith
  count-keys-set j k v ((i, w) ∷ d) =
      ground (arith, text_eq_iff i k, text_eq_iff k j, text_eq_iff i j, count-keys-set j k v d)

  pub count-keys-del :
      (j k : Text) (d : Dict V)
      → count j (keys (del k d)) ≡ (if text_eq k j then 0 else count j (keys d))
  unfolding keys count del
  count-keys-del j k [] = ground arith
  count-keys-del j k ((i, w) ∷ d) =
      ground (arith, text_eq_iff i k, text_eq_iff k j, text_eq_iff i j, count-keys-del j k d)

  -- A write keeps the keys apart.
  pub once-set :
      (j k : Text) (v : V) (d : Dict V)
      → ((i : Text) → count i (keys d) ≤ 1)
      → count j (keys (set k v d)) ≤ 1
  once-set j k v d once =
      ground (arith, count-keys-set j k v d, once j, count-contains k d, text_eq_iff k j)
