-- ===== src/Common/Entries.antt =====
-- Predicates on the entries of a dict, through its reads and its writes.
use Prim.Native.Nat.{◌≤◌}
use mathlib.Core.Path.{◌≡◌, sym, subst}
use mathlib.Core.Bool.{true, false}
use mathlib.Core.Logic.{inl, inr}
use mathlib.Core.Option.{some, some-injective}
use mathlib.Core.List.{List, [], ◌∷◌, ◌++◌}
use native.Mathlib.Omega.{arith}
use smart_sim.Common.Tests.{Bool-cases}
use smart_sim.Common.Lists.{All}
use smart_sim.Common.Texts.{Text, text_eq, text_eq_iff, text_eq_refl, count}
use smart_sim.Common.Dict.{
  Dict, get?, set, del, contains, keys, values, get?-contains, contains-count,
}

module _ {ℓ κ} {V : Type ℓ} (P : Text × V → Type κ) where
  pub All-set : (k : Text) (v : V) (d : Dict V) → All P d → P (k, v) → All P (set k v d)
  unfolding set
  All-set k v [] h p = (p, tt)
  All-set k v ((j, w) ∷ d) h p = elim (Bool-cases (text_eq j k)) [
    | inl same ↦ rw same (subst (λ i. P (i, v)) (sym ((text_eq_iff j k).0 same)) p, h.1)
    | inr other ↦ rw other (h.0, All-set k v d h.1 p)
  ]

  pub All-del : (k : Text) (d : Dict V) → All P d → All P (del k d)
  unfolding del
  All-del k [] h = tt
  All-del k ((j, w) ∷ d) h = elim (Bool-cases (text_eq j k)) [
    | inl same ↦ rw same (All-del k d h.1)
    | inr other ↦ rw other (h.0, All-del k d h.1)
  ]

  pub All-get? : (k : Text) (d : Dict V) (v : V) → All P d → get? k d ≡ some v → P (k, v)
  unfolding get?
  All-get? k [] v h e = cc
  All-get? k ((j, w) ∷ d) v h e = elim (Bool-cases (text_eq j k)) [
    | inl same ↦
        subst (λ i. P (i, v)) ((text_eq_iff j k).0 same)
          (subst (λ u. P (j, u)) (some-injective w v (rw same at e)) h.0)
    | inr other ↦ All-get? k d v h.1 (rw other at e)
  ]

module _ {ℓ κ μ} {A : Type ℓ} {P : A → Type κ} {Q : A → Type μ} where
  pub All-map : ((a : A) → P a → Q a) → (xs : List A) → All P xs → All Q xs
  All-map f [] h = tt
  All-map f (x ∷ xs) h = (f x h.0, All-map f xs h.1)

module _ {ℓ κ} {A : Type ℓ} (P : A → Type κ) where
  pub All-append : (xs ys : List A) → All P xs → All P ys → All P (xs ++ ys)
  All-append [] ys h k = k
  All-append (x ∷ xs) ys h k = (h.0, All-append xs ys h.1 k)

module _ {ℓ κ μ} {A : Type ℓ} (P : A → Type κ) (Q : A → Type μ) where
  pub All-zip : (xs : List A) → All P xs → All Q xs → All (λ a. P a × Q a) xs
  All-zip [] h k = tt
  All-zip (x ∷ xs) h k = ((h.0, k.0), All-zip xs h.1 k.1)

module _ {ℓ κ} {V : Type ℓ} (P : V → Type κ) where
  pub All-values : (d : Dict V) → All (λ e. P e.1) d → All P (values d)
  unfolding values
  All-values [] h = tt
  All-values ((k, v) ∷ d) h = (h.0, All-values d h.1)

-- Every key of a dict is in it.
pub All-contains {ℓ} : {V : Type ℓ} (d : Dict V) → All (λ e. contains e.0 d ≡ true) d
unfolding contains
All-contains [] = tt
All-contains ((k, v) ∷ d) = (rw text_eq_refl, All-map (λ e h. ground (arith, h)) d (All-contains d))

module _ {ℓ} {V : Type ℓ} where
  -- The keys other than `k`.
  abbrev pub Other : Text → Text × V → Type 0
  Other k (j, v) = text_eq j k ≡ false

  pub del-Other : (k : Text) (d : Dict V) → All (Other k) (del k d)
  unfolding del
  del-Other k [] = tt
  del-Other k ((j, v) ∷ d) = elim (Bool-cases (text_eq j k)) [
    | inl same ↦ rw same (del-Other k d)
    | inr other ↦ rw other (other, del-Other k d)
  ]

  pub absent-Other : (k : Text) (d : Dict V) → contains k d ≡ false → All (Other k) d
  unfolding contains
  absent-Other k [] h = tt
  absent-Other k ((j, v) ∷ d) h = (ground arith, absent-Other k d (ground arith))

  -- Where keys stand once, each entry is the one that its key finds.
  pub All-found :
      (d : Dict V) → ((k : Text) → count k (keys d) ≤ 1) → All (λ e. get? e.0 d ≡ some e.1) d
  unfolding get? keys count
  All-found [] once = tt
  All-found ((j, v) ∷ d) once = (
    ground (arith, text_eq_refl j),
    All-map
        (λ e h. ground (
          arith,
          h,
          once j,
          get?-contains e.0 d e.1,
          contains-count e.0 d,
          text_eq_iff j e.0,
          text_eq_refl j,
        ))
        d (All-found d (λ k. ground (arith, once k))),
  )
