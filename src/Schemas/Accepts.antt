-- ===== src/Schemas/Accepts.antt =====
-- schemas/utils.py: the texts that from_string accepts.
use mathlib.Core.Option.{some-injective}
use smart_sim.Common.Results.{returned}
use smart_sim.Common.{
  ◌≡◌, refl, sym, inl, inr, false, ◌==◌, ◌∷◌, [], ◌++◌, Text, ==_iff, subst, Bool-cases,
  Option-cases, arith, some,
}
use smart_sim.Common.Dict.{get?}
use smart_sim.Common.Split.{has_char}
use smart_sim.Schemas.{
  Pydantic, SchemaRegistry, delimiter, split_once, new_message, from_parts, from_string,
  from_message, is_empty,
}
use smart_sim.Schemas.Keys.{IsKey}

abbrev Parts : Text → Text × Text → Type 0
Parts text (header, payload) =
    (text ≡ header ++ delimiter ∷ payload) × (has_char delimiter header ≡ false)

split_once-Parts :
    (text header payload : Text)
    → split_once delimiter text ≡ some (header, payload)
    → Parts text (header, payload)
unfolding split_once has_char
split_once-Parts [] header payload h = absurd (ground arith)
split_once-Parts (c ∷ text) header payload h = elim (Bool-cases (c == delimiter)) [
  | inl same ↦
      subst (Parts (c ∷ text)) (some-injective _ _ (rw (same, split_once) at h))
        (rw ((==_iff c delimiter).0 same) refl, refl)
  | inr other ↦ elim (Option-cases (split_once delimiter text)) [
    | inl gone ↦ absurd (ground arith)
    | inr ((a, b), e) ↦
        let (whole, plain) = split_once-Parts text a b e in
        subst (Parts (c ∷ text)) (some-injective _ _ (rw (other, e, split_once) at h))
          (rw whole refl, rw (has_char, other) plain)
  ]
]

module _ {ℓ} {A : Type ℓ} (pydantic : Pydantic A) where
  new_message-from_message :
      (read schema : A) (key : Text)
      → from_message pydantic (new_message read key) ≡ returned schema
      → (is_empty key ≡ false) × (read ≡ schema)
  unfolding new_message
  new_message-from_message read schema [] h = cc
  new_message-from_message read schema (c ∷ cs) h = (refl, cc)

  -- pydantic gives an object of the class that it is asked for.
  abbrev pub IsTyped : Type ℓ
  IsTyped =
      (cls payload : Text) (schema : A)
      → pydantic.parse_raw cls payload ≡ some schema
      → pydantic.class_of schema ≡ cls

  -- The text is a key, the delimiter and a payload, and the key finds the class of the schema, which
  -- reads the payload as the schema.
  abbrev pub Names : SchemaRegistry → Text → A → Type ℓ
  Names registry text schema =
      (key : Text) × (payload : Text) × (text ≡ key ++ delimiter ∷ payload)
      × IsKey key
      × (get? key registry ≡ some (pydantic.class_of schema))
      × (pydantic.parse_raw (pydantic.class_of schema) payload ≡ some schema)

  pub from_string-Names :
      (registry : SchemaRegistry) (text : Text) (schema : A)
      → IsTyped
      → from_string pydantic registry text ≡ returned schema
      → Names registry text schema
  unfolding from_string from_parts
  from_string-Names registry text schema typed h = elim (Option-cases (split_once delimiter text)) [
    | inl gone ↦ absurd (ground arith)
    | inr ((key, payload), e) ↦ elim (Option-cases (get? key registry)) [
      | inl gone ↦ absurd (ground arith)
      | inr (cls, found) ↦ elim (Option-cases (pydantic.parse_raw cls payload)) [
        | inl gone ↦ absurd (ground arith)
        | inr (read, parsed) ↦
            let (whole, plain) = split_once-Parts text key payload e in
            let (long, same) =
              new_message-from_message read schema key
                (rw (e, found, parsed, from_string, from_parts) at h) in
            let of_class = typed cls payload schema (rw same at parsed) in
            (key, payload, whole, (plain, long), rw of_class found, rw (of_class, sym same) parsed)
      ]
    ]
  ]
