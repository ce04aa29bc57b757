-- ===== src/Schemas/RoundTrip.antt =====
-- schemas/utils.py: what from_string makes of the texts of to_string, and of any text.
use smart_sim.Common.Results.{returned}
use smart_sim.Common.{
  ◌≡◌, refl, Bool, true, false, ◌||◌, ◌∷◌, [], ◌++◌, Text, text_eq, arith, All, some,
}
use smart_sim.Common.Dict.{Dict, get?, contains, set, contains-set, contains-get?}
use smart_sim.Common.Entries.{All-set, All-get?, All-found, All-zip}
use smart_sim.Common.Split.{has_char}
use smart_sim.Schemas.{
  Pydantic, SchemaRegistry, delimiter, split_once, reverse_from, reverse_map, new_message,
  to_message, to_string, str, from_parts, from_string,
}
use smart_sim.Schemas.Keys.{IsKey, IsRegistry}

split_once-append :
    (header payload : Text)
    → has_char delimiter header ≡ false
    → split_once delimiter (header ++ delimiter ∷ payload) ≡ some (header, payload)
unfolding split_once has_char
split_once-append [] payload h = refl
split_once-append (c ∷ header) payload h = ground (arith, split_once-append header payload)

-- Every entry of the reversed map names a key of its class.
reverse_from-All :
    (P : Text × Text → Type 0) (done : Dict Text) (registry : SchemaRegistry)
    → All P done
    → All (λ e. P (e.1, e.0)) registry
    → All P (reverse_from done registry)
unfolding reverse_from
reverse_from-All P done [] h k = h
reverse_from-All P done ((key, cls) ∷ registry) h k =
    reverse_from-All P (set cls key done) registry (All-set P cls key done h k.0) k.1

-- Whether a class is one of the registered ones.
unfoldable pub has_class : Text → SchemaRegistry → Bool
has_class cls [] = false
has_class cls ((key, c) ∷ registry) = text_eq c cls || has_class cls registry

reverse_from-contains :
    (cls : Text) (done : Dict Text) (registry : SchemaRegistry)
    → contains cls (reverse_from done registry) ≡ (has_class cls registry || contains cls done)
unfolding reverse_from has_class
reverse_from-contains cls done [] = refl
reverse_from-contains cls done ((key, c) ∷ registry) =
    ground (arith, reverse_from-contains cls (set c key done) registry, contains-set cls c key done)

-- The key that a class is sent under: it is one that messages can begin with, and finds the class.
abbrev KeyOf : SchemaRegistry → Text × Text → Type 0
KeyOf registry (cls, key) = IsKey key × (get? key registry ≡ some cls)

reverse_map-KeyOf :
    (cls key : Text) (registry : SchemaRegistry)
    → IsRegistry registry
    → get? cls (reverse_map registry) ≡ some key
    → KeyOf registry (cls, key)
unfolding reverse_map IsRegistry
reverse_map-KeyOf cls key registry (once, fine) found =
    All-get? (KeyOf registry) cls (reverse_map registry) key
      (reverse_from-All (KeyOf registry) [] registry tt (
        All-zip (λ e. IsKey e.0) (λ e. get? e.0 registry ≡ some e.1) registry fine
          (All-found registry once)))
      found

new_message-IsKey {ℓ} :
    {A : Type ℓ} (a : A) (key : Text)
    → IsKey key
    → new_message a key ≡ returned (record { payload = a; header = key })
unfolding new_message
new_message-IsKey a [] fine = cc
new_message-IsKey a (c ∷ cs) fine = refl

module _ {ℓ} {A : Type ℓ} (pydantic : Pydantic A) where
  -- What from_string needs of pydantic: the object is read back from its JSON text by its own class.
  abbrev pub IsReadBack : A → Type ℓ
  IsReadBack schema =
      pydantic.parse_raw (pydantic.class_of schema) (pydantic.json schema) ≡ some schema

  sent :
      (registry : SchemaRegistry) (schema : A)
      → IsRegistry registry
      → has_class (pydantic.class_of schema) registry ≡ true
      → (key : Text) × KeyOf registry (pydantic.class_of schema, key)
        × (to_string pydantic registry schema ≡ returned (key ++ delimiter ∷ pydantic.json schema))
  unfolding to_string to_message str reverse_map contains
  sent registry schema fine known =
      let cls = pydantic.class_of schema in
      let (key, found) =
        contains-get? cls (reverse_map registry)
          (ground (arith, reverse_from-contains cls [] registry)) in
      let of_class = reverse_map-KeyOf cls key registry fine found in
      (key, of_class, rw (to_message, found, new_message-IsKey schema key of_class.0))

  -- In a registry whose keys stand once, are not empty and have no delimiter, a schema whose class is
  -- registered gets a text, and from_string reads that text as the schema, if pydantic reads the
  -- schema back from its JSON text.
  pub to_string-from_string :
      (registry : SchemaRegistry) (schema : A)
      → IsReadBack schema
      → IsRegistry registry
      → has_class (pydantic.class_of schema) registry ≡ true
      → (text : Text) × (to_string pydantic registry schema ≡ returned text)
        × (from_string pydantic registry text ≡ returned schema)
  unfolding from_string from_parts new_message
  to_string-from_string registry schema codec fine known =
      let (key, (plain, found), e) = sent registry schema fine known in
      (
        key ++ delimiter ∷ pydantic.json schema,
        e,
        rw (
          from_string,
          from_parts,
          split_once-append key (pydantic.json schema) plain.0,
          found,
          codec,
          new_message-IsKey schema key plain,
        ),
      )
