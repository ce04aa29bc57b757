-- ===== src/Schemas.antt =====
-- schemas/utils.py: the registries of message classes and the texts that go over a socket. A class is
-- known by its name; pydantic (the class of an object, json and parse_raw) is a parameter.
pub mod Keys
pub mod RoundTrip
pub mod Accepts
pub mod Protocol
mod Tests
use smart_sim.Common.Results.{Outcome, returned, raised, ◌>>=◌, Outcome-cases, two_steps}
use smart_sim.Common.{
  ℕ, Bool, true, false, ◌==◌, List, [], ◌∷◌, ◌++◌, Option, none, some, Text, if◌then◌else◌,
}
use smart_sim.Common.Dict.{Dict, get?, contains, set}
use smart_sim.Common.Split.{has_char}

-- What the registry asks of pydantic for the schemas `A`.
pub record Pydantic {ℓ} (A : Type ℓ) : Type ℓ where
  -- type(schema)
  pub class_of : A → Text
  pub json : A → Text
  -- cls.parse_raw(payload), `none` where it raises
  pub parse_raw : Text → Text → Option A

-- The exceptions, by what has gone wrong.
pub data SchemaError : Type 0 where
  -- ValueError of register
  delimiter_in_key : SchemaError
  -- KeyError of register
  empty_key : SchemaError
  registered_key : Text → SchemaError
  -- TypeError of to_string
  unregistered_type : Text → SchemaError
  -- ValueError of from_string
  no_delimiter : Text → SchemaError
  unknown_type : Text → SchemaError
  -- pydantic's own errors
  invalid_payload : SchemaError
  empty_header : SchemaError

abbrev pub Result {ℓ} : Type ℓ → Type ℓ
Result A = Outcome SchemaError A

-- _DEFAULT_MSG_DELIM
abbrev pub delimiter : ℕ
delimiter = b'|'

abbrev prepend : ℕ → Option (Text × Text) → Option (Text × Text)
prepend x none = none
prepend x (some (header, payload)) = some (x ∷ header, payload)

-- text.split(sep, 1), `none` where the two parts cannot be unpacked.
unfoldable pub split_once : ℕ → Text → Option (Text × Text)
split_once sep [] = none
split_once sep (x ∷ xs) =
    let rest = split_once sep xs in if x == sep then some ([], xs) else prepend x rest

pub record Message {ℓ} (A : Type ℓ) : Type ℓ where
  pub payload : A
  pub header : Text

-- The names of the classes by their keys.
abbrev pub SchemaRegistry : Type 0
SchemaRegistry = Dict Text

abbrev pub is_empty : Text → Bool
is_empty [] = true
is_empty (x ∷ xs) = false

-- register(key), and the decorator that it returns, on the class.
unfoldable pub register : Text → Text → SchemaRegistry → Result SchemaRegistry
register key cls registry =
    if has_char delimiter key
    then raised delimiter_in_key
    else if is_empty key
    then raised empty_key
    else if contains key registry
    then raised (registered_key key)
    else returned (set key cls registry)

-- dict((v, k) for k, v in self._map.items()), after the pairs read so far.
unfoldable pub reverse_from : Dict Text → SchemaRegistry → Dict Text
reverse_from done [] = done
reverse_from done ((key, cls) ∷ registry) = reverse_from (set cls key done) registry

unfoldable pub reverse_map : SchemaRegistry → Dict Text
unfolding reverse_from
reverse_map = reverse_from []

-- _Message(payload, header, delimiter): pydantic refuses an empty header.
unfoldable pub new_message {ℓ} : {A : Type ℓ} → A → Text → Result (Message A)
new_message payload [] = raised empty_header
new_message payload (c ∷ cs) = returned (record { payload = payload; header = c ∷ cs })

module _ {ℓ} {A : Type ℓ} (pydantic : Pydantic A) where
  unfoldable pub str : Message A → Text
  str msg = msg.header ++ delimiter ∷ pydantic.json msg.payload

  unfoldable pub to_message : SchemaRegistry → A → Result (Message A)
  unfolding new_message reverse_map
  to_message registry schema = elim (get? (pydantic.class_of schema) (reverse_map registry)) [
    | none ↦ raised (unregistered_type (pydantic.class_of schema))
    | some key ↦ new_message schema key
  ]

  abbrev as_text : Result (Message A) → Result Text
  as_text (returned msg) = returned (str msg)
  as_text (raised e) = raised e

  unfoldable pub to_string : SchemaRegistry → A → Result Text
  unfolding to_message str
  to_string registry schema = as_text (to_message registry schema)

  -- _Message.from_str, after the split
  unfoldable pub from_parts : Text → Text → Text → Result (Message A)
  unfolding new_message
  from_parts cls header payload = elim (pydantic.parse_raw cls payload) [
    | none ↦ raised invalid_payload
    | some schema ↦ new_message schema header
  ]

  -- msg.payload
  abbrev pub from_message : Result (Message A) → Result A
  from_message (returned msg) = returned msg.payload
  from_message (raised e) = raised e

  unfoldable pub from_string : SchemaRegistry → Text → Result A
  unfolding split_once from_parts
  from_string registry text = elim (split_once delimiter text) [
    | none ↦ raised (no_delimiter text)
    | some (type_, payload) ↦ elim (get? type_ registry) [
      | none ↦ raised (unknown_type type_)
      | some cls ↦ from_message (from_parts cls type_ payload)
    ]
  ]

-- The registrations of a module, in the order of its classes; the first error ends the import.
unfoldable pub register_all : List (Text × Text) → SchemaRegistry → Result SchemaRegistry
unfolding register
register_all [] registry = returned registry
register_all ((key, cls) ∷ classes) registry = elim (register key cls registry) [
  | returned next ↦ register_all classes next
  | raised e ↦ raised e
]
