-- ===== src/Schemas/Tests.antt =====
-- The theorems about the registries of messages at concrete inputs.
use mathlib.Core.Option.{some-injective}
use smart_sim.Common.Results.{returned, raised}
use smart_sim.Common.{
  inl, inr, ap, sym, ◌∙◌, Bool-cases, text_eq_iff, arith, ◌≡◌, ◌↔◌, refl, true, false,
  if◌then◌else◌, [], ◌∷◌, Text, codes, text_eq, none, some, List, Option, ℕ,
}
use smart_sim.Common.Dict.{get?, contains, set}
use smart_sim.Common.Split.{has_char}
use smart_sim.Dragon.Server.{DragonRequest, shutdown, stop}
use smart_sim.Schemas.{
  Pydantic, SchemaRegistry, register, register_all, split_once, reverse_from, reverse_map,
  new_message, to_message, to_string, str, from_parts, from_string, no_delimiter, unknown_type,
}
use smart_sim.Schemas.Keys.{IsKey, register-accepts}
use smart_sim.Schemas.RoundTrip.{has_class}
use smart_sim.Schemas.Accepts.{Names, IsTyped, from_string-Names}
use smart_sim.Schemas.Protocol.{
  request_registry, response_registry, class_of_request, send, recv, send-recv,
}

-- A class with two objects, and a class of texts.
abbrev read : Text → Text → Option DragonRequest
read cls payload =
    if text_eq cls (codes "DragonStopRequest")
    then some (stop payload)
    else if text_eq cls (codes "DragonShutdownRequest")
    then some (shutdown true true)
    else none

abbrev json : DragonRequest → Text
json (stop step_id) = step_id
json request = codes "{}"

unfoldable program : Unit {0}
unfolding register register_all split_once reverse_from reverse_map new_message to_message to_string
    str from_parts from_string has_class request_registry response_registry class_of_request send
    recv has_char contains set get? text_eq
program = tt

abbrev pydantic : Pydantic DragonRequest
unfolding class_of_request
pydantic = record { class_of = class_of_request; json = json; parse_raw = read }

stop_text : to_string pydantic request_registry (stop (codes "a-1")) ≡ returned (codes "stop|a-1")
unfolding program
stop_text = refl

from_string_errors :
    (from_string pydantic request_registry (codes "stop") ≡ raised (no_delimiter (codes "stop")))
    × (from_string pydantic request_registry (codes "halt|a|b")
        ≡ raised (unknown_type (codes "halt")))
    × (from_string pydantic request_registry (codes "stop|a|b") ≡ returned (stop (codes "a|b")))
unfolding program
from_string_errors = (refl, refl, refl)

-- A socket that keeps what it is sent, the last first.
abbrev take_text : ℕ → List Text → Text × List Text
take_text flags [] = ([], [])
take_text flags (text ∷ socket) = (text, socket)

register-accepts_example :
    ((next : SchemaRegistry) × (register (codes "stop") (codes "B") ((codes "run", codes "A") ∷ [])
        ≡ returned next)
      × ((j : Text)
          → get? j next ≡ (
              if text_eq (codes "stop") j
              then some (codes "B")
              else get? j ((codes "run", codes "A") ∷ []))))
    ↔ (IsKey (codes "stop") × (contains (codes "stop") ((codes "run", codes "A") ∷ []) ≡ false))
register-accepts_example =
    register-accepts (codes "stop") (codes "B") ((codes "run", codes "A") ∷ [])

pydantic-IsTyped : IsTyped pydantic
unfolding class_of_request
pydantic-IsTyped cls payload schema h =
    elim (Bool-cases (text_eq cls (codes "DragonStopRequest"))) [
      | inl same ↦
          ap class_of_request (sym (some-injective _ _ (rw (read, same) at h)))
          ∙ sym ((text_eq_iff cls (codes "DragonStopRequest")).0 same)
      | inr other ↦ elim (Bool-cases (text_eq cls (codes "DragonShutdownRequest"))) [
        | inl same ↦
            ap class_of_request (sym (some-injective _ _ (rw (read, other, same) at h)))
            ∙ sym ((text_eq_iff cls (codes "DragonShutdownRequest")).0 same)
        | inr none_such ↦ absurd (ground arith)
      ]
    ]

from_string-Names_example : Names pydantic request_registry (codes "stop|a-1") (stop (codes "a-1"))
unfolding program
from_string-Names_example =
    from_string-Names pydantic request_registry (codes "stop|a-1") (stop (codes "a-1"))
      pydantic-IsTyped refl

send-recv_example :
    (sent : List Text) × (send pydantic
        (λ text flags socket. text ∷ socket)
        request_registry
        (stop (codes "a-1"))
        0
        []
      ≡ returned sent)
    × (recv pydantic take_text request_registry 0 sent ≡ (returned (stop (codes "a-1")), []))
unfolding program
send-recv_example =
    send-recv pydantic (λ text flags socket. text ∷ socket) take_text (stop (codes "a-1")) 0 [] refl
      refl (λ text. refl)
