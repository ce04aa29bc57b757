-- ===== src/Schemas/Protocol.antt =====
-- schemas/dragonRequests.py and schemas/dragonResponses.py: the registries of the Dragon server's
-- protocol, and schemas/utils.py, SocketSchemaTranslator, over a socket that is a parameter.
use smart_sim.Common.Results.{returned, raised}
use smart_sim.Common.{◌≡◌, refl, true, [], ◌∷◌, List, Text, codes, ℕ, text_eq}
use smart_sim.Common.Dict.{contains, set}
use smart_sim.Common.Split.{has_char}
use smart_sim.Dragon.Server.{
  DragonRequest, run, update_status, stop, handshake, bootstrap, shutdown,
}
use smart_sim.Schemas.{Pydantic, SchemaRegistry, Result, register_all, to_string, from_string}
use smart_sim.Schemas.Keys.{IsRegistry, empty-IsRegistry, register_all-IsRegistry}
use smart_sim.Schemas.RoundTrip.{IsReadBack, has_class, to_string-from_string}

abbrev pub request_classes : List (Text × Text)
request_classes =
    (codes "run", codes "DragonRunRequest")
    ∷ (codes "update_status", codes "DragonUpdateStatusRequest")
    ∷ (codes "stop", codes "DragonStopRequest")
    ∷ (codes "handshake", codes "DragonHandshakeRequest")
    ∷ (codes "bootstrap", codes "DragonBootstrapRequest")
    ∷ (codes "shutdown", codes "DragonShutdownRequest")
    ∷ []

abbrev pub response_classes : List (Text × Text)
response_classes =
    (codes "run", codes "DragonRunResponse")
    ∷ (codes "status_update", codes "DragonUpdateStatusResponse")
    ∷ (codes "stop", codes "DragonStopResponse")
    ∷ (codes "handshake", codes "DragonHandshakeResponse")
    ∷ (codes "bootstrap", codes "DragonBootstrapResponse")
    ∷ (codes "shutdown", codes "DragonShutdownResponse")
    ∷ []

abbrev registered : Result SchemaRegistry → SchemaRegistry
registered (returned registry) = registry
registered (raised e) = []

unfoldable pub request_registry : SchemaRegistry
unfolding register_all
request_registry = registered (register_all request_classes [])

unfoldable pub response_registry : SchemaRegistry
unfolding register_all
response_registry = registered (register_all response_classes [])

-- The class of a request.
unfoldable pub class_of_request : DragonRequest → Text
class_of_request (run request) = codes "DragonRunRequest"
class_of_request (update_status step_ids) = codes "DragonUpdateStatusRequest"
class_of_request (stop step_id) = codes "DragonStopRequest"
class_of_request handshake = codes "DragonHandshakeRequest"
class_of_request (bootstrap address) = codes "DragonBootstrapRequest"
class_of_request (shutdown immediate frontend) = codes "DragonShutdownRequest"

module _ {ℓ κ} {A : Type ℓ} {S : Type κ} (pydantic : Pydantic A) where
  abbrev send_text : (Text → ℕ → S → S) → ℕ → S → Result Text → Result S
  send_text send_string flags socket (returned text) = returned (send_string text flags socket)
  send_text send_string flags socket (raised e) = raised e

  -- SocketSchemaTranslator.send: the socket after send_string
  unfoldable pub send : (Text → ℕ → S → S) → SchemaRegistry → A → ℕ → S → Result S
  unfolding to_string
  send send_string registry schema flags socket =
      send_text send_string flags socket (to_string pydantic registry schema)

  -- SocketSchemaTranslator.recv: what recv_string gives is read, and the socket goes on.
  unfoldable pub recv : (ℕ → S → Text × S) → SchemaRegistry → ℕ → S → Result A × S
  unfolding from_string
  recv recv_string registry flags socket =
      let (text, next) = recv_string flags socket in (from_string pydantic registry text, next)

pub request_registry-IsRegistry : IsRegistry request_registry
unfolding request_registry has_char contains set text_eq
request_registry-IsRegistry =
    register_all-IsRegistry request_classes [] request_registry empty-IsRegistry refl

request-has_class :
    (request : DragonRequest) → has_class (class_of_request request) request_registry ≡ true
unfolding has_class request_registry class_of_request has_char contains set text_eq
request-has_class (run request) = refl
request-has_class (update_status step_ids) = refl
request-has_class (stop step_id) = refl
request-has_class handshake = refl
request-has_class (bootstrap address) = refl
request-has_class (shutdown immediate frontend) = refl

-- Every request of the Dragon protocol is sent over a socket that keeps what it is sent, and is
-- received as that request, if pydantic reads the request back from its JSON text and knows its class.
pub send-recv {κ} :
    {S : Type κ} (pydantic : Pydantic DragonRequest) (send_string : Text → ℕ → S → S)
    (recv_string : ℕ → S → Text × S) (request : DragonRequest) (flags : ℕ) (socket : S)
    → IsReadBack pydantic request
    → pydantic.class_of request ≡ class_of_request request
    → ((text : Text) → recv_string flags (send_string text flags socket) ≡ (text, socket))
    → (sent : S) × (send pydantic send_string request_registry request flags socket ≡ returned sent)
      × (recv pydantic recv_string request_registry flags sent ≡ (returned request, socket))
unfolding send recv
send-recv pydantic send_string recv_string request flags socket codec classes keeps =
    let (text, e, back) =
      to_string-from_string pydantic request_registry request codec request_registry-IsRegistry
        (rw classes (request-has_class request)) in
    (send_string text flags socket, rw e refl, rw (keeps text, back) refl)
