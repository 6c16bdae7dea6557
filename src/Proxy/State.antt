-- ===== src/Proxy/State.antt =====
-- The state of the proxy of pkg/proxy/proxy.go, and what its channels carry
-- (pkg/handlers/proxy_messages.go). A channel to a handler is the list of what was put into it: a
-- channel that is full makes its sender wait, and nothing else.
use text.Mathlib.Text
use spanreed_netcode_proxy.Prelude.{
  ℕ, zero, suc, ◌*◌, Bool, true, false, String, Option, some, List, [], ◌∷◌, ◌++◌, if◌then◌else◌,
}
use spanreed_netcode_proxy.Proxy.Store.{ClientStore, create_client_store, StoreError}

abbrev pub same_name : String → String → Bool
same_name s t = Text.◌==◌ s t

-- An error of a handler is known by its text. `reported` is the error that a close request carries,
-- which may be `nil`.
pub data Error : Type 0 where
  store_error : StoreError → Error
  missing_destination_handler missing_client_handler no_matching_handler name_collision :
      String → Error
  auth_timeout connection_timeout shutdown : Error
  reported : Option String → Error

-- Data of `nil` are nothing.
-- `handlers.ClientMessage` and `handlers.DestinationMessage`
pub record Message : Type 0 where
  pub client_id : ℕ
  pub recv_timestamp : ℕ
  pub route_timestamp : ℕ
  pub data_ : Option (List ℕ)

-- `handlers.OpenClientConnectionCommand`
pub record OpenCommand : Type 0 where
  pub client_id : ℕ
  pub recv_timestamp : ℕ
  pub route_timestamp : ℕ
  pub connection_string : String
  pub app_data : Option (List ℕ)

-- `handlers.OpenClientConnectionVerdict`
pub record Verdict : Type 0 where
  pub client_id : ℕ
  pub verdict : Bool
  pub error : Option String
  pub app_data : Option (List ℕ)

-- `handlers.ClientCloseCommand`
pub record CloseCommand : Type 0 where
  pub client_id : ℕ
  pub reason : String
  pub error : Option String
  pub app_data : Option (List ℕ)

-- What is put into the channels of the handler with the name.
pub data Sent : Type 0 where
  to_client to_destination : String → Message → Sent
  verdict_to_client : String → Verdict → Sent
  open_at_destination : String → OpenCommand → Sent
  close_at_client close_at_destination : String → (client_id : ℕ) → Error → Sent

-- `outgoing_clients` and `outgoing_destinations` are the names for which there are channels.
pub record Proxy : Type 0 where
  pub client_store : ClientStore
  pub outgoing_clients : List String
  pub outgoing_destinations : List String
  pub connected_destinations : List (String × (String → Bool))
  pub sent : List Sent

abbrev pub has_name : String → List String → Bool
has_name name [] = false
has_name name (n ∷ ns) = if same_name n name then true else has_name name ns

-- What a method that can fail returns.
abbrev pub Outcome : Type 0
Outcome = Option (Error) × Proxy

abbrev pub put : Sent → Proxy → Proxy
put s p = record p { sent = p.sent ++ s ∷ [] }

abbrev pub fails : Error → Proxy → Outcome
fails e p = (some e, p)

-- The timeouts, in the unit of the times.
pub record Timeouts : Type 0 where
  pub client_message : ℕ
  pub destination_message : ℕ
  pub client_auth : ℕ
  pub max_connection_length : ℕ

-- A setting that is not positive has its default.
abbrev setting : (config default : ℕ) → ℕ
setting zero default = default
setting (suc n) default = suc n

-- `CreateProxy`, of the settings that the model uses: the limit on the clients, and the timeouts,
-- which are set in milliseconds.
unfoldable pub create_proxy : (max_concurrent_connections : ℕ) → Proxy
create_proxy max_concurrent_connections = record {
  client_store = create_client_store (setting max_concurrent_connections 512);
  outgoing_clients = [];
  outgoing_destinations = [];
  connected_destinations = [];
  sent = [];
}

unfoldable pub create_timeouts :
    (client_message destination_message client_auth max_connection_length : ℕ) → Timeouts
create_timeouts c d a l = record {
  client_message = setting (1000 * c) 60000000;
  destination_message = setting (1000 * d) 15000000;
  client_auth = setting (1000 * a) 10000000;
  max_connection_length = setting (1000 * l) 21600000000;
}
