-- ===== src/Proxy/Hub.antt =====
-- pkg/proxy/proxy.go: what the proxy does with what its channels bring. Each method is one step, as
-- if the goroutines took turns.
use text.Mathlib.Text
use spanreed_netcode_proxy.Prelude.{
  ℕ, ◌-◌, Bool, String, Option, none, some, List, [], ◌∷◌, ◌++◌, if◌then◌else◌,
}
use spanreed_netcode_proxy.Proxy.Store.{
  ClientStore, StoreError, get_new_client_id, create_client, remove_client, connect,
  set_destination_handler_name, get_destination_handler_name, get_client_handler_name,
  get_timeout_client_list, get_auth_timeout_client_list,
}
use spanreed_netcode_proxy.Proxy.State.{
  same_name, Error, Message, OpenCommand, Verdict, Proxy, has_name, Outcome, put, fails, Timeouts,
  store_error, missing_destination_handler, missing_client_handler, no_matching_handler,
  name_collision, auth_timeout, connection_timeout, to_client, to_destination, verdict_to_client,
  open_at_destination, close_at_client, close_at_destination,
}
pub mod Start
pub mod Clients
pub mod Kicking
pub mod Routing

-- The id that is returned: 0 with an error.
granted : Option StoreError → ℕ → ℕ
granted none id = id
granted (some e) id = 0

-- `GetNextClientId` of the handler with the name.
unfoldable pub get_next_client_id : String → (now : ℕ) → Proxy → Option StoreError × ℕ × Proxy
unfolding granted
get_next_client_id name now p =
    let (id, store) = get_new_client_id p.client_store in
    let (e, store') = create_client id name now store in
    (e, granted e id, record p { client_store = store' })

unfoldable pub create_client_message_handler : String → Proxy → Outcome
create_client_message_handler name p =
    if has_name name p.outgoing_clients
    then fails (name_collision name) p
    else (none, record p { outgoing_clients = name ∷ p.outgoing_clients })

unfoldable pub create_destination_message_handler : String → (String → Bool) → Proxy → Outcome
create_destination_message_handler name matches p =
    if has_name name p.outgoing_destinations then fails (name_collision name) p else (
      none,
      record p {
        outgoing_destinations = name ∷ p.outgoing_destinations;
        connected_destinations = p.connected_destinations ++ (name, matches) ∷ [];
      },
    )

forward_to_destination : Option String → (now : ℕ) → Message → Proxy → Outcome
forward_to_destination none now msg p =
    fails (store_error (StoreError.missing_client_id msg.client_id)) p
forward_to_destination (some name) now msg p =
    if has_name name p.outgoing_destinations
    then (none, put (to_destination name (record msg { route_timestamp = now })) p)
    else fails (missing_destination_handler name) p

unfoldable pub forward_client_message : (now : ℕ) → Message → Proxy → Outcome
unfolding forward_to_destination
forward_client_message now msg p =
    forward_to_destination (get_destination_handler_name msg.client_id p.client_store) now msg p

forward_to_client : Option String → (now : ℕ) → Message → Proxy → Outcome
forward_to_client none now msg p =
    fails (store_error (StoreError.missing_client_id msg.client_id)) p
forward_to_client (some name) now msg p =
    if has_name name p.outgoing_clients
    then (none, put (to_client name (record msg { route_timestamp = now })) p)
    else fails (missing_client_handler name) p

unfoldable pub forward_destination_message : (now : ℕ) → Message → Proxy → Outcome
unfolding forward_to_client
forward_destination_message now msg p =
    forward_to_client (get_client_handler_name msg.client_id p.client_store) now msg p

-- A name that the store does not have is the empty name here.
send_client_disconnect : ℕ → Option String → Error → Proxy → Proxy
send_client_disconnect id none reason p = p
send_client_disconnect id (some name) reason p =
    if same_name name ""
    then p
    else if has_name name p.outgoing_clients
    then put (close_at_client name id reason) p
    else p

send_destination_disconnect : ℕ → Option String → Error → Proxy → Proxy
send_destination_disconnect id none reason p = p
send_destination_disconnect id (some name) reason p =
    if same_name name ""
    then p
    else if has_name name p.outgoing_destinations
    then put (close_at_destination name id reason) p
    else p

unfoldable pub kick_client : ℕ → Error → Proxy → Proxy
unfolding send_client_disconnect send_destination_disconnect
kick_client id reason p =
    let client_handler_name = get_client_handler_name id p.client_store in
    let destination_handler_name = get_destination_handler_name id p.client_store in
    let q = send_client_disconnect id client_handler_name reason p in
    let r = send_destination_disconnect id destination_handler_name reason q in
    record r { client_store = remove_client id r.client_store }

unfoldable pub kick_clients : List ℕ → Error → Proxy → Proxy
kick_clients [] reason p = p
kick_clients (id ∷ ids) reason p = kick_clients ids reason (kick_client id reason p)

-- The clock is read once for each deadline.
unfoldable pub kick_old_clients : Timeouts → (now_c now_d now_l : ℕ) → Proxy → Proxy
unfolding kick_clients
kick_old_clients timeouts now_c now_d now_l p =
    kick_clients
      (get_timeout_client_list (now_c - timeouts.client_message)
        (now_d - timeouts.destination_message) (now_l - timeouts.max_connection_length)
        p.client_store)
      connection_timeout p

unfoldable pub check_for_auth_timeouts : Timeouts → (now : ℕ) → Proxy → Proxy
unfolding kick_clients
check_for_auth_timeouts timeouts now p =
    kick_clients (get_auth_timeout_client_list (now - timeouts.client_auth) p.client_store)
      auth_timeout p

-- The first destination handler that matches the connection string.
abbrev pub matching : String → List (String × (String → Bool)) → Option String
matching connection_string [] = none
matching connection_string ((name, matches) ∷ handlers) =
    if matches connection_string then some name else matching connection_string handlers

-- `SetDestinationHandlerName`, and the command for the handler unless that fails.
open_at : String → OpenCommand → Option StoreError × ClientStore → Proxy → Outcome
open_at name msg (some e, store) p = fails (store_error e) p
open_at name msg (none, store) p =
    (none, put (open_at_destination name msg) (record p { client_store = store }))

attach : Option String → OpenCommand → Proxy → Outcome
unfolding open_at
attach none msg p = fails (no_matching_handler msg.connection_string) p
attach (some name) msg p =
    if has_name name p.outgoing_destinations
    then open_at name msg (set_destination_handler_name msg.client_id name p.client_store) p
    else fails (missing_destination_handler name) p

kick_on_error : ℕ → Outcome → Outcome
kick_on_error id (none, p) = (none, p)
kick_on_error id (some e, p) = (some e, kick_client id e p)

request_at : Option String → (now : ℕ) → OpenCommand → Proxy → Outcome
unfolding attach kick_on_error
request_at none now msg p = fails (store_error (StoreError.missing_client_id msg.client_id)) p
request_at (some name) now msg p =
    if same_name name ""
    then kick_on_error msg.client_id (
        attach (matching msg.connection_string p.connected_destinations)
          (record msg { route_timestamp = now }) p)
    else (none, p)

unfoldable pub handle_client_connection_request_message : (now : ℕ) → OpenCommand → Proxy → Outcome
unfolding request_at
handle_client_connection_request_message now msg p =
    request_at (get_destination_handler_name msg.client_id p.client_store) now msg p

verdict_to : Option String → Verdict → Proxy → Outcome
verdict_to none msg p = fails (store_error (StoreError.missing_client_id msg.client_id)) p
verdict_to (some name) msg p =
    if has_name name p.outgoing_clients
    then (
      none,
      put (verdict_to_client name msg)
          (record p { client_store = (connect msg.client_id p.client_store).1 }),
    )
    else fails (missing_client_handler name) p

unfoldable pub forward_destination_verdict : Verdict → Proxy → Outcome
unfolding verdict_to
forward_destination_verdict msg p =
    verdict_to (get_client_handler_name msg.client_id p.client_store) msg p
