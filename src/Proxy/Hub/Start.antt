-- ===== src/Proxy/Hub/Start.antt =====
-- `Start` of pkg/proxy/proxy.go: its goroutines, and what it does when they have ended.
use spanreed_netcode_proxy.Prelude.{Bool, ℕ, String, Option, none, some, List, [], ◌∷◌}
use spanreed_netcode_proxy.Proxy.Store.{
  ClientStore, StoreError, ClientConnectionMetadata, set_client_recv_timestamp,
  set_destination_recv_timestamp, kick_all,
}
use spanreed_netcode_proxy.Proxy.State.{
  Error, Message, OpenCommand, Verdict, CloseCommand, Proxy, Outcome, Timeouts, shutdown, reported,
}
use spanreed_netcode_proxy.Proxy.Hub.{
  create_client_message_handler, create_destination_message_handler, kick_client, kick_old_clients,
  check_for_auth_timeouts, forward_client_message, forward_destination_message,
  forward_destination_verdict, handle_client_connection_request_message, get_next_client_id,
  send_client_disconnect, send_destination_disconnect,
}
pub mod Stopping

-- A handler is created, a client handler asks for an id, or what the goroutines of `Start` wait for:
-- the channels of the client handlers and of the destination handlers, and the ticker. `now` is what the clock gives when the event is handled,
-- `then_` when it has been.
pub data Event : Type 0 where
  client_message : (now then_ : ℕ) → Message → Event
  connection_request : (now : ℕ) → OpenCommand → Event
  client_close destination_close : CloseCommand → Event
  destination_message : (now then_ : ℕ) → Message → Event
  destination_verdict : Verdict → Event
  tick : (now_c now_d now_l now_a : ℕ) → Event
  client_handler : (name : String) → Event
  destination_handler : (name : String) (matches : String → Bool) → Event
  next_client_id : (handler : String) (now : ℕ) → Event

-- The timestamp is set only if the message has been forwarded.
unfoldable pub stamped :
    (ℕ → ℕ → ClientStore → Option StoreError × ClientStore) → ℕ → ℕ → Outcome → Proxy
stamped set id then_ (none, p) = record p { client_store = (set id then_ p.client_store).1 }
stamped set id then_ (some e, p) = p

unfoldable pub step : Timeouts → Event → Proxy → Proxy
unfolding stamped
step timeouts (client_message now then_ msg) p =
    stamped set_client_recv_timestamp msg.client_id then_ (forward_client_message now msg p)
step timeouts (connection_request now msg) p =
    (handle_client_connection_request_message now msg p).1
step timeouts (client_close cmd) p = kick_client cmd.client_id (reported cmd.error) p
step timeouts (destination_close cmd) p = kick_client cmd.client_id (reported cmd.error) p
step timeouts (destination_message now then_ msg) p =
    stamped set_destination_recv_timestamp msg.client_id then_
      (forward_destination_message now msg p)
step timeouts (destination_verdict msg) p = (forward_destination_verdict msg p).1
step timeouts (tick now_c now_d now_l now_a) p =
    check_for_auth_timeouts timeouts now_a (kick_old_clients timeouts now_c now_d now_l p)
step timeouts (client_handler name) p = (create_client_message_handler name p).1
step timeouts (destination_handler name matches) p =
    (create_destination_message_handler name matches p).1
step timeouts (next_client_id handler now) p = (get_next_client_id handler now p).2

unfoldable pub run : Timeouts → List Event → Proxy → Proxy
run timeouts [] p = p
run timeouts (e ∷ es) p = run timeouts es (step timeouts e p)

-- The end of `Start`: every client is disconnected on both sides and deleted.
disconnect : ℕ → ClientConnectionMetadata → Proxy → Option Error × Proxy
disconnect id m p = (
  none,
  send_destination_disconnect id (some m.destination_handler_name) shutdown
      (send_client_disconnect id (some m.client_handler_name) shutdown p),
)

unfoldable pub stop : Proxy → Proxy
unfolding disconnect send_client_disconnect send_destination_disconnect
stop p =
    let (e, left, q) = kick_all disconnect p.client_store.client_connections p in
    record q { client_store = record q.client_store { client_connections = left } }
