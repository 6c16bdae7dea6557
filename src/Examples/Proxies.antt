-- ===== src/Examples/Proxies.antt =====
-- A proxy with one kind of clients and one destination.
use spanreed_netcode_proxy.Prelude.{◌-◌, ◌≡◌, refl, none, some, true, false, List, [], ◌∷◌, arith}
use spanreed_netcode_proxy.Proxy.Store.{ClientConnectionMetadata, is_timed_out, missing_client_id}
use spanreed_netcode_proxy.Proxy.Store.Timeouts.{unless}
use spanreed_netcode_proxy.Proxy.State.{
  shutdown, close_at_client, close_at_destination, create_proxy, Proxy, Message, OpenCommand,
  Outcome, Verdict, Timeouts, auth_timeout, store_error, open_at_destination, to_destination, put,
}
use spanreed_netcode_proxy.Proxy.Hub.Start.{
  stop, client_handler, destination_handler, Event, next_client_id, connection_request, tick,
  client_message, run,
}
use spanreed_netcode_proxy.Proxy.Hub.{
  kick_client, kick_old_clients, check_for_auth_timeouts, forward_destination_verdict,
  forward_client_message, forward_destination_message, handle_client_connection_request_message,
}
use spanreed_netcode_proxy.Proxy.Hub.Start.Stopping.{stop-farewells}
use spanreed_netcode_proxy.Proxy.Hub.Clients.{HasOrder, run-create_proxy-HasOrder}
use spanreed_netcode_proxy.Proxy.Hub.Kicking.{client, client-kick_old_clients, refused_stays}
use spanreed_netcode_proxy.Proxy.Hub.Routing.{
  kick_client-forwarding, handle_client_connection_request_message-forwarding,
}

abbrev timeouts : Timeouts
timeouts = record {
  client_message = 60;
  destination_message = 15;
  client_auth = 10;
  max_connection_length = 1000;
}

abbrev new_client : ClientConnectionMetadata
new_client = record {
  is_connected = false;
  client_handler_name = "ws";
  destination_handler_name = "";
  created_time = 5;
  last_client_msg_time = 5;
  last_destination_msg_time = 5;
}

-- The client 1 has just come by WebSocket; the destination takes every connection string.
abbrev proxy : Proxy
proxy = record {
  client_store = record {
    max_connections = 2;
    next_client_id = 1;
    client_connections = (1, new_client) ∷ [];
  };
  outgoing_clients = "ws" ∷ [];
  outgoing_destinations = "udp" ∷ [];
  connected_destinations = ("udp", λ s. true) ∷ [];
  sent = [];
}

abbrev command : OpenCommand
command = record {
  client_id = 1;
  recv_timestamp = 6;
  route_timestamp = 0;
  connection_string = "udp:localhost";
  app_data = some (7 ∷ []);
}

abbrev message : Message
message = record { client_id = 1; recv_timestamp = 8; route_timestamp = 0; data_ = some (3 ∷ []) }

abbrev refusal : Verdict
refusal = record { client_id = 1; verdict = false; error = some "full"; app_data = none }

proxy-HasOrder : HasOrder proxy.client_store.max_connections proxy
proxy-HasOrder = record { distinct = (refl, tt); limited = refl; bounded = omega arith }

abbrev events : List Event
events =
    client_handler "ws"
    ∷ destination_handler "udp" (λ s. true)
    ∷ next_client_id "ws" 6
    ∷ connection_request 7 command
    ∷ client_message 8 9 message
    ∷ next_client_id "ws" 9
    ∷ tick 100 100 100 100
    ∷ []

run-create_proxy-HasOrder_example : HasOrder 2 (run timeouts events (create_proxy 2))
run-create_proxy-HasOrder_example = run-create_proxy-HasOrder timeouts events 2

client-kick_old_clients_example :
    client 1 (kick_old_clients timeouts 30 30 30 proxy)
    ≡ unless (is_timed_out (30 - 60) (30 - 15) (30 - 1000)) (some new_client)
client-kick_old_clients_example = client-kick_old_clients timeouts 30 30 30 1 proxy proxy-HasOrder

refused_stays_example :
    client 1 (check_for_auth_timeouts timeouts 100 (forward_destination_verdict refusal proxy).1)
    ≡ some (record new_client { is_connected = true })
refused_stays_example = refused_stays timeouts 100 refusal proxy new_client proxy-HasOrder refl refl

kick_client-forwarding_example :
    let q = kick_client 1 auth_timeout proxy in
    let refused : Outcome = (some (store_error (missing_client_id 1)), q) in
    (forward_client_message 9 message q ≡ refused)
    × (forward_destination_message 9 message q ≡ refused)
kick_client-forwarding_example = kick_client-forwarding 9 message auth_timeout proxy

handle_client_connection_request_message-forwarding_example :
    let q = (handle_client_connection_request_message 7 command proxy).1 in
    (q.sent ≡ open_at_destination "udp" (record command { route_timestamp = 7 }) ∷ [])
    × (forward_client_message 9 message q
        ≡ (none, put (to_destination "udp" (record message { route_timestamp = 9 })) q))
handle_client_connection_request_message-forwarding_example =
    handle_client_connection_request_message-forwarding 7 9 command message proxy new_client "udp"
      refl refl refl refl refl

-- The client 1 has got its destination.
abbrev attached : Proxy
attached = record proxy {
  client_store = record proxy.client_store {
    client_connections = (1, record new_client { destination_handler_name = "udp" }) ∷ [];
  };
}

stop-farewells_example :
    ((stop attached).client_store.client_connections ≡ [])
    × ((stop attached).sent
        ≡ close_at_client "ws" 1 shutdown ∷ close_at_destination "udp" 1 shutdown ∷ [])
stop-farewells_example = stop-farewells attached
