-- ===== src/Examples/Transports.antt =====
-- A proxy with a destination on UDP, and one client.
use spanreed_netcode_proxy.Prelude.{
  leb, length, ◌≤◌, ℕ, ◌≡◌, ◌↔◌, refl, String, none, some, true, false, List, [], ◌∷◌, arith,
}
use spanreed_netcode_proxy.Log.{default_log_cb}
use spanreed_netcode_proxy.Wire.Flatbuffers.{Bytes}
use spanreed_netcode_proxy.Wire.Flatbuffers.Objects.{AllBytes}
use spanreed_netcode_proxy.Wire.DestinationMessage.RoundTrip.{close, verdict, write_report}
use spanreed_netcode_proxy.Wire.ProxyDestinationMessage.RoundTrip.{
  connection_request, client_message, close_connection, read_notice,
}
use spanreed_netcode_proxy.Connection.Payload.Decoding.{decode, connect, chat}
use spanreed_netcode_proxy.Connection.Websocket.{open_event, message_event, connect_websocket}
use spanreed_netcode_proxy.Connection.Answers.{answered}
use spanreed_netcode_proxy.Proxy.State.{
  Proxy, Message, Outcome, OpenCommand, Verdict, open_at_destination, verdict_to_client,
  to_destination, to_client, put, auth_timeout,
}
use spanreed_netcode_proxy.Proxy.Store.{ClientConnectionMetadata}
use spanreed_netcode_proxy.Proxy.Hub.{
  handle_client_connection_request_message, forward_destination_verdict, forward_client_message,
  forward_destination_message,
}
use spanreed_netcode_proxy.Proxy.Hosts.{is_destination_allowed, check_origin}
use spanreed_netcode_proxy.Proxy.Hosts.Listing.{IsAllowed, is_destination_allowed-check_origin}
use spanreed_netcode_proxy.Proxy.Udp.{
  Resolver, resolved, UdpParams, UdpDestination, create_udp_destination_handler,
  open_client_verdict, incoming_message as from_destination, on_datagram, on_client_message,
  address_of,
}
use spanreed_netcode_proxy.Proxy.Udp
use spanreed_netcode_proxy.Proxy.Udp.Events.{
  UdpEvent, open_request, message_request, close_request, datagram, message_turn, done,
}
use spanreed_netcode_proxy.Proxy.Udp.Events
use spanreed_netcode_proxy.Proxy.Udp.Confinement.{
  IsConfined, run-create_udp_destination_handler-IsConfined,
}
use spanreed_netcode_proxy.Proxy.Udp.Delivery.{passed, on_datagram-write_report}
use spanreed_netcode_proxy.Proxy.Udp.Conversation.{Tells, run-conversation}
use spanreed_netcode_proxy.Proxy.Router.{
  Route, RouteEvent, open_route, receive, run, packet, verdict_received, outgoing_message,
  close_request as proxy_closes_it, client_close, listener_close, enters, told, open_client,
  incoming_message, sends, awaiting_verdict, routing,
}
use spanreed_netcode_proxy.Proxy.Router.Order.{IsOrderlyIfAny, run-open_route-IsOrderly}
use spanreed_netcode_proxy.Proxy.Router.Channels.{
  MapEvent, ConnectionMap, new_channels, opens, leaves, message_request as to_send, proxy_close,
}
use spanreed_netcode_proxy.Proxy.Router.Channels
use spanreed_netcode_proxy.Proxy.Router.Channels.Addressing.{WasSent, messages_for, run-WasSent}
use spanreed_netcode_proxy.Proxy.Journey.Outward.{connect_websocket-open_client}
use spanreed_netcode_proxy.Proxy.Router.Relaying.{message_of}
use spanreed_netcode_proxy.Proxy.Journey.Homeward.{write_report-connect_websocket}
use spanreed_netcode_proxy.Proxy.Journey.Chatting.{handle-on_client_message}
use spanreed_netcode_proxy.Proxy.Journey.Hearing.{on_datagram-ws_message}
use spanreed_netcode_proxy.Wire.DestinationMessage.RoundTrip
use spanreed_netcode_proxy.Log.{LogLevel, console_log, page_line}
use spanreed_netcode_proxy.Page.Messages.{chat_line, array_buffer}
use spanreed_netcode_proxy.Page.Messages.Arriving.{chat_message}
use spanreed_netcode_proxy.Page.{Page, Connection, websocket}
use spanreed_netcode_proxy.Page.Effects.{chat_submitted, ws_message, handle}
use spanreed_netcode_proxy.Wire.DestinationMessage.{
  finish_destination_message_buffer, create_destination_message, create_app_data_vector,
}
use spanreed_netcode_proxy.Wire.CloseConnection.{create_close_connection}
use spanreed_netcode_proxy.Wire.ConnectionVerdict.{create_connection_verdict}
use spanreed_netcode_proxy.Wire.ProxyMessage.{create_proxy_message}
use spanreed_netcode_proxy.Wire.ServerMessage.{create_server_message, finish_server_message_buffer}
use spanreed_netcode_proxy.Wire.ServerChatMessage.{create_server_chat_message}
use spanreed_netcode_proxy.Examples.Memory.Codes.{encode, codes}
use spanreed_netcode_proxy.Examples.Memory.Runtime.{memory}
use spanreed_netcode_proxy.Examples.Memory.Lawful.{lawful}
use spanreed_netcode_proxy.Examples.Samples.{whole}

abbrev two : Bytes
two = 7 ∷ 255 ∷ []

two-AllBytes : AllBytes two
two-AllBytes = (omega arith, (omega arith, tt))

-- Every backend is at one host, and every host at the address 9.
abbrev net : Resolver ℕ
net = record {
  resolve_udp_host = λ s. resolved "localhost:30321";
  resolve_udp_addr = λ host. resolved 9;
}

abbrev params : UdpParams
params = record {
  allow_all_destinations = false;
  allowlisted_destinations = "localhost:30321" ∷ [];
  denylisted_destinations = "localhost:1" ∷ [];
}

abbrev open_two : OpenCommand
open_two = record {
  client_id = 2;
  recv_timestamp = 1;
  route_timestamp = 1;
  connection_string = "udp:localhost:30321";
  app_data = some two;
}

abbrev say_two : Message
say_two = record { client_id = 2; recv_timestamp = 3; route_timestamp = 3; data_ = some two }

-- The client 2 is registered.
abbrev udp : UdpDestination ℕ
udp = record create_udp_destination_handler { destination_connections = (2, 9) ∷ [] }

is_destination_allowed-check_origin_example :
    ((is_destination_allowed true [] ("a" ∷ []) "b" ≡ true) ↔ IsAllowed true [] ("a" ∷ []) "b")
    × ((check_origin true [] ("a" ∷ []) "b" ≡ true) ↔ IsAllowed true [] ("a" ∷ []) "b")
is_destination_allowed-check_origin_example =
    is_destination_allowed-check_origin true [] ("a" ∷ []) "b"

abbrev udp_events : List UdpEvent
udp_events =
    open_request open_two
    ∷ message_request say_two
    ∷ message_turn
    ∷ datagram 4 (write_report memory (verdict 2 true) none)
    ∷ close_request 3
    ∷ done
    ∷ []

run-create_udp_destination_handler-IsConfined_example :
    IsConfined net params (Events.run memory net params udp_events create_udp_destination_handler)
run-create_udp_destination_handler-IsConfined_example =
    run-create_udp_destination_handler-IsConfined net params memory udp_events

-- The reports are shorter than the buffer.
close_fits : leb (length (write_report memory (close 2 (some "bye")) (some two))) 2048 ≡ true
unfolding write_report finish_destination_message_buffer create_destination_message
    create_app_data_vector create_close_connection create_connection_verdict create_proxy_message
    chat_message create_server_chat_message create_server_message finish_server_message_buffer
    encode codes
close_fits = refl

verdict_fits : leb (length (write_report memory (verdict 2 true) none)) 2048 ≡ true
unfolding write_report finish_destination_message_buffer create_destination_message
    create_app_data_vector create_close_connection create_connection_verdict create_proxy_message
    chat_message create_server_chat_message create_server_message finish_server_message_buffer
    encode codes
verdict_fits = refl

chat_fits :
    leb
      (length (
        write_report memory
          (RoundTrip.message 2)
          (some (chat_message memory (some "A") (some "!")))))
      2048
    ≡ true
unfolding write_report finish_destination_message_buffer create_destination_message
    create_app_data_vector create_close_connection create_connection_verdict create_proxy_message
    chat_message create_server_chat_message create_server_message finish_server_message_buffer
    encode codes
chat_fits = refl

within : (l : Bytes) → leb (length l) 2048 ≡ true → length l ≤ 2048
within l h = ground (arith, h)

on_datagram-write_report_example :
    on_datagram memory 5 (write_report memory (close 2 (some "bye")) (some two)) udp
    ≡ record udp { to_proxy = passed 5 (close 2 (some "bye")) (some two) ∷ [] }
on_datagram-write_report_example =
    on_datagram-write_report memory lawful 5 (close 2 (some "bye")) (some two) udp (omega arith)
      two-AllBytes (within _ close_fits) refl

run-conversation_example :
    let q =
      Events.run memory net params
        (open_request open_two ∷ message_request say_two ∷ close_request 2 ∷ [])
        udp in
    (m₁ m₂ m₃ : ℕ × Bytes) × (q.outgoing_messages ≡ m₁ ∷ m₂ ∷ m₃ ∷ [])
    × Tells memory m₁ 9 (connection_request 2) (some two)
    × Tells memory m₂ 9 (client_message 2) (some two)
    × Tells memory m₃ 9 (close_connection 2) none
    × (address_of 2 q.destination_connections ≡ none)
    × (q.to_proxy ≡ [])
unfolding is_destination_allowed
run-conversation_example =
    run-conversation memory lawful net params open_two say_two "localhost:30321" 9 udp (omega arith)
      refl two-AllBytes two-AllBytes refl refl refl

abbrev accepts_two : Verdict
accepts_two = record { client_id = 2; verdict = true; error = none; app_data = none }

abbrev route_events : List RouteEvent
route_events =
    packet 1 two
    ∷ verdict_received accepts_two
    ∷ packet 2 two
    ∷ outgoing_message say_two
    ∷ client_close
    ∷ listener_close
    ∷ proxy_closes_it
    ∷ []

run-open_route-IsOrderly_example : IsOrderlyIfAny memory 2 (run memory route_events (open_route 2))
run-open_route-IsOrderly_example = run-open_route-IsOrderly memory 2 route_events

abbrev map_events : List MapEvent
map_events =
    opens (none, 3)
    ∷ to_send say_two
    ∷ proxy_close 3 auth_timeout
    ∷ leaves 3
    ∷ to_send (record say_two { client_id = 4 })
    ∷ []

run-WasSent_example :
    WasSent 2 (messages_for 2 map_events) (Channels.run map_events ((2, new_channels) ∷ []))
run-WasSent_example =
    run-WasSent 2 map_events [] ((2, new_channels) ∷ []) (refl, tt) (new_channels, refl, refl)

abbrev waiting_client : ClientConnectionMetadata
waiting_client = record {
  is_connected = false;
  client_handler_name = "ws";
  destination_handler_name = "";
  created_time = 1;
  last_client_msg_time = 1;
  last_destination_msg_time = 1;
}

abbrev hub : Proxy
hub = record {
  client_store = record {
    max_connections = 8;
    next_client_id = 2;
    client_connections = (2, waiting_client) ∷ [];
  };
  outgoing_clients = "ws" ∷ [];
  outgoing_destinations = "udp" ∷ [];
  connected_destinations = ("udp", λ s. true) ∷ [];
  sent = [];
}

abbrev show : ℕ → String
show n = "1006"

connect_websocket-open_client_example :
    (payload : Bytes) × (cmd : OpenCommand) × (bytes : Bytes) × (data_ : Bytes)
    × ((connect_websocket memory show default_log_cb "ws://p" "udp:b" "Ann" (open_event ∷ [])).sent
        ≡ payload ∷ [])
    × (receive memory (packet 1 payload) (open_route 2)
        ≡ some (enters awaiting_verdict (told (open_client cmd) (open_route 2))))
    × (let cmd' : OpenCommand = record cmd { route_timestamp = 4 } in
        ((handle_client_connection_request_message 4 cmd hub).1.sent
          ≡ open_at_destination "udp" cmd' ∷ [])
        × ((Udp.open_client memory net params cmd' create_udp_destination_handler).outgoing_messages
            ≡ (9, bytes) ∷ []))
    × (read_notice memory bytes ≡ (some (connection_request 2), some data_))
    × (decode memory 0 data_ ≡ some (connect (some "Ann")))
unfolding is_destination_allowed
connect_websocket-open_client_example =
    connect_websocket-open_client memory lawful 0 show default_log_cb net params "ws://p" "udp:b"
      "Ann" [] 2 1 4 hub waiting_client "udp" "localhost:30321" 9 create_udp_destination_handler
      (omega arith) refl refl refl refl refl refl refl

write_report-connect_websocket_example :
    (packet : Bytes) × (q : Route) × ((on_datagram memory 5
        (write_report memory (verdict 2 true) none)
        udp).to_proxy
      ≡ open_client_verdict accepts_two ∷ [])
    × ((forward_destination_verdict accepts_two hub).1.sent
        ≡ verdict_to_client "ws" accepts_two ∷ [])
    × (receive memory
          (verdict_received accepts_two)
          (record (open_route 2) { phase = awaiting_verdict })
        ≡ some q)
    × (q.phase ≡ routing true true)
    × (q.outgoing_packets ≡ packet ∷ [])
    × ((connect_websocket memory show default_log_cb "ws://p" "udp:b" "Ann"
          (open_event ∷ message_event packet ∷ [])).phase
        ≡ answered true none)
write_report-connect_websocket_example =
    write_report-connect_websocket memory lawful show default_log_cb "ws://p" "udp:b" "Ann" [] 2 5
      true none udp hub waiting_client (record (open_route 2) { phase = awaiting_verdict })
      (omega arith) tt (within _ verdict_fits) refl refl refl refl refl

abbrev ann : Connection
ann = record { id = 1; type = websocket; user_name = "Ann" }

abbrev page : Page whole
page = record {
  connection = some ann;
  dots = some [];
  output = [];
  closed = [];
  sent = [];
  reading = [];
  aborted = [];
}

abbrev connected_client : ClientConnectionMetadata
connected_client = record waiting_client { is_connected = true; destination_handler_name = "udp" }

abbrev busy_hub : Proxy
busy_hub = record hub {
  client_store = record hub.client_store { client_connections = (2, connected_client) ∷ [] };
}

handle-on_client_message_example :
    (payload : Bytes) × (bytes : Bytes) × ((handle whole memory (chat_submitted "hi") page).sent
      ≡ (1, payload) ∷ [])
    × (let msg = message_of 2 3 payload in
        let msg' : Message = record msg { route_timestamp = 4 } in
        let relayed : Outcome = (none, put (to_destination "udp" msg') busy_hub) in
        let r : Route = record (open_route 2) { phase = routing true true } in
        (receive memory (packet 3 payload) r ≡ some (told (incoming_message msg) r))
        × (forward_client_message 4 msg busy_hub ≡ relayed)
        × ((on_client_message memory msg' udp).outgoing_messages ≡ (9, bytes) ∷ []))
    × (read_notice memory bytes ≡ (some (client_message 2), some payload))
    × (decode memory 0 payload ≡ some (chat (some "hi")))
handle-on_client_message_example =
    handle-on_client_message whole memory lawful 0 (chat_submitted "hi") (chat (some "hi")) page ann
      2 3 4 (record (open_route 2) { phase = routing true true }) true busy_hub connected_client 9
      udp refl refl (omega arith) refl refl refl refl refl

on_datagram-ws_message_example :
    let data_ = chat_message memory (some "A") (some "!") in
    let msg = message_of 2 5 data_ in
    let msg' : Message = record msg { route_timestamp = 6 } in
    let relayed : Outcome = (none, put (to_client "ws" msg') busy_hub) in
    let r : Route = record (open_route 2) { phase = routing true true } in
    ((on_datagram memory 5 (write_report memory (RoundTrip.message 2) (some data_)) udp).to_proxy
      ≡ from_destination msg ∷ [])
    × (forward_destination_message 6 msg busy_hub ≡ relayed)
    × (receive memory (outgoing_message msg') r ≡ some (sends data_ r))
    × (handle whole memory (ws_message 1 (array_buffer data_)) page ≡ record page {
      output = console_log "[A]: !" ∷ page_line "[A]: !" LogLevel.user_chat ∷ [];
    })
unfolding chat_line
on_datagram-ws_message_example =
    on_datagram-ws_message whole memory lawful (some "A") (some "!") page 1 2 5 6 true udp busy_hub
      connected_client (record (open_route 2) { phase = routing true true }) (omega arith)
      (within _ chat_fits) refl refl refl refl refl
