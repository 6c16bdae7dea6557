-- ===== src/Examples/Sessions.antt =====
-- A client that connects by WebSocket and sends two frames.
use spanreed_netcode_proxy.Prelude.{◌≡◌, refl, true, false, none, List, [], ◌∷◌}
use spanreed_netcode_proxy.Wire.Flatbuffers.{Bytes}
use spanreed_netcode_proxy.Proxy.State.{Verdict}
use spanreed_netcode_proxy.Proxy.Router.{
  open_client, incoming_message, open_command, client_close, verdict_received, receive,
}
use spanreed_netcode_proxy.Proxy.Router.Relaying.{message_of}
use spanreed_netcode_proxy.Proxy.Router.Hearing.{spoken}
use spanreed_netcode_proxy.Proxy.Session.{
  Session, SessionEvent, open_session, binary_frame, other_frame, read_failed, server_done,
  packet_taken, packet_read, route_event, run,
}
use spanreed_netcode_proxy.Proxy.Session.Order.{IfAny}
use spanreed_netcode_proxy.Proxy.Session.Serving.{IsServed, run-open_session-IsServed}
use spanreed_netcode_proxy.Proxy.Session.Hanging.{Hangs, run-IsGivenUp}
use spanreed_netcode_proxy.Proxy.Session.Telling.{run-open_session}
use spanreed_netcode_proxy.Examples.Memory.Runtime.{memory}

abbrev first : Bytes
first = 7 ∷ 255 ∷ []

abbrev second : Bytes
second = 1 ∷ []

abbrev accepts : Verdict
accepts = record { client_id = 2; verdict = true; error = none; app_data = none }

abbrev session_events : List SessionEvent
session_events =
    binary_frame first
    ∷ other_frame
    ∷ binary_frame second
    ∷ packet_read 3
    ∷ route_event (verdict_received accepts)
    ∷ packet_taken
    ∷ packet_read 5
    ∷ server_done
    ∷ read_failed
    ∷ []

-- The events are all taken.
session_events_taken :
    IfAny (λ q. q.written ≡ q.route.outgoing_packets) (run memory session_events (open_session 2))
unfolding run receive
session_events_taken = refl

run-open_session_example :
    IfAny
      (λ q.
        spoken q.route.to_proxy
        ≡ open_client (open_command memory 2 3 first)
          ∷ incoming_message (message_of 2 5 second)
          ∷ [])
      (run memory session_events (open_session 2))
run-open_session_example = run-open_session memory 2 session_events

run-open_session-IsServed_example :
    IfAny (IsServed memory 2) (run memory session_events (open_session 2))
run-open_session-IsServed_example = run-open_session-IsServed memory 2 session_events

-- The socket of the client has failed.
abbrev left : Session
left = record (open_session 2) {
  connection_listener = false;
  is_cancelled = true;
  client_closes = 1;
}

run-IsGivenUp_example : IfAny Hangs (run memory (route_event client_close ∷ server_done ∷ []) left)
run-IsGivenUp_example =
    run-IsGivenUp memory left (route_event client_close) (server_done ∷ []) refl refl refl tt
