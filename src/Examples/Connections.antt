-- ===== src/Examples/Connections.antt =====
-- Attempts to connect.
use Prim.Native.String.{String}
use spanreed_netcode_proxy.Prelude.{ℕ, ◌≡◌, refl, true, ◌++◌, List, [], ◌∷◌, map}
use spanreed_netcode_proxy.Log.{default_log_cb}
use spanreed_netcode_proxy.Wire.ConnectClientVerdict.{get_root_as_connect_client_verdict, accepted}
use spanreed_netcode_proxy.Connection.Payload.{connect_client_payload}
use spanreed_netcode_proxy.Connection.Agreement.{
  as_transport, AreAlike, connect_websocket-connect_webtransport,
}
use spanreed_netcode_proxy.Connection.Websocket
use spanreed_netcode_proxy.Connection.Websocket.Handshake.{IsTidy, connect_websocket-IsTidy}
use spanreed_netcode_proxy.Connection.Websocket.Outcome.{
  outcome, IsSettled, connect_websocket-outcome,
}
use spanreed_netcode_proxy.Connection.Webtransport
use spanreed_netcode_proxy.Connection.Webtransport.Verdict
use spanreed_netcode_proxy.Connection.Websocket.Ending.{connect_websocket-IsSettled}
use spanreed_netcode_proxy.Examples.Samples.{reader, accepting_verdict, refusing_verdict}

abbrev show : ℕ → String
show n = "n"

-- An accepted attempt, with a message before the socket opens, and something after the verdict.
abbrev accepted_events : List Websocket.Event
accepted_events =
    Websocket.message_event refusing_verdict
    ∷ Websocket.open_event
    ∷ Websocket.message_event accepting_verdict
    ∷ Websocket.close_event
    ∷ []

abbrev refused_events : List Websocket.Event
refused_events =
    Websocket.open_event ∷ Websocket.message_event refusing_verdict ∷ Websocket.close_event ∷ []

connects :
    (Websocket.connect_websocket reader show default_log_cb "ws://p" "udp:b" "u"
      accepted_events).phase
    ≡ Websocket.connected
unfolding Websocket.connect_websocket Websocket.open_websocket Websocket.step accepted
    get_root_as_connect_client_verdict
connects = refl

is_refused :
    (Websocket.connect_websocket reader show default_log_cb "ws://p" "udp:b" "u"
      refused_events).closed_by_client
    ≡ true
unfolding Websocket.connect_websocket Websocket.open_websocket Websocket.step accepted
    get_root_as_connect_client_verdict
is_refused = refl

connect_websocket-outcome_example :
    (Websocket.connect_websocket reader show default_log_cb "ws://p" "udp:b" "u"
      accepted_events).phase
    ≡ outcome reader accepted_events
connect_websocket-outcome_example =
    connect_websocket-outcome reader show default_log_cb "udp:b" "u" "ws://p" accepted_events

connect_websocket-IsTidy_example :
    IsTidy reader show default_log_cb "udp:b" "u"
      (Websocket.connect_websocket reader show default_log_cb "ws://p" "udp:b" "u" refused_events)
connect_websocket-IsTidy_example =
    connect_websocket-IsTidy reader show default_log_cb "ws://p" "udp:b" "u" refused_events

abbrev datagrams : List Webtransport.Event
datagrams = Webtransport.ready ∷ Webtransport.read_bytes accepting_verdict ∷ []

connects_webtransport :
    (Webtransport.connect_webtransport reader show default_log_cb "udp:b" "u" datagrams).phase
    ≡ Webtransport.connected
unfolding Webtransport.connect_webtransport Webtransport.step accepted
    get_root_as_connect_client_verdict
connects_webtransport = refl

connect_webtransport_accepted_example : Verdict.HasAcceptance reader show default_log_cb datagrams
connect_webtransport_accepted_example =
    Verdict.connect_webtransport_accepted reader show default_log_cb "udp:b" "u" datagrams
      connects_webtransport

connect_webtransport-Wrote_example :
    let a = Webtransport.connect_webtransport reader show default_log_cb "udp:b" "u" datagrams in
    Verdict.Wrote reader show default_log_cb
      (connect_client_payload reader "udp:b" "u")
      a.phase
      a.written
connect_webtransport-Wrote_example =
    Verdict.connect_webtransport-Wrote reader show default_log_cb "udp:b" "u" datagrams

connect_websocket-connect_webtransport_example :
    AreAlike
      (Websocket.connect_websocket reader show default_log_cb "ws://p" "udp:b" "u" refused_events)
      (Webtransport.connect_webtransport reader show default_log_cb "udp:b" "u"
        (map (as_transport "closed") refused_events))
connect_websocket-connect_webtransport_example =
    connect_websocket-connect_webtransport reader show default_log_cb "udp:b" "u" "closed" "ws://p"
      refused_events

connect_websocket-IsSettled_example :
    IsSettled
      (Websocket.connect_websocket reader show default_log_cb "ws://p" "udp:b" "u"
        ([] ++ Websocket.open_event ∷ [] ++ Websocket.close_event ∷ [])).phase
connect_websocket-IsSettled_example =
    connect_websocket-IsSettled reader show default_log_cb "ws://p" "udp:b" "u" [] [] []
      Websocket.close_event tt
