-- ===== src/Proxy/Journey/Homeward.antt =====
-- The verdict on a client, from the destination to the client.
use spanreed_netcode_proxy.Prelude.{
  ℕ, ◌<◌, ◌≤◌, length, ◌^◌, ◌≡◌, refl, ap, ◌∙◌, Bool, true, false, String, Option, none, some, List,
  [], ◌∷◌, ◌++◌, is_some, if◌then◌else◌,
}
use spanreed_netcode_proxy.Log.{LogCb}
use spanreed_netcode_proxy.Wire.Flatbuffers.{Flatbuffers, Bytes}
use spanreed_netcode_proxy.Wire.Flatbuffers.Laws.{Laws}
use spanreed_netcode_proxy.Wire.Flatbuffers.Placing.{AreBytes}
use spanreed_netcode_proxy.Wire.DestinationMessage.RoundTrip
use spanreed_netcode_proxy.Wire.DestinationMessage.RoundTrip.{write_report}
use spanreed_netcode_proxy.Connection.Websocket.{
  Event, open_event, message_event, connect_websocket,
}
use spanreed_netcode_proxy.Connection.Answers.{answered, connect_websocket-answer}
use spanreed_netcode_proxy.Proxy.Store.{ClientConnectionMetadata}
use spanreed_netcode_proxy.Proxy.State.{Proxy, Verdict, verdict_to_client, has_name}
use spanreed_netcode_proxy.Proxy.Hub.{forward_destination_verdict}
use spanreed_netcode_proxy.Proxy.Hub.Kicking.{client}
use spanreed_netcode_proxy.Proxy.Hub.Routing.{forward_destination_verdict_sent}
use spanreed_netcode_proxy.Proxy.Router.{
  Route, awaiting_verdict, routing, ended, verdict_received, create_verdict_msg, receive,
}
use spanreed_netcode_proxy.Proxy.Router.Answering.{
  receive-verdict_received, read-create_verdict_msg,
}
use spanreed_netcode_proxy.Proxy.Udp.{UdpDestination, address_of, open_client_verdict, on_datagram}
use spanreed_netcode_proxy.Proxy.Udp.Delivery.{on_datagram-write_report}

module _ {N : Type 0} (fb : Flatbuffers N) (laws : Laws fb) (show : ℕ → String) (log_cb : LogCb)
    {Addr : Type 0} where
  -- Over a runtime that keeps its documented laws: the destination writes a verdict, with data that
  -- are bytes or without, on a client whose number has 32 bits, in a datagram of at most 2048 bytes,
  -- as the buffer of the proxy; the client is registered for an open socket, known to the proxy under
  -- a client handler that is there, and waited for by its route. Then the datagram makes the UDP
  -- handler tell the proxy, the proxy tell the client handler, and the route send one packet, and go
  -- on or end as the verdict says; a client whose WebSocket opens and then brings this packet is
  -- connected if the verdict accepts, and refused without a reason if not.
  pub write_report-connect_websocket :
      (spanreed backend user : String) (es : List Event) (id now : ℕ) (ok : Bool)
      (app_data : Option Bytes) (d : UdpDestination Addr) (p : Proxy) (m : ClientConnectionMetadata)
      (r : Route)
      → id < 2 ^ 32
      → AreBytes app_data
      → length (write_report fb (RoundTrip.verdict id ok) app_data) ≤ 2048
      → d.is_closed ≡ false
      → is_some (address_of id d.destination_connections) ≡ true
      → client id p ≡ some m
      → has_name m.client_handler_name p.outgoing_clients ≡ true
      → r.phase ≡ awaiting_verdict
      → let v : Verdict = record {
        client_id = id;
        verdict = ok;
        error = none;
        app_data = app_data;
      } in
        (packet : Bytes) × (q : Route) × ((on_datagram fb now
            (write_report fb (RoundTrip.verdict id ok) app_data)
            d).to_proxy
          ≡ d.to_proxy ++ open_client_verdict v ∷ [])
        × ((forward_destination_verdict v p).1.sent
            ≡ p.sent ++ verdict_to_client m.client_handler_name v ∷ [])
        × (receive fb (verdict_received v) r ≡ some q)
        × (q.phase ≡ (if ok then routing true true else ended))
        × (q.outgoing_packets ≡ r.outgoing_packets ++ packet ∷ [])
        × ((connect_websocket fb show log_cb spanreed backend user
              (open_event ∷ message_event packet ∷ es)).phase
            ≡ answered ok none)
  write_report-connect_websocket spanreed backend user es id now ok app_data d p m r lt bytes fits
        open_ registered known there waiting =
      let v : Verdict = record {
        client_id = id;
        verdict = ok;
        error = none;
        app_data = app_data;
      } in
      let packet = create_verdict_msg fb ok "" app_data in
      let (q, taken, at_, sent_) = receive-verdict_received fb v r waiting in
      let (e, f, _) = read-create_verdict_msg fb laws ok "" app_data bytes in
      let arrived =
        on_datagram-write_report fb laws now (RoundTrip.verdict id ok) app_data d lt bytes fits
          open_ in
      let e₁ : UdpDestination Addr = record d {
        to_proxy = d.to_proxy ++ open_client_verdict v ∷ [];
      } in
      let passes : (if is_some (address_of id d.destination_connections) then e₁ else d) ≡ e₁ =
        rw registered refl in
      (
        packet,
        q,
        ap (λ x. UdpDestination.to_proxy x) (arrived ∙ passes),
        forward_destination_verdict_sent v p m known there,
        taken,
        at_,
        sent_,
        connect_websocket-answer fb show log_cb spanreed backend user packet ok none es e f,
      )
