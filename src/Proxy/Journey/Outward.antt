-- ===== src/Proxy/Journey/Outward.antt =====
-- The connection request of a client, from the client to the destination.
use spanreed_netcode_proxy.Prelude.{
  ℕ, ◌<◌, ◌^◌, ◌≡◌, refl, ap, ◌∙◌, true, String, none, some, List, [], ◌∷◌, ◌++◌, get_or_else,
}
use spanreed_netcode_proxy.Log.{LogCb}
use spanreed_netcode_proxy.Wire.Flatbuffers.{Flatbuffers, Bytes}
use spanreed_netcode_proxy.Wire.Flatbuffers.Objects.{AllBytes}
use spanreed_netcode_proxy.Wire.Flatbuffers.Laws.{Laws}
use spanreed_netcode_proxy.Wire.Flatbuffers.Placing.{AreBytes}
use spanreed_netcode_proxy.Wire.ProxyDestinationMessage.RoundTrip.{connection_request, read_notice}
use spanreed_netcode_proxy.Connection.Payload.{connect_client_payload}
use spanreed_netcode_proxy.Connection.Payload.Decoding.{decode, decode_request, connect}
use spanreed_netcode_proxy.Connection.Payload.RoundTrip.{decode_request-connect_client_payload}
use spanreed_netcode_proxy.Connection.Websocket.{Event, open_event, connect_websocket}
use spanreed_netcode_proxy.Connection.Answers.{sent_when_open}
use spanreed_netcode_proxy.Proxy.Store.{ClientConnectionMetadata}
use spanreed_netcode_proxy.Proxy.State.{Proxy, Message, OpenCommand, open_at_destination, has_name}
use spanreed_netcode_proxy.Proxy.Hub.{matching, handle_client_connection_request_message}
use spanreed_netcode_proxy.Proxy.Hub.Kicking.{client}
use spanreed_netcode_proxy.Proxy.Hub.Routing.{handle_client_connection_request_message-forwarding}
use spanreed_netcode_proxy.Proxy.Router.{
  open_client, packet, open_route, open_command, receive, told, enters, awaiting_verdict,
}
use spanreed_netcode_proxy.Proxy.Datagrams.{notice_datagram}
use spanreed_netcode_proxy.Proxy.Datagrams.Reading.{read_notice-notice_datagram}
use spanreed_netcode_proxy.Proxy.Hosts.{is_destination_allowed}
use spanreed_netcode_proxy.Proxy.Udp.{Resolver, resolved, UdpParams, UdpDestination}
use spanreed_netcode_proxy.Proxy.Udp
use spanreed_netcode_proxy.Proxy.Udp.Conversation.{open_client_allowed}

module _ {N : Type 0} (fb : Flatbuffers N) (laws : Laws fb) (zero_ : N) where
  -- The command that the router makes of the client's message.
  open_command_lem :
      (id now : ℕ) (backend user : String)
      → let cmd = open_command fb id now (connect_client_payload fb backend user) in
        (data_ : Bytes) × (cmd.connection_string ≡ backend)
        × (cmd.app_data ≡ some data_)
        × (decode fb zero_ data_ ≡ some (connect (some user)))
        × AllBytes data_
  unfolding open_command decode_request
  open_command_lem id now backend user =
      let (data_, request, told_, bytes) =
        decode_request-connect_client_payload fb laws zero_ backend user in
      (data_, ap (λ q. get_or_else (q.0) "") request, ap (λ q. q.1) request, told_, bytes)

  module _ (show : ℕ → String) (log_cb : LogCb) {Addr : Type 0} (net : Resolver Addr)
      (params : UdpParams) where
    -- Over a runtime that keeps its documented laws: a client's WebSocket opens, and the client, whose
    -- number has 32 bits, is known to the proxy and has no destination yet. The first handler that
    -- matches its backend is one of UDP, which allows the host of the backend and finds its address.
    -- Then the one message of the client makes the router ask the proxy, the proxy ask the handler,
    -- and the handler queue a datagram for that address: it reads as the connection request of the
    -- client, with data in which the backend reads the user's name.
    pub connect_websocket-open_client :
        (spanreed backend user : String) (es : List Event) (id now route_time : ℕ) (p : Proxy)
        (m : ClientConnectionMetadata) (name host : String) (a : Addr) (d : UdpDestination Addr)
        → id < 2 ^ 32
        → client id p ≡ some m
        → m.destination_handler_name ≡ ""
        → matching backend p.connected_destinations ≡ some name
        → has_name name p.outgoing_destinations ≡ true
        → net.resolve_udp_host backend ≡ resolved host
        → is_destination_allowed params.allow_all_destinations params.allowlisted_destinations
            params.denylisted_destinations host
          ≡ true
        → net.resolve_udp_addr host ≡ resolved a
        → let attempt = connect_websocket fb show log_cb spanreed backend user (open_event ∷ es) in
          let route = open_route id in
          (payload : Bytes) × (cmd : OpenCommand) × (bytes : Bytes) × (data_ : Bytes)
          × (attempt.sent ≡ payload ∷ [])
          × (receive fb (packet now payload) route
              ≡ some (enters awaiting_verdict (told (open_client cmd) route)))
          × (let cmd' = record cmd { route_timestamp = route_time } in
              ((handle_client_connection_request_message route_time cmd p).1.sent
                ≡ p.sent ++ open_at_destination name cmd' ∷ [])
              × ((Udp.open_client fb net params cmd' d).outgoing_messages
                  ≡ d.outgoing_messages ++ (a, bytes) ∷ []))
          × (read_notice fb bytes ≡ (some (connection_request id), some data_))
          × (decode fb zero_ data_ ≡ some (connect (some user)))
    unfolding receive open_command
    connect_websocket-open_client spanreed backend user es id now route_time p m name host a d lt
          known new matches there at_ allowed found =
        let payload = connect_client_payload fb backend user in
        let cmd = open_command fb id now payload in
        let cmd' : OpenCommand = record cmd { route_timestamp = route_time } in
        let (data_, to_backend, with_data, told_, bytes) = open_command_lem id now backend user in
        let notice = notice_datagram fb (connection_request id) cmd.app_data in
        let one : Message = record {
          client_id = id;
          recv_timestamp = now;
          route_timestamp = 0;
          data_ = none;
        } in
        let matched = ap (λ s. matching s p.connected_destinations) to_backend ∙ matches in
        let (routed, _) =
          handle_client_connection_request_message-forwarding route_time now cmd one p m name refl
            known new matched there in
        let opened =
          open_client_allowed fb net params cmd' host a d (ap net.resolve_udp_host to_backend ∙ at_)
            allowed found in
        let are_bytes : AreBytes cmd.app_data = rw with_data bytes in
        (
          payload,
          cmd,
          notice,
          data_,
          sent_when_open fb show log_cb backend user spanreed es,
          refl,
          (routed, ap (λ q. UdpDestination.outgoing_messages q) opened),
          read_notice-notice_datagram fb laws (connection_request id) cmd.app_data lt are_bytes
              ∙ ap (λ x. (some (connection_request id), x)) with_data,
          told_,
        )
