-- ===== src/Proxy/Journey/Hearing.antt =====
-- A chat message of the server, from the destination to the page: pkg/transport/udp_destination.go,
-- pkg/proxy/proxy.go, pkg/transport/client_connection_router.go and
-- examples/hello-spanreed/client/src/DemoPage.tsx.
use spanreed_netcode_proxy.Prelude.{
  ℕ, ◌<◌, ◌≤◌, length, ◌^◌, ◌≡◌, refl, ap, ◌∙◌, Bool, true, false, String, Option, none, some, [],
  ◌∷◌, ◌++◌, is_some, if◌then◌else◌,
}
use spanreed_netcode_proxy.Log.{LogLevel, console_log, page_line}
use spanreed_netcode_proxy.Canvas.Numbers.{Numbers}
use spanreed_netcode_proxy.Wire.Flatbuffers.{Flatbuffers}
use spanreed_netcode_proxy.Wire.Flatbuffers.Laws.{Laws}
use spanreed_netcode_proxy.Wire.Flatbuffers.Objects.{AllBytes}
use spanreed_netcode_proxy.Wire.DestinationMessage.RoundTrip
use spanreed_netcode_proxy.Wire.DestinationMessage.RoundTrip.{write_report}
use spanreed_netcode_proxy.Page.{Page}
use spanreed_netcode_proxy.Page.Messages.{chat_line, array_buffer, on_message}
use spanreed_netcode_proxy.Page.Messages.Arriving.{chat_message, process_message-chat_message}
use spanreed_netcode_proxy.Page.Effects.{ws_message, handle}
use spanreed_netcode_proxy.Proxy.Store.{ClientConnectionMetadata}
use spanreed_netcode_proxy.Proxy.State.{Proxy, Message, Outcome, to_client, has_name, put}
use spanreed_netcode_proxy.Proxy.Hub.{forward_destination_message}
use spanreed_netcode_proxy.Proxy.Hub.Kicking.{client}
use spanreed_netcode_proxy.Proxy.Hub.Routing.{forward_destination_message_sent}
use spanreed_netcode_proxy.Proxy.Router.{Route, routing, outgoing_message, sends, receive}
use spanreed_netcode_proxy.Proxy.Router.Relaying.{message_of, receive-outgoing_message}
use spanreed_netcode_proxy.Proxy.Udp.{UdpDestination, address_of, incoming_message, on_datagram}
use spanreed_netcode_proxy.Proxy.Udp.Delivery.{on_datagram-write_report}

module _ (js : Numbers) (fb : Flatbuffers js.Number) (laws : Laws fb) where
  chat_message-AllBytes : (user text : Option String) → AllBytes (chat_message fb user text)
  unfolding chat_message
  chat_message-AllBytes user text = laws.as_uint8_array-AllBytes _

  on_message-chat_message :
      (user text : Option String) (page : Page js) (c : ℕ)
      → let line = chat_line user text in
        handle js fb (ws_message c (array_buffer (chat_message fb user text))) page ≡ record page {
          output = page.output ++ console_log line ∷ page_line line LogLevel.user_chat ∷ [];
        }
  unfolding handle on_message
  on_message-chat_message user text page c =
      rw (process_message-chat_message js fb laws user text page) refl

  module _ {Addr : Type 0} where
    -- Over a runtime that keeps its documented laws: a destination reports a chat message for a
    -- client whose number has 32 bits, in a datagram of at most 2048 bytes, as the buffer of the
    -- proxy. The client is registered for an open socket, known to the proxy under a client handler
    -- that is there, and routed. Then the datagram makes the UDP handler
    -- tell the proxy, the proxy passes the message on to the client handler, and the route sends its
    -- data as one packet; a page whose WebSocket brings them shows the message once, with the user
    -- and the text that the server gave, and changes nothing else.
    pub on_datagram-ws_message :
        (user text : Option String) (page : Page js) (c id now route_time : ℕ) (transport : Bool)
        (d : UdpDestination Addr) (p : Proxy) (m : ClientConnectionMetadata) (r : Route)
        → id < 2 ^ 32
        → length (write_report fb (RoundTrip.message id) (some (chat_message fb user text))) ≤ 2048
        → d.is_closed ≡ false
        → is_some (address_of id d.destination_connections) ≡ true
        → client id p ≡ some m
        → has_name m.client_handler_name p.outgoing_clients ≡ true
        → r.phase ≡ routing true transport
        → let data_ = chat_message fb user text in
          let msg = message_of id now data_ in
          let msg' : Message = record msg { route_timestamp = route_time } in
          let line = chat_line user text in
          let passed : Outcome = (none, put (to_client m.client_handler_name msg') p) in
          ((on_datagram fb now (write_report fb (RoundTrip.message id) (some data_)) d).to_proxy
            ≡ d.to_proxy ++ incoming_message msg ∷ [])
          × (forward_destination_message route_time msg p ≡ passed)
          × (receive fb (outgoing_message msg') r ≡ some (sends data_ r))
          × (handle js fb (ws_message c (array_buffer data_)) page ≡ record page {
            output = page.output ++ console_log line ∷ page_line line LogLevel.user_chat ∷ [];
          })
    on_datagram-ws_message user text page c id now route_time transport d p m r lt fits open_
          registered known there at_ =
        let data_ = chat_message fb user text in
        let msg = message_of id now data_ in
        let msg' : Message = record msg { route_timestamp = route_time } in
        let arrived =
          on_datagram-write_report fb laws now (RoundTrip.message id) (some data_) d lt
            (chat_message-AllBytes user text) fits open_ in
        let e₁ : UdpDestination Addr = record d {
          to_proxy = d.to_proxy ++ incoming_message msg ∷ [];
        } in
        let passes : (if is_some (address_of id d.destination_connections) then e₁ else d) ≡ e₁ =
          rw registered refl in
        (
          ap (λ x. UdpDestination.to_proxy x) (arrived ∙ passes),
          forward_destination_message_sent route_time msg p m known there,
          receive-outgoing_message fb r transport msg' at_,
          on_message-chat_message user text page c,
        )
