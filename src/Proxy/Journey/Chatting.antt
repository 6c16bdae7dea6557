-- ===== src/Proxy/Journey/Chatting.antt =====
-- What the user of a page does, from the page to the destination:
-- examples/hello-spanreed/client/src/DemoPage.tsx, pkg/transport/client_connection_router.go,
-- pkg/proxy/proxy.go and pkg/transport/udp_destination.go.
use spanreed_netcode_proxy.Prelude.{
  ℕ, ◌<◌, ◌^◌, ◌≡◌, refl, ap, ◌∙◌, Bool, true, none, some, [], ◌∷◌, ◌++◌,
}
use spanreed_netcode_proxy.Canvas.Numbers.{Numbers}
use spanreed_netcode_proxy.Wire.Flatbuffers.{Flatbuffers, Bytes}
use spanreed_netcode_proxy.Wire.Flatbuffers.Objects.{AllBytes}
use spanreed_netcode_proxy.Wire.Flatbuffers.Laws.{Laws}
use spanreed_netcode_proxy.Wire.ProxyDestinationMessage.RoundTrip.{client_message, read_notice}
use spanreed_netcode_proxy.Connection.Payload.{click_payload, chat_payload, ping_payload}
use spanreed_netcode_proxy.Connection.Payload.Decoding.{Told, decode}
use spanreed_netcode_proxy.Connection.Payload.RoundTrip.{
  decode-click_payload, decode-chat_payload, decode-ping_payload,
}
use spanreed_netcode_proxy.Page.{Page, Connection}
use spanreed_netcode_proxy.Page.Effects.{Event, canvas_clicked, chat_submitted, pinged, handle}
use spanreed_netcode_proxy.Page.Effects.Closing.{payload_of, handle-sent}
use spanreed_netcode_proxy.Page.Effects.Telling.{meant}
use spanreed_netcode_proxy.Proxy.Store.{ClientConnectionMetadata}
use spanreed_netcode_proxy.Proxy.State.{Proxy, Message, Outcome, to_destination, has_name, put}
use spanreed_netcode_proxy.Proxy.Hub.{forward_client_message}
use spanreed_netcode_proxy.Proxy.Hub.Kicking.{client}
use spanreed_netcode_proxy.Proxy.Hub.Routing.{forward_client_message_sent}
use spanreed_netcode_proxy.Proxy.Router.{Route, routing, packet, incoming_message, told, receive}
use spanreed_netcode_proxy.Proxy.Router.Relaying.{message_of, receive-packet}
use spanreed_netcode_proxy.Proxy.Datagrams.{notice_datagram}
use spanreed_netcode_proxy.Proxy.Datagrams.Reading.{read_notice-notice_datagram}
use spanreed_netcode_proxy.Proxy.Udp.{UdpDestination, address_of, on_client_message}
use spanreed_netcode_proxy.Proxy.Udp.Conversation.{on_client_message_known}

module _ (js : Numbers) (fb : Flatbuffers js.Number) (laws : Laws fb) (zero_ : js.Number) where
  -- The payload of what the user does: bytes, which read as what is meant.
  payload_of_lem :
      (e : Event js) (t : Told js.Number)
      → meant js fb laws zero_ e ≡ some t
      → (payload : Bytes) × (payload_of js fb e ≡ some payload)
        × AllBytes payload
        × (decode fb zero_ payload ≡ some t)
  unfolding click_payload chat_payload ping_payload
  payload_of_lem (canvas_clicked x y) t h = (
    click_payload fb x y,
    refl,
    laws.as_uint8_array-AllBytes _,
    decode-click_payload fb laws zero_ x y ∙ h,
  )
  payload_of_lem (chat_submitted text) t h = (
    chat_payload fb text,
    refl,
    laws.as_uint8_array-AllBytes _,
    decode-chat_payload fb laws zero_ text ∙ h,
  )
  payload_of_lem pinged t h =
      (ping_payload fb, refl, laws.as_uint8_array-AllBytes _, decode-ping_payload fb laws zero_ ∙ h)
  payload_of_lem _ t h = cc

  module _ {Addr : Type 0} where
    -- Over a runtime that keeps its documented laws: a page with a connection, on which the user
    -- clicks the canvas or submits a chat message, or whose timer pings. The client, whose number
    -- has 32 bits, is routed, known to the proxy under a destination handler that is there, and
    -- registered for UDP. Then the page sends one payload, the route and the proxy pass it on, and
    -- the handler queues a datagram for the address of the client's destination: it reads as a
    -- message of this client whose data read as what the user did.
    pub handle-on_client_message :
        (e : Event js) (t : Told js.Number) (page : Page js) (c : Connection)
        (id now route_time : ℕ) (r : Route) (proxy : Bool) (p : Proxy)
        (m : ClientConnectionMetadata) (a : Addr) (d : UdpDestination Addr)
        → meant js fb laws zero_ e ≡ some t
        → page.connection ≡ some c
        → id < 2 ^ 32
        → r.client_id ≡ id
        → r.phase ≡ routing proxy true
        → client id p ≡ some m
        → has_name m.destination_handler_name p.outgoing_destinations ≡ true
        → address_of id d.destination_connections ≡ some a
        → (payload : Bytes) × (bytes : Bytes) × ((handle js fb e page).sent
            ≡ (c.id, payload) ∷ page.sent)
          × (let msg = message_of id now payload in
              let msg' : Message = record msg { route_timestamp = route_time } in
              let passed : Outcome =
                (none, put (to_destination m.destination_handler_name msg') p) in
              (receive fb (packet now payload) r ≡ some (told (incoming_message msg) r))
              × (forward_client_message route_time msg p ≡ passed)
              × ((on_client_message fb msg' d).outgoing_messages
                  ≡ d.outgoing_messages ++ (a, bytes) ∷ []))
          × (read_notice fb bytes ≡ (some (client_message id), some payload))
          × (decode fb zero_ payload ≡ some t)
    handle-on_client_message e t page c id now route_time r proxy p m a d means connected lt same
          at_ known there registered =
        let (payload, e₁, are_bytes, reads) = payload_of_lem e t means in
        let msg = message_of id now payload in
        let msg' : Message = record msg { route_timestamp = route_time } in
        let taken = receive-packet fb r proxy now payload at_ in
        (
          payload,
          notice_datagram fb (client_message id) (some payload),
          handle-sent js fb e page ∙ rw (connected, e₁) refl,
          (
            taken ∙ ap (λ n. some (told (incoming_message (message_of n now payload)) r)) same,
            forward_client_message_sent route_time msg p m known there,
            ap (λ q. UdpDestination.outgoing_messages q)
                (on_client_message_known fb msg' a d registered),
          ),
          read_notice-notice_datagram fb laws (client_message id) (some payload) lt are_bytes,
          reads,
        )
