-- ===== src/Proxy/Router/Relaying.antt =====
-- What pkg/transport/client_connection_router.go does with a message of a client that is connected,
-- and with one for it.
use spanreed_netcode_proxy.Prelude.{ℕ, ◌≡◌, refl, Bool, true, some, [], get_or_else}
use spanreed_netcode_proxy.Wire.Flatbuffers.{Flatbuffers, Bytes}
use spanreed_netcode_proxy.Proxy.State.{Message}
use spanreed_netcode_proxy.Proxy.Router.{
  Route, routing, packet, outgoing_message, incoming_message, told, sends, receive, react, listen,
  listen_to_proxy, listen_to_transport, is_for_listener,
}

-- The message of a packet.
abbrev pub message_of : (client_id now : ℕ) → Bytes → Message
message_of client_id now payload = record {
  client_id = client_id;
  recv_timestamp = now;
  route_timestamp = 0;
  data_ = some payload;
}

module _ {N : Type 0} (fb : Flatbuffers N) (r : Route) where
  pub receive-packet :
      (proxy : Bool) (now : ℕ) (payload : Bytes)
      → r.phase ≡ routing proxy true
      → receive fb (packet now payload) r
        ≡ some (told (incoming_message (message_of r.client_id now payload)) r)
  unfolding receive react listen is_for_listener listen_to_transport
  receive-packet proxy now payload at_ = rw at_ refl

  pub receive-outgoing_message :
      (transport : Bool) (msg : Message)
      → r.phase ≡ routing true transport
      → receive fb (outgoing_message msg) r ≡ some (sends (get_or_else msg.data_ []) r)
  unfolding receive react listen is_for_listener listen_to_proxy
  receive-outgoing_message transport msg at_ = rw at_ refl
