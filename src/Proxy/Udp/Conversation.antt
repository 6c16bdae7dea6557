-- ===== src/Proxy/Udp/Conversation.antt =====
-- What pkg/transport/udp_destination.go tells a destination of a client.
use spanreed_netcode_proxy.Prelude.{
  ℕ, ◌<◌, ◌^◌, ◌≡◌, refl, ap, ◌∙◌, true, String, Option, none, some, [], ◌∷◌, ◌++◌, append_assoc,
  arith,
}
use spanreed_netcode_proxy.Wire.Flatbuffers.{Flatbuffers, Bytes}
use spanreed_netcode_proxy.Wire.Flatbuffers.Laws.{Laws}
use spanreed_netcode_proxy.Wire.Flatbuffers.Placing.{AreBytes}
use spanreed_netcode_proxy.Wire.ProxyDestinationMessage.RoundTrip.{
  Notice, connection_request, client_message, close_connection, read_notice,
}
use spanreed_netcode_proxy.Proxy.State.{Message, OpenCommand}
use spanreed_netcode_proxy.Proxy.Datagrams.{notice_datagram}
use spanreed_netcode_proxy.Proxy.Datagrams.Reading.{read_notice-notice_datagram}
use spanreed_netcode_proxy.Proxy.Hosts.{is_destination_allowed}
use spanreed_netcode_proxy.Proxy.Udp.{
  resolved, Resolver, UdpParams, UdpDestination, Addresses, address_of, forget, assign, connect_at,
  connect_host, on_connect_client, refuse_on_error, open_client, message_to, on_client_message,
  close_to, on_proxy_request_close,
}
use spanreed_netcode_proxy.Proxy.Udp.Events.{
  open_request, close_request, message_request, step, run,
}

module _ {Addr : Type 0} where
  address_of-forget : (id : ℕ) (l : Addresses Addr) → address_of id (forget id l) ≡ none
  address_of-forget id [] = refl
  address_of-forget id ((k, a) ∷ rest) = ground (arith, address_of-forget id rest)

module _ {N : Type 0} (fb : Flatbuffers N) {Addr : Type 0} where
  -- A destination is told of a client: the datagram goes to the address, and reads as the notice.
  abbrev pub Tells : Addr × Bytes → Addr → Notice → Option Bytes → Type 0
  Tells m a notice app_data = (m.0 ≡ a) × (read_notice fb m.1 ≡ (some notice, app_data))

  pub on_client_message_known :
      (msg : Message) (a : Addr) (d : UdpDestination Addr)
      → address_of msg.client_id d.destination_connections ≡ some a
      → on_client_message fb msg d ≡ record d {
        outgoing_messages =
            d.outgoing_messages
            ++ (a, notice_datagram fb (client_message msg.client_id) msg.data_) ∷ [];
      }
  unfolding on_client_message message_to
  on_client_message_known msg a d known = rw known refl

  on_proxy_request_close_known :
      (id : ℕ) (a : Addr) (d : UdpDestination Addr)
      → address_of id d.destination_connections ≡ some a
      → on_proxy_request_close fb id d ≡ record d {
        destination_connections = forget id d.destination_connections;
        outgoing_messages =
            d.outgoing_messages ++ (a, notice_datagram fb (close_connection id) none) ∷ [];
      }
  unfolding on_proxy_request_close close_to
  on_proxy_request_close_known id a d known = rw known refl

  module _ (net : Resolver Addr) (params : UdpParams) where
    pub open_client_allowed :
        (cmd : OpenCommand) (host : String) (a : Addr) (d : UdpDestination Addr)
        → net.resolve_udp_host cmd.connection_string ≡ resolved host
        → is_destination_allowed params.allow_all_destinations params.allowlisted_destinations
            params.denylisted_destinations host
          ≡ true
        → net.resolve_udp_addr host ≡ resolved a
        → open_client fb net params cmd d ≡ record d {
          destination_connections = assign cmd.client_id a d.destination_connections;
          outgoing_messages =
              d.outgoing_messages
              ++ (a, notice_datagram fb (connection_request cmd.client_id) cmd.app_data) ∷ [];
        }
    unfolding open_client on_connect_client connect_host connect_at refuse_on_error
    open_client_allowed cmd host a d at_ allowed found = rw (at_, allowed, found) refl

    address_of-assign :
        (id : ℕ) (a : Addr) (l : Addresses Addr) → address_of id (assign id a l) ≡ some a
    address_of-assign id a l = ground arith

    run_conversation :
        (cmd : OpenCommand) (msg : Message) (host : String) (a : Addr) (d : UdpDestination Addr)
        → msg.client_id ≡ cmd.client_id
        → net.resolve_udp_host cmd.connection_string ≡ resolved host
        → is_destination_allowed params.allow_all_destinations params.allowlisted_destinations
            params.denylisted_destinations host
          ≡ true
        → net.resolve_udp_addr host ≡ resolved a
        → let id = cmd.client_id in
          run fb net params (open_request cmd ∷ message_request msg ∷ close_request id ∷ []) d
          ≡ record d {
            destination_connections = forget id (assign id a d.destination_connections);
            outgoing_messages =
                d.outgoing_messages
                ++ (a, notice_datagram fb (connection_request id) cmd.app_data)
                  ∷ (a, notice_datagram fb (client_message msg.client_id) msg.data_)
                  ∷ (a, notice_datagram fb (close_connection id) none)
                  ∷ [];
          }
    unfolding run step
    run_conversation cmd msg host a d same at_ allowed found =
        let id = cmd.client_id in
        let opened = open_client_allowed cmd host a d at_ allowed found in
        let known = address_of-assign id a d.destination_connections in
        let m₁ : Addr × Bytes = (a, notice_datagram fb (connection_request id) cmd.app_data) in
        let m₂ : Addr × Bytes = (a, notice_datagram fb (client_message msg.client_id) msg.data_) in
        let m₃ : Addr × Bytes = (a, notice_datagram fb (close_connection id) none) in
        let l = assign id a d.destination_connections in
        let o = d.outgoing_messages in
        let p₁ : UdpDestination Addr = record d {
          destination_connections = l;
          outgoing_messages = o ++ m₁ ∷ [];
        } in
        let p₂ : UdpDestination Addr = record p₁ {
          outgoing_messages = (o ++ m₁ ∷ []) ++ m₂ ∷ [];
        } in
        let parts : ((o ++ m₁ ∷ []) ++ m₂ ∷ []) ++ m₃ ∷ [] ≡ o ++ m₁ ∷ m₂ ∷ m₃ ∷ [] =
          append_assoc (o ++ m₁ ∷ []) (m₂ ∷ []) (m₃ ∷ [])
          ∙ append_assoc o (m₁ ∷ []) (m₂ ∷ m₃ ∷ []) in
        ap (λ q. on_proxy_request_close fb id (on_client_message fb msg q)) opened
        ∙ ap (on_proxy_request_close fb id)
            (on_client_message_known msg a p₁ (ap (λ n. address_of n l) same ∙ known))
        ∙ on_proxy_request_close_known id a p₂ known
        ∙ ap (λ out. record d { destination_connections = forget id l; outgoing_messages = out })
            parts

module _ {N : Type 0} (fb : Flatbuffers N) (laws : Laws fb) {Addr : Type 0} where
  module _ (net : Resolver Addr) (params : UdpParams) where
    -- Over a runtime that keeps its documented laws: the proxy opens a client whose number has 32
    -- bits, at a host that is allowed and has an address, then sends a message of the client and
    -- then closes it, with data that are bytes or without: three datagrams are queued for that
    -- address, which read as the connection request, the message and the close of this client with
    -- their data, and the client is registered no longer.
    pub run-conversation :
        (cmd : OpenCommand) (msg : Message) (host : String) (a : Addr) (d : UdpDestination Addr)
        → cmd.client_id < 2 ^ 32
        → msg.client_id ≡ cmd.client_id
        → AreBytes cmd.app_data
        → AreBytes msg.data_
        → net.resolve_udp_host cmd.connection_string ≡ resolved host
        → is_destination_allowed params.allow_all_destinations params.allowlisted_destinations
            params.denylisted_destinations host
          ≡ true
        → net.resolve_udp_addr host ≡ resolved a
        → let q =
            run fb net params
              (open_request cmd ∷ message_request msg ∷ close_request cmd.client_id ∷ [])
              d in
          (m₁ m₂ m₃ : Addr × Bytes) × (q.outgoing_messages
            ≡ d.outgoing_messages ++ m₁ ∷ m₂ ∷ m₃ ∷ [])
          × Tells fb m₁ a (connection_request cmd.client_id) cmd.app_data
          × Tells fb m₂ a (client_message cmd.client_id) msg.data_
          × Tells fb m₃ a (close_connection cmd.client_id) none
          × (address_of cmd.client_id q.destination_connections ≡ none)
          × (q.to_proxy ≡ d.to_proxy)
    run-conversation cmd msg host a d lt same bytes₁ bytes₂ at_ allowed found =
        let id = cmd.client_id in
        let m₁ : Addr × Bytes = (a, notice_datagram fb (connection_request id) cmd.app_data) in
        let m₂ : Addr × Bytes = (a, notice_datagram fb (client_message msg.client_id) msg.data_) in
        let m₃ : Addr × Bytes = (a, notice_datagram fb (close_connection id) none) in
        let e = run_conversation fb net params cmd msg host a d same at_ allowed found in
        (
          m₁,
          m₂,
          m₃,
          ap (λ q. UdpDestination.outgoing_messages q) e,
          (
            refl,
            read_notice-notice_datagram fb laws (connection_request id) cmd.app_data lt bytes₁,
          ),
          (
            refl,
            read_notice-notice_datagram fb laws (client_message msg.client_id) msg.data_
                  (rw same lt) bytes₂
                ∙ ap (λ n. (some (client_message n), msg.data_)) same,
          ),
          (refl, read_notice-notice_datagram fb laws (close_connection id) none lt tt),
          ap (λ q. address_of id (UdpDestination.destination_connections q)) e
              ∙ address_of-forget id (assign id a d.destination_connections),
          ap (λ q. UdpDestination.to_proxy q) e,
        )
