-- ===== src/Proxy/Udp.antt =====
-- pkg/transport/udp_destination.go: the destinations that are reached by UDP. A channel or a socket
-- that is written to is the list of what was written. Resolving hosts and addresses is a parameter:
-- `ResolveUdpHost` is a setting, and `net.ResolveUDPAddr` is of the Go library.
use spanreed_netcode_proxy.Prelude.{
  ℕ, Bool, true, false, String, Option, none, some, List, [], ◌∷◌, ◌++◌, map, take, ◌==◌,
  if◌then◌else◌,
}
use spanreed_netcode_proxy.Wire.Flatbuffers.{Flatbuffers, Bytes}
use spanreed_netcode_proxy.Wire.ProxyDestinationMessage.RoundTrip.{
  connection_request, client_message, close_connection,
}
use spanreed_netcode_proxy.Proxy.Hosts.{is_destination_allowed}
use spanreed_netcode_proxy.Proxy.State.{Message, OpenCommand, Verdict, CloseCommand}
use spanreed_netcode_proxy.Proxy.Datagrams.{
  Incoming, verdict_of, message_for, close_of, notice_datagram, read_datagram,
}
pub mod Events
pub mod Confinement
pub mod Delivery
pub mod Conversation

-- A result, or the text of an error.
pub data Resolved (A : Type 0) : Type 0 where
  resolved : A → Resolved A
  failed : String → Resolved A

pub record UdpParams : Type 0 where
  pub allow_all_destinations : Bool
  pub allowlisted_destinations : List String
  pub denylisted_destinations : List String

pub record Resolver (Addr : Type 0) : Type 0 where
  pub resolve_udp_host : String → Resolved String
  pub resolve_udp_addr : String → Resolved Addr

-- What is put into the channels to the proxy.
pub data ToProxy : Type 0 where
  open_client_verdict : Verdict → ToProxy
  incoming_message : Message → ToProxy
  destination_close_request : CloseCommand → ToProxy

abbrev pub Addresses : Type 0 → Type 0
Addresses Addr = List (ℕ × Addr)

module _ {Addr : Type 0} where
  -- The entry of a client in the map of the connections.
  abbrev pub address_of : ℕ → Addresses Addr → Option Addr
  address_of id [] = none
  address_of id ((k, a) ∷ rest) = if k == id then some a else address_of id rest

  -- `delete(m, id)`
  abbrev pub forget : ℕ → Addresses Addr → Addresses Addr
  forget id [] = []
  forget id ((k, a) ∷ rest) = if k == id then forget id rest else (k, a) ∷ forget id rest

  -- `m[id] = a`
  abbrev pub assign : ℕ → Addr → Addresses Addr → Addresses Addr
  assign id a l = (id, a) ∷ forget id l

-- `written` is what the socket was given before it was closed.
pub record UdpDestination (Addr : Type 0) : Type 0 where
  pub destination_connections : Addresses Addr
  pub outgoing_messages : List (Addr × Bytes)
  pub to_proxy : List ToProxy
  pub written : List (Addr × Bytes)
  pub is_closed : Bool

abbrev pub create_udp_destination_handler : {Addr : Type 0} → UdpDestination Addr
create_udp_destination_handler = record {
  destination_connections = [];
  outgoing_messages = [];
  to_proxy = [];
  written = [];
  is_closed = false;
}

-- An error is answered with a refusal.
refuse_on_error : {Addr : Type 0} → ℕ → Option String × UdpDestination Addr → UdpDestination Addr
refuse_on_error id (none, d) = d
refuse_on_error id (some e, d) = record d {
  to_proxy =
      d.to_proxy
      ++ open_client_verdict
          (record { client_id = id; verdict = false; error = some e; app_data = none })
        ∷ [];
}

module _ {N : Type 0} (fb : Flatbuffers N) {Addr : Type 0} where
  -- The client has its address, and the datagram that asks for the connection is queued.
  connect_at :
      Resolved Addr → OpenCommand → UdpDestination Addr → Option String × UdpDestination Addr
  connect_at (failed e) cmd d = (some e, d)
  connect_at (resolved a) cmd d = (
    none,
    record d {
      destination_connections = assign cmd.client_id a d.destination_connections;
      outgoing_messages =
          d.outgoing_messages
          ++ (a, notice_datagram fb (connection_request cmd.client_id) cmd.app_data) ∷ [];
    },
  )

  connect_host :
      Resolver Addr
      → UdpParams
      → Resolved String
      → OpenCommand
      → UdpDestination Addr
      → Option String × UdpDestination Addr
  unfolding connect_at
  connect_host net params (failed e) cmd d = (some e, d)
  connect_host net params (resolved host) cmd d =
      if is_destination_allowed params.allow_all_destinations params.allowlisted_destinations
        params.denylisted_destinations host
      then connect_at (net.resolve_udp_addr host) cmd d
      else (some "cannot connect to denied destination", d)

  on_connect_client :
      Resolver Addr
      → UdpParams
      → OpenCommand
      → UdpDestination Addr
      → Option String × UdpDestination Addr
  unfolding connect_host
  on_connect_client net params cmd d =
      connect_host net params (net.resolve_udp_host cmd.connection_string) cmd d

  -- The case for `OpenClientChannel`.
  unfoldable pub open_client :
      Resolver Addr → UdpParams → OpenCommand → UdpDestination Addr → UdpDestination Addr
  unfolding on_connect_client refuse_on_error
  open_client net params cmd d = refuse_on_error cmd.client_id (on_connect_client net params cmd d)

  message_to : Option Addr → Message → UdpDestination Addr → UdpDestination Addr
  message_to none msg d = d
  message_to (some a) msg d = record d {
    outgoing_messages =
        d.outgoing_messages
        ++ (a, notice_datagram fb (client_message msg.client_id) msg.data_) ∷ [];
  }

  unfoldable pub on_client_message : Message → UdpDestination Addr → UdpDestination Addr
  unfolding message_to
  on_client_message msg d = message_to (address_of msg.client_id d.destination_connections) msg d

  close_to : Option Addr → (client_id : ℕ) → UdpDestination Addr → UdpDestination Addr
  close_to none client_id d = d
  close_to (some a) client_id d = record d {
    destination_connections = forget client_id d.destination_connections;
    outgoing_messages =
        d.outgoing_messages ++ (a, notice_datagram fb (close_connection client_id) none) ∷ [];
  }

  unfoldable pub on_proxy_request_close :
      (client_id : ℕ) → UdpDestination Addr → UdpDestination Addr
  unfolding close_to
  on_proxy_request_close client_id d =
      close_to (address_of client_id d.destination_connections) client_id d

-- `var buf [2048]byte`
abbrev pub buffer_size : ℕ
buffer_size = 2048

-- What comes from a destination is passed on if its client is registered.
pass_on : {Addr : Type 0} → Option Addr → ToProxy → UdpDestination Addr → UdpDestination Addr
pass_on none p d = d
pass_on (some a) p d = record d { to_proxy = d.to_proxy ++ p ∷ [] }

module _ {Addr : Type 0} where
  on_receive_verdict :
      (client_id : ℕ) (accepted : Bool) (app_data : Option Bytes)
      → UdpDestination Addr
      → UdpDestination Addr
  unfolding pass_on
  on_receive_verdict client_id accepted app_data d =
      pass_on (address_of client_id d.destination_connections)
        (open_client_verdict
          (record { client_id = client_id; verdict = accepted; error = none; app_data = app_data }))
        d

  on_receive_proxy_message :
      (now client_id : ℕ) (app_data : Option Bytes) → UdpDestination Addr → UdpDestination Addr
  unfolding pass_on
  on_receive_proxy_message now client_id app_data d =
      pass_on (address_of client_id d.destination_connections)
        (incoming_message (record {
          client_id = client_id;
          recv_timestamp = now;
          route_timestamp = 0;
          data_ = app_data;
        }))
        d

  on_receive_close_request :
      (client_id : ℕ) (reason : String) (app_data : Option Bytes)
      → UdpDestination Addr
      → UdpDestination Addr
  unfolding pass_on
  on_receive_close_request client_id reason app_data d =
      pass_on (address_of client_id d.destination_connections)
        (destination_close_request
          (record { client_id = client_id; reason = reason; error = none; app_data = app_data }))
        d

  receive : (now : ℕ) → Option Incoming × Option Bytes → UdpDestination Addr → UdpDestination Addr
  unfolding on_receive_verdict on_receive_proxy_message on_receive_close_request
  receive now (none, app_data) d = d
  receive now (some (verdict_of id ok), app_data) d = on_receive_verdict id ok app_data d
  receive now (some (message_for id), app_data) d = on_receive_proxy_message now id app_data d
  receive now (some (close_of id reason), app_data) d =
      on_receive_close_request id reason app_data d

  -- Once the socket is closed nothing more is written.
  send_first : List (Addr × Bytes) → UdpDestination Addr → UdpDestination Addr
  send_first [] d = d
  send_first (m ∷ ms) d = record d {
    outgoing_messages = ms;
    written = if d.is_closed then d.written else d.written ++ m ∷ [];
  }

  -- The goroutine that sends messages takes the first.
  unfoldable pub dispatch : UdpDestination Addr → UdpDestination Addr
  unfolding send_first
  dispatch d = send_first d.outgoing_messages d

module _ {N : Type 0} (fb : Flatbuffers N) {Addr : Type 0} where
  -- The goroutine that listens, on one datagram, whatever its source. It reads into a buffer of 2048
  -- bytes, and what a longer datagram has beyond them is lost.
  unfoldable pub on_datagram : (now : ℕ) → Bytes → UdpDestination Addr → UdpDestination Addr
  unfolding receive
  on_datagram now raw_msg d =
      if d.is_closed then d else receive now (read_datagram fb (take buffer_size raw_msg)) d

  farewells : Addresses Addr → List (Addr × Bytes)
  farewells [] = []
  farewells ((id, a) ∷ rest) = (a, notice_datagram fb (close_connection id) none) ∷ farewells rest

  -- The goroutine that waits for the end: it tells each client's destination, and closes the socket.
  unfoldable pub shut_down : UdpDestination Addr → UdpDestination Addr
  unfolding farewells
  shut_down d = record d {
    destination_connections = [];
    written = d.written ++ farewells d.destination_connections;
    is_closed = true;
  }
