-- ===== src/Proxy/Router.antt =====
-- pkg/transport/client_connection_router.go: what stands between the proxy and the transport of a
-- client. Here is the routing of one client that `OpenConnection` starts; Router/Channels is the map.
pub mod Order
pub mod Channels
pub mod Abandoned
pub mod Answering
pub mod Relaying
pub mod Hearing
pub mod Growing
use spanreed_netcode_proxy.Prelude.{
  ℕ, zero, suc, ◌+◌, Bool, true, false, String, Option, none, some, List, [], ◌∷◌, ◌++◌,
  get_or_else, if◌then◌else◌,
}
use spanreed_netcode_proxy.Wire.Flatbuffers.{Flatbuffers, Bytes, Build, mutate, ◌>>=◌, ◌>>◌}
use spanreed_netcode_proxy.Wire.Flatbuffers.Placing.{place}
use spanreed_netcode_proxy.Wire.ConnectClientMessage.{
  get_root_as_connect_client_message, connection_string, app_data_array,
}
use spanreed_netcode_proxy.Proxy.State.{same_name, Message, OpenCommand, Verdict}

-- What is put into the channels to the proxy.
pub data FromClient : Type 0 where
  open_client : OpenCommand → FromClient
  incoming_message : Message → FromClient
  incoming_close : (client_id : ℕ) (reason : String) → FromClient

-- It waits for the auth message, then for the verdict; then it has two goroutines, which listen to
-- the proxy and to the transport until they return.
pub data RoutePhase : Type 0 where
  awaiting_auth awaiting_verdict : RoutePhase
  routing : (to_proxy_listener to_transport_listener : Bool) → RoutePhase
  ended : RoutePhase

-- `proxy_closes` is how often the transport was told to close.
pub record Route : Type 0 where
  pub client_id : ℕ
  pub phase : RoutePhase
  pub is_connected : Bool
  pub outgoing_packets : List Bytes
  pub proxy_closes : ℕ
  pub to_proxy : List FromClient

-- What a `select` takes: the context is done, the client or the proxy closes, a packet, a packet
-- that cannot be parsed, a verdict. The last three are taken by the goroutine that listens to the
-- proxy; when there are two, the others are taken by the one that listens to the transport.
pub data RouteEvent : Type 0 where
  context_done client_close close_request : RouteEvent
  packet : (now : ℕ) → Bytes → RouteEvent
  deformed_packet : RouteEvent
  verdict_received : Verdict → RouteEvent
  listener_done listener_close : RouteEvent
  outgoing_message : Message → RouteEvent

abbrev pub open_route : (client_id : ℕ) → Route
open_route client_id = record {
  client_id = client_id;
  phase = awaiting_auth;
  is_connected = false;
  outgoing_packets = [];
  proxy_closes = 0;
  to_proxy = [];
}

abbrev pub told : FromClient → Route → Route
told s r = record r { to_proxy = r.to_proxy ++ s ∷ [] }

abbrev pub sends : Bytes → Route → Route
sends p r = record r { outgoing_packets = r.outgoing_packets ++ p ∷ [] }

abbrev pub enters : RoutePhase → Route → Route
enters phase r = record r { phase = phase }

abbrev pub closes : Route → Route
closes r = record r { proxy_closes = r.proxy_closes + 1 }

-- A text in Go is there if it is not empty.
abbrev pub nonempty : String → Option String
nonempty s = if same_name s "" then none else some s

-- The client is connected, or the transport is told to close.
settled : (verdict : Bool) → Route → Route
settled true r = record r { phase = routing true true; is_connected = true }
settled false r = enters ended (closes r)

module _ {N : Type 0} (fb : Flatbuffers N) where
  open fb use {Builder, new_builder}

  -- A field of an offset, if there is what it refers to.
  add_if {ℓ} : {A : Type ℓ} → Option A → (slot p : ℕ) → Build Builder (Unit {0})
  add_if none slot p = mutate (λ b. b)
  add_if (some a) slot p = mutate (fb.add_field_offset slot p 0)

  unfoldable pub create_verdict_msg : Bool → (reason : String) → Option Bytes → Bytes
  unfolding add_if
  create_verdict_msg verdict reason app_data =
      fb.as_uint8_array
        ((do
          p_app_data ← place fb.create_byte_vector app_data
          p_reason_string ← place fb.create_string (nonempty reason)
          mutate (fb.start_object 3)
          mutate (fb.add_field_int8 0 (if verdict then 1 else 0) 0)
          add_if (nonempty reason) 1 p_reason_string
          add_if app_data 2 p_app_data
          p_connect_client_verdict ← fb.end_object
          mutate (fb.finish p_connect_client_verdict))
          (new_builder 64)).1

  -- The command of an auth message; an absent connection string is the empty text.
  unfoldable pub open_command : (client_id now : ℕ) → Bytes → OpenCommand
  open_command client_id now payload =
      let auth_msg = get_root_as_connect_client_message fb (fb.new_byte_buffer payload) in
      record {
        client_id = client_id;
        recv_timestamp = now;
        route_timestamp = 0;
        connection_string = get_or_else (connection_string fb auth_msg) "";
        app_data = app_data_array fb auth_msg;
      }

  abandoned : Route → Route
  abandoned r = enters ended (told (incoming_close r.client_id "Proxy shutdown request") r)

  -- The first `select`.
  on_auth : RouteEvent → Route → Option Route
  unfolding abandoned
  on_auth context_done r = some (abandoned r)
  on_auth client_close r = some (abandoned r)
  on_auth close_request r = some (abandoned r)
  on_auth (packet now payload) r =
      some (enters awaiting_verdict (told (open_client (open_command r.client_id now payload)) r))
  on_auth deformed_packet r = some (enters ended r)
  on_auth _ r = none

  verdict_passed : Verdict → Route → Route
  unfolding settled
  verdict_passed v r =
      settled v.verdict (sends (create_verdict_msg v.verdict (get_or_else v.error "") v.app_data) r)

  -- The second `select`.
  on_verdict : RouteEvent → Route → Option Route
  unfolding verdict_passed
  on_verdict context_done r =
      some (enters ended (closes (sends (create_verdict_msg false "Proxy shutdown" none) r)))
  on_verdict client_close r = some (enters ended (closes r))
  on_verdict close_request r =
      some (enters ended (closes (sends (create_verdict_msg false "Auth timeout" none) r)))
  on_verdict (verdict_received v) r = some (verdict_passed v r)
  on_verdict _ r = none

-- The goroutine that listens to the proxy. Its case for the context is empty, so it listens again.
listen_to_proxy : RouteEvent → (transport : Bool) → Route → Option Route
listen_to_proxy listener_done transport r = some r
listen_to_proxy listener_close transport r = some (enters (routing false transport) (closes r))
listen_to_proxy (outgoing_message msg) transport r = some (sends (get_or_else msg.data_ []) r)
listen_to_proxy _ transport r = none

-- The goroutine that listens to the transport. Its case for a close of the client is empty, too.
listen_to_transport : RouteEvent → (proxy : Bool) → Route → Option Route
listen_to_transport context_done proxy r =
    some
      (enters (routing proxy false) (told (incoming_close r.client_id "Proxy shutdown request") r))
listen_to_transport client_close proxy r = some r
listen_to_transport close_request proxy r = some (
    enters (routing proxy false)
      (told (incoming_close r.client_id "Close request received from transport") r))
listen_to_transport (packet now payload) proxy r = some (
    told
      (incoming_message (record {
        client_id = r.client_id;
        recv_timestamp = now;
        route_timestamp = 0;
        data_ = some payload;
      }))
      r)
listen_to_transport _ proxy r = none

abbrev pub and_then : Option Route → (Route → Option Route) → Option Route
and_then none f = none
and_then (some r) f = f r

-- The events of the goroutine that listens to the proxy.
is_for_listener : RouteEvent → Bool
is_for_listener listener_done = true
is_for_listener listener_close = true
is_for_listener (outgoing_message msg) = true
is_for_listener _ = false

listen : (proxy transport : Bool) → RouteEvent → Route → Option Route
unfolding is_for_listener listen_to_proxy listen_to_transport
listen proxy transport e r =
    if is_for_listener e
    then (if proxy then listen_to_proxy e transport r else none)
    else if transport
    then listen_to_transport e proxy r
    else none

module _ {N : Type 0} (fb : Flatbuffers N) where
  -- An event is taken, or none waits for it.
  react : RoutePhase → RouteEvent → Route → Option Route
  unfolding on_auth on_verdict listen
  react awaiting_auth e r = on_auth fb e r
  react awaiting_verdict e r = on_verdict fb e r
  react (routing proxy transport) e r = listen proxy transport e r
  react ended e r = none

  unfoldable pub receive : RouteEvent → Route → Option Route
  unfolding react
  receive e r = react r.phase e r

  -- The events that are taken, one after the other.
  unfoldable pub run : List RouteEvent → Route → Option Route
  unfolding receive
  run [] r = some r
  run (e ∷ es) r = and_then (receive e r) (run es)
