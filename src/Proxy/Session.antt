-- ===== src/Proxy/Session.antt =====
-- pkg/transport/websocket_client.go: one client that connects by WebSocket, with the two goroutines
-- of `onWsRequest`, and its routing, which takes what they put into its channels.
pub mod Order
pub mod Telling
pub mod Leaving
pub mod Serving
pub mod Hanging
use spanreed_netcode_proxy.Prelude.{
  ℕ, suc, ◌-◌, Bool, true, false, not, ◌&&◌, ◌||◌, Option, none, some, List, [], ◌∷◌, ◌++◌,
  if◌then◌else◌, length, get_elem?, ltb,
}
use spanreed_netcode_proxy.Wire.Flatbuffers.{Flatbuffers, Bytes}
use spanreed_netcode_proxy.Proxy.Store.{StoreError}
use spanreed_netcode_proxy.Proxy.Router.{
  Route, RouteEvent, context_done, client_close, close_request, packet, deformed_packet,
  verdict_received, listener_done, listener_close, outgoing_message, open_route, receive,
}
use spanreed_netcode_proxy.Proxy.Router.Channels.{
  ConnectionMap, open_connection, leaves, step as map_step,
}

-- `incoming` holds what was put into `IncomingMessages` and not yet taken; `client_closes` is how
-- often `ClientInitiatedClose` has a value.
pub record Session : Type 0 where
  pub route : Route
  pub incoming : List Bytes
  pub written : List Bytes
  pub proxy_listener : Bool
  pub connection_listener : Bool
  pub is_closed : Bool
  pub is_cancelled : Bool
  pub client_closes : ℕ

-- What the socket reads, what the goroutine for the proxy takes, and what the routing takes: a
-- packet, or another event. A packet that cannot be parsed is `deformed_read`.
pub data SessionEvent : Type 0 where
  binary_frame : Bytes → SessionEvent
  other_frame read_failed : SessionEvent
  server_done close_taken packet_taken : SessionEvent
  packet_read : (now : ℕ) → SessionEvent
  deformed_read : SessionEvent
  route_event : RouteEvent → SessionEvent

abbrev pub open_session : (client_id : ℕ) → Session
open_session client_id = record {
  route = open_route client_id;
  incoming = [];
  written = [];
  proxy_listener = true;
  connection_listener = true;
  is_closed = false;
  is_cancelled = false;
  client_closes = 0;
}

opened : Option StoreError → (id : ℕ) → ConnectionMap → Option Session × ConnectionMap
opened (some e) id t = (none, t)
opened none id t = (some (open_session id), t)

-- Without an upgrade, or without a route for the client, it returns.
unfoldable on_ws_request :
    (upgraded : Bool) → Option StoreError × ℕ → ConnectionMap → Option Session × ConnectionMap
unfolding opened
on_ws_request false next t = (none, t)
on_ws_request true next t = let (e, t') = open_connection next t in opened e next.1 t'

-- When both goroutines have returned, the client is removed.
unfoldable on_finished : Session → ConnectionMap → ConnectionMap
on_finished s t =
    if s.proxy_listener || s.connection_listener then t else map_step (leaves s.route.client_id) t

abbrev pub when : Bool → Session → Option Session
when b s = if b then some s else none

-- A frame of bytes is passed to the routing.
pub on_frame : Bytes → Session → Option Session
on_frame payload s =
    when (s.connection_listener && not s.is_closed)
      (record s { incoming = s.incoming ++ payload ∷ [] })

-- Any error ends the goroutine.
on_read_failed : Session → Option Session
on_read_failed s = when s.connection_listener (record s {
  connection_listener = false;
  is_cancelled = true;
  client_closes = suc s.client_closes;
})

on_proxy_close : Session → Option Session
on_proxy_close s =
    when (s.proxy_listener && ltb 0 s.route.proxy_closes)
      (record s { proxy_listener = false; is_closed = true; is_cancelled = true })

pub write : Option Bytes → Session → Option Session
write none s = none
write (some payload) s = when s.proxy_listener (record s { written = s.written ++ payload ∷ [] })

abbrev pub with_route : Option Route → Session → Option Session
with_route none s = none
with_route (some r) s = some (record s { route = r })

-- Which events of the routing can be taken; a packet comes from the channel.
is_offered : RouteEvent → Session → Bool
is_offered context_done s = s.is_cancelled
is_offered listener_done s = s.is_cancelled
is_offered client_close s = ltb 0 s.client_closes
is_offered (packet now payload) s = false
is_offered deformed_packet s = false
is_offered _ s = true

-- The closes that are left.
taken : RouteEvent → (client_closes : ℕ) → ℕ
taken client_close n = n - 1
taken _ n = n

abbrev pub and_then : Option Session → (Session → Option Session) → Option Session
and_then none f = none
and_then (some s) f = f s

module _ {N : Type 0} (fb : Flatbuffers N) where
  -- The routing takes the next packet.
  pub take_packet : (Bytes → RouteEvent) → List Bytes → Session → Option Session
  take_packet event [] s = none
  take_packet event (payload ∷ rest) s =
      with_route (receive fb (event payload) s.route) (record s { incoming = rest })

  pub on_route_event : RouteEvent → Session → Option Session
  unfolding is_offered taken
  on_route_event e s =
      if is_offered e s
      then with_route (receive fb e s.route) (record s { client_closes = taken e s.client_closes })
      else none

  -- The case of the goroutine for the context of the server is empty, so it listens again; the
  -- context of the route is done, too.
  unfoldable pub step : SessionEvent → Session → Option Session
  unfolding on_frame on_read_failed on_proxy_close write take_packet on_route_event
  step (binary_frame payload) s = on_frame payload s
  step other_frame s = when (s.connection_listener && not s.is_closed) s
  step read_failed s = on_read_failed s
  step server_done s = some (record s { is_cancelled = true })
  step close_taken s = on_proxy_close s
  step packet_taken s = write (get_elem? s.route.outgoing_packets (length s.written)) s
  step (packet_read now) s = take_packet (packet now) s.incoming s
  step deformed_read s = take_packet (λ payload. deformed_packet) s.incoming s
  step (route_event e) s = on_route_event e s

  unfoldable pub run : List SessionEvent → Session → Option Session
  unfolding step
  run [] s = some s
  run (e ∷ es) s = and_then (step e s) (run es)
