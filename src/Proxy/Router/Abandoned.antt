-- ===== src/Proxy/Router/Abandoned.antt =====
-- A client whose auth message does not come, by pkg/transport/client_connection_router.go.
use spanreed_netcode_proxy.Prelude.{◌≡◌, refl, none, some}
use spanreed_netcode_proxy.Wire.Flatbuffers.{Flatbuffers}
use spanreed_netcode_proxy.Proxy.Router.{
  awaiting_auth, ended, Route, RouteEvent, packet, verdict_received, listener_done, listener_close,
  outgoing_message, context_done, client_close, close_request, deformed_packet, enters, abandoned,
  on_auth, react, receive,
}

-- What ends the wait for the auth message without one.
abbrev pub IsNoAuth : RouteEvent → Type 0
IsNoAuth context_done = Unit {0}
IsNoAuth client_close = Unit {0}
IsNoAuth close_request = Unit {0}
IsNoAuth deformed_packet = Unit {0}
IsNoAuth _ = ⊥

module _ {N : Type 0} (fb : Flatbuffers N) (r : Route) where
  -- The route has ended with nothing for the transport, and takes no more events.
  abbrev pub IsLeft : Route → Type 0
  IsLeft q =
      (q.phase ≡ ended)
      × (q.outgoing_packets ≡ r.outgoing_packets)
      × (q.proxy_closes ≡ r.proxy_closes)
      × ((e : RouteEvent) → receive fb e q ≡ none)

  -- While a client is to send its auth message, and the context is done, the client or the proxy
  -- closes, or the message cannot be parsed: the routing ends at once, and the transport is sent
  -- nothing and not told to close, then or later.
  pub receive-IsLeft :
      (e : RouteEvent)
      → r.phase ≡ awaiting_auth
      → IsNoAuth e
      → (q : Route) × (receive fb e r ≡ some q) × IsLeft q
  unfolding receive react on_auth abandoned
  receive-IsLeft context_done at_ h = (abandoned fb r, rw at_ refl, (refl, refl, refl, λ e. refl))
  receive-IsLeft client_close at_ h = (abandoned fb r, rw at_ refl, (refl, refl, refl, λ e. refl))
  receive-IsLeft close_request at_ h = (abandoned fb r, rw at_ refl, (refl, refl, refl, λ e. refl))
  receive-IsLeft deformed_packet at_ h =
      (enters ended r, rw at_ refl, (refl, refl, refl, λ e. refl))
  receive-IsLeft (packet now p) at_ h = absurd h
  receive-IsLeft (verdict_received v) at_ h = absurd h
  receive-IsLeft listener_done at_ h = absurd h
  receive-IsLeft listener_close at_ h = absurd h
  receive-IsLeft (outgoing_message m) at_ h = absurd h
