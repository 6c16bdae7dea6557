-- ===== src/Proxy/Router/Growing.antt =====
-- What the routing of pkg/transport/client_connection_router.go has for the transport only grows.
use spanreed_netcode_proxy.Prelude.{
  ◌≡◌, refl, sym, Bool, true, false, Option, none, some, List, [], ◌∷◌, ◌++◌, append-nil,
}
use spanreed_netcode_proxy.Wire.Flatbuffers.{Flatbuffers, Bytes}
use spanreed_netcode_proxy.Proxy.Router.{
  RoutePhase, awaiting_auth, awaiting_verdict, routing, ended, Route, RouteEvent, context_done,
  client_close, close_request, packet, deformed_packet, verdict_received, listener_done,
  listener_close, outgoing_message, abandoned, on_auth, verdict_passed, settled, on_verdict,
  listen_to_proxy, listen_to_transport, is_for_listener, listen, react, receive, sends,
}

-- What was sent before is there, and then more.
abbrev pub Grows : Route → Option Route → Type 0
Grows r none = Unit {0}
Grows r (some q) = (l : List Bytes) × (q.outgoing_packets ≡ r.outgoing_packets ++ l)

module _ {N : Type 0} (fb : Flatbuffers N) (r : Route) where
  same : Grows r (some r)
  same = ([], sym (append-nil r.outgoing_packets))

  on_auth-Grows : (e : RouteEvent) → Grows r (on_auth fb e r)
  unfolding on_auth abandoned
  on_auth-Grows context_done = same
  on_auth-Grows client_close = same
  on_auth-Grows close_request = same
  on_auth-Grows (packet now f) = same
  on_auth-Grows deformed_packet = same
  on_auth-Grows (verdict_received v) = tt
  on_auth-Grows listener_done = tt
  on_auth-Grows listener_close = tt
  on_auth-Grows (outgoing_message msg) = tt

  settled-Grows : (ok : Bool) (p : Bytes) → Grows r (some (settled ok (sends p r)))
  unfolding settled
  settled-Grows true p = (p ∷ [], refl)
  settled-Grows false p = (p ∷ [], refl)

  on_verdict-Grows : (e : RouteEvent) → Grows r (on_verdict fb e r)
  unfolding on_verdict verdict_passed
  on_verdict-Grows context_done = (_, refl)
  on_verdict-Grows client_close = same
  on_verdict-Grows close_request = (_, refl)
  on_verdict-Grows (packet now f) = tt
  on_verdict-Grows deformed_packet = tt
  on_verdict-Grows (verdict_received v) = settled-Grows v.verdict _
  on_verdict-Grows listener_done = tt
  on_verdict-Grows listener_close = tt
  on_verdict-Grows (outgoing_message msg) = tt

  listen-Grows : (proxy transport : Bool) (e : RouteEvent) → Grows r (listen proxy transport e r)
  unfolding listen is_for_listener listen_to_proxy listen_to_transport
  listen-Grows true transport listener_done = same
  listen-Grows true transport listener_close = same
  listen-Grows true transport (outgoing_message msg) = (_, refl)
  listen-Grows false transport listener_done = tt
  listen-Grows false transport listener_close = tt
  listen-Grows false transport (outgoing_message msg) = tt
  listen-Grows proxy true context_done = same
  listen-Grows proxy true client_close = same
  listen-Grows proxy true close_request = same
  listen-Grows proxy true (packet now f) = same
  listen-Grows proxy true deformed_packet = tt
  listen-Grows proxy true (verdict_received v) = tt
  listen-Grows proxy false context_done = tt
  listen-Grows proxy false client_close = tt
  listen-Grows proxy false close_request = tt
  listen-Grows proxy false (packet now f) = tt
  listen-Grows proxy false deformed_packet = tt
  listen-Grows proxy false (verdict_received v) = tt

  react-Grows : (phase : RoutePhase) (e : RouteEvent) → Grows r (react fb phase e r)
  unfolding react
  react-Grows awaiting_auth e = on_auth-Grows e
  react-Grows awaiting_verdict e = on_verdict-Grows e
  react-Grows (routing proxy transport) e = listen-Grows proxy transport e
  react-Grows ended e = tt

  pub receive-Grows : (e : RouteEvent) → Grows r (receive fb e r)
  unfolding receive
  receive-Grows e = react-Grows r.phase e
