-- ===== src/Proxy/Session/Serving.antt =====
-- What a client that connects by WebSocket is sent, after any run of
-- pkg/transport/websocket_client.go and pkg/transport/client_connection_router.go.
use spanreed_netcode_proxy.Prelude.{
  ℕ, ◌≡◌, refl, sym, ap, ◌∙◌, ◌⊎◌, inl, inr, true, Option, none, some, List, [], ◌∷◌, ◌++◌,
  append_assoc, get_elem?, length,
}
use spanreed_netcode_proxy.Wire.Flatbuffers.{Flatbuffers, Bytes}
use spanreed_netcode_proxy.Proxy.Router.{Route, RouteEvent, packet, deformed_packet, receive}
use spanreed_netcode_proxy.Proxy.Router.Order.{IsOrderly, IsOrderlyIfAny, receive-IsOrderly}
use spanreed_netcode_proxy.Proxy.Router.Growing.{Grows, receive-Grows}
use spanreed_netcode_proxy.Proxy.Session.{
  Session, SessionEvent, open_session, with_route, on_frame, on_read_failed, on_proxy_close, write,
  take_packet, is_offered, taken, on_route_event, step, run,
}
use spanreed_netcode_proxy.Proxy.Session.Order.{IfAny, when-IfAny, if-IfAny, and_then-IfAny}

get_elem?-append : (ps rest : List Bytes) → get_elem? (ps ++ rest) (length ps) ≡ get_elem? rest 0
get_elem?-append [] rest = refl
get_elem?-append (p ∷ ps) rest = get_elem?-append ps rest

module _ {N : Type 0} (fb : Flatbuffers N) (id : ℕ) where
  -- The routing is orderly, the socket got the first of what it has for the transport, and it is
  -- closed when nothing more is taken.
  pub record IsServed (s : Session) : Type 0 where
    pub orderly : IsOrderly fb id s.route
    pub waiting : (rest : List Bytes) × (s.route.outgoing_packets ≡ s.written ++ rest)
    pub stopped : (s.proxy_listener ≡ true) ⊎ (s.is_closed ≡ true)

  with_route-IsServed :
      (o : Option Route) (s : Session)
      → IsServed s
      → IsOrderlyIfAny fb id o
      → Grows s.route o
      → IfAny IsServed (with_route o s)
  with_route-IsServed none s h orderly grows = tt
  with_route-IsServed (some q) s h orderly (l, grown) =
      let (rest, e) = h.waiting in
      record {
        orderly = orderly;
        waiting = (rest ++ l, grown ∙ ap (λ ps. ps ++ l) e ∙ append_assoc s.written rest l);
        stopped = h.stopped;
      }

  receive-IsServed :
      (e : RouteEvent) (s q : Session)
      → IsServed s
      → q.route ≡ s.route
      → IsServed q
      → IfAny IsServed (with_route (receive fb e s.route) q)
  receive-IsServed e s q h same k =
      with_route-IsServed _ q k (receive-IsOrderly fb id e s.route h.orderly)
        (rw same (receive-Grows fb s.route e))

  take_packet-IsServed :
      (event : Bytes → RouteEvent) (fs : List Bytes) (s : Session)
      → IsServed s
      → IfAny IsServed (take_packet fb event fs s)
  unfolding take_packet
  take_packet-IsServed event [] s h = tt
  take_packet-IsServed event (f ∷ rest) s h =
      receive-IsServed (event f) s (record s { incoming = rest }) h refl
        (record { orderly = h.orderly; waiting = h.waiting; stopped = h.stopped })

  on_route_event-IsServed :
      (e : RouteEvent) (s : Session) → IsServed s → IfAny IsServed (on_route_event fb e s)
  unfolding on_route_event
  on_route_event-IsServed e s h = if-IfAny IsServed (is_offered e s) _ (
      receive-IsServed e s (record s { client_closes = taken e s.client_closes }) h refl
        (record { orderly = h.orderly; waiting = h.waiting; stopped = h.stopped }))

  -- The next packet that waits, if there is one.
  next_waiting :
      (ps written rest : List Bytes) (p : Bytes)
      → ps ≡ written ++ rest
      → get_elem? ps (length written) ≡ some p
      → (later : List Bytes) × (ps ≡ (written ++ p ∷ []) ++ later)
  next_waiting ps written [] p e next =
      absurd (none_some (sym (get_elem?-append written []) ∙ (rw e at next)))
    where
      none_some : (none ≡ some p) → ⊥
      none_some h = cc
  next_waiting ps written (f ∷ rest) p e next =
      let h : some f ≡ some p = sym (get_elem?-append written (f ∷ rest)) ∙ (rw e at next) in
      let same : f ≡ p = cc in (rest, e ∙ rw same (sym (append_assoc written (p ∷ []) rest)))

  write-IsServed :
      (o : Option Bytes) (s : Session)
      → get_elem? s.route.outgoing_packets (length s.written) ≡ o
      → IsServed s
      → IfAny IsServed (write o s)
  unfolding write
  write-IsServed none s next h = tt
  write-IsServed (some p) s next h =
      let (rest, e) = h.waiting in
      when-IfAny IsServed s.proxy_listener _ (record {
        orderly = h.orderly;
        waiting = next_waiting s.route.outgoing_packets s.written rest p e next;
        stopped = h.stopped;
      })

  step-IsServed : (e : SessionEvent) (s : Session) → IsServed s → IfAny IsServed (step fb e s)
  unfolding step on_frame on_read_failed on_proxy_close
  step-IsServed (SessionEvent.binary_frame f) s h =
      when-IfAny IsServed _ _
        (record { orderly = h.orderly; waiting = h.waiting; stopped = h.stopped })
  step-IsServed SessionEvent.other_frame s h = when-IfAny IsServed _ s h
  step-IsServed SessionEvent.read_failed s h =
      when-IfAny IsServed _ _
        (record { orderly = h.orderly; waiting = h.waiting; stopped = h.stopped })
  step-IsServed SessionEvent.server_done s h = record {
    orderly = h.orderly;
    waiting = h.waiting;
    stopped = h.stopped;
  }
  step-IsServed SessionEvent.close_taken s h =
      when-IfAny IsServed _ _
        (record { orderly = h.orderly; waiting = h.waiting; stopped = inr refl })
  step-IsServed SessionEvent.packet_taken s h = write-IsServed _ s refl h
  step-IsServed (SessionEvent.packet_read now) s h =
      take_packet-IsServed (packet now) s.incoming s h
  step-IsServed SessionEvent.deformed_read s h =
      take_packet-IsServed (λ f. deformed_packet) s.incoming s h
  step-IsServed (SessionEvent.route_event e) s h = on_route_event-IsServed e s h

  run-IsServed : (es : List SessionEvent) (s : Session) → IsServed s → IfAny IsServed (run fb es s)
  unfolding run
  run-IsServed [] s h = h
  run-IsServed (e ∷ es) s h =
      and_then-IfAny IsServed IsServed (step fb e s) (run fb es) (step-IsServed e s h)
        (λ q. run-IsServed es q)

  -- A client has connected by WebSocket. Whatever the socket, the proxy, the server and the routing
  -- do then, in whatever order: its socket was sent, in their order, the first of the packets that
  -- the routing has for it, which are orderly, so a verdict comes before anything else, and nothing
  -- after a refusal; and when no more is sent, the socket is closed.
  pub run-open_session-IsServed :
      (es : List SessionEvent) → IfAny IsServed (run fb es (open_session id))
  run-open_session-IsServed es = run-IsServed es (open_session id) (record {
    orderly = record { same = refl; order = (refl, refl, refl) };
    waiting = ([], refl);
    stopped = inl refl;
  })
