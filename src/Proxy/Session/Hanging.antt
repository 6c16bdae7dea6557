-- ===== src/Proxy/Session/Hanging.antt =====
-- A client that goes away before its auth message: pkg/transport/websocket_client.go waits for a close
-- that pkg/transport/client_connection_router.go does not send.
use spanreed_netcode_proxy.Prelude.{ℕ, ◌≡◌, refl, ◌∙◌, true, Option, none, some, List, [], ◌∷◌}
use spanreed_netcode_proxy.Wire.Flatbuffers.{Flatbuffers, Bytes}
use spanreed_netcode_proxy.Proxy.Router.{
  RouteEvent, awaiting_auth, ended, packet, deformed_packet, receive,
}
use spanreed_netcode_proxy.Proxy.Router.Hearing.{receive-ended}
use spanreed_netcode_proxy.Proxy.Router.Abandoned.{IsNoAuth, receive-IsLeft}
use spanreed_netcode_proxy.Proxy.Router.Channels.{ConnectionMap}
use spanreed_netcode_proxy.Proxy.Session.{
  Session, SessionEvent, with_route, on_frame, on_read_failed, on_proxy_close, take_packet,
  is_offered, taken, on_route_event, on_finished, step, run,
}
use spanreed_netcode_proxy.Proxy.Session.Order.{
  IfAny, when-IfAny, if-IfAny, write-IfAny, and_then-IfAny,
}

-- The routing has ended without a close for the socket, whose goroutine waits for one.
pub record IsStuck (s : Session) : Type 0 where
  pub over : s.route.phase ≡ ended
  pub no_close : s.route.proxy_closes ≡ 0
  pub waits : s.proxy_listener ≡ true

-- The routing gives up the wait for the auth message.
abbrev pub IsGivenUp : SessionEvent → Type 0
IsGivenUp SessionEvent.deformed_read = Unit {0}
IsGivenUp (SessionEvent.route_event e) = IsNoAuth e
IsGivenUp _ = ⊥

map-IfAny :
    (P Q : Session → Type 0) (o : Option Session)
    → ((s : Session) → P s → Q s)
    → IfAny P o
    → IfAny Q o
map-IfAny P Q none f h = tt
map-IfAny P Q (some s) f h = f s h

on_proxy_close-IsStuck : (s : Session) → IsStuck s → IfAny IsStuck (on_proxy_close s)
unfolding on_proxy_close
on_proxy_close-IsStuck s h = rw (h.waits, h.no_close) tt

module _ {N : Type 0} (fb : Flatbuffers N) where
  take_packet-IsStuck :
      (event : Bytes → RouteEvent) (fs : List Bytes) (s : Session)
      → IsStuck s
      → IfAny IsStuck (take_packet fb event fs s)
  unfolding take_packet
  take_packet-IsStuck event [] s h = tt
  take_packet-IsStuck event (f ∷ rest) s h = rw (receive-ended fb (event f) s.route h.over) tt

  step-IsStuck : (e : SessionEvent) (s : Session) → IsStuck s → IfAny IsStuck (step fb e s)
  unfolding step on_frame on_read_failed on_route_event
  step-IsStuck (SessionEvent.binary_frame f) s h =
      when-IfAny IsStuck _ _ (record { over = h.over; no_close = h.no_close; waits = h.waits })
  step-IsStuck SessionEvent.other_frame s h = when-IfAny IsStuck _ s h
  step-IsStuck SessionEvent.read_failed s h =
      when-IfAny IsStuck _ _ (record { over = h.over; no_close = h.no_close; waits = h.waits })
  step-IsStuck SessionEvent.server_done s h = record {
    over = h.over;
    no_close = h.no_close;
    waits = h.waits;
  }
  step-IsStuck SessionEvent.close_taken s h = on_proxy_close-IsStuck s h
  step-IsStuck SessionEvent.packet_taken s h =
      write-IfAny IsStuck _ s
        (λ payload. record { over = h.over; no_close = h.no_close; waits = h.waits })
  step-IsStuck (SessionEvent.packet_read now) s h = take_packet-IsStuck (packet now) s.incoming s h
  step-IsStuck SessionEvent.deformed_read s h =
      take_packet-IsStuck (λ f. deformed_packet) s.incoming s h
  step-IsStuck (SessionEvent.route_event e) s h =
      rw (receive-ended fb e s.route h.over) (if-IfAny IsStuck (is_offered e s) none tt)

  run-IsStuck : (es : List SessionEvent) (s : Session) → IsStuck s → IfAny IsStuck (run fb es s)
  unfolding run
  run-IsStuck [] s h = h
  run-IsStuck (e ∷ es) s h =
      and_then-IfAny IsStuck IsStuck (step fb e s) (run fb es) (step-IsStuck e s h)
        (λ q. run-IsStuck es q)

  module _ (s : Session) (at_ : s.route.phase ≡ awaiting_auth) (no_close : s.route.proxy_closes ≡ 0)
      (waits : s.proxy_listener ≡ true) where
    receive-IsStuck :
        (e : RouteEvent) (fs : List Bytes) (n : ℕ)
        → IsNoAuth e
        → IfAny IsStuck
            (with_route (receive fb e s.route) (record s { incoming = fs; client_closes = n }))
    receive-IsStuck e fs n h =
        let (q, e₁, (over, sent, closes, deaf)) = receive-IsLeft fb s.route e at_ h in
        rw e₁ (record { over = over; no_close = closes ∙ no_close; waits = waits })

    take_deformed-IsStuck :
        (fs : List Bytes) → IfAny IsStuck (take_packet fb (λ payload. deformed_packet) fs s)
    unfolding take_packet
    take_deformed-IsStuck [] = tt
    take_deformed-IsStuck (f ∷ rest) = receive-IsStuck deformed_packet rest s.client_closes tt

    step-IsGivenUp : (e : SessionEvent) → IsGivenUp e → IfAny IsStuck (step fb e s)
    unfolding step on_route_event
    step-IsGivenUp SessionEvent.deformed_read h = take_deformed-IsStuck s.incoming
    step-IsGivenUp (SessionEvent.route_event e) h =
        if-IfAny IsStuck (is_offered e s) _
          (receive-IsStuck e s.incoming (taken e s.client_closes) h)
    step-IsGivenUp (SessionEvent.binary_frame f) h = absurd h
    step-IsGivenUp SessionEvent.other_frame h = absurd h
    step-IsGivenUp SessionEvent.read_failed h = absurd h
    step-IsGivenUp SessionEvent.server_done h = absurd h
    step-IsGivenUp SessionEvent.close_taken h = absurd h
    step-IsGivenUp SessionEvent.packet_taken h = absurd h
    step-IsGivenUp (SessionEvent.packet_read now) h = absurd h

-- The goroutine waits for a close that cannot come, and the client is not removed.
abbrev pub Hangs : Session → Type 0
Hangs q = IsStuck q × ((t : ConnectionMap) → on_finished q t ≡ t)

IsStuck-Hangs : (q : Session) → IsStuck q → Hangs q
unfolding on_finished
IsStuck-Hangs q h = (h, λ t. rw h.waits refl)

module _ {N : Type 0} (fb : Flatbuffers N) where
  -- While the routing of a client by WebSocket waits for the auth message, it has not told the socket
  -- to close, and the goroutine for the proxy runs: the context is done, the client or the proxy
  -- closes, or the message cannot be parsed. Then, whatever happens after that, the routing has
  -- ended without telling the socket to close, that goroutine still waits for it, and so the client
  -- is not removed from the map.
  pub run-IsGivenUp :
      (s : Session) (e : SessionEvent) (es : List SessionEvent)
      → s.route.phase ≡ awaiting_auth
      → s.route.proxy_closes ≡ 0
      → s.proxy_listener ≡ true
      → IsGivenUp e
      → IfAny Hangs (run fb (e ∷ es) s)
  unfolding run
  run-IsGivenUp s e es at_ no_close waits h =
      and_then-IfAny IsStuck Hangs (step fb e s) (run fb es)
        (step-IsGivenUp fb s at_ no_close waits e h)
        (λ q stuck. map-IfAny IsStuck Hangs (run fb es q) IsStuck-Hangs (run-IsStuck fb es q stuck))
