-- ===== src/Proxy/Session/Telling.antt =====
-- What the proxy hears of a client that connects by WebSocket, after any run of
-- pkg/transport/websocket_client.go and pkg/transport/client_connection_router.go.
use spanreed_netcode_proxy.Prelude.{
  ℕ, ◌≡◌, refl, sym, ◌∙◌, true, Option, none, some, List, [], ◌∷◌, ◌++◌, append-nil,
}
use spanreed_netcode_proxy.Wire.Flatbuffers.{Flatbuffers, Bytes}
use spanreed_netcode_proxy.Proxy.Router.{ended, RouteEvent, packet, deformed_packet}
use spanreed_netcode_proxy.Proxy.Router.Hearing.{spoken, is_waiting, heard, receive-ended}
use spanreed_netcode_proxy.Proxy.Session.{
  Session, SessionEvent, open_session, on_frame, on_read_failed, on_proxy_close, take_packet,
  is_offered, on_route_event, step, run,
}
use spanreed_netcode_proxy.Proxy.Session.Order.{
  frames, read_times, IfAny, when-IfAny, if-IfAny, write-IfAny, and_then-IfAny, account, IsBalanced,
  heard-nothing, on_frame-IsBalanced, take_packet-IsBalanced, take_deformed-IsBalanced,
  on_route_event-IsBalanced,
}

both-IfAny :
    (P Q R : Session → Type 0) (o : Option Session)
    → ((s : Session) → P s → Q s → R s)
    → IfAny P o
    → IfAny Q o
    → IfAny R o
both-IfAny P Q R none f h k = tt
both-IfAny P Q R (some s) f h k = f s h k

later-IfAny :
    (A : Type 0) (P : Session → Type 0) (o : Option Session)
    → (A → IfAny P o)
    → IfAny (λ s. A → P s) o
later-IfAny A P none h = tt
later-IfAny A P (some s) h = h

module _ {N : Type 0} (fb : Flatbuffers N) where
  step-IsBalanced : (e : SessionEvent) (s : Session) → IfAny (IsBalanced fb e s) (step fb e s)
  unfolding step on_read_failed on_proxy_close
  step-IsBalanced (SessionEvent.binary_frame f) s = on_frame-IsBalanced fb s f
  step-IsBalanced SessionEvent.other_frame s =
      when-IfAny (IsBalanced fb SessionEvent.other_frame s) _ s (λ es done. refl)
  step-IsBalanced SessionEvent.read_failed s =
      when-IfAny (IsBalanced fb SessionEvent.read_failed s) _ _ (λ es done. refl)
  step-IsBalanced SessionEvent.server_done s = λ es done. refl
  step-IsBalanced SessionEvent.close_taken s =
      when-IfAny (IsBalanced fb SessionEvent.close_taken s) _ _ (λ es done. refl)
  step-IsBalanced SessionEvent.packet_taken s =
      write-IfAny (IsBalanced fb SessionEvent.packet_taken s) _ s (λ payload es done. refl)
  step-IsBalanced (SessionEvent.packet_read now) s = take_packet-IsBalanced fb s now s.incoming refl
  step-IsBalanced SessionEvent.deformed_read s = take_deformed-IsBalanced fb s s.incoming
  step-IsBalanced (SessionEvent.route_event e) s = on_route_event-IsBalanced fb s e

  -- A route that has ended stays so, and takes no packet.
  abbrev StaysEnded : SessionEvent → Session → Type 0
  StaysEnded e q =
      (q.route.phase ≡ ended)
      × ((es : List SessionEvent) → read_times es ≡ [] → read_times (e ∷ es) ≡ [])

  take_packet-ended :
      (P : Session → Type 0) (event : Bytes → RouteEvent) (fs : List Bytes) (s : Session)
      → s.route.phase ≡ ended
      → IfAny P (take_packet fb event fs s)
  unfolding take_packet
  take_packet-ended P event [] s at_ = tt
  take_packet-ended P event (f ∷ rest) s at_ = rw (receive-ended fb (event f) s.route at_) tt

  step-StaysEnded :
      (e : SessionEvent) (s : Session) → s.route.phase ≡ ended → IfAny (StaysEnded e) (step fb e s)
  unfolding step on_frame on_read_failed on_proxy_close on_route_event
  step-StaysEnded (SessionEvent.binary_frame f) s at_ =
      when-IfAny (StaysEnded (SessionEvent.binary_frame f)) _ _ (at_, λ es h. h)
  step-StaysEnded SessionEvent.other_frame s at_ =
      when-IfAny (StaysEnded SessionEvent.other_frame) _ s (at_, λ es h. h)
  step-StaysEnded SessionEvent.read_failed s at_ =
      when-IfAny (StaysEnded SessionEvent.read_failed) _ _ (at_, λ es h. h)
  step-StaysEnded SessionEvent.server_done s at_ = (at_, λ es h. h)
  step-StaysEnded SessionEvent.close_taken s at_ =
      when-IfAny (StaysEnded SessionEvent.close_taken) _ _ (at_, λ es h. h)
  step-StaysEnded SessionEvent.packet_taken s at_ =
      write-IfAny (StaysEnded SessionEvent.packet_taken) _ s (λ payload. (at_, λ es h. h))
  step-StaysEnded (SessionEvent.packet_read now) s at_ =
      take_packet-ended (StaysEnded (SessionEvent.packet_read now)) (packet now) s.incoming s at_
  step-StaysEnded SessionEvent.deformed_read s at_ =
      take_packet-ended (StaysEnded SessionEvent.deformed_read) (λ f. deformed_packet) s.incoming s
        at_
  step-StaysEnded (SessionEvent.route_event e) s at_ =
      rw (receive-ended fb e s.route at_)
        (if-IfAny (StaysEnded (SessionEvent.route_event e)) (is_offered e s) none tt)

  run-ended :
      (es : List SessionEvent) (s : Session)
      → s.route.phase ≡ ended
      → IfAny (λ q. read_times es ≡ []) (run fb es s)
  unfolding run
  run-ended [] s at_ = refl
  run-ended (e ∷ es) s at_ =
      and_then-IfAny (StaysEnded e) (λ q. read_times (e ∷ es) ≡ []) (step fb e s) (run fb es)
        (step-StaysEnded e s at_)
        (λ q (here, none_read).
          both-IfAny (λ x. read_times es ≡ []) (λ x. read_times es ≡ [])
            (λ x. read_times (e ∷ es) ≡ []) (run fb es q) (λ x h k. none_read es h)
            (run-ended es q here) (run-ended es q here))

  run-account :
      (es : List SessionEvent) (s : Session)
      → IfAny (λ q. spoken q.route.to_proxy ≡ account fb es s) (run fb es s)
  unfolding run
  run-account [] s =
      let fs = s.incoming ++ [] in
      rw (heard-nothing fb (is_waiting s.route.phase) s.route.client_id [] fs refl)
        (sym (append-nil (spoken s.route.to_proxy)))
  run-account (e ∷ es) s =
      and_then-IfAny (IsBalanced fb e s) (λ q. spoken q.route.to_proxy ≡ account fb (e ∷ es) s)
        (step fb e s) (run fb es) (step-IsBalanced e s)
        (λ q balanced.
          both-IfAny (λ x. spoken x.route.to_proxy ≡ account fb es q)
            (λ x. q.route.phase ≡ ended → read_times es ≡ [])
            (λ x. spoken x.route.to_proxy ≡ account fb (e ∷ es) s) (run fb es q)
            (λ x h done. h ∙ balanced es done) (run-account es q)
            (later-IfAny (q.route.phase ≡ ended) (λ x. read_times es ≡ []) (run fb es q)
              (run-ended es q)))

  -- A client has connected by WebSocket. Whatever the socket, the proxy, the server and the routing
  -- do then, in whatever order: what the proxy hears of the client, but for closes, is exactly the
  -- frames of bytes that the routing has taken without an error, in the order in which the socket
  -- read them, the first as the request to connect and each other as one message, with the time at
  -- which it was taken. Other frames, and frames not yet taken, are not heard.
  pub run-open_session :
      (id : ℕ) (es : List SessionEvent)
      → IfAny
          (λ q. spoken q.route.to_proxy ≡ heard fb true id (read_times es) (frames es))
          (run fb es (open_session id))
  run-open_session id es = run-account es (open_session id)
