-- ===== src/Connection/Agreement.antt =====
-- `connectWebsocket` and `connectWebtransport` of
-- examples/hello-spanreed/client/src/Connection.ts, side by side.
use spanreed_netcode_proxy.Prelude.{
  inl, inr, Bool-cases, ℕ, ◌≡◌, refl, Option, String, List, [], ◌∷◌, map, arith,
}
use spanreed_netcode_proxy.Log.{LogCb}
use spanreed_netcode_proxy.Wire.Flatbuffers.{Flatbuffers, Bytes}
use spanreed_netcode_proxy.Wire.ConnectClientVerdict.{
  get_root_as_connect_client_verdict, accepted, error_reason,
}
use spanreed_netcode_proxy.Connection.Websocket
use spanreed_netcode_proxy.Connection.Webtransport

-- What a transport reports where a socket reports the event; `e` is the text of an error.
abbrev pub as_transport : String → Websocket.Event → Webtransport.Event
as_transport e (Websocket.error_event on_socket closed) = Webtransport.closed_with e
as_transport e Websocket.open_event = Webtransport.ready
as_transport e Websocket.close_event = Webtransport.read_done
as_transport e (Websocket.message_event bytes) = Webtransport.read_bytes bytes

-- Both are refused for the same reason, or both fail otherwise.
abbrev pub FailAlike : Websocket.Failure → Webtransport.Failure → Type 0
FailAlike (Websocket.refused s) (Webtransport.refused t) =
    (reason : Option String) × (s ≡ Websocket.refusal reason) × (t ≡ Webtransport.refusal reason)
FailAlike (Websocket.refused s) f = ⊥
FailAlike f (Webtransport.refused t) = ⊥
FailAlike f g = Unit {0}

abbrev pub StandAlike : Websocket.Phase → Webtransport.Phase → Type 0
StandAlike Websocket.opening Webtransport.opening = Unit {0}
StandAlike Websocket.authorizing Webtransport.authorizing = Unit {0}
StandAlike Websocket.connected Webtransport.connected = Unit {0}
StandAlike (Websocket.failed f) (Webtransport.failed g) = FailAlike f g
StandAlike p q = ⊥

-- The attempts stand alike, and have sent the same.
abbrev pub AreAlike : Websocket.Attempt → Webtransport.Attempt → Type 0
AreAlike a b = StandAlike a.phase b.phase × (a.sent ≡ b.written)

module _ {N : Type 0} (fb : Flatbuffers N) (show : ℕ → String) (log_cb : LogCb) where
  module _ (backend user error : String) where
    on_verdict-AreAlike :
        (bytes : Bytes) (a : Websocket.Attempt) (b : Webtransport.Attempt)
        → a.sent ≡ b.written
        → AreAlike
            (Websocket.on_verdict fb show log_cb bytes a)
            (Webtransport.on_verdict fb show log_cb bytes b)
    unfolding Websocket.on_verdict Webtransport.on_verdict
    on_verdict-AreAlike bytes a b h =
        elim (Bool-cases
          (accepted fb (get_root_as_connect_client_verdict fb (fb.new_byte_buffer bytes)))) [
            | inl e ↦ rw e (tt, h)
            | inr e ↦ rw e (
              (
                error_reason fb (get_root_as_connect_client_verdict fb (fb.new_byte_buffer bytes)),
                refl,
                refl,
              ),
              h,
            )
          ]

    dispatch-AreAlike :
        (e : Websocket.Event) (p : Websocket.Phase) (q : Webtransport.Phase) (a : Websocket.Attempt)
        (b : Webtransport.Attempt)
        → StandAlike p q
        → a.phase ≡ p
        → b.phase ≡ q
        → a.sent ≡ b.written
        → AreAlike
            (Websocket.dispatch fb show log_cb p backend user e a)
            (Webtransport.dispatch fb show log_cb q backend user (as_transport error e) b)
    unfolding Websocket.dispatch Webtransport.dispatch
    dispatch-AreAlike (Websocket.message_event bytes) Websocket.authorizing Webtransport.authorizing
          a b s i j h =
        on_verdict-AreAlike bytes a b h
    dispatch-AreAlike Websocket.open_event p q a b s i j h = ground arith
    dispatch-AreAlike Websocket.close_event p q a b s i j h = ground arith
    dispatch-AreAlike (Websocket.error_event k c) p q a b s i j h = ground arith
    dispatch-AreAlike _ p q a b s i j h = ground arith

    step-AreAlike :
        (e : Websocket.Event) (a : Websocket.Attempt) (b : Webtransport.Attempt)
        → AreAlike a b
        → AreAlike
            (Websocket.step fb show log_cb backend user e a)
            (Webtransport.step fb show log_cb backend user (as_transport error e) b)
    unfolding Websocket.step Webtransport.step
    step-AreAlike e a b (s, h) = dispatch-AreAlike e a.phase b.phase a b s refl refl h

    run-AreAlike :
        (es : List Websocket.Event) (a : Websocket.Attempt) (b : Webtransport.Attempt)
        → AreAlike a b
        → AreAlike
            (Websocket.run fb show log_cb backend user es a)
            (Webtransport.run fb show log_cb backend user (map (as_transport error) es) b)
    unfolding Websocket.run Webtransport.run
    run-AreAlike [] a b h = h
    run-AreAlike (e ∷ es) a b h = run-AreAlike es _ _ (step-AreAlike e a b h)

    -- When a socket and a transport report the same, both attempts send the same and stand alike:
    -- one is connected exactly if the other is, and a refusal is for the same reason.
    pub connect_websocket-connect_webtransport :
        (spanreed : String) (es : List Websocket.Event)
        → AreAlike (Websocket.connect_websocket fb show log_cb spanreed backend user es) (
            Webtransport.connect_webtransport fb show log_cb backend user
              (map (as_transport error) es))
    unfolding Websocket.connect_websocket Webtransport.connect_webtransport Websocket.open_websocket
    connect_websocket-connect_webtransport spanreed es = run-AreAlike es _ _ (tt, refl)
