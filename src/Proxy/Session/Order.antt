-- ===== src/Proxy/Session/Order.antt =====
-- In which order the proxy hears of what a client sends by WebSocket, through
-- pkg/transport/websocket_client.go and pkg/transport/client_connection_router.go.
use spanreed_netcode_proxy.Prelude.{
  ℕ, ◌≡◌, refl, ap, ◌∙◌, ◌⊎◌, inl, inr, Bool, true, false, Option, none, some, List, [], ◌∷◌, ◌++◌,
  ◌-◌, ltb, append_assoc, append-nil, if◌then◌else◌,
}
use spanreed_netcode_proxy.Wire.Flatbuffers.{Flatbuffers, Bytes}
use spanreed_netcode_proxy.Proxy.Router.{
  FromClient, ended, Route, RouteEvent, context_done, client_close, close_request, packet,
  deformed_packet, verdict_received, listener_done, listener_close, outgoing_message,
}
use spanreed_netcode_proxy.Proxy.Router.Hearing.{
  spoken, messages, is_waiting, heard, IsNext, receive-IsNext,
}
use spanreed_netcode_proxy.Proxy.Session.{
  Session, SessionEvent, when, with_route, and_then, on_frame, write, take_packet, is_offered,
  taken, on_route_event,
}

-- The frames of bytes that the socket reads.
abbrev pub frames : List SessionEvent → List Bytes
frames [] = []
frames (SessionEvent.binary_frame payload ∷ es) = payload ∷ frames es
frames (_ ∷ es) = frames es

-- When the routing takes a packet.
abbrev pub read_times : List SessionEvent → List ℕ
read_times [] = []
read_times (SessionEvent.packet_read now ∷ es) = now ∷ read_times es
read_times (_ ∷ es) = read_times es

-- If there is a session, it has the property.
abbrev pub IfAny : (Session → Type 0) → Option Session → Type 0
IfAny P none = Unit {0}
IfAny P (some s) = P s

pub when-IfAny : (P : Session → Type 0) (b : Bool) (s : Session) → P s → IfAny P (when b s)
when-IfAny P true s h = h
when-IfAny P false s h = tt

pub if-IfAny :
    (P : Session → Type 0) (b : Bool) (o : Option Session)
    → IfAny P o
    → IfAny P (if b then o else none)
if-IfAny P true o h = h
if-IfAny P false o h = tt

pub write-IfAny :
    (P : Session → Type 0) (o : Option Bytes) (s : Session)
    → ((payload : Bytes) → P (record s { written = s.written ++ payload ∷ [] }))
    → IfAny P (write o s)
unfolding write
write-IfAny P none s h = tt
write-IfAny P (some payload) s h = when-IfAny P s.proxy_listener _ (h payload)

pub and_then-IfAny :
    (P Q : Session → Type 0) (o : Option Session) (f : Session → Option Session)
    → IfAny P o
    → ((s : Session) → P s → IfAny Q (f s))
    → IfAny Q (and_then o f)
and_then-IfAny P Q none f h k = tt
and_then-IfAny P Q (some s) f h k = k s h

module _ {N : Type 0} (fb : Flatbuffers N) where
  -- What the proxy has heard, with what it will hear of the packets that are there or come.
  abbrev pub account : List SessionEvent → Session → List FromClient
  account es s =
      spoken s.route.to_proxy
      ++ heard fb (is_waiting s.route.phase) s.route.client_id (read_times es)
          (s.incoming ++ frames es)

  abbrev pub IsBalanced : SessionEvent → Session → Session → Type 0
  IsBalanced e s q =
      (es : List SessionEvent)
      → (q.route.phase ≡ ended → read_times es ≡ [])
      → account es q ≡ account (e ∷ es) s

  pub heard-nothing :
      (b : Bool) (id : ℕ) (ns : List ℕ) (fs : List Bytes) → ns ≡ [] → heard fb b id ns fs ≡ []
  heard-nothing true id ns fs h = rw h refl
  heard-nothing false id ns fs h = rw h refl

  heard-append :
      (b : Bool) (id now : ℕ) (ns : List ℕ) (f : Bytes) (fs : List Bytes)
      → heard fb b id (now ∷ []) (f ∷ []) ++ messages id ns fs ≡ heard fb b id (now ∷ ns) (f ∷ fs)
  heard-append true id now ns f fs = refl
  heard-append false id now ns f fs = refl

  module _ (s : Session) where
    pub on_frame-IsBalanced :
        (f : Bytes) → IfAny (IsBalanced (SessionEvent.binary_frame f) s) (on_frame f s)
    unfolding on_frame
    on_frame-IsBalanced f = when-IfAny (IsBalanced (SessionEvent.binary_frame f) s) _ _ (λ es done.
        ap
          (λ l.
            spoken s.route.to_proxy
            ++ heard fb (is_waiting s.route.phase) s.route.client_id (read_times es) l)
          (append_assoc s.incoming (f ∷ []) (frames es)))

    packet-IsBalanced :
        (now : ℕ) (f : Bytes) (rest : List Bytes) (o : Option Route)
        → s.incoming ≡ f ∷ rest
        → IsNext fb s.route.phase (packet now f) s.route o
        → IfAny
            (IsBalanced (SessionEvent.packet_read now) s)
            (with_route o (record s { incoming = rest }))
    packet-IsBalanced now f rest none held h = tt
    packet-IsBalanced now f rest (some q) held (same, says, later) = λ es done.
        let w = is_waiting s.route.phase in
        let id = s.route.client_id in
        let said_ = heard fb w id (now ∷ []) (f ∷ []) in
        let after = messages id (read_times es) (rest ++ frames es) in
        let now_ : spoken q.to_proxy ++ after ≡ account (SessionEvent.packet_read now ∷ es) s =
          ap (λ l. l ++ after) says
          ∙ append_assoc (spoken s.route.to_proxy) said_ after
          ∙ rw held (
              ap (λ l. spoken s.route.to_proxy ++ l)
                (heard-append w id now (read_times es) f (rest ++ frames es))) in
        rw (same, later) now_

    deformed-IsBalanced :
        (f : Bytes) (rest : List Bytes) (o : Option Route)
        → IsNext fb s.route.phase deformed_packet s.route o
        → IfAny
            (IsBalanced SessionEvent.deformed_read s)
            (with_route o (record s { incoming = rest }))
    deformed-IsBalanced f rest none h = tt
    deformed-IsBalanced f rest (some q) (same, says, at_) = λ es done.
        let none_read = done at_ in
        let before = heard-nothing (is_waiting s.route.phase) s.route.client_id (read_times es) in
        let after = heard-nothing (is_waiting q.phase) q.client_id (read_times es) in
        let l = spoken s.route.to_proxy in
        rw (before (s.incoming ++ frames es) none_read, after (rest ++ frames es) none_read, says)
          (append-nil (l ++ []))

    pub take_packet-IsBalanced :
        (now : ℕ) (fs : List Bytes)
        → s.incoming ≡ fs
        → IfAny (IsBalanced (SessionEvent.packet_read now) s) (take_packet fb (packet now) fs s)
    unfolding take_packet
    take_packet-IsBalanced now [] held = tt
    take_packet-IsBalanced now (f ∷ rest) held =
        packet-IsBalanced now f rest _ held (receive-IsNext fb (packet now f) s.route)

    pub take_deformed-IsBalanced :
        (fs : List Bytes)
        → IfAny
            (IsBalanced SessionEvent.deformed_read s)
            (take_packet fb (λ payload. deformed_packet) fs s)
    unfolding take_packet
    take_deformed-IsBalanced [] = tt
    take_deformed-IsBalanced (f ∷ rest) =
        deformed-IsBalanced f rest _ (receive-IsNext fb deformed_packet s.route)

    -- The routing says nothing, and still waits or not as before, or has ended.
    abbrev IsQuiet : Option Route → Type 0
    IsQuiet none = Unit {0}
    IsQuiet (some q) =
        (q.client_id ≡ s.route.client_id)
        × (spoken q.to_proxy ≡ spoken s.route.to_proxy ++ [])
        × ((is_waiting q.phase ≡ is_waiting s.route.phase) ⊎ (q.phase ≡ ended))

    quiet-IsBalanced :
        (e : RouteEvent) (k : ℕ) (o : Option Route)
        → IsQuiet o
        → IfAny
            (IsBalanced (SessionEvent.route_event e) s)
            (with_route o (record s { client_closes = k }))
    quiet-IsBalanced e k none h = tt
    quiet-IsBalanced e k (some q) (same, says, inl waits) = λ es done.
        rw (same, waits, says)
          (ap
            (λ l.
              l
              ++ heard fb (is_waiting s.route.phase) s.route.client_id (read_times es)
                  (s.incoming ++ frames es))
            (append-nil (spoken s.route.to_proxy)))
    quiet-IsBalanced e k (some q) (same, says, inr at_) = λ es done.
        let none_read = done at_ in
        let before = heard-nothing (is_waiting s.route.phase) s.route.client_id (read_times es) in
        let after = heard-nothing (is_waiting q.phase) q.client_id (read_times es) in
        let l = spoken s.route.to_proxy in
        let fs = s.incoming ++ frames es in
        rw (before fs none_read, after fs none_read, says) (append-nil (l ++ []))

    pub on_route_event-IsBalanced :
        (e : RouteEvent) → IfAny (IsBalanced (SessionEvent.route_event e) s) (on_route_event fb e s)
    unfolding on_route_event is_offered taken
    on_route_event-IsBalanced context_done =
        if-IfAny _ s.is_cancelled _
          (quiet-IsBalanced context_done s.client_closes _ (receive-IsNext fb context_done s.route))
    on_route_event-IsBalanced client_close = if-IfAny _ (ltb 0 s.client_closes) _ (
        quiet-IsBalanced client_close (s.client_closes - 1) _
          (receive-IsNext fb client_close s.route))
    on_route_event-IsBalanced close_request =
        quiet-IsBalanced close_request s.client_closes _ (receive-IsNext fb close_request s.route)
    on_route_event-IsBalanced (packet now f) = tt
    on_route_event-IsBalanced deformed_packet = tt
    on_route_event-IsBalanced (verdict_received v) =
        quiet-IsBalanced (verdict_received v) s.client_closes _
          (receive-IsNext fb (verdict_received v) s.route)
    on_route_event-IsBalanced listener_done =
        if-IfAny _ s.is_cancelled _ (
          quiet-IsBalanced listener_done s.client_closes _
            (receive-IsNext fb listener_done s.route))
    on_route_event-IsBalanced listener_close =
        quiet-IsBalanced listener_close s.client_closes _ (receive-IsNext fb listener_close s.route)
    on_route_event-IsBalanced (outgoing_message msg) =
        quiet-IsBalanced (outgoing_message msg) s.client_closes _
          (receive-IsNext fb (outgoing_message msg) s.route)
