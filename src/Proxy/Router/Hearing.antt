-- ===== src/Proxy/Router/Hearing.antt =====
-- What one event of the routing of pkg/transport/client_connection_router.go tells the proxy.
use spanreed_netcode_proxy.Prelude.{
  ℕ, ◌≡◌, refl, sym, ap, ◌⊎◌, inl, inr, Bool, true, false, String, Option, none, some, List, [],
  ◌∷◌, ◌++◌, append-nil,
}
use spanreed_netcode_proxy.Wire.Flatbuffers.{Flatbuffers, Bytes}
use spanreed_netcode_proxy.Proxy.Router.{
  FromClient, open_client, incoming_message, incoming_close, RoutePhase, awaiting_auth,
  awaiting_verdict, routing, ended, Route, RouteEvent, context_done, client_close, close_request,
  packet, deformed_packet, verdict_received, listener_done, listener_close, outgoing_message,
  abandoned, on_auth, verdict_passed, settled, on_verdict, listen_to_proxy, listen_to_transport,
  is_for_listener, listen, react, receive, open_command,
}
use spanreed_netcode_proxy.Proxy.Router.Relaying.{message_of}

-- What the proxy hears, without the closes.
abbrev pub spoken : List FromClient → List FromClient
spoken [] = []
spoken (incoming_close id reason ∷ rest) = spoken rest
spoken (s ∷ rest) = s ∷ spoken rest

-- The packets that are taken at the times, as messages.
abbrev pub messages : (client_id : ℕ) → List ℕ → List Bytes → List FromClient
messages id [] fs = []
messages id (now ∷ ns) [] = []
messages id (now ∷ ns) (f ∷ fs) = incoming_message (message_of id now f) ∷ messages id ns fs

spoken-append : (xs ys : List FromClient) → spoken (xs ++ ys) ≡ spoken xs ++ spoken ys
spoken-append [] ys = refl
spoken-append (incoming_close id reason ∷ xs) ys = spoken-append xs ys
spoken-append (open_client cmd ∷ xs) ys = ap (λ l. open_client cmd ∷ l) (spoken-append xs ys)
spoken-append (incoming_message msg ∷ xs) ys =
    ap (λ l. incoming_message msg ∷ l) (spoken-append xs ys)

abbrev pub is_waiting : RoutePhase → Bool
is_waiting awaiting_auth = true
is_waiting _ = false

module _ {N : Type 0} (fb : Flatbuffers N) where
  -- The same, but the first is the request to connect if it is awaited.
  abbrev pub heard : (waiting : Bool) → (client_id : ℕ) → List ℕ → List Bytes → List FromClient
  heard false id ns fs = messages id ns fs
  heard true id [] fs = []
  heard true id (now ∷ ns) [] = []
  heard true id (now ∷ ns) (f ∷ fs) = open_client (open_command fb id now f) ∷ messages id ns fs

  abbrev pub said : (waiting : Bool) → (client_id : ℕ) → RouteEvent → List FromClient
  said waiting id (packet now f) = heard waiting id (now ∷ []) (f ∷ [])
  said waiting id _ = []

  abbrev pub IsNextPhase : RouteEvent → (before after : RoutePhase) → Type 0
  IsNextPhase (packet now f) before after = is_waiting after ≡ false
  IsNextPhase deformed_packet before after = after ≡ ended
  IsNextPhase _ before after = (is_waiting after ≡ is_waiting before) ⊎ (after ≡ ended)

  abbrev pub IsNext : RoutePhase → RouteEvent → Route → Option Route → Type 0
  IsNext phase e r none = Unit {0}
  IsNext phase e r (some q) =
      (q.client_id ≡ r.client_id)
      × (spoken q.to_proxy ≡ spoken r.to_proxy ++ said (is_waiting phase) r.client_id e)
      × IsNextPhase e phase q.phase

  module _ (r : Route) where
    silent : spoken r.to_proxy ≡ spoken r.to_proxy ++ []
    silent = sym (append-nil (spoken r.to_proxy))

    closing :
        (reason : String)
        → spoken (r.to_proxy ++ incoming_close r.client_id reason ∷ []) ≡ spoken r.to_proxy ++ []
    closing reason = spoken-append r.to_proxy (incoming_close r.client_id reason ∷ [])

    on_auth-IsNext : (e : RouteEvent) → IsNext awaiting_auth e r (on_auth fb e r)
    unfolding on_auth abandoned
    on_auth-IsNext context_done = (refl, closing _, inr refl)
    on_auth-IsNext client_close = (refl, closing _, inr refl)
    on_auth-IsNext close_request = (refl, closing _, inr refl)
    on_auth-IsNext (packet now f) = (refl, spoken-append r.to_proxy _, refl)
    on_auth-IsNext deformed_packet = (refl, silent, refl)
    on_auth-IsNext (verdict_received v) = tt
    on_auth-IsNext listener_done = tt
    on_auth-IsNext listener_close = tt
    on_auth-IsNext (outgoing_message msg) = tt

    settled-IsNext :
        (ok : Bool) (p : Bytes) (v : _)
        → IsNext awaiting_verdict
            (verdict_received v)
            r
            (some (settled ok (record r { outgoing_packets = r.outgoing_packets ++ p ∷ [] })))
    unfolding settled
    settled-IsNext true p v = (refl, silent, inl refl)
    settled-IsNext false p v = (refl, silent, inr refl)

    on_verdict-IsNext : (e : RouteEvent) → IsNext awaiting_verdict e r (on_verdict fb e r)
    unfolding on_verdict verdict_passed
    on_verdict-IsNext context_done = (refl, silent, inr refl)
    on_verdict-IsNext client_close = (refl, silent, inr refl)
    on_verdict-IsNext close_request = (refl, silent, inr refl)
    on_verdict-IsNext (packet now f) = tt
    on_verdict-IsNext deformed_packet = tt
    on_verdict-IsNext (verdict_received v) = settled-IsNext v.verdict _ v
    on_verdict-IsNext listener_done = tt
    on_verdict-IsNext listener_close = tt
    on_verdict-IsNext (outgoing_message msg) = tt

    listen-IsNext :
        (proxy transport : Bool) (e : RouteEvent)
        → r.phase ≡ routing proxy transport
        → IsNext (routing proxy transport) e r (listen proxy transport e r)
    unfolding listen is_for_listener listen_to_proxy listen_to_transport
    listen-IsNext true transport listener_done at_ = (refl, silent, rw at_ (inl refl))
    listen-IsNext true transport listener_close at_ = (refl, silent, inl refl)
    listen-IsNext true transport (outgoing_message msg) at_ = (refl, silent, rw at_ (inl refl))
    listen-IsNext false transport listener_done at_ = tt
    listen-IsNext false transport listener_close at_ = tt
    listen-IsNext false transport (outgoing_message msg) at_ = tt
    listen-IsNext proxy true context_done at_ = (refl, closing _, inl refl)
    listen-IsNext proxy true client_close at_ = (refl, silent, rw at_ (inl refl))
    listen-IsNext proxy true close_request at_ = (refl, closing _, inl refl)
    listen-IsNext proxy true (packet now f) at_ = (refl, spoken-append r.to_proxy _, rw at_ refl)
    listen-IsNext proxy true deformed_packet at_ = tt
    listen-IsNext proxy true (verdict_received v) at_ = tt
    listen-IsNext proxy false context_done at_ = tt
    listen-IsNext proxy false client_close at_ = tt
    listen-IsNext proxy false close_request at_ = tt
    listen-IsNext proxy false (packet now f) at_ = tt
    listen-IsNext proxy false deformed_packet at_ = tt
    listen-IsNext proxy false (verdict_received v) at_ = tt

    react-IsNext :
        (phase : RoutePhase) (e : RouteEvent)
        → r.phase ≡ phase
        → IsNext phase e r (react fb phase e r)
    unfolding react
    react-IsNext awaiting_auth e at_ = on_auth-IsNext e
    react-IsNext awaiting_verdict e at_ = on_verdict-IsNext e
    react-IsNext (routing proxy transport) e at_ = listen-IsNext proxy transport e at_
    react-IsNext ended e at_ = tt

  pub receive-IsNext : (e : RouteEvent) (r : Route) → IsNext r.phase e r (receive fb e r)
  unfolding receive
  receive-IsNext e r = react-IsNext r r.phase e refl

  pub receive-ended : (e : RouteEvent) (r : Route) → r.phase ≡ ended → receive fb e r ≡ none
  unfolding receive react
  receive-ended e r at_ = rw at_ refl
