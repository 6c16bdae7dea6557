-- ===== src/Proxy/Router/Order.antt =====
-- In which order the proxy and the transport hear of a client, by the routing of
-- pkg/transport/client_connection_router.go.
use spanreed_netcode_proxy.Prelude.{
  ℕ, ◌≡◌, refl, ap, ◌⊎◌, inl, inr, Bool, true, false, String, Option, none, some, List, [], ◌∷◌,
  ◌++◌, All, All-append, get_or_else, if◌then◌else◌,
}
use spanreed_netcode_proxy.Wire.Flatbuffers.{Flatbuffers, Bytes}
use spanreed_netcode_proxy.Proxy.State.{Message, OpenCommand}
use spanreed_netcode_proxy.Proxy.Router.{
  FromClient, open_client, incoming_message, incoming_close, RoutePhase, awaiting_auth,
  awaiting_verdict, routing, ended, Route, RouteEvent, context_done, client_close, close_request,
  packet, deformed_packet, verdict_received, listener_done, listener_close, outgoing_message,
  open_route, sends, enters, closes, create_verdict_msg, open_command, abandoned, on_auth,
  verdict_passed, settled, on_verdict, listen_to_proxy, listen_to_transport, is_for_listener,
  listen, react, receive, run, and_then,
}

-- A message of the client.
abbrev pub IsMessageOf : ℕ → FromClient → Type 0
IsMessageOf id (incoming_message msg) = msg.client_id ≡ id
IsMessageOf id _ = ⊥

-- The proxy hears that the client asks to connect, and then its messages.
abbrev pub HasAsked : ℕ → (messages told : List FromClient) → Type 0
HasAsked id messages told =
    (cmd : OpenCommand) × (cmd.client_id ≡ id)
    × All (IsMessageOf id) messages
    × (told ≡ open_client cmd ∷ messages)

-- The same, and if the transport is listened to no more, then that the client closed.
abbrev pub HasTalked : ℕ → (listening : Bool) → List FromClient → Type 0
HasTalked id true told = (ms : List FromClient) × HasAsked id ms told
HasTalked id false told =
    (earlier : List FromClient) × (reason : String) × ((ms : List FromClient) × HasAsked id ms
        earlier)
    × (told ≡ earlier ++ incoming_close id reason ∷ [])

-- The proxy hears nothing, or only that the client closed.
abbrev pub HasNotAsked : ℕ → List FromClient → Type 0
HasNotAsked id told = (told ≡ []) ⊎ ((reason : String) × (told ≡ incoming_close id reason ∷ []))

module _ {N : Type 0} (fb : Flatbuffers N) where
  -- The transport was sent a verdict, and then the packets.
  abbrev pub StartsWithVerdict : Bool → List Bytes → List Bytes → Type 0
  StartsWithVerdict ok rest ps =
      (reason : String) × (app_data : Option Bytes) × (ps
        ≡ create_verdict_msg fb ok reason app_data ∷ rest)

  abbrev pub InOrder : ℕ → RoutePhase → Route → Type 0
  InOrder id awaiting_auth r = (r.to_proxy ≡ []) × (r.outgoing_packets ≡ []) × (r.proxy_closes ≡ 0)
  InOrder id awaiting_verdict r =
      HasAsked id [] r.to_proxy × (r.outgoing_packets ≡ []) × (r.proxy_closes ≡ 0)
  InOrder id (routing proxy transport) r =
      HasTalked id transport r.to_proxy
      × ((ps : List Bytes) × StartsWithVerdict true ps r.outgoing_packets)
      × (r.proxy_closes ≡ (if proxy then 0 else 1))
  InOrder id ended r =
      (HasNotAsked id r.to_proxy × (r.outgoing_packets ≡ []) × (r.proxy_closes ≡ 0))
      ⊎ (HasAsked id [] r.to_proxy
          × ((r.outgoing_packets ≡ []) ⊎ StartsWithVerdict false [] r.outgoing_packets)
          × (r.proxy_closes ≡ 1))

  pub record IsOrderly (id : ℕ) (r : Route) : Type 0 where
    pub same : r.client_id ≡ id
    pub order : InOrder id r.phase r

  -- If there is a route, it is orderly.
  abbrev pub IsOrderlyIfAny : ℕ → Option Route → Type 0
  IsOrderlyIfAny id none = Unit {0}
  IsOrderlyIfAny id (some r) = IsOrderly id r

  HasTalked-append :
      (id : ℕ) (told : List FromClient) (msg : Message)
      → HasTalked id true told
      → msg.client_id ≡ id
      → HasTalked id true (told ++ incoming_message msg ∷ [])
  HasTalked-append id told msg (ms, (cmd, same, all, e)) k = (
    ms ++ incoming_message msg ∷ [],
    (
      cmd,
      same,
      All-append (IsMessageOf id) ms (incoming_message msg ∷ []) all (k, tt),
      ap (λ l. l ++ incoming_message msg ∷ []) e,
    ),
  )

  StartsWithVerdict-append :
      (ok : Bool) (rest ps : List Bytes) (p : Bytes)
      → StartsWithVerdict ok rest ps
      → StartsWithVerdict ok (rest ++ p ∷ []) (ps ++ p ∷ [])
  StartsWithVerdict-append ok rest ps p (reason, app_data, e) =
      (reason, app_data, ap (λ l. l ++ p ∷ []) e)

  either-IsOrderlyIfAny :
      (id : ℕ) (b : Bool) (o p : Option Route)
      → IsOrderlyIfAny id o
      → IsOrderlyIfAny id p
      → IsOrderlyIfAny id (if b then o else p)
  either-IsOrderlyIfAny id true o p h k = h
  either-IsOrderlyIfAny id false o p h k = k

  module _ (id : ℕ) (r : Route) (same : r.client_id ≡ id) where
    abandoned-IsOrderly : InOrder id awaiting_auth r → IsOrderly id (abandoned fb r)
    unfolding abandoned
    abandoned-IsOrderly (nothing, none_sent, open_) = record {
      same = same;
      order = inl (inr ("Proxy shutdown request", rw (nothing, same) refl), none_sent, open_);
    }

    on_auth-IsOrderly :
        (e : RouteEvent) → InOrder id awaiting_auth r → IsOrderlyIfAny id (on_auth fb e r)
    unfolding on_auth open_command
    on_auth-IsOrderly context_done h = abandoned-IsOrderly h
    on_auth-IsOrderly client_close h = abandoned-IsOrderly h
    on_auth-IsOrderly close_request h = abandoned-IsOrderly h
    on_auth-IsOrderly (packet now payload) (nothing, none_sent, open_) =
        let cmd = open_command fb r.client_id now payload in
        let first : r.to_proxy ++ open_client cmd ∷ [] ≡ open_client cmd ∷ [] = rw nothing refl in
        record { same = same; order = ((cmd, same, tt, first), none_sent, open_) }
    on_auth-IsOrderly deformed_packet (nothing, none_sent, open_) = record {
      same = same;
      order = inl (inl nothing, none_sent, open_);
    }
    on_auth-IsOrderly (verdict_received v) h = tt
    on_auth-IsOrderly listener_done h = tt
    on_auth-IsOrderly listener_close h = tt
    on_auth-IsOrderly (outgoing_message msg) h = tt

    refused-IsOrderly :
        (reason : String) (app_data : Option Bytes)
        → InOrder id awaiting_verdict r
        → IsOrderly id
            (enters ended (closes (sends (create_verdict_msg fb false reason app_data) r)))
    refused-IsOrderly reason app_data (asked, none_sent, open_) = record {
      same = same;
      order = inr (asked, inr (reason, app_data, rw none_sent refl), rw open_ refl);
    }

    settled-IsOrderly :
        (ok : Bool) (reason : String) (app_data : Option Bytes)
        → InOrder id awaiting_verdict r
        → IsOrderly id (settled ok (sends (create_verdict_msg fb ok reason app_data) r))
    unfolding settled
    settled-IsOrderly true reason app_data (asked, none_sent, open_) = record {
      same = same;
      order = (([], asked), ([], (reason, app_data, rw none_sent refl)), open_);
    }
    settled-IsOrderly false reason app_data h = refused-IsOrderly reason app_data h

    on_verdict-IsOrderly :
        (e : RouteEvent) → InOrder id awaiting_verdict r → IsOrderlyIfAny id (on_verdict fb e r)
    unfolding on_verdict verdict_passed
    on_verdict-IsOrderly context_done h = refused-IsOrderly "Proxy shutdown" none h
    on_verdict-IsOrderly client_close (asked, none_sent, open_) = record {
      same = same;
      order = inr (asked, inl none_sent, rw open_ refl);
    }
    on_verdict-IsOrderly close_request h = refused-IsOrderly "Auth timeout" none h
    on_verdict-IsOrderly (packet now payload) h = tt
    on_verdict-IsOrderly deformed_packet h = tt
    on_verdict-IsOrderly (verdict_received v) h =
        settled-IsOrderly v.verdict (get_or_else v.error "") v.app_data h
    on_verdict-IsOrderly listener_done h = tt
    on_verdict-IsOrderly listener_close h = tt
    on_verdict-IsOrderly (outgoing_message msg) h = tt

    listen_to_proxy-IsOrderly :
        (e : RouteEvent) (transport : Bool)
        → InOrder id (routing true transport) r
        → r.phase ≡ routing true transport
        → IsOrderlyIfAny id (listen_to_proxy e transport r)
    unfolding listen_to_proxy
    listen_to_proxy-IsOrderly listener_done transport h at_ = record {
      same = same;
      order = rw at_ h;
    }
    listen_to_proxy-IsOrderly listener_close transport (asked, started, open_) at_ = record {
      same = same;
      order = (asked, started, rw open_ refl);
    }
    listen_to_proxy-IsOrderly (outgoing_message msg) transport (asked, (ps, started), open_) at_ =
        let p = get_or_else msg.data_ [] in
        record {
          same = same;
          order = rw at_ (
            asked,
            (ps ++ p ∷ [], StartsWithVerdict-append true ps r.outgoing_packets p started),
            open_,
          );
        }
    listen_to_proxy-IsOrderly context_done transport h at_ = tt
    listen_to_proxy-IsOrderly client_close transport h at_ = tt
    listen_to_proxy-IsOrderly close_request transport h at_ = tt
    listen_to_proxy-IsOrderly (packet now payload) transport h at_ = tt
    listen_to_proxy-IsOrderly deformed_packet transport h at_ = tt
    listen_to_proxy-IsOrderly (verdict_received v) transport h at_ = tt

    listen_to_transport-IsOrderly :
        (e : RouteEvent) (proxy : Bool)
        → InOrder id (routing proxy true) r
        → r.phase ≡ routing proxy true
        → IsOrderlyIfAny id (listen_to_transport e proxy r)
    unfolding listen_to_transport
    listen_to_transport-IsOrderly context_done proxy (asked, started, open_) at_ = record {
      same = same;
      order = ((r.to_proxy, "Proxy shutdown request", asked, rw same refl), started, open_);
    }
    listen_to_transport-IsOrderly client_close proxy h at_ = record {
      same = same;
      order = rw at_ h;
    }
    listen_to_transport-IsOrderly close_request proxy (asked, started, open_) at_ = record {
      same = same;
      order = (
        (r.to_proxy, "Close request received from transport", asked, rw same refl),
        started,
        open_,
      );
    }
    listen_to_transport-IsOrderly (packet now payload) proxy (asked, started, open_) at_ = record {
      same = same;
      order = rw at_ (HasTalked-append id r.to_proxy _ asked same, started, open_);
    }
    listen_to_transport-IsOrderly deformed_packet proxy h at_ = tt
    listen_to_transport-IsOrderly (verdict_received v) proxy h at_ = tt
    listen_to_transport-IsOrderly listener_done proxy h at_ = tt
    listen_to_transport-IsOrderly listener_close proxy h at_ = tt
    listen_to_transport-IsOrderly (outgoing_message msg) proxy h at_ = tt

    listen-IsOrderly :
        (proxy transport : Bool) (e : RouteEvent)
        → InOrder id (routing proxy transport) r
        → r.phase ≡ routing proxy transport
        → IsOrderlyIfAny id (listen proxy transport e r)
    unfolding listen
    listen-IsOrderly true true e h at_ =
        either-IsOrderlyIfAny id (is_for_listener e) _ _ (listen_to_proxy-IsOrderly e true h at_)
          (listen_to_transport-IsOrderly e true h at_)
    listen-IsOrderly true false e h at_ =
        either-IsOrderlyIfAny id (is_for_listener e) _ _ (listen_to_proxy-IsOrderly e false h at_)
          tt
    listen-IsOrderly false true e h at_ =
        either-IsOrderlyIfAny id (is_for_listener e) _ _ tt
          (listen_to_transport-IsOrderly e false h at_)
    listen-IsOrderly false false e h at_ = either-IsOrderlyIfAny id (is_for_listener e) _ _ tt tt

    react-IsOrderly :
        (phase : RoutePhase) (e : RouteEvent)
        → InOrder id phase r
        → r.phase ≡ phase
        → IsOrderlyIfAny id (react fb phase e r)
    unfolding react
    react-IsOrderly awaiting_auth e h at_ = on_auth-IsOrderly e h
    react-IsOrderly awaiting_verdict e h at_ = on_verdict-IsOrderly e h
    react-IsOrderly (routing proxy transport) e h at_ = listen-IsOrderly proxy transport e h at_
    react-IsOrderly ended e h at_ = tt

  pub receive-IsOrderly :
      (id : ℕ) (e : RouteEvent) (r : Route) → IsOrderly id r → IsOrderlyIfAny id (receive fb e r)
  unfolding receive
  receive-IsOrderly id e r h = react-IsOrderly id r h.same r.phase e h.order refl

  and_then-IsOrderly :
      (id : ℕ) (o : Option Route) (f : Route → Option Route)
      → IsOrderlyIfAny id o
      → ((q : Route) → IsOrderly id q → IsOrderlyIfAny id (f q))
      → IsOrderlyIfAny id (and_then o f)
  and_then-IsOrderly id none f h k = tt
  and_then-IsOrderly id (some q) f h k = k q h

  run-IsOrderly :
      (id : ℕ) (es : List RouteEvent) (r : Route) → IsOrderly id r → IsOrderlyIfAny id (run fb es r)
  unfolding run
  run-IsOrderly id [] r h = h
  run-IsOrderly id (e ∷ es) r h =
      and_then-IsOrderly id (receive fb e r) (run fb es) (receive-IsOrderly id e r h)
        (λ q. run-IsOrderly id es q)

  -- Whatever events the routing of a new client takes. While the auth message is awaited the proxy
  -- hears nothing, and if the routing ends then, at most that the client closed. Else it hears one
  -- connection request, nothing more until a verdict accepts, then messages of the client, and, when
  -- the transport is listened to no more, as the last that the client closed. The transport gets a
  -- verdict before anything else, and after a refusal nothing; it is told to close once, when the
  -- routing ends after the request or the proxy is listened to no more.
  pub run-open_route-IsOrderly :
      (id : ℕ) (es : List RouteEvent) → IsOrderlyIfAny id (run fb es (open_route id))
  run-open_route-IsOrderly id es =
      run-IsOrderly id es (open_route id) (record { same = refl; order = (refl, refl, refl) })
