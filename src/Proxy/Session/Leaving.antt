-- ===== src/Proxy/Session/Leaving.antt =====
-- What is left of a client that connected by WebSocket (pkg/transport/websocket_client.go) in the map
-- of pkg/transport/client_connection_router.go.
use spanreed_netcode_proxy.Prelude.{ℕ, ◌≡◌, refl, true, false, none, some, [], ◌∷◌, arith}
use spanreed_netcode_proxy.Proxy.Router.Channels.{
  ClientChannels, ConnectionMap, new_channels, channels_of, open_connection, leaves, step,
}
use spanreed_netcode_proxy.Proxy.Session.{Session, open_session, on_ws_request, opened, on_finished}

step-leaves : (id : ℕ) (t : ConnectionMap) → channels_of id t ≡ none → step (leaves id) t ≡ t
unfolding step
step-leaves id [] h = refl
step-leaves id ((k, c) ∷ rest) h = ground (arith, step-leaves id rest, h)

step-leaves_new :
    (id : ℕ) (c : ClientChannels) (t : ConnectionMap)
    → channels_of id t ≡ none
    → step (leaves id) ((id, c) ∷ t) ≡ t
unfolding step
step-leaves_new id c t h = ground (arith, step-leaves id t h)

-- A client whose id is not taken gets a session, whose client is in the map; once both goroutines of
-- a session of this client have returned, the map is as it was before.
on_finished-on_ws_request :
    (id : ℕ) (t : ConnectionMap) (q : Session)
    → channels_of id t ≡ none
    → q.route.client_id ≡ id
    → q.proxy_listener ≡ false
    → q.connection_listener ≡ false
    → let (o, t') = on_ws_request true (none, id) t in
      (o ≡ some (open_session id)) × (on_finished q t' ≡ t)
unfolding on_ws_request on_finished opened open_connection
on_finished-on_ws_request id t q new same stopped ended_ =
    rw (new, same, stopped, ended_) (refl, step-leaves_new id new_channels t new)
