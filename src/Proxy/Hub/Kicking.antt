-- ===== src/Proxy/Hub/Kicking.antt =====
-- Whom the proxy of pkg/proxy/proxy.go disconnects for being silent, too old, or not connected.
use spanreed_netcode_proxy.Prelude.{
  ℕ, ◌-◌, ◌≡◌, refl, ap, ◌∙◌, Bool, true, Option, none, some, List, [], ◌∷◌,
}
use spanreed_netcode_proxy.Proxy.Store.{
  ClientStore, ClientConnectionMetadata, find, change, ids_where, is_timed_out, is_auth_timed_out,
  connect,
}
use spanreed_netcode_proxy.Proxy.Store.Bounds.{
  set_client_known, set_client-IsWellFormed, find-change,
}
use spanreed_netcode_proxy.Proxy.Store.Timeouts.{
  unless, find-unless, remove_clients, find-remove_clients,
}
use spanreed_netcode_proxy.Proxy.State.{
  Proxy, Error, Verdict, Timeouts, has_name, connection_timeout, auth_timeout,
}
use spanreed_netcode_proxy.Proxy.Hub.{
  kick_client, kick_clients, kick_old_clients, check_for_auth_timeouts, forward_destination_verdict,
  verdict_to,
}
use spanreed_netcode_proxy.Proxy.Hub.Clients.{HasOrder, kick_client_store}

-- The client of an id, if the proxy knows it.
abbrev pub client : ℕ → Proxy → Option ClientConnectionMetadata
client id p = find id p.client_store.client_connections

kick_clients_connections :
    (ids : List ℕ) (reason : Error) (p : Proxy)
    → (kick_clients ids reason p).client_store.client_connections
      ≡ remove_clients ids p.client_store.client_connections
unfolding kick_clients
kick_clients_connections [] reason p = refl
kick_clients_connections (id ∷ ids) reason p =
    kick_clients_connections ids reason (kick_client id reason p)
    ∙ ap (λ s. remove_clients ids (ClientStore.client_connections s))
        (kick_client_store id reason p)

client-kick_clients :
    {limit : ℕ} (test : ClientConnectionMetadata → Bool) (id : ℕ) (reason : Error) (p : Proxy)
    → HasOrder limit p
    → client id (kick_clients (ids_where test p.client_store.client_connections) reason p)
      ≡ unless test (client id p)
client-kick_clients test id reason p h =
    let l = p.client_store.client_connections in
    ap (find id) (kick_clients_connections (ids_where test l) reason p)
    ∙ find-remove_clients id (ids_where test l) l
    ∙ find-unless test id l h.distinct

-- If its clients have different ids, at most as many as its limit: after the check for timeouts the
-- proxy knows exactly the clients that it knew and that are within all three deadlines, each as it
-- was.
pub client-kick_old_clients :
    {limit : ℕ} (timeouts : Timeouts) (now_c now_d now_l id : ℕ) (p : Proxy)
    → HasOrder limit p
    → client id (kick_old_clients timeouts now_c now_d now_l p)
      ≡ unless
          (is_timed_out
            (now_c - timeouts.client_message)
            (now_d - timeouts.destination_message)
            (now_l - timeouts.max_connection_length))
          (client id p)
unfolding kick_old_clients
client-kick_old_clients timeouts now_c now_d now_l id p h =
    client-kick_clients _ id connection_timeout p h

pub client-check_for_auth_timeouts :
    {limit : ℕ} (timeouts : Timeouts) (now id : ℕ) (p : Proxy)
    → HasOrder limit p
    → client id (check_for_auth_timeouts timeouts now p)
      ≡ unless (is_auth_timed_out (now - timeouts.client_auth)) (client id p)
unfolding check_for_auth_timeouts
client-check_for_auth_timeouts timeouts now id p h = client-kick_clients _ id auth_timeout p h

abbrev connect_it : ClientConnectionMetadata → ClientConnectionMetadata
connect_it m = record m { is_connected = true }

-- A verdict, even a refusal, on a client whose handler is there marks the client as connected, so
-- the check for clients that do not get connected in time never removes it.
pub refused_stays :
    {limit : ℕ} (timeouts : Timeouts) (now : ℕ) (v : Verdict) (p : Proxy)
    (m : ClientConnectionMetadata)
    → HasOrder limit p
    → client v.client_id p ≡ some m
    → has_name m.client_handler_name p.outgoing_clients ≡ true
    → client v.client_id (check_for_auth_timeouts timeouts now (forward_destination_verdict v p).1)
      ≡ some (record m { is_connected = true })
unfolding forward_destination_verdict verdict_to
refused_stays {limit} timeouts now v p m h known there =
    let l = p.client_store.client_connections in
    let connected : connect v.client_id p.client_store
        ≡ (none, record p.client_store { client_connections = change v.client_id connect_it l }) =
      set_client_known v.client_id connect_it p.client_store m known in
    let q = (forward_destination_verdict v p).1 in
    let here : client v.client_id q ≡ some (connect_it m) =
      rw (known, there, connected) (find-change v.client_id connect_it l m known) in
    let order : HasOrder limit q =
      rw (known, there) (set_client-IsWellFormed v.client_id connect_it p.client_store h) in
    client-check_for_auth_timeouts timeouts now v.client_id q order ∙ rw here refl
