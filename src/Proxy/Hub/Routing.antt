-- ===== src/Proxy/Hub/Routing.antt =====
-- Where the proxy of pkg/proxy/proxy.go sends the messages of its clients and destinations.
use spanreed_netcode_proxy.Prelude.{ℕ, ◌≡◌, refl, ap, ◌∙◌, true, none, some, String, [], ◌∷◌, ◌++◌}
use spanreed_netcode_proxy.Proxy.Store.{
  ClientStore, ClientConnectionMetadata, find, change, missing_client_id,
  set_destination_handler_name,
}
use spanreed_netcode_proxy.Proxy.Store.Bounds.{find-without, find-change, set_client_known}
use spanreed_netcode_proxy.Proxy.State.{
  to_client, Verdict, verdict_to_client, Proxy, Error, Message, OpenCommand, Outcome, store_error,
  no_matching_handler, to_destination, open_at_destination, has_name, put,
}
use spanreed_netcode_proxy.Proxy.Hub.{
  forward_destination_verdict, verdict_to, matching, forward_client_message,
  forward_destination_message, kick_client, handle_client_connection_request_message, request_at,
  attach, open_at, kick_on_error, forward_to_destination, forward_to_client,
}
use spanreed_netcode_proxy.Proxy.Hub.Clients.{kick_client_store}
use spanreed_netcode_proxy.Proxy.Hub.Kicking.{client}

kicked : (id : ℕ) (reason : Error) (p : Proxy) → client id (kick_client id reason p) ≡ none
kicked id reason p =
    ap (λ s. find id (ClientStore.client_connections s)) (kick_client_store id reason p)
    ∙ find-without id p.client_store.client_connections

-- Once a client is kicked, for whatever reason, no message of it or for it is forwarded: both are
-- refused with the error that the client is missing, and change nothing.
pub kick_client-forwarding :
    (now : ℕ) (msg : Message) (reason : Error) (p : Proxy)
    → let q = kick_client msg.client_id reason p in
      let refused : Outcome = (some (store_error (missing_client_id msg.client_id)), q) in
      (forward_client_message now msg q ≡ refused)
      × (forward_destination_message now msg q ≡ refused)
unfolding forward_client_message forward_destination_message forward_to_destination
    forward_to_client
kick_client-forwarding now msg reason p =
    let gone = kicked msg.client_id reason p in (rw gone refl, rw gone refl)

-- A client without a destination asks for one: the first handler that matches its connection string
-- is told, once, and from then on gets the messages of the client, and no other handler does.
pub handle_client_connection_request_message-forwarding :
    (now now' : ℕ) (cmd : OpenCommand) (msg : Message) (p : Proxy) (m : ClientConnectionMetadata)
    (name : String)
    → msg.client_id ≡ cmd.client_id
    → client cmd.client_id p ≡ some m
    → m.destination_handler_name ≡ ""
    → matching cmd.connection_string p.connected_destinations ≡ some name
    → has_name name p.outgoing_destinations ≡ true
    → let q = (handle_client_connection_request_message now cmd p).1 in
      (q.sent ≡ p.sent ++ open_at_destination name (record cmd { route_timestamp = now }) ∷ [])
      × (forward_client_message now' msg q
          ≡ (none, put (to_destination name (record msg { route_timestamp = now' })) q))
unfolding handle_client_connection_request_message request_at attach open_at kick_on_error
    forward_client_message forward_to_destination
handle_client_connection_request_message-forwarding now now' cmd msg p m name same known new matches
      there =
    let l = p.client_store.client_connections in
    let named : ClientConnectionMetadata → ClientConnectionMetadata =
      λ n. record n { destination_handler_name = name } in
    let set : set_destination_handler_name cmd.client_id name p.client_store
        ≡ (none, record p.client_store { client_connections = change cmd.client_id named l }) =
      set_client_known cmd.client_id named p.client_store m known in
    let here : find cmd.client_id (change cmd.client_id named l) ≡ some (named m) =
      find-change cmd.client_id named l m known in
    (
      rw (known, new, matches, there, set) refl,
      rw (same, known, new, matches, there, set, here, there) refl,
    )

-- A client without a destination asks for one that no handler matches: it is disconnected with the
-- error that no handler matches, and from then on it is unknown.
pub handle_client_connection_request_message-unmatched :
    (now : ℕ) (cmd : OpenCommand) (p : Proxy) (m : ClientConnectionMetadata)
    → client cmd.client_id p ≡ some m
    → m.destination_handler_name ≡ ""
    → matching cmd.connection_string p.connected_destinations ≡ none
    → let (e, q) = handle_client_connection_request_message now cmd p in
      (e ≡ some (no_matching_handler cmd.connection_string))
      × (q ≡ kick_client cmd.client_id (no_matching_handler cmd.connection_string) p)
      × (client cmd.client_id q ≡ none)
unfolding handle_client_connection_request_message request_at attach kick_on_error
handle_client_connection_request_message-unmatched now cmd p m known new unmatched =
    let e = no_matching_handler cmd.connection_string in
    (
      rw (known, new, unmatched) refl,
      rw (known, new, unmatched) refl,
      rw (known, new, unmatched) (kicked cmd.client_id e p),
    )

-- A verdict on a client whose handler is there is passed on to that handler.
pub forward_destination_verdict_sent :
    (v : Verdict) (p : Proxy) (m : ClientConnectionMetadata)
    → client v.client_id p ≡ some m
    → has_name m.client_handler_name p.outgoing_clients ≡ true
    → (forward_destination_verdict v p).1.sent
      ≡ p.sent ++ verdict_to_client m.client_handler_name v ∷ []
unfolding forward_destination_verdict verdict_to
forward_destination_verdict_sent v p m known there = rw (known, there) refl

-- A message of a client whose destination is there is passed on to that destination.
pub forward_client_message_sent :
    (now : ℕ) (msg : Message) (p : Proxy) (m : ClientConnectionMetadata)
    → client msg.client_id p ≡ some m
    → has_name m.destination_handler_name p.outgoing_destinations ≡ true
    → forward_client_message now msg p ≡ (
      none,
      put (to_destination m.destination_handler_name (record msg { route_timestamp = now })) p,
    )
unfolding forward_client_message forward_to_destination
forward_client_message_sent now msg p m known there = rw (known, there) refl

-- A message for a client whose handler is there is passed on to that handler.
pub forward_destination_message_sent :
    (now : ℕ) (msg : Message) (p : Proxy) (m : ClientConnectionMetadata)
    → client msg.client_id p ≡ some m
    → has_name m.client_handler_name p.outgoing_clients ≡ true
    → forward_destination_message now msg p
      ≡ (none, put (to_client m.client_handler_name (record msg { route_timestamp = now })) p)
unfolding forward_destination_message forward_to_client
forward_destination_message_sent now msg p m known there = rw (known, there) refl
