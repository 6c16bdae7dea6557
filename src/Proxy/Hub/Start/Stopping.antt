-- ===== src/Proxy/Hub/Start/Stopping.antt =====
-- What the proxy of pkg/proxy/proxy.go does when it is shut down.
use spanreed_netcode_proxy.Prelude.{
  ℕ, ◌≡◌, refl, ap, ◌∙◌, sym, String, none, some, List, [], ◌∷◌, ◌++◌, append-nil, append_assoc,
  if◌then◌else◌, Bool-cases, inl, inr,
}
use spanreed_netcode_proxy.Proxy.Store.{Connections, kick_all}
use spanreed_netcode_proxy.Proxy.State.{
  Proxy, Error, Sent, shutdown, close_at_client, close_at_destination, has_name, same_name,
}
use spanreed_netcode_proxy.Proxy.Hub.{send_client_disconnect, send_destination_disconnect}
use spanreed_netcode_proxy.Proxy.Hub.Start.{disconnect, stop}

-- What is put into a channel that goes by the name, if the name is not empty and there is one.
abbrev if_there : String → List String → Sent → List Sent
if_there name names s = if same_name name "" then [] else if has_name name names then s ∷ [] else []

-- Each client is closed at its handler, and then at its destination.
abbrev pub farewells : (clients destinations : List String) → Connections → List Sent
farewells clients destinations [] = []
farewells clients destinations ((id, m) ∷ rest) =
    if_there m.client_handler_name clients (close_at_client m.client_handler_name id shutdown)
    ++ (if_there m.destination_handler_name destinations
          (close_at_destination m.destination_handler_name id shutdown)
        ++ farewells clients destinations rest)

abbrev also : Proxy → List Sent → Proxy
also p l = record p { sent = p.sent ++ l }

also_nothing : (p : Proxy) → p ≡ also p []
also_nothing p = ap (λ l. record p { sent = l }) (sym (append-nil p.sent))

send_client_disconnect-also :
    (id : ℕ) (name : String) (reason : Error) (p : Proxy)
    → send_client_disconnect id (some name) reason p
      ≡ also p (if_there name p.outgoing_clients (close_at_client name id reason))
unfolding send_client_disconnect
send_client_disconnect-also id name reason p = elim (Bool-cases (same_name name "")) [
  | inl empty ↦ rw empty (also_nothing p)
  | inr named ↦ elim (Bool-cases (has_name name p.outgoing_clients)) [
    | inl there ↦ rw (named, there) refl
    | inr missing ↦ rw (named, missing) (also_nothing p)
  ]
]

send_destination_disconnect-also :
    (id : ℕ) (name : String) (reason : Error) (p : Proxy)
    → send_destination_disconnect id (some name) reason p
      ≡ also p (if_there name p.outgoing_destinations (close_at_destination name id reason))
unfolding send_destination_disconnect
send_destination_disconnect-also id name reason p = elim (Bool-cases (same_name name "")) [
  | inl empty ↦ rw empty (also_nothing p)
  | inr named ↦ elim (Bool-cases (has_name name p.outgoing_destinations)) [
    | inl there ↦ rw (named, there) refl
    | inr missing ↦ rw (named, missing) (also_nothing p)
  ]
]

kick_all-farewells :
    (l : Connections) (p : Proxy)
    → kick_all disconnect l p
      ≡ (none, [], also p (farewells p.outgoing_clients p.outgoing_destinations l))
unfolding disconnect
kick_all-farewells [] p = ap (λ q. (none, [], q)) (also_nothing p)
kick_all-farewells ((id, m) ∷ rest) p =
    let a =
      if_there m.client_handler_name p.outgoing_clients
        (close_at_client m.client_handler_name id shutdown) in
    let b =
      if_there m.destination_handler_name p.outgoing_destinations
        (close_at_destination m.destination_handler_name id shutdown) in
    let more = farewells p.outgoing_clients p.outgoing_destinations rest in
    let parts : ((p.sent ++ a) ++ b) ++ more ≡ p.sent ++ (a ++ (b ++ more)) =
      append_assoc (p.sent ++ a) b more ∙ append_assoc p.sent a (b ++ more) in
    rw
      (
        send_client_disconnect-also id m.client_handler_name shutdown p,
        send_destination_disconnect-also id m.destination_handler_name shutdown (also p a),
      )
      (kick_all-farewells rest (also (also p a) b)
        ∙ ap (λ l. (none, [], record p { sent = l })) parts)

-- When the proxy is shut down it closes each of its clients, at its client handler and at its
-- destination, as far as it has them, and then knows no client.
pub stop-farewells :
    (p : Proxy)
    → ((stop p).client_store.client_connections ≡ [])
      × ((stop p).sent
          ≡ p.sent
            ++ farewells p.outgoing_clients p.outgoing_destinations
                p.client_store.client_connections)
unfolding stop
stop-farewells p =
    let e = kick_all-farewells p.client_store.client_connections p in
    (ap (λ r. r.1) e, ap (λ r. Proxy.sent (r.2)) e)
