-- ===== src/Proxy/Hub/Clients.antt =====
-- The clients that the proxy of pkg/proxy/proxy.go knows, whatever happens.
use spanreed_netcode_proxy.Prelude.{
  Bool, ℕ, zero, suc, ◌==◌, if◌then◌else◌, ◌-◌, ◌≡◌, refl, String, Option, none, some, List, [],
  ◌∷◌, ◌∙◌, ap, arith, Bool-cases, inl, inr,
}
use spanreed_netcode_proxy.Proxy.Store.{
  StoreError, set_client_recv_timestamp, set_destination_recv_timestamp, ClientStore, remove_client,
  get_destination_handler_name, get_client_handler_name, set_destination_handler_name,
  get_timeout_client_list, get_auth_timeout_client_list,
}
use spanreed_netcode_proxy.Proxy.Store.Bounds.{
  IsWellFormed, create_client-IsWellFormed, remove_client-IsWellFormed, set_client-IsWellFormed,
}
use spanreed_netcode_proxy.Proxy.State.{
  create_proxy, connection_timeout, auth_timeout, Proxy, Outcome, Error, Message, OpenCommand,
  Verdict, Timeouts, has_name, same_name,
}
use spanreed_netcode_proxy.Proxy.Hub.Start.{
  client_handler, destination_handler, Event, client_message, connection_request, client_close,
  destination_close, destination_message, destination_verdict, tick, next_client_id, step, run,
  stamped,
}
use spanreed_netcode_proxy.Proxy.Hub.{
  create_client_message_handler, create_destination_message_handler, matching,
  forward_client_message, forward_destination_message, forward_destination_verdict,
  handle_client_connection_request_message, kick_client, kick_clients, kick_old_clients,
  check_for_auth_timeouts, get_next_client_id, send_client_disconnect, send_destination_disconnect,
  forward_to_destination, forward_to_client, attach, open_at, kick_on_error, request_at, verdict_to,
}

-- The clients have different ids, and are at most as many as the limit of the store.
abbrev pub HasOrder : (limit : ℕ) → Proxy → Type 0
HasOrder limit p = IsWellFormed limit p.client_store

send_client_disconnect_store :
    (id : ℕ) (name : Option String) (reason : Error) (p : Proxy)
    → (send_client_disconnect id name reason p).client_store ≡ p.client_store
unfolding send_client_disconnect
send_client_disconnect_store id none reason p = refl
send_client_disconnect_store id (some name) reason p = ground arith

send_destination_disconnect_store :
    (id : ℕ) (name : Option String) (reason : Error) (p : Proxy)
    → (send_destination_disconnect id name reason p).client_store ≡ p.client_store
unfolding send_destination_disconnect
send_destination_disconnect_store id none reason p = refl
send_destination_disconnect_store id (some name) reason p = ground arith

-- A client that is kicked is removed, and nothing else in the store changes.
pub kick_client_store :
    (id : ℕ) (reason : Error) (p : Proxy)
    → (kick_client id reason p).client_store ≡ remove_client id p.client_store
unfolding kick_client
kick_client_store id reason p =
    let c = get_client_handler_name id p.client_store in
    let d = get_destination_handler_name id p.client_store in
    let q = send_client_disconnect id c reason p in
    ap (remove_client id)
      (send_destination_disconnect_store id d reason q ∙ send_client_disconnect_store id c reason p)

forward_to_destination_store :
    (name : Option String) (now : ℕ) (msg : Message) (p : Proxy)
    → (forward_to_destination name now msg p).1.client_store ≡ p.client_store
unfolding forward_to_destination
forward_to_destination_store none now msg p = refl
forward_to_destination_store (some name) now msg p = ground arith

forward_to_client_store :
    (name : Option String) (now : ℕ) (msg : Message) (p : Proxy)
    → (forward_to_client name now msg p).1.client_store ≡ p.client_store
unfolding forward_to_client
forward_to_client_store none now msg p = refl
forward_to_client_store (some name) now msg p = ground arith

client_handler_store :
    (name : String) (p : Proxy)
    → (create_client_message_handler name p).1.client_store ≡ p.client_store
unfolding create_client_message_handler
client_handler_store name p = ground arith

destination_handler_store :
    (name : String) (matches : String → Bool) (p : Proxy)
    → (create_destination_message_handler name matches p).1.client_store ≡ p.client_store
unfolding create_destination_message_handler
destination_handler_store name matches p = ground arith

module _ {limit : ℕ} where
  kick_client-HasOrder :
      (id : ℕ) (reason : Error) (p : Proxy)
      → HasOrder limit p
      → HasOrder limit (kick_client id reason p)
  kick_client-HasOrder id reason p h =
      rw (kick_client_store id reason p) (remove_client-IsWellFormed id p.client_store h)

  kick_clients-HasOrder :
      (ids : List ℕ) (reason : Error) (p : Proxy)
      → HasOrder limit p
      → HasOrder limit (kick_clients ids reason p)
  unfolding kick_clients
  kick_clients-HasOrder [] reason p h = h
  kick_clients-HasOrder (id ∷ ids) reason p h =
      kick_clients-HasOrder ids reason (kick_client id reason p)
        (kick_client-HasOrder id reason p h)

  stamped-HasOrder :
      (set : ℕ → ℕ → ClientStore → Option StoreError × ClientStore) (id now : ℕ) (o : Outcome)
      → ((store : ClientStore) → IsWellFormed limit store → IsWellFormed limit (set id now store).1)
      → HasOrder limit o.1
      → HasOrder limit (stamped set id now o)
  unfolding stamped
  stamped-HasOrder set id now (none, p) keeps h = keeps p.client_store h
  stamped-HasOrder set id now (some e, p) keeps h = h

  open_at-HasOrder :
      (name : String) (msg : OpenCommand) (r : Option StoreError × ClientStore) (p : Proxy)
      → IsWellFormed limit r.1
      → HasOrder limit p
      → HasOrder limit (open_at name msg r p).1
  unfolding open_at
  open_at-HasOrder name msg (none, store) p r h = r
  open_at-HasOrder name msg (some e, store) p r h = h

  attach-HasOrder :
      (name : Option String) (msg : OpenCommand) (p : Proxy)
      → HasOrder limit p
      → HasOrder limit (attach name msg p).1
  unfolding attach
  attach-HasOrder none msg p h = h
  attach-HasOrder (some name) msg p h = elim (Bool-cases (has_name name p.outgoing_destinations)) [
    | inl there ↦ rw there (
        open_at-HasOrder name msg (set_destination_handler_name msg.client_id name p.client_store) p
          (set_client-IsWellFormed msg.client_id _ p.client_store h) h)
    | inr missing ↦ rw missing h
  ]

  kick_on_error-HasOrder :
      (id : ℕ) (o : Outcome) → HasOrder limit o.1 → HasOrder limit (kick_on_error id o).1
  unfolding kick_on_error
  kick_on_error-HasOrder id (none, p) h = h
  kick_on_error-HasOrder id (some e, p) h = kick_client-HasOrder id e p h

  request_at-HasOrder :
      (name : Option String) (now : ℕ) (msg : OpenCommand) (p : Proxy)
      → HasOrder limit p
      → HasOrder limit (request_at name now msg p).1
  unfolding request_at
  request_at-HasOrder none now msg p h = h
  request_at-HasOrder (some name) now msg p h = elim (Bool-cases (same_name name "")) [
    | inl new ↦ rw new (
        kick_on_error-HasOrder msg.client_id _
          (attach-HasOrder (matching msg.connection_string p.connected_destinations) _ p h))
    | inr old ↦ rw old h
  ]

  verdict_to-HasOrder :
      (name : Option String) (msg : Verdict) (p : Proxy)
      → HasOrder limit p
      → HasOrder limit (verdict_to name msg p).1
  unfolding verdict_to
  verdict_to-HasOrder none msg p h = h
  verdict_to-HasOrder (some name) msg p h = elim (Bool-cases (has_name name p.outgoing_clients)) [
    | inl there ↦ rw there (set_client-IsWellFormed msg.client_id _ p.client_store h)
    | inr missing ↦ rw missing h
  ]

  kick_old_clients-HasOrder :
      (timeouts : Timeouts) (now_c now_d now_l : ℕ) (p : Proxy)
      → HasOrder limit p
      → HasOrder limit (kick_old_clients timeouts now_c now_d now_l p)
  unfolding kick_old_clients
  kick_old_clients-HasOrder timeouts now_c now_d now_l p h =
      kick_clients-HasOrder
        (get_timeout_client_list (now_c - timeouts.client_message)
          (now_d - timeouts.destination_message) (now_l - timeouts.max_connection_length)
          p.client_store)
        connection_timeout p h

  check_for_auth_timeouts-HasOrder :
      (timeouts : Timeouts) (now : ℕ) (p : Proxy)
      → HasOrder limit p
      → HasOrder limit (check_for_auth_timeouts timeouts now p)
  unfolding check_for_auth_timeouts
  check_for_auth_timeouts-HasOrder timeouts now p h =
      kick_clients-HasOrder
        (get_auth_timeout_client_list (now - timeouts.client_auth) p.client_store) auth_timeout p h

  step-HasOrder :
      (timeouts : Timeouts) (e : Event) (p : Proxy)
      → HasOrder limit p
      → HasOrder limit (step timeouts e p)
  unfolding step forward_client_message forward_destination_message forward_destination_verdict
      handle_client_connection_request_message get_next_client_id
  step-HasOrder timeouts (client_message now then_ msg) p h =
      stamped-HasOrder set_client_recv_timestamp msg.client_id then_
        (forward_client_message now msg p) (set_client-IsWellFormed msg.client_id _)
        (rw
          (forward_to_destination_store (get_destination_handler_name msg.client_id p.client_store)
            now msg p)
          h)
  step-HasOrder timeouts (connection_request now msg) p h =
      request_at-HasOrder (get_destination_handler_name msg.client_id p.client_store) now msg p h
  step-HasOrder timeouts (client_close cmd) p h = kick_client-HasOrder cmd.client_id _ p h
  step-HasOrder timeouts (destination_close cmd) p h = kick_client-HasOrder cmd.client_id _ p h
  step-HasOrder timeouts (destination_message now then_ msg) p h =
      stamped-HasOrder set_destination_recv_timestamp msg.client_id then_
        (forward_destination_message now msg p) (set_client-IsWellFormed msg.client_id _)
        (rw
          (forward_to_client_store (get_client_handler_name msg.client_id p.client_store) now msg p)
          h)
  step-HasOrder timeouts (destination_verdict msg) p h =
      verdict_to-HasOrder (get_client_handler_name msg.client_id p.client_store) msg p h
  step-HasOrder timeouts (tick now_c now_d now_l now_a) p h =
      check_for_auth_timeouts-HasOrder timeouts now_a
        (kick_old_clients timeouts now_c now_d now_l p)
        (kick_old_clients-HasOrder timeouts now_c now_d now_l p h)
  step-HasOrder timeouts (client_handler name) p h = rw (client_handler_store name p) h
  step-HasOrder timeouts (destination_handler name matches) p h =
      rw (destination_handler_store name matches p) h
  step-HasOrder timeouts (next_client_id handler now) p h =
      create_client-IsWellFormed _ handler now _
        (record { distinct = h.distinct; limited = h.limited; bounded = h.bounded })

  run-HasOrder :
      (timeouts : Timeouts) (es : List Event) (p : Proxy)
      → HasOrder limit p
      → HasOrder limit (run timeouts es p)
  unfolding run
  run-HasOrder timeouts [] p h = h
  run-HasOrder timeouts (e ∷ es) p h =
      run-HasOrder timeouts es (step timeouts e p) (step-HasOrder timeouts e p h)

-- A proxy that was created with a limit on its clients, or with 0, which stands for the default of
-- 512: whatever happens, that stays its limit, it has at most as many clients, and no two of them
-- have the same id.
pub run-create_proxy-HasOrder :
    (timeouts : Timeouts) (es : List Event) (limit : ℕ)
    → HasOrder (if limit == 0 then 512 else limit) (run timeouts es (create_proxy limit))
unfolding create_proxy
run-create_proxy-HasOrder timeouts es zero =
    run-HasOrder timeouts es (create_proxy 0)
      (record { distinct = tt; limited = refl; bounded = omega arith })
run-create_proxy-HasOrder timeouts es (suc n) =
    let given : (if suc n == 0 then 512 else suc n) ≡ suc n = ground arith in
    rw given (
      run-HasOrder timeouts es (create_proxy (suc n))
        (record { distinct = tt; limited = refl; bounded = omega arith }))
