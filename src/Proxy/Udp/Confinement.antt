-- ===== src/Proxy/Udp/Confinement.antt =====
-- Where the datagrams of pkg/transport/udp_destination.go can go.
use spanreed_netcode_proxy.Prelude.{
  take, ℕ, ◌≡◌, refl, Bool, true, false, String, Option, none, some, List, [], ◌∷◌, ◌++◌, ◌==◌, All,
  All-append, Bool-cases, inl, inr, if◌then◌else◌,
}
use spanreed_netcode_proxy.Wire.Flatbuffers.{Flatbuffers, Bytes}
use spanreed_netcode_proxy.Proxy.State.{Message, OpenCommand}
use spanreed_netcode_proxy.Proxy.Datagrams.{
  Incoming, verdict_of, message_for, close_of, read_datagram,
}
use spanreed_netcode_proxy.Proxy.Hosts.{is_destination_allowed}
use spanreed_netcode_proxy.Proxy.Hosts.Listing.{IsAllowed, is_destination_allowed-check_origin}
use spanreed_netcode_proxy.Proxy.Udp.{
  Resolved, resolved, failed, Resolver, UdpParams, UdpDestination, Addresses, address_of, forget,
  ToProxy, create_udp_destination_handler, connect_at, connect_host, on_connect_client,
  refuse_on_error, open_client, message_to, on_client_message, close_to, on_proxy_request_close,
  pass_on, on_receive_verdict, on_receive_proxy_message, on_receive_close_request, receive,
  send_first, dispatch, buffer_size, on_datagram, farewells, shut_down,
}
use spanreed_netcode_proxy.Proxy.Udp.Events.{
  UdpEvent, open_request, close_request, message_request, datagram, message_turn, done, step, run,
}

module _ {Addr : Type 0} (net : Resolver Addr) (params : UdpParams) where
  -- An address that an allowed host resolves to.
  abbrev pub IsPermitted : Addr → Type 0
  IsPermitted a =
      (host : String) × IsAllowed params.allow_all_destinations params.allowlisted_destinations
        params.denylisted_destinations host
      × (net.resolve_udp_addr host ≡ resolved a)

  abbrev pub ArePermitted : List (Addr × Bytes) → Type 0
  ArePermitted = All (λ m. IsPermitted m.0)

  abbrev pub HavePermitted : Addresses Addr → Type 0
  HavePermitted = All (λ e. IsPermitted e.1)

  pub record IsConfined (d : UdpDestination Addr) : Type 0 where
    pub registered : HavePermitted d.destination_connections
    pub queued : ArePermitted d.outgoing_messages
    pub sent : ArePermitted d.written

  abbrev IsPermittedIfAny : Option Addr → Type 0
  IsPermittedIfAny none = Unit {0}
  IsPermittedIfAny (some a) = IsPermitted a

  address_of-IsPermittedIfAny :
      (id : ℕ) (l : Addresses Addr) → HavePermitted l → IsPermittedIfAny (address_of id l)
  address_of-IsPermittedIfAny id [] h = tt
  address_of-IsPermittedIfAny id ((k, a) ∷ rest) h = elim (Bool-cases (k == id)) [
    | inl same ↦ rw same h.0
    | inr other ↦ rw other (address_of-IsPermittedIfAny id rest h.1)
  ]

  forget-HavePermitted :
      (id : ℕ) (l : Addresses Addr) → HavePermitted l → HavePermitted (forget id l)
  forget-HavePermitted id [] h = tt
  forget-HavePermitted id ((k, a) ∷ rest) h = elim (Bool-cases (k == id)) [
    | inl same ↦ rw same (forget-HavePermitted id rest h.1)
    | inr other ↦ rw other (h.0, forget-HavePermitted id rest h.1)
  ]

  one_more :
      (l : List (Addr × Bytes)) (a : Addr) (m : Bytes)
      → ArePermitted l
      → IsPermitted a
      → ArePermitted (l ++ (a, m) ∷ [])
  one_more l a m h ok = All-append _ l ((a, m) ∷ []) h (ok, tt)

  pass_on-IsConfined :
      (o : Option Addr) (p : ToProxy) (d : UdpDestination Addr)
      → IsConfined d
      → IsConfined (pass_on o p d)
  unfolding pass_on
  pass_on-IsConfined none p d h = h
  pass_on-IsConfined (some a) p d h = record {
    registered = h.registered;
    queued = h.queued;
    sent = h.sent;
  }

  refuse_on_error-IsConfined :
      (id : ℕ) (e : Option String) (d : UdpDestination Addr)
      → IsConfined d
      → IsConfined (refuse_on_error id (e, d))
  unfolding refuse_on_error
  refuse_on_error-IsConfined id none d h = h
  refuse_on_error-IsConfined id (some e) d h = record {
    registered = h.registered;
    queued = h.queued;
    sent = h.sent;
  }

  either-IsConfined :
      (b : Bool) (d q : UdpDestination Addr)
      → IsConfined d
      → IsConfined q
      → IsConfined (if b then d else q)
  either-IsConfined true d q h k = h
  either-IsConfined false d q h k = k

  receive-IsConfined :
      (now : ℕ) (m : Option Incoming) (app_data : Option Bytes) (d : UdpDestination Addr)
      → IsConfined d
      → IsConfined (receive now (m, app_data) d)
  unfolding receive on_receive_verdict on_receive_proxy_message on_receive_close_request
  receive-IsConfined now none app_data d h = h
  receive-IsConfined now (some (verdict_of id ok)) app_data d h = pass_on-IsConfined _ _ d h
  receive-IsConfined now (some (message_for id)) app_data d h = pass_on-IsConfined _ _ d h
  receive-IsConfined now (some (close_of id reason)) app_data d h = pass_on-IsConfined _ _ d h

  send_first-IsConfined :
      (l : List (Addr × Bytes)) (d : UdpDestination Addr)
      → ArePermitted l
      → IsConfined d
      → IsConfined (send_first l d)
  unfolding send_first
  send_first-IsConfined [] d k h = h
  send_first-IsConfined ((a, m) ∷ ms) d k h = elim (Bool-cases d.is_closed) [
    | inl closed ↦ rw closed (record { registered = h.registered; queued = k.1; sent = h.sent })
    | inr open_ ↦ rw open_ (record {
      registered = h.registered;
      queued = k.1;
      sent = one_more d.written a m h.sent k.0;
    })
  ]

  module _ {N : Type 0} (fb : Flatbuffers N) where
    message_to-IsConfined :
        (o : Option Addr) (msg : Message) (d : UdpDestination Addr)
        → IsPermittedIfAny o
        → IsConfined d
        → IsConfined (message_to fb o msg d)
    unfolding message_to
    message_to-IsConfined none msg d ok h = h
    message_to-IsConfined (some a) msg d ok h = record {
      registered = h.registered;
      queued = one_more d.outgoing_messages a _ h.queued ok;
      sent = h.sent;
    }

    close_to-IsConfined :
        (o : Option Addr) (id : ℕ) (d : UdpDestination Addr)
        → IsPermittedIfAny o
        → IsConfined d
        → IsConfined (close_to fb o id d)
    unfolding close_to
    close_to-IsConfined none id d ok h = h
    close_to-IsConfined (some a) id d ok h = record {
      registered = forget-HavePermitted id d.destination_connections h.registered;
      queued = one_more d.outgoing_messages a _ h.queued ok;
      sent = h.sent;
    }

    connect_at-IsConfined :
        (host : String) (r : Resolved Addr) (cmd : OpenCommand) (d : UdpDestination Addr)
        → is_destination_allowed params.allow_all_destinations params.allowlisted_destinations
            params.denylisted_destinations host
          ≡ true
        → net.resolve_udp_addr host ≡ r
        → IsConfined d
        → IsConfined (refuse_on_error cmd.client_id (connect_at fb r cmd d))
    unfolding connect_at refuse_on_error
    connect_at-IsConfined host (failed e) cmd d ok found h =
        refuse_on_error-IsConfined cmd.client_id (some e) d h
    connect_at-IsConfined host (resolved a) cmd d ok found h =
        let (meaning, _) =
          is_destination_allowed-check_origin params.allow_all_destinations
            params.allowlisted_destinations params.denylisted_destinations host in
        let permitted : IsPermitted a = (host, meaning.0 ok, found) in
        record {
          registered = (
            permitted,
            forget-HavePermitted cmd.client_id d.destination_connections h.registered,
          );
          queued = one_more d.outgoing_messages a _ h.queued permitted;
          sent = h.sent;
        }

    connect_host-IsConfined :
        (r : Resolved String) (cmd : OpenCommand) (d : UdpDestination Addr)
        → IsConfined d
        → IsConfined (refuse_on_error cmd.client_id (connect_host fb net params r cmd d))
    unfolding connect_host
    connect_host-IsConfined (failed e) cmd d h =
        refuse_on_error-IsConfined cmd.client_id (some e) d h
    connect_host-IsConfined (resolved host) cmd d h =
        elim (Bool-cases (
          is_destination_allowed params.allow_all_destinations params.allowlisted_destinations
            params.denylisted_destinations host)) [
              | inl ok ↦ rw ok (connect_at-IsConfined host _ cmd d ok refl h)
              | inr denied ↦ rw denied (refuse_on_error-IsConfined cmd.client_id (some _) d h)
            ]

    farewells-ArePermitted : (l : Addresses Addr) → HavePermitted l → ArePermitted (farewells fb l)
    unfolding farewells
    farewells-ArePermitted [] h = tt
    farewells-ArePermitted ((id, a) ∷ rest) h = (h.0, farewells-ArePermitted rest h.1)

    step-IsConfined :
        (e : UdpEvent) (d : UdpDestination Addr)
        → IsConfined d
        → IsConfined (step fb net params e d)
    unfolding step open_client on_connect_client on_client_message on_proxy_request_close dispatch
        on_datagram shut_down
    step-IsConfined (open_request cmd) d h = connect_host-IsConfined _ cmd d h
    step-IsConfined (close_request id) d h =
        close_to-IsConfined _ id d (address_of-IsPermittedIfAny id _ h.registered) h
    step-IsConfined (message_request msg) d h =
        message_to-IsConfined _ msg d (address_of-IsPermittedIfAny msg.client_id _ h.registered) h
    step-IsConfined (datagram now raw_msg) d h =
        let (m, app_data) = read_datagram fb (take buffer_size raw_msg) in
        either-IsConfined d.is_closed d _ h (receive-IsConfined now m app_data d h)
    step-IsConfined message_turn d h = send_first-IsConfined d.outgoing_messages d h.queued h
    step-IsConfined done d h = record {
      registered = tt;
      queued = h.queued;
      sent =
          All-append _ d.written (farewells fb d.destination_connections) h.sent
            (farewells-ArePermitted d.destination_connections h.registered);
    }

    run-IsConfined :
        (es : List UdpEvent) (d : UdpDestination Addr)
        → IsConfined d
        → IsConfined (run fb net params es d)
    unfolding run
    run-IsConfined [] d h = h
    run-IsConfined (e ∷ es) d h = run-IsConfined es (step fb net params e d) (step-IsConfined e d h)

    -- Whatever the proxy asks for and whatever datagrams come in: the destinations that a new
    -- handler registers, queues messages for and writes to are all addresses of hosts that are not on
    -- the list of the denied, and are on the list of the allowed unless all are allowed.
    pub run-create_udp_destination_handler-IsConfined :
        (es : List UdpEvent) → IsConfined (run fb net params es create_udp_destination_handler)
    run-create_udp_destination_handler-IsConfined es =
        run-IsConfined es create_udp_destination_handler
          (record { registered = tt; queued = tt; sent = tt })
