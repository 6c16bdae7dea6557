-- ===== src/Proxy/Router/Channels/Addressing.antt =====
-- Whom pkg/transport/client_connection_router.go hands what the proxy sends.
use spanreed_netcode_proxy.Prelude.{
  ℕ, ◌≡◌, refl, ap, ◌∙◌, sym, Bool, true, false, Option, none, some, List, [], ◌∷◌, ◌++◌, ◌==◌,
  is_some, Bool-cases, inl, inr, arith, if◌then◌else◌, append_assoc, append-nil,
}
use spanreed_netcode_proxy.Proxy.Store.{StoreError}
use spanreed_netcode_proxy.Proxy.State.{Message}
use spanreed_netcode_proxy.Proxy.Router.Channels.{
  ClientChannels, ConnectionMap, channels_of, change_channels, open_connection, mark_connected,
  remove, handle_proxy_close_request, handle_outgoing_message_request, handle_incoming_verdict,
  MapEvent, opens, leaves, connects, proxy_close, message_request, incoming_verdict, step, run,
}

-- What an event has for the client to be sent.
abbrev pub addressed : ℕ → MapEvent → List Message
addressed id (message_request msg) = if msg.client_id == id then msg ∷ [] else []
addressed id _ = []

-- The messages among the events that are for the client, in their order.
abbrev pub messages_for : ℕ → List MapEvent → List Message
messages_for id [] = []
messages_for id (e ∷ es) = addressed id e ++ messages_for id es

-- The client does not leave.
abbrev pub Stays : ℕ → List MapEvent → Type 0
Stays id [] = Unit {0}
Stays id (leaves k ∷ es) = ((k == id) ≡ false) × Stays id es
Stays id (_ ∷ es) = Stays id es

-- The client is there, and has been sent the messages.
abbrev pub WasSent : ℕ → List Message → ConnectionMap → Type 0
WasSent id ms t = (c : ClientChannels) × (channels_of id t ≡ some c) × (c.outgoing_messages ≡ ms)

module _ (id : ℕ) where
  channels_of-change_channels :
      (k : ℕ) (f : ClientChannels → ClientChannels) (t : ConnectionMap) (c : ClientChannels)
      → channels_of id t ≡ some c
      → channels_of id (change_channels k f t) ≡ some (if k == id then f c else c)
  channels_of-change_channels k f [] c h = cc
  channels_of-change_channels k f ((j, b) ∷ rest) c h =
      ground (arith, channels_of-change_channels k f rest c, h)

  channels_of-remove :
      (k : ℕ) (t : ConnectionMap)
      → (k == id) ≡ false
      → channels_of id (remove k t) ≡ channels_of id t
  unfolding remove
  channels_of-remove k [] h = refl
  channels_of-remove k ((j, b) ∷ rest) h = ground (arith, channels_of-remove k rest h)

  -- A change that leaves the messages alone.
  change_channels-WasSent :
      (k : ℕ) (f : ClientChannels → ClientChannels) (ms : List Message) (t : ConnectionMap)
      → ((c : ClientChannels) → (f c).outgoing_messages ≡ c.outgoing_messages)
      → WasSent id ms t
      → WasSent id ms (change_channels k f t)
  change_channels-WasSent k f ms t same (c, here, sent) =
      (if k == id then f c else c, channels_of-change_channels k f t c here, kept (k == id) ∙ sent)
    where
      kept :
          (b : Bool) → ClientChannels.outgoing_messages (if b then f c else c) ≡ c.outgoing_messages
      kept true = same c
      kept false = refl

  open_connection-WasSent :
      (e : Option StoreError) (k : ℕ) (ms : List Message) (t : ConnectionMap)
      → WasSent id ms t
      → WasSent id ms (open_connection (e, k) t).1
  unfolding open_connection
  open_connection-WasSent (some e) k ms t h = h
  open_connection-WasSent none k ms t (c, here, sent) =
      elim (Bool-cases (is_some (channels_of k t))) [
        | inl there ↦ rw there (c, here, sent)
        | inr new ↦ rw new (c, ground (arith, here, new), sent)
      ]

  request-WasSent :
      (msg : Message) (ms : List Message) (t : ConnectionMap)
      → WasSent id ms t
      → WasSent id
          (ms ++ addressed id (message_request msg))
          (handle_outgoing_message_request msg t)
  unfolding handle_outgoing_message_request
  request-WasSent msg ms t (c, here, sent) =
      let f : ClientChannels → ClientChannels =
        λ b. record b { outgoing_messages = b.outgoing_messages ++ msg ∷ [] } in
      (
        if msg.client_id == id then f c else c,
        channels_of-change_channels msg.client_id f t c here,
        grown (msg.client_id == id),
      )
    where
      grown :
          (b : Bool)
          → ClientChannels.outgoing_messages
              (if b then record c { outgoing_messages = c.outgoing_messages ++ msg ∷ [] } else c)
            ≡ ms ++ (if b then msg ∷ [] else [])
      grown true = ap (λ l. l ++ msg ∷ []) sent
      grown false = sent ∙ sym (append-nil ms)

  step-WasSent :
      (e : MapEvent) (es : List MapEvent) (ms : List Message) (t : ConnectionMap)
      → Stays id (e ∷ es)
      → WasSent id ms t
      → WasSent id (ms ++ addressed id e) (step e t) × Stays id es
  unfolding step mark_connected handle_proxy_close_request handle_incoming_verdict
  step-WasSent (opens (e, k)) es ms t stays h =
      (rw (append-nil ms) (open_connection-WasSent e k ms t h), stays)
  step-WasSent (leaves k) es ms t (other, stays) (c, here, sent) =
      (rw (append-nil ms) (c, channels_of-remove k t other ∙ here, sent), stays)
  step-WasSent (connects k) es ms t stays h =
      (rw (append-nil ms) (change_channels-WasSent k _ ms t (λ c. refl) h), stays)
  step-WasSent (proxy_close k reason) es ms t stays h =
      (rw (append-nil ms) (change_channels-WasSent k _ ms t (λ c. refl) h), stays)
  step-WasSent (message_request msg) es ms t stays h = (request-WasSent msg ms t h, stays)
  step-WasSent (incoming_verdict v) es ms t stays h =
      (rw (append-nil ms) (change_channels-WasSent v.client_id _ ms t (λ c. refl) h), stays)

  -- A client that has its channels, and does not leave during a run of the router: whatever other
  -- clients do, it has been sent what it had been before and then exactly the messages that the
  -- proxy addressed to it, in their order.
  pub run-WasSent :
      (es : List MapEvent) (ms : List Message) (t : ConnectionMap)
      → Stays id es
      → WasSent id ms t
      → WasSent id (ms ++ messages_for id es) (run es t)
  unfolding run
  run-WasSent [] ms t stays h = rw (append-nil ms) h
  run-WasSent (e ∷ es) ms t stays h =
      let (k, rest) = step-WasSent e es ms t stays h in
      rw (append_assoc ms (addressed id e) (messages_for id es)) at
        (run-WasSent es (ms ++ addressed id e) (step e t) rest k)
