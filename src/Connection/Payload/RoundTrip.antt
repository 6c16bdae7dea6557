-- ===== src/Connection/Payload/RoundTrip.antt =====
-- The messages that the client builds, and what they read as: the payloads of
-- examples/hello-spanreed/client/src/Connection.ts and DemoPage.tsx.
use spanreed_netcode_proxy.Prelude.{
  ℕ, ◌+◌, ◌*◌, Bool-cases, inl, inr, ◌<◌, ◌≡◌, refl, ap, ◌∙◌, String, none, some, if◌then◌else◌,
  arith,
}
use spanreed_netcode_proxy.Wire.Flatbuffers.{Flatbuffers, Bytes, Build, Table, get_root, field_or}
use spanreed_netcode_proxy.Wire.Flatbuffers.Objects.{
  float32, text, table, Fields, nil, int8, AllBytes, lookup,
}
use spanreed_netcode_proxy.Wire.Flatbuffers.Laws.{Laws}
use spanreed_netcode_proxy.Wire.Flatbuffers.Reading.{
  StandsOn, field_or_absent, float32_field, int8_field, string_field_there, union_field_table,
  bytes_field_bytes,
}
use spanreed_netcode_proxy.Wire.Flatbuffers.Writing.{
  Makes, create_string-Makes, create_byte_vector-Makes, after,
}
use spanreed_netcode_proxy.Wire.Building.{
  connect_request, envelope, one_text, click_fields, create_user_connect_message-Makes,
  create_user_chat_message-Makes, create_user_ping_message-Makes, create_user_click_message-Makes,
  create_client_message-Makes, create_connect_client_message-Makes,
}
use spanreed_netcode_proxy.Wire.ClientMessage
use spanreed_netcode_proxy.Wire.ConnectClientMessage
use spanreed_netcode_proxy.Wire.UserMessage.{
  UserMessage, user_message_value, none_, user_connect_message, user_click_message,
  user_chat_message, user_ping_message,
}
use spanreed_netcode_proxy.Wire.UserConnectMessage
use spanreed_netcode_proxy.Wire.UserChatMessage
use spanreed_netcode_proxy.Wire.UserClickMessage
use spanreed_netcode_proxy.Connection.Payload.{
  built, client_message, connect_app_data, connect_client_payload, click_payload, chat_payload,
  ping_payload,
}
use spanreed_netcode_proxy.Connection.Payload.Decoding.{
  told_by, connect, click, chat, ping, decode, decode_request,
}

user_message_value-lt : (type : UserMessage) → user_message_value type < 128
user_message_value-lt none_ = omega arith
user_message_value-lt _ = omega arith

module _ {N : Type 0} (fb : Flatbuffers N) (laws : Laws fb) where
  open fb use {Builder, new_builder}
  open laws use {Idle, Has}

  -- The bytes are a finished buffer whose root is the table.
  abbrev pub Encodes : Bytes → Fields N → Type 0
  Encodes message fs = StandsOn fb laws (get_root fb (fb.new_byte_buffer message)) fs

  client_message-Encodes :
      (type : UserMessage) (create : Build Builder ℕ) (fs : Fields N)
      → Makes fb laws (new_builder 64) (create (new_builder 64)) (table fs)
      → Encodes (built fb (client_message fb type create)) (envelope (user_message_value type) fs)
  unfolding client_message get_root ClientMessage.finish_client_message_buffer
  client_message-Encodes type create fs h =
      let (p, b) = create (new_builder 64) in
      let m =
        create_client_message-Makes fb laws b h.idle (user_message_value type) p fs
          (user_message_value-lt type) h.made in
      laws.finish-At _ _ (envelope (user_message_value type) fs) m.idle m.made

  text_message-Encodes :
      (type : UserMessage) (s : String) (create : ℕ → Build Builder ℕ)
      → ((b : Builder) (i : Idle b) (p : ℕ)
          → Has b p (text s)
          → Makes fb laws b (create p b) (table (one_text s)))
      → Encodes
          (built fb (client_message fb type (λ b. let (p, c) = fb.create_string s b in create p c)))
          (envelope (user_message_value type) (one_text s))
  text_message-Encodes type s create makes =
      let m = create_string-Makes fb laws s (new_builder 64) (laws.new_builder-Idle 64) in
      client_message-Encodes type _ (one_text s)
        (after fb laws m (makes (fb.create_string s (new_builder 64)).1 m.idle _ m.made))

  connect_app_data-Encodes :
      (user : String) → Encodes (connect_app_data fb user) (envelope 1 (one_text user))
  unfolding connect_app_data
  connect_app_data-Encodes user =
      text_message-Encodes user_connect_message user
        (UserConnectMessage.create_user_connect_message fb)
        (λ b i p h. create_user_connect_message-Makes fb laws b i p user h)

  connect_app_data-AllBytes : (user : String) → AllBytes (connect_app_data fb user)
  unfolding connect_app_data
  connect_app_data-AllBytes user = laws.as_uint8_array-AllBytes _

  chat_payload-Encodes : (s : String) → Encodes (chat_payload fb s) (envelope 3 (one_text s))
  unfolding chat_payload
  chat_payload-Encodes s =
      text_message-Encodes user_chat_message s (UserChatMessage.create_user_chat_message fb)
        (λ b i p h. create_user_chat_message-Makes fb laws b i p s h)

  ping_payload-Encodes : Encodes (ping_payload fb) (envelope 4 nil)
  unfolding ping_payload
  ping_payload-Encodes =
      client_message-Encodes user_ping_message _ nil
        (create_user_ping_message-Makes fb laws (new_builder 64) (laws.new_builder-Idle 64))

  click_payload-Encodes :
      (x y : N) → Encodes (click_payload fb x y) (envelope 2 (click_fields fb laws x y))
  unfolding click_payload
  click_payload-Encodes x y =
      client_message-Encodes user_click_message _ (click_fields fb laws x y)
        (create_user_click_message-Makes fb laws (new_builder 64) (laws.new_builder-Idle 64) x y)

  module _ (zero_ : N) where
    -- The reader finds the table of the user's message, and the type that says what it is.
    decode-envelope :
        (message : Bytes) (type : ℕ) (fs : Fields N)
        → Encodes message (envelope type fs)
        → lookup {N = N} 0 (envelope type fs) ≡ some (int8 type)
        → (u : Table fb) × (decode fb zero_ message ≡ told_by fb zero_ type u)
          × StandsOn fb laws u fs
    unfolding decode ClientMessage.get_root_as_client_message ClientMessage.user_message_type
        ClientMessage.user_message
    decode-envelope message type fs h typed =
        let t = get_root fb (fb.new_byte_buffer message) in
        let (u, e, here) = union_field_table fb laws 1 t (envelope type fs) h fs refl in
        (u, rw (int8_field fb laws 0 t (envelope type fs) h 0 type typed, e) refl, here)

    -- A number as it arrives: a `float32`, or the default.
    abbrev pub arrived : N → N
    arrived v = if laws.is_zero v then zero_ else laws.round v

    -- A user's name arrives as it was given.
    decode-connect_app_data :
        (user : String) → decode fb zero_ (connect_app_data fb user) ≡ some (connect (some user))
    unfolding UserConnectMessage.name
    decode-connect_app_data user =
        let (u, e, here) =
          decode-envelope (connect_app_data fb user) 1 (one_text user)
            (connect_app_data-Encodes user) refl in
        e
        ∙ ap (λ n. some (connect n)) (string_field_there fb laws 0 u (one_text user) here user refl)

    -- A chat message arrives as it was typed.
    pub decode-chat_payload :
        (s : String) → decode fb zero_ (chat_payload fb s) ≡ some (chat (some s))
    unfolding UserChatMessage.text
    decode-chat_payload s =
        let (u, e, here) =
          decode-envelope (chat_payload fb s) 3 (one_text s) (chat_payload-Encodes s) refl in
        e ∙ ap (λ n. some (chat n)) (string_field_there fb laws 0 u (one_text s) here s refl)

    pub decode-ping_payload : decode fb zero_ (ping_payload fb) ≡ some ping
    decode-ping_payload = (decode-envelope (ping_payload fb) 4 nil ping_payload-Encodes refl).1

    stored_field :
        (slot : ℕ) (v : N) (u : Table fb) (fs : Fields N)
        → StandsOn fb laws u fs
        → lookup slot fs ≡ (if laws.is_zero v then none else some (float32 (laws.round v)))
        → field_or fb zero_ (4 + 2 * slot) fb.read_float32 u ≡ arrived v
    stored_field slot v u fs here e = elim (Bool-cases (laws.is_zero v)) [
      | inl z ↦ rw z (field_or_absent fb laws slot u fs here zero_ fb.read_float32 (rw z at e))
      | inr z ↦ rw z (float32_field fb laws slot u fs here zero_ (laws.round v) (rw z at e))
    ]

    -- A click arrives at its point, each coordinate as a `float32`.
    pub decode-click_payload :
        (x y : N) → decode fb zero_ (click_payload fb x y) ≡ some (click (arrived x) (arrived y))
    unfolding UserClickMessage.x UserClickMessage.y
    decode-click_payload x y =
        let fs = click_fields fb laws x y in
        let (u, e, here) =
          decode-envelope (click_payload fb x y) 2 fs (click_payload-Encodes x y) refl in
        e
        ∙ rw (stored_field 0 x u fs here (ground arith), stored_field 1 y u fs here (ground arith))
            refl

    connect_client_payload-Encodes :
        (backend user : String)
        → Encodes
            (connect_client_payload fb backend user)
            (connect_request backend (connect_app_data fb user))
    unfolding connect_client_payload ConnectClientMessage.finish_connect_client_message_buffer
        get_root
    connect_client_payload-Encodes backend user =
        let app_data = connect_app_data fb user in
        let m = create_string-Makes fb laws backend (new_builder 64) (laws.new_builder-Idle 64) in
        let b = (fb.create_string backend (new_builder 64)).1 in
        let k =
          create_byte_vector-Makes fb laws app_data b m.idle (connect_app_data-AllBytes user) in
        let c = fb.create_byte_vector app_data b in
        let r =
          create_connect_client_message-Makes fb laws c.1 k.idle _ _ backend app_data
            (k.kept _ (text backend) m.made) k.made in
        laws.finish-At _ _ (connect_request backend app_data) r.idle r.made

    -- The connection request names the backend address, and carries a message for that backend,
    -- which tells it the user's name.
    pub decode_request-connect_client_payload :
        (backend user : String)
        → (app_data : Bytes) × (decode_request fb (connect_client_payload fb backend user)
            ≡ (some backend, some app_data))
          × (decode fb zero_ app_data ≡ some (connect (some user)))
          × AllBytes app_data
    unfolding decode_request ConnectClientMessage.get_root_as_connect_client_message
        ConnectClientMessage.connection_string ConnectClientMessage.app_data_array
    decode_request-connect_client_payload backend user =
        let app_data = connect_app_data fb user in
        let fs = connect_request backend app_data in
        let t = get_root fb (fb.new_byte_buffer (connect_client_payload fb backend user)) in
        let h = connect_client_payload-Encodes backend user in
        (
          app_data,
          rw
              (
                string_field_there fb laws 0 t fs h backend refl,
                bytes_field_bytes fb laws 1 t fs h app_data refl,
              )
              refl,
          decode-connect_app_data user,
          connect_app_data-AllBytes user,
        )
