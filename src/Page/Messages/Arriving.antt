-- ===== src/Page/Messages/Arriving.antt =====
-- A chat message of the server, built by the generated classes, when it arrives at the page of
-- examples/hello-spanreed/client/src/DemoPage.tsx.
use spanreed_netcode_proxy.Prelude.{ℕ, ◌≡◌, refl, String, List, [], ◌∷◌, ◌++◌, Option, some, arith}
use spanreed_netcode_proxy.Log.{LogLevel, console_log, page_line}
use spanreed_netcode_proxy.Canvas.Numbers.{Numbers}
use spanreed_netcode_proxy.Wire.Flatbuffers.{Flatbuffers, Bytes, get_root, ◌>>=◌}
use spanreed_netcode_proxy.Wire.Flatbuffers.Objects.{Object, table, Fields, Content, int8, offset}
use spanreed_netcode_proxy.Wire.Flatbuffers.Laws.{Laws}
use spanreed_netcode_proxy.Wire.Flatbuffers.Reading.{StandsOn, int8_field, union_field_table}
use spanreed_netcode_proxy.Wire.Flatbuffers.Writing.{Makes, starts, ends, adds_offset}
use spanreed_netcode_proxy.Wire.Flatbuffers.Optional.{
  rows, lookup-rows, offset_of, text_of, Placed, Placed-kept, adds_kind, adds_optional,
  string_field_of,
}
use spanreed_netcode_proxy.Wire.Flatbuffers.Placing.{place, place-text}
use spanreed_netcode_proxy.Wire.ServerMessage.{
  create_server_message, finish_server_message_buffer, get_root_as_server_message, message_type,
  message, server_chat_message,
}
use spanreed_netcode_proxy.Wire.ServerChatMessage.{create_server_chat_message, user, text}
use spanreed_netcode_proxy.Page.{Page}
use spanreed_netcode_proxy.Page.Messages.{chat_line, process_message}
use spanreed_netcode_proxy.Page.Messages.Lines.{process_message-chat}

module _ {N : Type 0} (fb : Flatbuffers N) where
  open fb use {Builder, new_builder}

  -- What the server does to tell its clients who said what.
  unfoldable pub chat_message : (user text : Option String) → Bytes
  chat_message user_ text_ =
      fb.as_uint8_array
        ((do
          p_user ← place fb.create_string user_
          p_text ← place fb.create_string text_
          p_chat ← create_server_chat_message fb p_user p_text
          p_message ← create_server_message fb server_chat_message p_chat
          finish_server_message_buffer fb p_message)
          (new_builder 64)).1

  abbrev chat_rows : Option (Object N) → Option (Object N) → List (Option (Content N))
  chat_rows x y = offset_of x ∷ offset_of y ∷ []

  abbrev message_rows : ℕ → Fields N → List (Option (Content N))
  message_rows type fs = some (int8 type) ∷ some (offset (table fs)) ∷ []

  module _ (laws : Laws fb) where
    open laws use {Idle, Has}

    create_server_chat_message-Makes :
        (b : Builder) (p q : ℕ) (x y : Option (Object N))
        → Idle b
        → Placed fb laws b p x
        → Placed fb laws b q y
        → Makes fb laws b (create_server_chat_message fb p q b) (table (rows (chat_rows x y)))
    unfolding create_server_chat_message
    create_server_chat_message-Makes b p q x y i hp hq = ends fb laws (
        adds_optional fb laws 1 q y (omega arith) hq
          (adds_optional fb laws 0 p x (omega arith) hp (starts fb laws 2 i)))

    create_server_message-Makes :
        (b : Builder) (p : ℕ) (fs : Fields N)
        → Idle b
        → Has b p (table fs)
        → Makes fb laws b
            (create_server_message fb server_chat_message p b)
            (table (rows (message_rows server_chat_message fs)))
    unfolding create_server_message
    create_server_message-Makes b p fs i h = ends fb laws (
        adds_offset fb laws 1 p (table fs) (omega arith) h (
          adds_kind fb laws 0 server_chat_message (omega arith) (omega arith) refl
            (starts fb laws 2 i)))

    chat_message-StandsOn :
        (user_ text_ : Option String)
        → StandsOn fb laws
            (get_root_as_server_message fb (fb.new_byte_buffer (chat_message user_ text_)))
            (rows
              (message_rows server_chat_message (rows (chat_rows (text_of user_) (text_of text_)))))
    unfolding chat_message get_root_as_server_message finish_server_message_buffer get_root
    chat_message-StandsOn user_ text_ =
        let m = place-text fb laws user_ (new_builder 64) (laws.new_builder-Idle 64) in
        let (p, b) = place fb.create_string user_ (new_builder 64) in
        let k = place-text fb laws text_ b m.idle in
        let (q, c) = place fb.create_string text_ b in
        let x = text_of user_ in
        let r =
          create_server_chat_message-Makes c p q x (text_of text_) k.idle
            (Placed-kept fb laws p x k.kept m.placed) k.placed in
        let (o, d) = create_server_chat_message fb p q c in
        let s =
          create_server_message-Makes d o (rows (chat_rows x (text_of text_))) r.idle r.made in
        laws.finish-At _ _ _ s.idle s.made

module _ (js : Numbers) (fb : Flatbuffers js.Number) (laws : Laws fb) where
  -- Over a runtime that keeps its documented laws: a chat message that the server builds is printed
  -- and shown once by the page that it arrives at, with the user and the text that the server gave,
  -- and changes nothing else.
  pub process_message-chat_message :
      (user_ text_ : Option String) (page : Page js)
      → let line = chat_line user_ text_ in
        process_message js fb (chat_message fb user_ text_) page
        ≡ some (record page {
          output = page.output ++ console_log line ∷ page_line line LogLevel.user_chat ∷ [];
        })
  unfolding message_type message user text
  process_message-chat_message user_ text_ page =
      let bytes = chat_message fb user_ text_ in
      let t = get_root_as_server_message fb (fb.new_byte_buffer bytes) in
      let ds = chat_rows fb (text_of user_) (text_of text_) in
      let cs = message_rows fb server_chat_message (rows ds) in
      let here = chat_message-StandsOn fb laws user_ text_ in
      let (u, e, inner) =
        union_field_table fb laws 1 t (rows cs) here (rows ds)
          (lookup-rows cs 1 (some (offset (table (rows ds)))) refl) in
      let is_chat =
        int8_field fb laws 0 t (rows cs) here 0 server_chat_message
          (lookup-rows cs 0 (some (int8 server_chat_message)) refl) in
      let by = string_field_of fb laws 0 u (rows ds) inner user_ (lookup-rows ds 0 _ refl) in
      let said = string_field_of fb laws 1 u (rows ds) inner text_ (lookup-rows ds 1 _ refl) in
      rw (by, said) at (process_message-chat js fb bytes page u is_chat e)
