-- ===== src/Page/Messages/Lines.antt =====
-- What the page of examples/hello-spanreed/client/src/DemoPage.tsx tells its user, and when a server
-- message makes it throw.
use spanreed_netcode_proxy.Prelude.{
  ◌≡◌, refl, ◌⊎◌, ◌↔◌, Option, none, some, String, List, [], ◌∷◌, ◌++◌, get_or_else, arith,
}
use spanreed_netcode_proxy.Log.{
  LogLevel, Output, console_log, console_warn, console_error, page_line, default_log_cb,
}
use spanreed_netcode_proxy.Canvas.Numbers.{Numbers}
use spanreed_netcode_proxy.Wire.Flatbuffers.{Flatbuffers, Bytes, Table}
use spanreed_netcode_proxy.Wire.ServerMessage.{
  get_root_as_server_message, message_type, message, server_chat_message, server_game_state_message,
}
use spanreed_netcode_proxy.Wire.ServerChatMessage
use spanreed_netcode_proxy.Page.{Page, log_fn}
use spanreed_netcode_proxy.Page.Messages.{process_message, chat_line}

-- The lines that the page's own console gets.
abbrev pub page_lines : List Output → List (String × LogLevel)
page_lines [] = []
page_lines (page_line s level ∷ os) = (s, level) ∷ page_lines os
page_lines (_ ∷ os) = page_lines os

-- The lines that the browser's console gets.
abbrev pub console_lines : List Output → List String
console_lines [] = []
console_lines (console_log s ∷ os) = s ∷ console_lines os
console_lines (console_warn s ∷ os) = s ∷ console_lines os
console_lines (console_error s ∷ os) = s ∷ console_lines os
console_lines (page_line s level ∷ os) = console_lines os

-- How often the browser's console gets a message of a level.
abbrev pub repeated : LogLevel → String → List String
repeated LogLevel.user_chat msg = msg ∷ []
repeated _ msg = msg ∷ msg ∷ []

-- Each message is one line of the page, at its level, which is info by default. In the browser's
-- console it stands twice, but for a chat message, which stands there once.
pub log_fn-lines :
    (msg : String) (level : Option LogLevel)
    → let l = get_or_else level LogLevel.info in
      (page_lines (log_fn msg level) ≡ (msg, l) ∷ [])
      × (console_lines (log_fn msg level) ≡ repeated l msg)
unfolding log_fn default_log_cb
log_fn-lines msg none = (refl, refl)
log_fn-lines msg (some LogLevel.debug) = (refl, refl)
log_fn-lines msg (some LogLevel.info) = (refl, refl)
log_fn-lines msg (some LogLevel.warning) = (refl, refl)
log_fn-lines msg (some LogLevel.error) = (refl, refl)
log_fn-lines msg (some LogLevel.user_chat) = (refl, refl)

module _ (js : Numbers) (fb : Flatbuffers js.Number) where
  module _ (bytes : Bytes) (page : Page js) where
    abbrev root : Table fb
    root = get_root_as_server_message fb (fb.new_byte_buffer bytes)

    -- A chat message that has a table is printed and shown once, with its user and its text, and
    -- changes nothing else.
    pub process_message-chat :
        (t : Table fb)
        → message_type fb root ≡ server_chat_message
        → message fb root ≡ some t
        → let line = chat_line (ServerChatMessage.user fb t) (ServerChatMessage.text fb t) in
          process_message js fb bytes page
          ≡ some (record page {
            output = page.output ++ console_log line ∷ page_line line LogLevel.user_chat ∷ [];
          })
    unfolding process_message log_fn default_log_cb
    process_message-chat t is_chat has_table = rw (is_chat, has_table) refl

    -- A server message makes the handler throw exactly if it says that it is a chat message or a
    -- game state, and has no table. A message of any other type never does.
    pub process_message-throws : (process_message js fb bytes page ≡ none) ↔ (
        ((message_type fb root ≡ server_chat_message)
          ⊎ (message_type fb root ≡ server_game_state_message))
        × (message fb root ≡ none))
    unfolding process_message
    process_message-throws = ground arith
