-- ===== src/Page/Messages.antt =====
-- How the page of examples/hello-spanreed/client/src/DemoPage.tsx reads a server message. The code
-- is there twice, word for word: in the handler of a WebSocket and in the read loop of a
-- WebTransport connection. `process_message` is that code.
use Prim.Native.String
use spanreed_netcode_proxy.Prelude.{
  ℕ, zero, suc, ◌+◌, Bool, true, false, Option, none, some, String, List, [], ◌∷◌, ◌++◌, ◌==◌,
  if◌then◌else◌,
}
use spanreed_netcode_proxy.Log.{LogLevel}
use spanreed_netcode_proxy.Canvas.Numbers.{Numbers}
use spanreed_netcode_proxy.Canvas.Instances.{Instance, Color8}
use spanreed_netcode_proxy.Canvas.Colors
use spanreed_netcode_proxy.Wire.Flatbuffers.{Flatbuffers, Bytes, Table}
use spanreed_netcode_proxy.Wire.UserMessage.{Color, color_value}
use spanreed_netcode_proxy.Wire.ServerMessage.{
  get_root_as_server_message, message_type, message, server_chat_message, server_game_state_message,
}
use spanreed_netcode_proxy.Wire.ServerChatMessage
use spanreed_netcode_proxy.Wire.ServerGameStateMessage.{dots, dots_length}
use spanreed_netcode_proxy.Wire.Dot
use spanreed_netcode_proxy.Page.{Page, say, log_fn, log}
pub mod Arriving
pub mod Dots
pub mod Lines
pub mod Palette

unfoldable pub map_color : ℕ → Color8
map_color color =
    if color == color_value Color.blue
    then Colors.blue
    else if color == color_value Color.fire_orange
    then Colors.fire_orange
    else if color == color_value Color.green
    then Colors.green
    else if color == color_value Color.indigo
    then Colors.indigo
    else Colors.red

-- A text in a template: `null` prints as such.
abbrev printed : Option String → String
printed none = "null"
printed (some s) = s

abbrev concat : String → String → String
concat s t = String.◌++◌ s t

-- `[${gameMessage.user()}]: ${gameMessage.text()}`
unfoldable pub chat_line : Option String → Option String → String
chat_line user text = concat (concat (concat (concat "[" (printed user)) "]: ") (printed text)) ""

-- What a socket's message holds.
pub data MessageData : Type 0 where
  array_buffer : Bytes → MessageData
  other : MessageData

module _ (js : Numbers) (fb : Flatbuffers js.Number) where
  unfoldable pub read_dot : Table fb → Instance js
  unfolding map_color Dot.x Dot.y Dot.radius Dot.color
  read_dot dot = record {
    color = map_color (Dot.color fb dot);
    radius = Dot.radius fb dot;
    x = Dot.x fb dot;
    y = Dot.y fb dot;
  }

  abbrev push : List (Instance js) → Option (Table fb) → List (Instance js)
  push game_dots none = game_dots
  push game_dots (some dot) = game_dots ++ read_dot dot ∷ []

  -- The loop over the dots, with the rounds that are left.
  pub collect_dots : Table fb → (left dot_idx : ℕ) → List (Instance js) → List (Instance js)
  unfolding read_dot
  collect_dots game_state zero dot_idx game_dots = game_dots
  collect_dots game_state (suc left) dot_idx game_dots =
      collect_dots game_state left (dot_idx + 1) (push game_dots (dots fb game_state dot_idx))

  -- The two cases of the `switch`. A message that says it has a table and has none makes the page
  -- throw a TypeError, which is `none`.
  show_chat : Option (Table fb) → Page js → Option (Page js)
  unfolding chat_line
  show_chat none page = none
  show_chat (some game_message) page = some (
      say js
        (log_fn
          (chat_line (ServerChatMessage.user fb game_message)
            (ServerChatMessage.text fb game_message))
          (some LogLevel.user_chat))
        page)

  show_state : Option (Table fb) → Page js → Option (Page js)
  show_state none page = none
  show_state (some game_state) page =
      some (record page { dots = some (collect_dots game_state (dots_length fb game_state) 0 []) })

  unfoldable pub process_message : Bytes → Page js → Option (Page js)
  unfolding show_chat show_state
  process_message bytes page =
      let server_message = get_root_as_server_message fb (fb.new_byte_buffer bytes) in
      let type = message_type fb server_message in
      if type == server_chat_message
      then show_chat (message fb server_message) page
      else if type == server_game_state_message
      then show_state (message fb server_message) page
      else some (
          say js (log "Unexpected server message type, cannot process" (some LogLevel.warning))
            page)

  abbrev pub or_unchanged : Page js → Option (Page js) → Page js
  or_unchanged page none = page
  or_unchanged page (some page') = page'

  -- `onmessage` of a WebSocket; an exception ends the handler and changes nothing.
  unfoldable pub on_message : MessageData → Page js → Page js
  on_message other page =
      say js (log "Non-ArrayBuffer for websocket message!" (some LogLevel.warning)) page
  on_message (array_buffer bytes) page = or_unchanged page (process_message bytes page)
