-- ===== src/Examples/Pages.antt =====
-- The page, as it gets messages and loses connections.
use mathlib.Core.List.{Memᴰ}
use spanreed_netcode_proxy.Prelude.{◌≡◌, refl, true, none, some, List, [], ◌∷◌}
use spanreed_netcode_proxy.Canvas.Frames.{contains}
use spanreed_netcode_proxy.Canvas.Instances.{Instance}
use spanreed_netcode_proxy.Wire.Flatbuffers.{Table}
use spanreed_netcode_proxy.Wire.ServerMessage.{get_root_as_server_message, message_type, message}
use spanreed_netcode_proxy.Page.{Page, Connection, websocket}
use spanreed_netcode_proxy.Page.Messages.{process_message}
use spanreed_netcode_proxy.Page.Messages.Dots.{IsVector, process_message-game_state}
use spanreed_netcode_proxy.Page.Effects.{
  Event, opened, canvas_clicked, chat_submitted, ws_closed, handle, run,
}
use spanreed_netcode_proxy.Page.Effects.Keeping.{IsKept, run-opened}
use spanreed_netcode_proxy.Page.Effects.Closing.{stale_close_drops}
use spanreed_netcode_proxy.Connection.Payload.Decoding.{chat}
use spanreed_netcode_proxy.Page.Effects.Telling.{told, handle-told}
use spanreed_netcode_proxy.Examples.Memory.Runtime.{memory}
use spanreed_netcode_proxy.Examples.Memory.Lawful.{lawful}
use spanreed_netcode_proxy.Examples.Samples.{whole, reader, game_state, chat_message}

abbrev first : Connection
first = record { id = 1; type = websocket; user_name = "u" }

abbrev second : Connection
second = record { id = 2; type = websocket; user_name = "u" }

abbrev page : Page whole
page = record {
  connection = some second;
  dots = some [];
  output = [];
  closed = 1 ∷ [];
  sent = [];
  reading = [];
  aborted = [];
}

-- The table of the game state in the sample.
abbrev state_table : Table reader
state_table = record { bb = game_state; bb_pos = 32 }

process_message-game_state_example :
    (l : List (Instance whole)) × (process_message whole reader game_state page
      ≡ some (record page { dots = some l }))
    × IsVector whole reader state_table l
unfolding message_type message get_root_as_server_message
process_message-game_state_example =
    process_message-game_state whole reader game_state page state_table refl refl

stale_close_drops_example :
    let page' = handle whole reader (ws_closed first.id) page in
    (page'.connection ≡ none) × (contains second.id page'.closed ≡ true) × (page'.dots ≡ none)
stale_close_drops_example = stale_close_drops whole reader first.id page second refl

abbrev opens : List (Event whole)
opens = opened first ∷ ws_closed 1 ∷ opened second ∷ canvas_clicked 3 4 ∷ []

abbrev empty_page : Page whole
empty_page = record {
  connection = none;
  dots = none;
  output = [];
  closed = [];
  sent = [];
  reading = [];
  aborted = [];
}

run-opened_example : IsKept whole second.id (run whole reader opens empty_page)
run-opened_example =
    run-opened whole reader opens empty_page second (Memᴰ.tail (Memᴰ.tail (Memᴰ.head refl)))

abbrev chat_table : Table reader
chat_table = record { bb = chat_message; bb_pos = 32 }

handle-told_example :
    told whole memory lawful 0 (handle whole memory (chat_submitted "hi") page).sent
    ≡ (2, some (chat (some "hi"))) ∷ []
handle-told_example = handle-told whole memory lawful 0 (chat_submitted "hi") page
