-- ===== src/Page/Effects.antt =====
-- What the page does when its connections, its user and its timer report something
-- (examples/hello-spanreed/client/src/DemoPage.tsx).
use Prim.Native.String
use spanreed_netcode_proxy.Prelude.{
  ℕ, Bool, true, false, Option, none, some, String, List, [], ◌∷◌, ◌++◌, ◌==◌, if◌then◌else◌,
}
use spanreed_netcode_proxy.Log.{LogLevel}
use spanreed_netcode_proxy.Canvas.Numbers.{Numbers}
use spanreed_netcode_proxy.Canvas.Instances.{Instance}
use spanreed_netcode_proxy.Canvas.Frames.{remove, contains}
use spanreed_netcode_proxy.Wire.Flatbuffers.{Flatbuffers, Bytes}
use spanreed_netcode_proxy.Connection.Payload.{click_payload, chat_payload, ping_payload}
use spanreed_netcode_proxy.Page.{Page, Connection, say, log, set_connection, send}
use spanreed_netcode_proxy.Page.Messages.{MessageData, process_message, on_message}
pub mod Receiving
pub mod Closing
pub mod Telling
pub mod Keeping

-- The result of `reader.read()`: the end, or a value of bytes.
pub data Read : Type 0 where
  done : Read
  value : Bytes → Read

-- The `id` of an event is the connection whose handler or promise it is.
pub data Event (js : Numbers) : Type 0 where
  opened : Connection → Event js
  close_clicked : Event js
  canvas_clicked : (x y : js.Number) → Event js
  chat_submitted : String → Event js
  pinged : Event js
  ws_closed : (id : ℕ) → Event js
  ws_message : (id : ℕ) → MessageData → Event js
  wt_closed : (id : ℕ) → Option String → Event js
  wt_read : (id : ℕ) → Read → Event js
  wt_abort_failed : (id : ℕ) → String → Event js

module _ (js : Numbers) (fb : Flatbuffers js.Number) where
  on_ws_closed : Page js → Page js
  on_ws_closed page =
      set_connection js none
        (say js (log "Spanreed connection is closing!" (some LogLevel.info)) page)

  closing_line : Option String → Page js → Page js
  closing_line none page =
      say js (log "Spanreed connection is closing naturally" (some LogLevel.info)) page
  closing_line (some e) page =
      say js (log (String.◌++◌ "Spanreed connection closed with error: " e) (some LogLevel.error))
        page

  on_wt_closed : Option String → Page js → Page js
  unfolding closing_line
  on_wt_closed e page = set_connection js none (closing_line e page)

  stop_reading : ℕ → Page js → Page js
  stop_reading id page = record page { reading = remove id page.reading }

  -- One round of the read loop; an exception ends the loop.
  pub on_read : ℕ → Read → Page js → Page js
  unfolding stop_reading
  on_read id done page = record (stop_reading id page) { aborted = id ∷ page.aborted }
  on_read id (value bytes) page = elim (process_message js fb bytes page) [
    | none ↦ stop_reading id page
    | some page' ↦ page'
  ]

  unfoldable pub handle : Event js → Page js → Page js
  unfolding on_ws_closed on_wt_closed on_read
  handle (opened c) page = set_connection js (some c) page
  handle close_clicked page = set_connection js none page
  handle (canvas_clicked x y) page = send js (click_payload fb x y) page
  handle (chat_submitted chat) page = send js (chat_payload fb chat) page
  handle pinged page = send js (ping_payload fb) page
  handle (ws_closed id) page = on_ws_closed page
  handle (ws_message id m) page = on_message js fb m page
  handle (wt_closed id e) page = on_wt_closed e page
  handle (wt_read id r) page = if contains id page.reading then on_read id r page else page
  handle (wt_abort_failed id e) page =
      if contains id page.aborted
      then say js (log (String.◌++◌ "Writable stream abort error: " e) (some LogLevel.error)) page
      else page

  unfoldable pub run : List (Event js) → Page js → Page js
  run [] page = page
  run (e ∷ es) page = run es (handle e page)
