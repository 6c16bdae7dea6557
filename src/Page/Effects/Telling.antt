-- ===== src/Page/Effects/Telling.antt =====
-- What the connection is told by the page of examples/hello-spanreed/client/src/DemoPage.tsx.
use spanreed_netcode_proxy.Prelude.{ℕ, ◌≡◌, refl, ap, ◌∙◌, Option, none, some, List, ◌∷◌, map}
use spanreed_netcode_proxy.Canvas.Numbers.{Numbers}
use spanreed_netcode_proxy.Wire.Flatbuffers.{Flatbuffers, Bytes}
use spanreed_netcode_proxy.Wire.Flatbuffers.Laws.{Laws}
use spanreed_netcode_proxy.Connection.Payload.Decoding.{Told, click, chat, ping, decode}
use spanreed_netcode_proxy.Connection.Payload.RoundTrip.{
  arrived, decode-click_payload, decode-chat_payload, decode-ping_payload,
}
use spanreed_netcode_proxy.Page.{Page, Connection}
use spanreed_netcode_proxy.Page.Effects.{Event, canvas_clicked, chat_submitted, pinged, handle}
use spanreed_netcode_proxy.Page.Effects.Closing.{payload_of, sent_to, handle-sent}

module _ (js : Numbers) (fb : Flatbuffers js.Number) (laws : Laws fb) (zero_ : js.Number) where
  -- What the user does, as the server is to be told.
  abbrev pub meant : Event js → Option (Told js.Number)
  meant (canvas_clicked x y) = some (click (arrived fb laws zero_ x) (arrived fb laws zero_ y))
  meant (chat_submitted text) = some (chat (some text))
  meant pinged = some ping
  meant _ = none

  -- What the messages that were sent read as, each with its connection.
  abbrev pub told : List (ℕ × Bytes) → List (ℕ × Option (Told js.Number))
  told = map (λ (c, m). (c, decode fb zero_ m))

  abbrev pub told_to :
      Option Connection
      → Option (Told js.Number)
      → List (ℕ × Option (Told js.Number))
      → List (ℕ × Option (Told js.Number))
  told_to (some c) (some t) rest = (c.id, some t) ∷ rest
  told_to _ _ rest = rest

  told-sent_to :
      (e : Event js) (c : Option Connection) (sent : List (ℕ × Bytes))
      → told (sent_to js fb c (payload_of js fb e) sent) ≡ told_to c (meant e) (told sent)
  told-sent_to e none sent = refl
  told-sent_to (canvas_clicked x y) (some c) sent =
      ap (λ t. (c.id, t) ∷ told sent) (decode-click_payload fb laws zero_ x y)
  told-sent_to (chat_submitted text) (some c) sent =
      ap (λ t. (c.id, t) ∷ told sent) (decode-chat_payload fb laws zero_ text)
  told-sent_to pinged (some c) sent =
      ap (λ t. (c.id, t) ∷ told sent) (decode-ping_payload fb laws zero_)
  told-sent_to _ (some c) sent = refl

  -- Over a runtime that keeps its documented laws: with a connection, a click, a submitted chat
  -- message and a ping send that connection one message, which reads as what the user did: the chat
  -- message with its text, the click with its coordinates as they arrive as `float32`. Any other
  -- event, and a page without a connection, sends nothing.
  pub handle-told :
      (e : Event js) (page : Page js)
      → told (handle js fb e page).sent ≡ told_to page.connection (meant e) (told page.sent)
  handle-told e page = ap told (handle-sent js fb e page) ∙ told-sent_to e page.connection page.sent
