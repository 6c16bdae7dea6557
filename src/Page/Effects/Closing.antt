-- ===== src/Page/Effects/Closing.antt =====
-- The connection of the page of examples/hello-spanreed/client/src/DemoPage.tsx.
use spanreed_netcode_proxy.Prelude.{
  ℕ, ◌≡◌, ◌⊎◌, inl, inr, true, Option, none, some, ◌∙◌, Bool-cases, List, ◌∷◌, arith,
}
use spanreed_netcode_proxy.Canvas.Numbers.{Numbers}
use spanreed_netcode_proxy.Canvas.Frames.{contains}
use spanreed_netcode_proxy.Wire.Flatbuffers.{Flatbuffers, Bytes}
use spanreed_netcode_proxy.Connection.Payload.{click_payload, chat_payload, ping_payload}
use spanreed_netcode_proxy.Page.{Page, Connection, set_connection, send}
use spanreed_netcode_proxy.Page.Effects.{
  Event, opened, close_clicked, canvas_clicked, chat_submitted, pinged, ws_closed, ws_message,
  wt_closed, wt_read, wt_abort_failed, wt_abort_failed, handle,
}
use spanreed_netcode_proxy.Page.Effects.Receiving.{on_message-OnlyReceives, on_read-OnlyReceives}

module _ (js : Numbers) where
  -- The connection is kept, or it was closed and its dots are gone.
  abbrev pub KeptOrClosed : Connection → Page js → Type 0
  KeptOrClosed c page =
      (page.connection ≡ some c) ⊎ ((contains c.id page.closed ≡ true) × (page.dots ≡ none))

  set_connection-KeptOrClosed :
      (c : Connection) (new : Option Connection) (page : Page js)
      → page.connection ≡ some c
      → KeptOrClosed c (set_connection js new page)
  unfolding set_connection
  set_connection-KeptOrClosed c new page e = ground arith

  module _ (fb : Flatbuffers js.Number) where
    -- If the page has a connection, then, whatever happens, it keeps it, or it has closed it and
    -- shows no dots of it.
    pub handle-KeptOrClosed :
        (e : Event js) (page : Page js) (c : Connection)
        → page.connection ≡ some c
        → KeptOrClosed c (handle js fb e page)
    unfolding handle send
    handle-KeptOrClosed (opened d) page c h = set_connection-KeptOrClosed c (some d) page h
    handle-KeptOrClosed close_clicked page c h = set_connection-KeptOrClosed c none page h
    handle-KeptOrClosed (wt_abort_failed _ e) page c h = ground arith
    handle-KeptOrClosed (canvas_clicked x y) page c h = ground arith
    handle-KeptOrClosed (chat_submitted chat) page c h = ground arith
    handle-KeptOrClosed pinged page c h = ground arith
    handle-KeptOrClosed (ws_closed id) page c h = set_connection-KeptOrClosed c none _ h
    handle-KeptOrClosed (ws_message id m) page c h =
        inl ((on_message-OnlyReceives js fb m page).connection ∙ h)
    handle-KeptOrClosed (wt_closed id none) page c h = set_connection-KeptOrClosed c none _ h
    handle-KeptOrClosed (wt_closed id (some e)) page c h = set_connection-KeptOrClosed c none _ h
    handle-KeptOrClosed (wt_read id r) page c h = elim (Bool-cases (contains id page.reading)) [
      | inl runs ↦ rw runs (inl ((on_read-OnlyReceives js fb id r page).connection ∙ h))
      | inr ended ↦ rw ended (inl h)
    ]

    -- What an event gives the page to send.
    abbrev pub payload_of : Event js → Option Bytes
    payload_of (canvas_clicked x y) = some (click_payload fb x y)
    payload_of (chat_submitted chat) = some (chat_payload fb chat)
    payload_of pinged = some (ping_payload fb)
    payload_of _ = none

    abbrev pub sent_to : Option Connection → Option Bytes → List (ℕ × Bytes) → List (ℕ × Bytes)
    sent_to (some c) (some p) sent = (c.id, p) ∷ sent
    sent_to _ _ sent = sent

    -- A click, a chat message and a ping are sent, each as its message, to the connection that the
    -- page has; without a connection, and at any other event, nothing is sent.
    pub handle-sent :
        (e : Event js) (page : Page js)
        → (handle js fb e page).sent ≡ sent_to page.connection (payload_of e) page.sent
    unfolding handle send set_connection
    handle-sent (opened d) page = ground arith
    handle-sent close_clicked page = ground arith
    handle-sent (wt_abort_failed _ e) page = ground arith
    handle-sent (canvas_clicked x y) page = ground arith
    handle-sent (chat_submitted chat) page = ground arith
    handle-sent pinged page = ground arith
    handle-sent (ws_closed id) page = ground arith
    handle-sent (ws_message id m) page = ground (arith, (on_message-OnlyReceives js fb m page).sent)
    handle-sent (wt_closed id none) page = ground arith
    handle-sent (wt_closed id (some e)) page = ground arith
    handle-sent (wt_read id r) page = ground (arith, (on_read-OnlyReceives js fb id r page).sent)

    -- The handlers of a WebSocket that the page no longer uses stay in place: when that socket
    -- reports that it is closed, the connection that the page has by then, if any, is closed and
    -- dropped, with its dots.
    pub stale_close_drops :
        (old : ℕ) (page : Page js) (c : Connection)
        → page.connection ≡ some c
        → let page' = handle js fb (ws_closed old) page in
          (page'.connection ≡ none) × (contains c.id page'.closed ≡ true) × (page'.dots ≡ none)
    unfolding handle set_connection
    stale_close_drops old page c h = ground arith
