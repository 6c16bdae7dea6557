-- ===== src/Page/Effects/Keeping.antt =====
-- What becomes of the connections that the page of
-- examples/hello-spanreed/client/src/DemoPage.tsx is given.
use spanreed_netcode_proxy.Prelude.{
  ℕ, ◌≡◌, ◌⊎◌, inl, inr, true, Option, none, some, Bool-cases, List, [], ◌∷◌, arith,
}
use mathlib.Core.List.{Memᴰ}
use spanreed_netcode_proxy.Canvas.Numbers.{Numbers}
use spanreed_netcode_proxy.Canvas.Frames.{contains}
use spanreed_netcode_proxy.Wire.Flatbuffers.{Flatbuffers}
use spanreed_netcode_proxy.Page.{Page, Connection, set_connection, send}
use spanreed_netcode_proxy.Page.Effects.{
  Event, opened, close_clicked, canvas_clicked, chat_submitted, pinged, ws_closed, ws_message,
  wt_closed, wt_read, wt_abort_failed, handle, run,
}
use spanreed_netcode_proxy.Page.Effects.Receiving.{
  OnlyReceives, on_message-OnlyReceives, on_read-OnlyReceives,
}

module _ (js : Numbers) where
  -- The page has the connection of this id.
  abbrev pub IsCurrent : ℕ → Option Connection → Type 0
  IsCurrent id none = ⊥
  IsCurrent id (some c) = c.id ≡ id

  -- The connection of this id is the page's, or was closed by it.
  abbrev pub IsKept : ℕ → Page js → Type 0
  IsKept id page = IsCurrent id page.connection ⊎ (contains id page.closed ≡ true)

  set_connection-IsKept :
      (new : Option Connection) (id : ℕ) (page : Page js)
      → IsKept id page
      → IsKept id (set_connection js new page)
  unfolding set_connection
  set_connection-IsKept new id page h = ground arith

  set_connection_new :
      (c : Connection) (page : Page js) → IsKept c.id (set_connection js (some c) page)
  unfolding set_connection
  set_connection_new c page = ground arith

  module _ (fb : Flatbuffers js.Number) where
    IsKept-along :
        (id : ℕ) {page page' : Page js}
        → OnlyReceives js page page'
        → IsKept id page
        → IsKept id page'
    IsKept-along id r h = rw (r.connection, r.closed) h

    handle-IsKept :
        (e : Event js) (id : ℕ) (page : Page js) → IsKept id page → IsKept id (handle js fb e page)
    unfolding handle send
    handle-IsKept (opened d) id page h = set_connection-IsKept (some d) id page h
    handle-IsKept close_clicked id page h = set_connection-IsKept none id page h
    handle-IsKept (wt_abort_failed _ e) id page h = ground arith
    handle-IsKept (canvas_clicked x y) id page h = ground arith
    handle-IsKept (chat_submitted chat) id page h = ground arith
    handle-IsKept pinged id page h = ground arith
    handle-IsKept (ws_closed _) id page h = set_connection-IsKept none id _ h
    handle-IsKept (ws_message _ m) id page h =
        IsKept-along id (on_message-OnlyReceives js fb m page) h
    handle-IsKept (wt_closed _ none) id page h = set_connection-IsKept none id _ h
    handle-IsKept (wt_closed _ (some e)) id page h = set_connection-IsKept none id _ h
    handle-IsKept (wt_read wt r) id page h = elim (Bool-cases (contains wt page.reading)) [
      | inl runs ↦ rw runs (IsKept-along id (on_read-OnlyReceives js fb wt r page) h)
      | inr ended ↦ rw ended h
    ]

    run-IsKept :
        (es : List (Event js)) (id : ℕ) (page : Page js)
        → IsKept id page
        → IsKept id (run js fb es page)
    unfolding run
    run-IsKept [] id page h = h
    run-IsKept (e ∷ es) id page h = run-IsKept es id _ (handle-IsKept e id page h)

    -- No connection is leaked: each that was opened, whenever, is the one that the page has in the
    -- end, or the page has closed it.
    pub run-opened :
        (es : List (Event js)) (page : Page js) (c : Connection)
        → Memᴰ (opened c) es
        → IsKept c.id (run js fb es page)
    unfolding run handle
    run-opened [] page c m = elim m [ ]
    run-opened (e ∷ es) page c (Memᴰ.head here) =
        rw (← here) (run-IsKept es c.id _ (set_connection_new c page))
    run-opened (e ∷ es) page c (Memᴰ.tail m) = run-opened es _ c m
