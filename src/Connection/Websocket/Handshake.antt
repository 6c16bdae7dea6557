-- ===== src/Connection/Websocket/Handshake.antt =====
-- What `connectWebsocket` of examples/hello-spanreed/client/src/Connection.ts does to its socket.
use spanreed_netcode_proxy.Prelude.{
  ℕ, Bool, true, false, ◌≡◌, refl, ◌⊎◌, String, List, [], ◌∷◌, arith,
}
use spanreed_netcode_proxy.Log.{LogCb}
use spanreed_netcode_proxy.Wire.Flatbuffers.{Flatbuffers, Bytes}
use spanreed_netcode_proxy.Connection.Payload.{connect_client_payload}
use spanreed_netcode_proxy.Connection.Websocket.{
  Event, Phase, opening, authorizing, connected, failed, Attempt, open_websocket, step, run,
  connect_websocket,
}

module _ {N : Type 0} (fb : Flatbuffers N) (show : ℕ → String) (log_cb : LogCb) where
  -- What the client has done to the socket, by the phase that it is in: the one payload is sent
  -- when the socket has opened, and the client closes the socket when it fails after that.
  abbrev pub Did : Bytes → Phase → List Bytes → Bool → Type 0
  Did payload opening sent closed = (sent ≡ []) × (closed ≡ false)
  Did payload authorizing sent closed = (sent ≡ payload ∷ []) × (closed ≡ false)
  Did payload connected sent closed = (sent ≡ payload ∷ []) × (closed ≡ false)
  Did payload (failed f) sent closed =
      ((sent ≡ []) × (closed ≡ false)) ⊎ ((sent ≡ payload ∷ []) × (closed ≡ true))

  abbrev pub IsTidy : (backend user : String) → Attempt → Type 0
  IsTidy backend user a =
      Did (connect_client_payload fb backend user) a.phase a.sent a.closed_by_client

  step-IsTidy :
      (backend user : String) (e : Event) (a : Attempt)
      → IsTidy backend user a
      → IsTidy backend user (step fb show log_cb backend user e a)
  unfolding step
  step-IsTidy backend user e a h = ground arith

  run-IsTidy :
      (backend user : String) (es : List Event) (a : Attempt)
      → IsTidy backend user a
      → IsTidy backend user (run fb show log_cb backend user es a)
  unfolding run
  run-IsTidy backend user [] a h = h
  run-IsTidy backend user (e ∷ es) a h =
      run-IsTidy backend user es _ (step-IsTidy backend user e a h)

  -- Whatever the socket reports: nothing is sent before it opens, exactly the one connection
  -- request is sent after that, and an attempt that fails after that has closed the socket.
  pub connect_websocket-IsTidy :
      (spanreed backend user : String) (es : List Event)
      → IsTidy backend user (connect_websocket fb show log_cb spanreed backend user es)
  unfolding connect_websocket open_websocket
  connect_websocket-IsTidy spanreed backend user es = run-IsTidy backend user es _ (refl, refl)
