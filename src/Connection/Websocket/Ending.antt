-- ===== src/Connection/Websocket/Ending.antt =====
-- When an attempt by `connectWebsocket` of examples/hello-spanreed/client/src/Connection.ts is over.
use spanreed_netcode_proxy.Prelude.{ℕ, sym, String, List, [], ◌∷◌, ◌++◌, arith}
use mathlib.Core.Path.{subst}
use spanreed_netcode_proxy.Log.{LogCb}
use spanreed_netcode_proxy.Wire.Flatbuffers.{Flatbuffers}
use spanreed_netcode_proxy.Connection.Websocket.{
  Event, open_event, close_event, message_event, error_event, connect_websocket,
}
use spanreed_netcode_proxy.Connection.Websocket.Outcome.{
  IsSettled, outcome, outcome_when_open, connect_websocket-outcome,
}

-- An open socket ends its attempt with a message, or when it closes.
abbrev pub Decides : Event → Type 0
Decides (message_event bytes) = Unit {0}
Decides close_event = Unit {0}
Decides _ = ⊥

module _ {N : Type 0} (fb : Flatbuffers N) where
  outcome_when_open-IsSettled :
      (es rest : List Event) (e : Event)
      → Decides e
      → IsSettled (outcome_when_open fb (es ++ e ∷ rest))
  outcome_when_open-IsSettled [] rest (message_event bytes) d = ground arith
  outcome_when_open-IsSettled [] rest close_event d = tt
  outcome_when_open-IsSettled [] rest open_event d = elim d [ ]
  outcome_when_open-IsSettled [] rest (error_event s c) d = elim d [ ]
  outcome_when_open-IsSettled (message_event bytes ∷ es) rest e d = ground arith
  outcome_when_open-IsSettled (close_event ∷ es) rest e d = tt
  outcome_when_open-IsSettled (open_event ∷ es) rest e d = outcome_when_open-IsSettled es rest e d
  outcome_when_open-IsSettled (error_event s c ∷ es) rest e d =
      outcome_when_open-IsSettled es rest e d

  outcome-IsSettled :
      (before es rest : List Event) (e : Event)
      → Decides e
      → IsSettled (outcome fb (before ++ open_event ∷ es ++ e ∷ rest))
  outcome-IsSettled [] es rest e d = outcome_when_open-IsSettled es rest e d
  outcome-IsSettled (open_event ∷ before) es rest e d =
      outcome_when_open-IsSettled (before ++ open_event ∷ es) rest e d
  outcome-IsSettled (error_event s c ∷ before) es rest e d = tt
  outcome-IsSettled (message_event bytes ∷ before) es rest e d =
      outcome-IsSettled before es rest e d
  outcome-IsSettled (close_event ∷ before) es rest e d = outcome-IsSettled before es rest e d

  -- An attempt is over, whatever else is reported before and after, once the socket has opened and
  -- then has brought a message or has closed.
  pub connect_websocket-IsSettled :
      (show : ℕ → String) (log_cb : LogCb) (spanreed backend user : String)
      (before es rest : List Event) (e : Event)
      → Decides e
      → IsSettled
          (connect_websocket fb show log_cb spanreed backend user
            (before ++ open_event ∷ es ++ e ∷ rest)).phase
  connect_websocket-IsSettled show log_cb spanreed backend user before es rest e d =
      subst IsSettled (sym (connect_websocket-outcome fb show log_cb backend user spanreed _))
        (outcome-IsSettled before es rest e d)
