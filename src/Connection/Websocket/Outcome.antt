-- ===== src/Connection/Websocket/Outcome.antt =====
-- An abstract view of `connectWebsocket` of examples/hello-spanreed/client/src/Connection.ts: its
-- end as a function of the events.
use spanreed_netcode_proxy.Prelude.{
  ℕ, true, ◌&&◌, ◌≡◌, refl, sym, ◌∙◌, ap, String, List, [], ◌∷◌, arith, if◌then◌else◌,
}
use mathlib.Core.Path.{subst}
use mathlib.Core.List.{Memᴰ}
use spanreed_netcode_proxy.Log.{LogCb}
use spanreed_netcode_proxy.Wire.Flatbuffers.{Flatbuffers, Bytes}
use spanreed_netcode_proxy.Wire.ConnectClientVerdict.{
  get_root_as_connect_client_verdict, accepted, error_reason,
}
use spanreed_netcode_proxy.Connection.Websocket.{
  Event, error_event, open_event, close_event, message_event, failed_to_connect, connect_error,
  closed, refused, Phase, opening, authorizing, connected, failed, Attempt, refusal, open_websocket,
  step, run, connect_websocket,
}

-- The promise has been resolved or rejected.
abbrev pub IsSettled : Phase → Type 0
IsSettled opening = ⊥
IsSettled authorizing = ⊥
IsSettled _ = Unit {0}

module _ {N : Type 0} (fb : Flatbuffers N) where
  abbrev pub IsAccepting : Bytes → Type 0
  IsAccepting bytes =
      accepted fb (get_root_as_connect_client_verdict fb (fb.new_byte_buffer bytes)) ≡ true

  abbrev pub decision : Bytes → Phase
  decision bytes =
      let verdict = get_root_as_connect_client_verdict fb (fb.new_byte_buffer bytes) in
      if accepted fb verdict
      then connected
      else failed (refused (refusal (error_reason fb verdict)))

  -- After the socket has opened, the first message is the verdict.
  abbrev pub outcome_when_open : List Event → Phase
  outcome_when_open [] = authorizing
  outcome_when_open (message_event bytes ∷ es) = decision bytes
  outcome_when_open (close_event ∷ es) = failed closed
  outcome_when_open (open_event ∷ es) = outcome_when_open es
  outcome_when_open (error_event on_socket closed_ ∷ es) = outcome_when_open es

  abbrev pub outcome : List Event → Phase
  outcome [] = opening
  outcome (open_event ∷ es) = outcome_when_open es
  outcome (error_event on_socket closed_ ∷ es) =
      failed (if on_socket && closed_ then failed_to_connect else connect_error)
  outcome (message_event bytes ∷ es) = outcome es
  outcome (close_event ∷ es) = outcome es

  -- Only an accepting verdict leads to a connection.
  IsAccepting-of_decision : (bytes : Bytes) → decision bytes ≡ connected → IsAccepting bytes
  IsAccepting-of_decision bytes e = ground arith

  abbrev pub HasAcceptance : List Event → Type 0
  HasAcceptance es = (bytes : Bytes) × Memᴰ (message_event bytes) es × IsAccepting bytes

  later : (e : Event) (es : List Event) → HasAcceptance es → HasAcceptance (e ∷ es)
  later e es (bytes, m, h) = (bytes, Memᴰ.tail m, h)

  acceptance_when_open : (es : List Event) → outcome_when_open es ≡ connected → HasAcceptance es
  acceptance_when_open [] e = cc
  acceptance_when_open (message_event bytes ∷ es) e =
      (bytes, Memᴰ.head refl, IsAccepting-of_decision bytes e)
  acceptance_when_open (close_event ∷ es) e = cc
  acceptance_when_open (open_event ∷ es) e = later open_event es (acceptance_when_open es e)
  acceptance_when_open (error_event s c ∷ es) e =
      later (error_event s c) es (acceptance_when_open es e)

  acceptance : (es : List Event) → outcome es ≡ connected → HasAcceptance es
  acceptance [] e = cc
  acceptance (open_event ∷ es) e = later open_event es (acceptance_when_open es e)
  acceptance (error_event s c ∷ es) e = cc
  acceptance (message_event bytes ∷ es) e = later (message_event bytes) es (acceptance es e)
  acceptance (close_event ∷ es) e = later close_event es (acceptance es e)

  decision-IsSettled : (bytes : Bytes) → IsSettled (decision bytes)
  decision-IsSettled bytes = ground arith

  module _ (show : ℕ → String) (log_cb : LogCb) (backend user : String) where
    step_settled :
        (e : Event) (a : Attempt) → IsSettled a.phase → step fb show log_cb backend user e a ≡ a
    unfolding step
    step_settled e a h = ground arith

    run_settled :
        (es : List Event) (a : Attempt)
        → IsSettled a.phase
        → run fb show log_cb backend user es a ≡ a
    unfolding run
    run_settled [] a h = refl
    run_settled (e ∷ es) a h = rw (step_settled e a h) (run_settled es a h)

    -- An attempt that an event has settled stays as it is.
    settle :
        (e : Event) (es : List Event) (a : Attempt) (p : Phase)
        → (step fb show log_cb backend user e a).phase ≡ p
        → IsSettled p
        → (run fb show log_cb backend user (e ∷ es) a).phase ≡ p
    unfolding run
    settle e es a p h s = ap Attempt.phase (run_settled es _ (subst IsSettled (sym h) s)) ∙ h

    step_message :
        (bytes : Bytes) (a : Attempt)
        → a.phase ≡ authorizing
        → (step fb show log_cb backend user (message_event bytes) a).phase ≡ decision bytes
    unfolding step
    step_message bytes a h = ground arith

    run_authorizing :
        (es : List Event) (a : Attempt)
        → a.phase ≡ authorizing
        → (run fb show log_cb backend user es a).phase ≡ outcome_when_open es
    unfolding run step
    run_authorizing [] a h = h
    run_authorizing (message_event bytes ∷ es) a h =
        settle (message_event bytes) es a (decision bytes) (step_message bytes a h)
          (decision-IsSettled bytes)
    run_authorizing (close_event ∷ es) a h =
        settle close_event es a (failed closed) (ground arith) tt
    run_authorizing (open_event ∷ es) a h =
        run_authorizing es (step fb show log_cb backend user open_event a) (ground arith)
    run_authorizing (error_event s c ∷ es) a h =
        run_authorizing es (step fb show log_cb backend user (error_event s c) a) (ground arith)

    run_opening :
        (es : List Event) (a : Attempt)
        → a.phase ≡ opening
        → (run fb show log_cb backend user es a).phase ≡ outcome es
    unfolding run step
    run_opening [] a h = h
    run_opening (open_event ∷ es) a h =
        run_authorizing es (step fb show log_cb backend user open_event a) (ground arith)
    run_opening (error_event s c ∷ es) a h =
        settle (error_event s c) es a (failed (if s && c then failed_to_connect else connect_error))
          (ground arith) tt
    run_opening (message_event bytes ∷ es) a h =
        run_opening es (step fb show log_cb backend user (message_event bytes) a) (ground arith)
    run_opening (close_event ∷ es) a h =
        run_opening es (step fb show log_cb backend user close_event a) (ground arith)

    -- The attempt ends as the events say, whatever is reported after the deciding one: it is
    -- refused by the first error before the socket opens, and after that the first message, or a
    -- close, decides.
    pub connect_websocket-outcome :
        (spanreed : String) (es : List Event)
        → (connect_websocket fb show log_cb spanreed backend user es).phase ≡ outcome es
    unfolding connect_websocket open_websocket
    connect_websocket-outcome spanreed es = run_opening es _ refl

    -- A connection is made only if one of the messages was an accepting verdict.
    pub connect_websocket_accepted :
        (spanreed : String) (es : List Event)
        → (connect_websocket fb show log_cb spanreed backend user es).phase ≡ connected
        → HasAcceptance es
    connect_websocket_accepted spanreed es h =
        acceptance es (sym (connect_websocket-outcome spanreed es) ∙ h)
