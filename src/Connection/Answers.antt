-- ===== src/Connection/Answers.antt =====
-- `connectWebsocket` of examples/hello-spanreed/client/src/Connection.ts, when the proxy answers
-- with a verdict that the generated class has built.
use spanreed_netcode_proxy.Prelude.{
  ℕ, Bool, ◌≡◌, refl, ◌∙◌, String, Option, some, List, [], ◌∷◌, arith, if◌then◌else◌,
}
use spanreed_netcode_proxy.Log.{LogCb}
use spanreed_netcode_proxy.Wire.Flatbuffers.{Flatbuffers, Bytes}
use spanreed_netcode_proxy.Wire.Flatbuffers.Laws.{Laws}
use spanreed_netcode_proxy.Wire.Flatbuffers.Placing.{AreBytes}
use spanreed_netcode_proxy.Wire.ConnectClientVerdict.{
  get_root_as_connect_client_verdict, accepted, error_reason,
}
use spanreed_netcode_proxy.Wire.ConnectClientVerdict.RoundTrip.{
  verdict_message, read-verdict_message,
}
use spanreed_netcode_proxy.Connection.Payload.{connect_client_payload}
use spanreed_netcode_proxy.Connection.Payload.Decoding.{decode, decode_request, connect}
use spanreed_netcode_proxy.Connection.Payload.RoundTrip.{decode_request-connect_client_payload}
use spanreed_netcode_proxy.Connection.Websocket.{
  Event, open_event, message_event, refused, Phase, opening, connected, failed, Attempt, refusal,
  open_websocket, step, run, connect_websocket,
}
use spanreed_netcode_proxy.Connection.Websocket.Outcome.{connect_websocket-outcome}

abbrev IsPast : Phase → Type 0
IsPast opening = ⊥
IsPast _ = Unit {0}

-- What the client makes of an answer.
abbrev pub answered : Bool → Option String → Phase
answered ok reason = if ok then connected else failed (refused (refusal reason))

module _ {N : Type 0} (fb : Flatbuffers N) (show : ℕ → String) (log_cb : LogCb) where
  module _ (backend user : String) where
    -- Once the socket has opened, nothing more is sent.
    step-IsPast :
        (e : Event) (a : Attempt)
        → IsPast a.phase
        → let b = step fb show log_cb backend user e a in IsPast b.phase × (b.sent ≡ a.sent)
    unfolding step
    step-IsPast e a h = ground arith

    run_sent :
        (es : List Event) (a : Attempt)
        → IsPast a.phase
        → (run fb show log_cb backend user es a).sent ≡ a.sent
    unfolding run
    run_sent [] a h = refl
    run_sent (e ∷ es) a h =
        let (past, same) = step-IsPast e a h in
        run_sent es (step fb show log_cb backend user e a) past ∙ same

    pub sent_when_open :
        (spanreed : String) (es : List Event)
        → (connect_websocket fb show log_cb spanreed backend user (open_event ∷ es)).sent
          ≡ connect_client_payload fb backend user ∷ []
    unfolding connect_websocket open_websocket run step
    sent_when_open spanreed es = run_sent es _ tt

  -- A message that reads as a verdict is answered so.
  pub connect_websocket-answer :
      (spanreed backend user : String) (message : Bytes) (ok : Bool) (reason : Option String)
      (es : List Event)
      → let t = get_root_as_connect_client_verdict fb (fb.new_byte_buffer message) in
        accepted fb t ≡ ok
        → error_reason fb t ≡ reason
        → (connect_websocket fb show log_cb spanreed backend user
            (open_event ∷ message_event message ∷ es)).phase
          ≡ answered ok reason
  connect_websocket-answer spanreed backend user message ok reason es e f =
      connect_websocket-outcome fb show log_cb backend user spanreed _ ∙ rw (e, f) refl

  module _ (laws : Laws fb) (zero_ : N) where
    -- Over a runtime that keeps its documented laws: when the socket opens, and the answer is a
    -- verdict that was built with `accepted`, perhaps a reason and perhaps data that are bytes: the
    -- client has sent one message, which reads as a request for the backend with a message that
    -- tells it the user's name, and it is connected if the verdict accepts, and otherwise has failed
    -- with the reason of the verdict.
    pub connect_websocket-verdict_message :
        (spanreed backend user : String) (ok : Bool) (reason : Option String)
        (app_data : Option Bytes) (es : List Event)
        → AreBytes app_data
        → let a =
            connect_websocket fb show log_cb spanreed backend user
              (open_event ∷ message_event (verdict_message fb ok reason app_data) ∷ es) in
          (a.phase ≡ answered ok reason)
          × (m : Bytes) × (data_ : Bytes) × (a.sent ≡ m ∷ [])
          × (decode_request fb m ≡ (some backend, some data_))
          × (decode fb zero_ data_ ≡ some (connect (some user)))
    connect_websocket-verdict_message spanreed backend user ok reason app_data es h =
        let (data_, request, told, _) =
          decode_request-connect_client_payload fb laws zero_ backend user in
        let (e, f, _) = read-verdict_message fb laws ok reason app_data h in
        (
          connect_websocket-answer spanreed backend user (verdict_message fb ok reason app_data) ok
              reason es e f,
          connect_client_payload fb backend user,
          data_,
          sent_when_open backend user spanreed _,
          request,
          told,
        )
