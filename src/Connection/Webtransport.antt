-- ===== src/Connection/Webtransport.antt =====
-- `connectWebtransport` of examples/hello-spanreed/client/src/Connection.ts, as a machine over
-- what its transport reports.
use spanreed_netcode_proxy.Prelude.{
  ℕ, Bool, true, false, Option, none, some, String, List, [], ◌∷◌, ◌++◌, length, get_or_else,
  if◌then◌else◌,
}
use spanreed_netcode_proxy.Log.{LogLevel, Output, LogCb, wrap_log_fn}
use spanreed_netcode_proxy.Wire.Flatbuffers.{Flatbuffers, Bytes}
use spanreed_netcode_proxy.Wire.ConnectClientVerdict.{
  get_root_as_connect_client_verdict, accepted, error_reason,
}
use spanreed_netcode_proxy.Connection.Payload.{connect_client_payload}
use spanreed_netcode_proxy.Connection.Websocket.{◌+++◌}
pub mod Verdict

-- `ready` and `closed` are the promises of the transport; `closed` may be rejected, with an error
-- that prints as a text. A read gives the end of the stream, bytes, another value, or fails.
pub data Event : Type 0 where
  ready closed : Event
  closed_with : String → Event
  read_done read_other read_failed : Event
  read_bytes : Bytes → Event

pub data Failure : Type 0 where
  unexpectedly_closed reader_closed reader_failed : Failure
  refused : String → Failure

pub data Phase : Type 0 where
  opening authorizing connected : Phase
  failed : Failure → Phase

-- `written` is what the client has written; it closes the transport nowhere in this function.
pub record Attempt : Type 0 where
  pub phase : Phase
  pub written : List Bytes
  pub output : List Output

-- `Destination rejected connection: ${verdict.errorReason() ?? '<unknown reason>'}`
abbrev pub refusal : Option String → String
refusal reason = "Destination rejected connection: " +++ get_or_else reason "<unknown reason>"

module _ {N : Type 0} (fb : Flatbuffers N) (show : ℕ → String) (log_cb : LogCb) where
  abbrev log : String → List Output
  log msg = wrap_log_fn "connectWebtransport" log_cb msg (some LogLevel.debug)

  abbrev pub open_webtransport : Attempt
  open_webtransport = record { phase = opening; written = []; output = [] }

  -- From the race of `ready` and `closed` to the read of the verdict.
  unfoldable pub authorize : (backend_address user_name : String) → Attempt → Attempt
  authorize backend_address user_name a =
      let payload = connect_client_payload fb backend_address user_name in
      record a {
        phase = authorizing;
        written = a.written ++ payload ∷ [];
        output =
            a.output
            ++ log (
                "Connection opened! Attempting to authorize (payload size="
                +++ show (length payload)
                +++ ")");
      }

  succeed : Attempt → Attempt
  succeed a = record a {
    phase = connected;
    output =
        a.output
        ++ log
            "Connection opened successfully! Message may now be forwarded to the destination server through this WebTransport connection";
  }

  unfoldable pub on_verdict : Bytes → Attempt → Attempt
  unfolding succeed
  on_verdict bytes a =
      let verdict = get_root_as_connect_client_verdict fb (fb.new_byte_buffer bytes) in
      if accepted fb verdict
      then succeed a
      else record a { phase = failed (refused (refusal (error_reason fb verdict))) }

  -- The handler of `wt.closed` logs in every phase, and decides the race.
  unfoldable pub on_closed_with : String → Attempt → Attempt
  on_closed_with e a = record a {
    output = a.output ++ log_cb ("WebTransport unexpectedly closed! " +++ e) (some LogLevel.error);
  }

  unfoldable pub dispatch : Phase → (backend_address user_name : String) → Event → Attempt → Attempt
  unfolding authorize on_verdict on_closed_with succeed
  dispatch opening backend user ready a = authorize backend user a
  dispatch opening backend user closed a = authorize backend user a
  dispatch opening backend user (closed_with e) a = record (on_closed_with e a) {
    phase = failed unexpectedly_closed;
  }
  dispatch authorizing backend user read_done a = record a { phase = failed reader_closed }
  dispatch authorizing backend user read_failed a = record a { phase = failed reader_failed }
  dispatch authorizing backend user read_other a = succeed a
  dispatch authorizing backend user (read_bytes bytes) a = on_verdict bytes a
  dispatch _ backend user (closed_with e) a = on_closed_with e a
  dispatch _ backend user e a = a

  unfoldable pub step : (backend_address user_name : String) → Event → Attempt → Attempt
  unfolding dispatch
  step backend_address user_name e a = dispatch a.phase backend_address user_name e a

  unfoldable pub run : (backend_address user_name : String) → List Event → Attempt → Attempt
  run backend_address user_name [] a = a
  run backend_address user_name (e ∷ es) a =
      run backend_address user_name es (step backend_address user_name e a)

  -- `connectWebtransport`, when its transport reports these events.
  unfoldable pub connect_webtransport : (backend_address user_name : String) → List Event → Attempt
  unfolding run
  connect_webtransport backend_address user_name es =
      run backend_address user_name es open_webtransport
