-- ===== src/Connection/Websocket.antt =====
-- `connectWebsocket` of examples/hello-spanreed/client/src/Connection.ts, as a machine over the
-- events of its socket. Between two `await`s the function runs on with no event in between. A
-- promise takes its first resolution, so events after that change nothing.
use Prim.Native.String
use spanreed_netcode_proxy.Prelude.{
  ℕ, Bool, true, false, ◌&&◌, Option, none, some, String, List, [], ◌∷◌, ◌++◌, length, get_or_else,
  if◌then◌else◌,
}
use spanreed_netcode_proxy.Log.{LogLevel, Output, LogCb, wrap_log_fn}
use spanreed_netcode_proxy.Wire.Flatbuffers.{Flatbuffers, Bytes}
use spanreed_netcode_proxy.Wire.ConnectClientVerdict.{
  get_root_as_connect_client_verdict, accepted, error_reason,
}
use spanreed_netcode_proxy.Connection.Payload.{connect_client_payload}
pub mod Handshake
pub mod Outcome
pub mod Ending

-- What the socket reports. An error event says whether its target is a WebSocket, and whether
-- that is in the state CLOSED.
pub data Event : Type 0 where
  error_event : (on_socket closed : Bool) → Event
  open_event close_event : Event
  message_event : Bytes → Event

-- The reason with which the promise is rejected.
pub data Failure : Type 0 where
  failed_to_connect connect_error closed : Failure
  refused : String → Failure

pub data Phase : Type 0 where
  opening authorizing connected : Phase
  failed : Failure → Phase

-- `sent` and `closed_by_client` are what the client has done to the socket.
pub record Attempt : Type 0 where
  pub phase : Phase
  pub sent : List Bytes
  pub closed_by_client : Bool
  pub output : List Output

infixr 60 ◌+++◌
abbrev pub ◌+++◌ : String → String → String
s +++ t = String.◌++◌ s t

-- `destination rejected connection: ${verdict.errorReason() ?? '<unknown reason>'}`
abbrev pub refusal : Option String → String
refusal reason = "destination rejected connection: " +++ get_or_else reason "<unknown reason>"

-- `show` prints a number.
module _ {N : Type 0} (fb : Flatbuffers N) (show : ℕ → String) (log_cb : LogCb) where
  abbrev log : String → List Output
  log msg = wrap_log_fn "connectWebsocket" log_cb msg (some LogLevel.debug)

  unfoldable pub open_websocket : (spanreed_address user_name : String) → Attempt
  open_websocket spanreed_address user_name = record {
    phase = opening;
    sent = [];
    closed_by_client = false;
    output = log (
        "Attempting to open WebSocket connection on " +++ spanreed_address +++ " for userName="
        +++ user_name +++ "...");
  }

  -- From `onopen` to the second `await`.
  unfoldable pub authorize : (backend_address user_name : String) → Attempt → Attempt
  authorize backend_address user_name a =
      let payload = connect_client_payload fb backend_address user_name in
      record a {
        phase = authorizing;
        sent = a.sent ++ payload ∷ [];
        output =
            a.output
            ++ log (
                "Connection opened! Attempting to authorize (payload size="
                +++ show (length payload)
                +++ ")...");
      }

  -- `onmessage` while the verdict is awaited.
  unfoldable pub on_verdict : Bytes → Attempt → Attempt
  on_verdict bytes a =
      let verdict = get_root_as_connect_client_verdict fb (fb.new_byte_buffer bytes) in
      if accepted fb verdict
      then record a {
        phase = connected;
        output =
            a.output
            ++ log
                "Connection opened successfully! Messages may now be forwarded to the destination server through this WebSocket connection.";
      }
      else record a {
        phase = failed (refused (refusal (error_reason fb verdict)));
        closed_by_client = true;
      }

  -- `onerror` while the socket opens.
  unfoldable pub on_error : (on_socket closed : Bool) → Attempt → Attempt
  on_error on_socket closed_ a = record a {
    phase = failed (if on_socket && closed_ then failed_to_connect else connect_error);
  }

  -- An event for which the function has no handler in its phase changes nothing.
  unfoldable pub dispatch : Phase → (backend_address user_name : String) → Event → Attempt → Attempt
  unfolding authorize on_verdict on_error
  dispatch opening backend user (error_event on_socket closed_) a = on_error on_socket closed_ a
  dispatch opening backend user open_event a = authorize backend user a
  dispatch authorizing backend user (message_event bytes) a = on_verdict bytes a
  dispatch authorizing backend user close_event a = record a {
    phase = failed closed;
    closed_by_client = true;
  }
  dispatch _ backend user e a = a

  unfoldable pub step : (backend_address user_name : String) → Event → Attempt → Attempt
  unfolding dispatch
  step backend_address user_name e a = dispatch a.phase backend_address user_name e a

  unfoldable pub run : (backend_address user_name : String) → List Event → Attempt → Attempt
  run backend_address user_name [] a = a
  run backend_address user_name (e ∷ es) a =
      run backend_address user_name es (step backend_address user_name e a)

  -- `connectWebsocket`, when its socket reports these events.
  unfoldable pub connect_websocket :
      (spanreed_address backend_address user_name : String) → List Event → Attempt
  unfolding run
  connect_websocket spanreed_address backend_address user_name es =
      run backend_address user_name es (open_websocket spanreed_address user_name)
