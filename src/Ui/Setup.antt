-- ===== src/Ui/Setup.antt =====
-- The form that opens a connection: `SetupConnectionComponent` of
-- examples/hello-spanreed/client/src/ConnectionStateComponent.tsx.
use Prim.Native.String
use spanreed_netcode_proxy.Prelude.{
  ℕ, Bool, true, false, not, Option, none, some, String, List, [], ◌∷◌, ◌++◌, get_or_else,
  if◌then◌else◌,
}
use spanreed_netcode_proxy.Log.{LogLevel, Output, LogCb, wrap_log_fn}
use spanreed_netcode_proxy.Page.{Connection, Transport, websocket, webtransport}
use spanreed_netcode_proxy.Ui.Button
use spanreed_netcode_proxy.Ui.Button.{click}
pub mod Loading
pub mod View

-- One call of `connectWebsocket` or `connectWebtransport`, with its arguments.
pub record Attempt : Type 0 where
  pub transport : Transport
  pub span_url : String
  pub dest_url : String
  pub user_name : String

-- The React state; the attempts whose promise is not settled; the connections that were handed to
-- `onOpenConnection`.
pub record Setup : Type 0 where
  pub loading : Bool
  pub left_selected : Bool
  pub user_name : String
  pub span_url : String
  pub dest_url : String
  pub in_flight : List Attempt
  pub opened : List Connection
  pub output : List Output

abbrev pub new_setup : Setup
new_setup = record {
  loading = false;
  left_selected = true;
  user_name = "Sessamekesh";
  span_url = "ws://localhost:3000/ws";
  dest_url = "udp:localhost:30001";
  in_flight = [];
  opened = [];
  output = [];
}

-- How the promise of the attempt that is in flight settles: with a connection, named by a number,
-- or with an error, of which only an `Error` or a string has a text.
pub data Settled : Type 0 where
  resolved : ℕ → Settled
  rejected : Option String → Settled

pub data Event : Type 0 where
  toggled connect_clicked : Event
  user_name_typed span_url_typed dest_url_typed : String → Event
  settled : Settled → Event

module _ (log_cb : LogCb) where
  abbrev log : String → Option LogLevel → List Output
  log msg level = wrap_log_fn "SetupConnectionComponent" log_cb msg level

  unfoldable pub chosen : Bool → Transport
  chosen true = websocket
  chosen false = webtransport

  -- `onClickConnect` up to its `await`.
  unfoldable pub begin_connect : Setup → Setup
  unfolding chosen
  begin_connect s = record s {
    loading = true;
    in_flight =
        record {
          transport = chosen s.left_selected;
          span_url = s.span_url;
          dest_url = s.dest_url;
          user_name = s.user_name;
        }
        ∷ s.in_flight;
    output = s.output ++ log "Attempting to connect..." none;
  }

  is_websocket : Transport → Bool
  is_websocket websocket = true
  is_websocket webtransport = false

  error_line : Transport → Option String → String
  error_line websocket e = String.◌++◌ "Error connecting to WebSocket! " (get_or_else e "<unknown>")
  error_line webtransport e =
      String.◌++◌ "Error connecting to WebTransport! " (get_or_else e "<unknown>")

  open_if : Bool → String → Connection → Setup → Setup
  open_if true warning c s = record s { loading = false; opened = c ∷ s.opened }
  open_if false warning c s = record s { output = s.output ++ log warning (some LogLevel.warning) }

  -- The rest of `onClickConnect`, with the check of the connection's type in either branch.
  end_connect : Attempt → Settled → Setup → Setup
  unfolding is_websocket error_line open_if
  end_connect a (resolved id) s =
      let c : Connection = record { id = id; type = a.transport; user_name = a.user_name } in
      if is_websocket a.transport
      then open_if (is_websocket c.type) "Not a WebSocket connection!" c s
      else open_if (not (is_websocket c.type)) "Not a WebTransport connection!" c s
  end_connect a (rejected e) s = record s {
    loading = false;
    output = s.output ++ log (error_line a.transport e) (some LogLevel.error);
  }

  settle : List Attempt → Settled → Setup → Setup
  unfolding end_connect
  settle [] r s = s
  settle (a ∷ rest) r s = end_connect a r (record s { in_flight = rest })

  after_button : Bool × Option (Unit {0}) → Setup → Setup
  unfolding begin_connect
  after_button (hover, none) s = s
  after_button (hover, some _) s = begin_connect s

  -- An input keeps its text while the form is loading; the switch of the transport does not.
  unfoldable pub handle : Event → Setup → Setup
  unfolding settle after_button Button.on_event
  handle toggled s = record s { left_selected = not s.left_selected }
  handle connect_clicked s = after_button (Button.on_event (some tt) s.loading click false) s
  handle (user_name_typed v) s =
      if s.loading then record s { user_name = s.user_name } else record s { user_name = v }
  handle (span_url_typed v) s =
      if s.loading then record s { span_url = s.span_url } else record s { span_url = v }
  handle (dest_url_typed v) s =
      if s.loading then record s { dest_url = s.dest_url } else record s { dest_url = v }
  handle (settled r) s = settle s.in_flight r s

  unfoldable pub run : List Event → Setup → Setup
  run [] s = s
  run (e ∷ es) s = run es (handle e s)
