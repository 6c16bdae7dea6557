-- ===== src/Page.antt =====
-- The page that holds the connection: examples/hello-spanreed/client/src/DemoPage.tsx. Its state
-- is its React state, and what it has done to the connections that it was given.
use spanreed_netcode_proxy.Prelude.{
  ℕ, Bool, true, false, Option, none, some, String, List, [], ◌∷◌, ◌++◌, ◌==◌, get_or_else,
  if◌then◌else◌,
}
use spanreed_netcode_proxy.Log.{
  LogLevel, Output, console_log, page_line, LogCb, default_log_cb, wrap_log_fn,
}
use spanreed_netcode_proxy.Canvas.Numbers.{Numbers}
use spanreed_netcode_proxy.Canvas.Instances.{Instance, Color8}
use spanreed_netcode_proxy.Wire.Flatbuffers.{Bytes}
pub mod Messages
pub mod Effects

pub data Transport : Type 0 where
  websocket webtransport : Transport

-- `Connection` of Connection.ts; `id` tells connections apart.
pub record Connection : Type 0 where
  pub id : ℕ
  pub type : Transport
  pub user_name : String

-- `LogFn`: the default output, and once more the console and the page.
pub log_fn : LogCb
unfolding default_log_cb
log_fn msg level =
    default_log_cb msg (some (get_or_else level LogLevel.info))
    ++ console_log msg ∷ page_line msg (get_or_else level LogLevel.info) ∷ []

unfoldable pub log : LogCb
unfolding wrap_log_fn log_fn
log = wrap_log_fn "DemoPage" log_fn

module _ (js : Numbers) where
  -- `closed` are the connections whose `close` was called, `sent` what was sent and where,
  -- `reading` the WebTransport connections whose read loop runs, `aborted` those whose writer was
  -- aborted.
  pub record Page : Type 0 where
    pub connection : Option Connection
    pub dots : Option (List (Instance js))
    pub output : List Output
    pub closed : List ℕ
    pub sent : List (ℕ × Bytes)
    pub reading : List ℕ
    pub aborted : List ℕ

  abbrev pub say : List Output → Page → Page
  say lines page = record page { output = page.output ++ lines }

  same : Option Connection → Option Connection → Bool
  same none none = true
  same (some c) (some d) = c.id == d.id
  same _ _ = false

  -- The cleanup of the effect for a connection.
  cleanup : Option Connection → Page → Page
  cleanup none page = page
  cleanup (some c) page = record page { dots = none; closed = c.id ∷ page.closed }

  -- The effect for a connection: the read loop of a WebTransport connection starts.
  begin_reading : Transport → ℕ → Page → Page
  begin_reading websocket id page = page
  begin_reading webtransport id page = record page { reading = id ∷ page.reading }

  setup : Option Connection → Page → Page
  unfolding begin_reading
  setup none page = page
  setup (some c) page = begin_reading c.type c.id page

  -- `setConnection`, with the effects that React runs for a new value.
  pub set_connection : Option Connection → Page → Page
  unfolding same cleanup setup
  set_connection new page =
      if same page.connection new
      then page
      else setup new (record (cleanup page.connection page) { connection = new })

  -- What the page sends goes to its connection, if it has one.
  pub send : Bytes → Page → Page
  send payload page = elim page.connection [
    | none ↦ page
    | some c ↦ record page { sent = (c.id, payload) ∷ page.sent }
  ]
