-- ===== src/Log.antt =====
-- examples/hello-spanreed/client/src/log.ts. A log callback is what it writes: a list of
-- outputs, in the order in which they are made.
use Prim.Native.String
use spanreed_netcode_proxy.Prelude.{String, Option, List, [], ◌∷◌, get_or_else}

pub data LogLevel : Type 0 where
  debug info warning error user_chat : LogLevel

-- `console.log`, `console.warn`, `console.error`, and a line added to the page's own console.
pub data Output : Type 0 where
  console_log console_warn console_error : String → Output
  page_line : String → LogLevel → Output

abbrev pub LogCb : Type 0
LogCb = String → Option LogLevel → List Output

abbrev concat : String → String → String
concat s t = String.◌++◌ s t

-- The text `[${name}] ${msg}`.
unfoldable pub tagged : String → String → String
tagged name msg = concat (concat (concat "[" name) "] ") msg

unfoldable pub wrap_log_fn : String → LogCb → LogCb
wrap_log_fn name log_cb msg level = log_cb (tagged name msg) level

default_output : LogLevel → String → List Output
default_output LogLevel.debug msg = console_log msg ∷ []
default_output LogLevel.info msg = console_log msg ∷ []
default_output LogLevel.warning msg = console_warn msg ∷ []
default_output LogLevel.error msg = console_error msg ∷ []
default_output LogLevel.user_chat msg = []

unfoldable pub default_log_cb : LogCb
unfolding default_output
default_log_cb msg level = default_output (get_or_else level LogLevel.info) msg
