-- ===== src/Ui/Console.antt =====
-- examples/hello-spanreed/client/src/Console.tsx: the rows that the console of the page shows.
use Prim.Native.String
use spanreed_netcode_proxy.Prelude.{ℕ, ◌+◌, Option, none, some, String, List, [], ◌∷◌, ◌++◌}
use spanreed_netcode_proxy.Log.{LogLevel}
use spanreed_netcode_proxy.Ui.Html.{Html, Properties, words, element, children}
pub mod Rows
pub mod Seeking

-- The colour of a row's text; a debug line has none of its own.
pub msg_css_extra : LogLevel → Option String
msg_css_extra LogLevel.warning = some "#eed202"
msg_css_extra LogLevel.error = some "#cc3300"
msg_css_extra LogLevel.info = some "#40a6ce"
msg_css_extra LogLevel.user_chat = some "#2ced0e"
msg_css_extra LogLevel.debug = none

pub record Row : Type 0 where
  pub number : ℕ
  pub color : Option String
  pub msg : String

pub row : ℕ → String × LogLevel → Row
unfolding msg_css_extra
row idx (msg, log_level) = record { number = idx + 1; color = msg_css_extra log_level; msg = msg }

-- `lines.map(…)`, from an index on.
pub rows_from : ℕ → List (String × LogLevel) → List Row
unfolding row
rows_from idx [] = []
rows_from idx (line ∷ lines) = row idx line ∷ rows_from (idx + 1) lines

pub rows : List (String × LogLevel) → List Row
unfolding rows_from
rows lines = rows_from 0 lines

abbrev coloured : Option String → Properties
coloured none = []
coloured (some c) = ("color", c) ∷ []

module _ {E : Type 0} (show : ℕ → String) where
  row_view : ℕ → Row → Html E
  row_view idx r = element "span" (("key", String.◌++◌ "msgidx-" (show idx)) ∷ []) [] [] (
      children (
        element "span" []
          (("color", "#aaa")
            ∷ ("borderRight", "1px solid #eee")
            ∷ ("marginRight", "1ch")
            ∷ ("paddingRight", "0.25ch")
            ∷ ("marginLeft", "0.5ch")
            ∷ [])
          [] (children (words (show r.number) ∷ []))
        ∷ element "span" (("id", String.◌++◌ "msg-" (show idx)) ∷ []) (coloured r.color) []
            (children (words r.msg ∷ []))
        ∷ element "br" [] [] [] (children [])
        ∷ []))

  row_views : ℕ → List (String × LogLevel) → List (Html E)
  unfolding row_view
  row_views idx [] = []
  row_views idx (line ∷ lines) = row_view idx (row idx line) ∷ row_views (idx + 1) lines

  -- What is rendered. The last child is what the page scrolls to.
  unfoldable pub view : List (String × LogLevel) → Html E
  unfolding row_views
  view lines =
      element "div" []
        (("height", "200px")
          ∷ ("resize", "both")
          ∷ ("width", "80ch")
          ∷ ("maxWidth", "200ch")
          ∷ ("backgroundColor", "#282A36")
          ∷ ("borderRadius", "4px")
          ∷ ("border", "1px solid #aaa")
          ∷ ("fontFamily", "'Courier New', Courier, monospace")
          ∷ ("padding", "4px")
          ∷ ("margin", "8px")
          ∷ ("overflow", "scroll")
          ∷ ("textOverflow", "ellipsis")
          ∷ ("whiteSpace", "nowrap")
          ∷ [])
        [] (children (row_views 0 lines ++ element "div" [] [] [] (children []) ∷ []))
