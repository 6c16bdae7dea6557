-- ===== src/Ui/DemoPage.antt =====
-- What the page renders: examples/hello-spanreed/client/src/DemoPage.tsx, with
-- `ConnectionStateComponent` and DemoCanvas.tsx. Each component has its own state, which the page
-- does not hold. The handler of the canvas, which asks for a position, stands in Canvas.Component.
use spanreed_netcode_proxy.Prelude.{ℕ, Bool, false, String, Option, none, some, List, [], ◌∷◌, ◌++◌}
use spanreed_netcode_proxy.Log.{LogLevel}
use spanreed_netcode_proxy.Page.{Connection, Transport, websocket, webtransport}
use spanreed_netcode_proxy.Ui.Html.{Html, words, element, children, component}
use spanreed_netcode_proxy.Ui.Button
use spanreed_netcode_proxy.Ui.Button.{ButtonEvent}
use spanreed_netcode_proxy.Ui.ChatBox
use spanreed_netcode_proxy.Ui.ChatBox.{ChatBox}
use spanreed_netcode_proxy.Ui.Setup.View
use spanreed_netcode_proxy.Ui.Setup.View.{SetupView, ViewEvent}
use spanreed_netcode_proxy.Ui.Console
pub mod Offering

pub data PageEvent : Type 0 where
  on_setup : ViewEvent → PageEvent
  on_close : ButtonEvent → PageEvent
  on_chat : ChatBox.Event → PageEvent

abbrev transport_name : Transport → String
transport_name websocket = "Websocket"
transport_name webtransport = "WebTransport"

connection_state_view : Option Connection → (hover : Bool) → SetupView → Html PageEvent
connection_state_view none hover setup = component on_setup (View.view setup)
connection_state_view (some c) hover setup =
    element "div" []
      (("display", "flex")
        ∷ ("flexDirection", "row")
        ∷ ("justifyContent", "space-between")
        ∷ ("alignItems", "center")
        ∷ ("padding", "8px 20px")
        ∷ [])
      []
      (children (
        element "p" [] (("fontWeight", "700") ∷ ("fontSize", "18pt") ∷ ("margin", "0") ∷ []) [] (
          children
            (words (transport_name c.type) ∷ words " " ∷ words "connection status: open" ∷ []))
        ∷ Button.view on_close hover false (words "Close" ∷ [])
        ∷ []))

canvas_view : Html PageEvent
canvas_view =
    element "canvas" []
      (("backgroundColor", "#357")
        ∷ ("width", "400px")
        ∷ ("height", "400px")
        ∷ ("margin", "12px")
        ∷ ("alignSelf", "center")
        ∷ [])
      [] (children (words "HTML5 Canvas not supported!" ∷ []))

outer_container : List (Html PageEvent) → Html PageEvent
outer_container inside =
    element "div" []
      (("border", "4px solid #fff")
        ∷ ("borderRadius", "8px")
        ∷ ("display", "flex")
        ∷ ("flexDirection", "column")
        ∷ ("maxWidth", "800px")
        ∷ ("marginLeft", "auto")
        ∷ ("marginRight", "auto")
        ∷ [])
      [] (children inside)

-- `{connection !== undefined && …}`
chat_view : Option Connection → ChatBox → List (Html PageEvent)
chat_view none chat = []
chat_view (some c) chat = component on_chat (ChatBox.view c.user_name chat) ∷ []

unfoldable pub view :
    (show : ℕ → String) (connection : Option Connection) (close_hover : Bool) (setup : SetupView)
    (chat : ChatBox) (lines : List (String × LogLevel))
    → Html PageEvent
unfolding outer_container canvas_view connection_state_view chat_view
view show connection close_hover setup chat lines = outer_container (
    element "span" []
        (("alignSelf", "center")
          ∷ ("fontSize", "24pt")
          ∷ ("fontWeight", "700")
          ∷ ("marginTop", "4px")
          ∷ [])
        [] (children (words "Hello Spanreed Client" ∷ []))
      ∷ canvas_view
      ∷ connection_state_view connection close_hover setup
      ∷ chat_view connection chat
    ++ Console.view show lines ∷ [])
