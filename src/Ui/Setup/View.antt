-- ===== src/Ui/Setup/View.antt =====
-- What `ConnectionStateComponent` and `SetupConnectionComponent` of
-- examples/hello-spanreed/client/src/ConnectionStateComponent.tsx render.
pub mod Typing
use spanreed_netcode_proxy.Prelude.{
  Bool, true, false, not, String, Option, none, some, List, [], ◌∷◌, ◌++◌, if◌then◌else◌,
}
use spanreed_netcode_proxy.Log.{LogCb}
use spanreed_netcode_proxy.Page.{Connection, Transport, websocket, webtransport}
use spanreed_netcode_proxy.Ui.Html.{
  Properties, when, Html, words, element, children, on_click, on_change,
}
use spanreed_netcode_proxy.Ui.Button
use spanreed_netcode_proxy.Ui.Button.{ButtonEvent, click}
use spanreed_netcode_proxy.Ui.Setup.{
  Setup, Event, toggled, connect_clicked, user_name_typed, span_url_typed, dest_url_typed, handle,
}

-- The form, and the `hover` of its button.
pub record SetupView : Type 0 where
  pub form : Setup
  pub hover : Bool

pub data ViewEvent : Type 0 where
  on_form : Event → ViewEvent
  on_button : ButtonEvent → ViewEvent

-- A click on the button is `connect_clicked`, which asks the button whether it is disabled.
unfoldable pub step : LogCb → ViewEvent → SetupView → SetupView
step log_cb (on_form e) v = record v { form = handle log_cb e v.form }
step log_cb (on_button click) v = record v { form = handle log_cb connect_clicked v.form }
step log_cb (on_button e) v = record v {
  hover = (Button.on_event (some tt) v.form.loading e v.hover).0;
}

abbrev diag_btn_common_style : Properties
diag_btn_common_style =
    ("position", "absolute")
    ∷ ("float", "left")
    ∷ ("width", "130px")
    ∷ ("height", "0")
    ∷ ("cursor", "pointer")
    ∷ ("userSelect", "none")
    ∷ []

abbrev url_input_style : Properties
url_input_style =
    ("minWidth", "250px")
    ∷ ("borderRadius", "4px")
    ∷ ("border", "2px solid #88cc88")
    ∷ ("backgroundColor", "#3E4544")
    ∷ ("color", "#eee")
    ∷ ("padding", "4px 8px")
    ∷ []

-- The text on a half of the switch, at its height.
abbrev switch_text : (name top : String) → Html ViewEvent
switch_text name top =
    element "span" []
      (("position", "relative")
        ∷ ("float", "left")
        ∷ ("width", "100%")
        ∷ ("height", "auto")
        ∷ ("margin", "0")
        ∷ ("padding", "0")
        ∷ ("top", top)
        ∷ [])
      [] (children (words name ∷ []))

-- The switch between the transports; the half that is selected is coloured.
transport_switch : (left_selected : Bool) → Html ViewEvent
transport_switch left_selected =
    element "div" []
      (("marginLeft", "20px")
        ∷ ("position", "relative")
        ∷ ("width", "280px")
        ∷ ("border", "2px solid #fff")
        ∷ ("height", "30px")
        ∷ ("textAlign", "center")
        ∷ [])
      (on_click (on_form toggled) ∷ [])
      (children (
        element "div" []
          (diag_btn_common_style
            ++ (("left", "0")
                ∷ ("borderTop", "30px solid black")
                ∷ ("borderRight", "20px solid transparent")
                ∷ ("zIndex", "1")
                ∷ ("color", "#888")
                ∷ when left_selected
                    (("borderTop", "30px solid #4538e5") ∷ ("color", "#fff") ∷ [])))
          [] (children (switch_text "WebSocket" "-27px" ∷ []))
        ∷ element "div" []
            (("borderRight", "2px solid #fff")
              ∷ ("height", "36px")
              ∷ ("top", "-3px")
              ∷ ("position", "absolute")
              ∷ ("right", "50%")
              ∷ ("transform", "rotate(34deg) translateZ(0px)")
              ∷ ("zIndex", "1")
              ∷ [])
            [] (children [])
        ∷ element "div" []
            (diag_btn_common_style
              ++ (("right", "0")
                  ∷ ("zIndex", "2")
                  ∷ ("borderLeft", "20px solid transparent")
                  ∷ ("borderBottom", "30px solid black")
                  ∷ ("color", "#888")
                  ∷ when (not left_selected)
                      (("borderBottom", "30px solid #4538e5") ∷ ("color", "#fff") ∷ [])))
            [] (children (switch_text "WebTransport" "3px" ∷ []))
        ∷ []))

header : (left_selected : Bool) → Html ViewEvent
unfolding transport_switch
header left_selected =
    element "div" []
      (("display", "flex")
        ∷ ("flexDirection", "row")
        ∷ ("justifyContent", "space-between")
        ∷ ("width", "100%")
        ∷ ("alignItems", "center")
        ∷ [])
      []
      (children (
        element "p" []
          (("margin", "0") ∷ ("fontSize", "14pt") ∷ ("fontWeight", "700") ∷ ("color", "#ccc") ∷ [])
          [] (children (words "Open Connection" ∷ []))
        ∷ transport_switch left_selected
        ∷ []))

abbrev label : (id text : String) → Html ViewEvent
label id text = element "label" (("htmlFor", id) ∷ []) [] [] (children (words text ∷ []))

abbrev input : Properties → (value : String) → (String → ViewEvent) → Html ViewEvent
input attributes value typed =
    element "input" (attributes ++ ("value", value) ∷ []) url_input_style (on_change typed ∷ [])
      (children [])

-- The inputs for the user's name and for the addresses, each with its label.
address_inputs : Setup → Html ViewEvent
address_inputs s =
    element "form" []
      (("marginBottom", "24px")
        ∷ ("marginTop", "12px")
        ∷ ("display", "grid")
        ∷ ("gridTemplateColumns", "2fr 5fr")
        ∷ ("gap", "10px")
        ∷ [])
      []
      (children (
        label "tb-username" "Spanreed Proxy Address:"
        ∷ input (("type", "text") ∷ ("id", "tb-username") ∷ ("placeholder", "Sessamekesh") ∷ [])
            s.user_name (λ v. on_form (user_name_typed v))
        ∷ label "tb-spanreed-url" "Spanreed Proxy Address:"
        ∷ input
            (("type", "url")
              ∷ ("id", "tb-spanreed-url")
              ∷ ("pattern", if s.left_selected then "wss?://.*" else "https://.*")
              ∷ (
                "placeholder",
                if s.left_selected
                    then "ws://spanreed.example.com/ws"
                    else "https://spanreed.example.com/wt",
              )
              ∷ [])
            s.span_url (λ v. on_form (span_url_typed v))
        ∷ label "tb-backend-url" "Demo Server Address:"
        ∷ input
            (("id", "tb-backend-url")
              ∷ ("type", "text")
              ∷ ("placeholder", "URL or IP address")
              ∷ [])
            s.dest_url (λ v. on_form (dest_url_typed v))
        ∷ []))

-- The button to connect.
abbrev pub connect_button : SetupView → Html ViewEvent
connect_button v =
    Button.view on_button v.hover v.form.loading
      (element "span" [] [] [] (children (words "Connect!" ∷ [])) ∷ [])

unfoldable pub view : SetupView → Html ViewEvent
unfolding header address_inputs
view v =
    element "div" []
      (("display", "flex")
        ∷ ("flexDirection", "column")
        ∷ ("padding", "16px 12px")
        ∷ ("margin", "4px 12px")
        ∷ ("borderRadius", "4px")
        ∷ ("border", "1px solid #eee")
        ∷ [])
      [] (children (header v.form.left_selected ∷ address_inputs v.form ∷ connect_button v ∷ []))
