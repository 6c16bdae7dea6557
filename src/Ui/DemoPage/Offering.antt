-- ===== src/Ui/DemoPage/Offering.antt =====
-- What the page of examples/hello-spanreed/client/src/DemoPage.tsx offers its user.
use spanreed_netcode_proxy.Prelude.{
  ℕ, ◌≡◌, refl, Bool, not, ◌&&◌, String, Option, none, some, List, is_some,
}
use text.Mathlib.Text
use spanreed_netcode_proxy.Log.{LogLevel}
use spanreed_netcode_proxy.Page.{Connection}
use spanreed_netcode_proxy.Ui.Html.{Html, Properties, property, seek, seek_in, component}
use spanreed_netcode_proxy.Ui.Button
use spanreed_netcode_proxy.Ui.ChatBox
use spanreed_netcode_proxy.Ui.ChatBox.{ChatBox}
use spanreed_netcode_proxy.Ui.Setup.View
use spanreed_netcode_proxy.Ui.Setup.View.{SetupView}
use spanreed_netcode_proxy.Ui.Console.Seeking.{seek-view}
use spanreed_netcode_proxy.Ui.DemoPage.{
  PageEvent, view, connection_state_view, canvas_view, outer_container, chat_view,
}

abbrev is_form : String → Properties → Bool
is_form tag attributes = Text.◌==◌ tag "form"

-- The input of the chat box is the one without an id.
abbrev is_chat_input : String → Properties → Bool
is_chat_input tag attributes = Text.◌==◌ tag "input" && not (is_some (property "id" attributes))

-- There is a form, for the addresses of a connection; there is an input for a chat message.
abbrev pub offers_form : Html PageEvent → Bool
offers_form h = is_some (seek is_form h)

abbrev pub offers_chat : Html PageEvent → Bool
offers_chat h = is_some (seek is_chat_input h)

-- The page offers the form to connect exactly while it has no connection, and the chat box exactly
-- while it has one, whatever the states of the components and the lines of the console are.
pub offers_form-view :
    (show : ℕ → String) (connection : Option Connection) (close_hover : Bool) (setup : SetupView)
    (chat : ChatBox) (lines : List (String × LogLevel))
    → let h = view show connection close_hover setup chat lines in
      (offers_form h ≡ not (is_some connection)) × (offers_chat h ≡ is_some connection)
unfolding view connection_state_view canvas_view outer_container chat_view seek seek_in component
    View.view ChatBox.view Button.view
offers_form-view show none close_hover setup chat lines = (
  refl,
  rw (seek-view {E = PageEvent} show is_chat_input (λ a. refl) (λ a. refl) (λ a. refl) lines) refl,
)
offers_form-view show (some c) close_hover setup chat lines = (
  rw (seek-view {E = PageEvent} show is_form (λ a. refl) (λ a. refl) (λ a. refl) lines) refl,
  refl,
)
