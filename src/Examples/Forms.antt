-- ===== src/Examples/Forms.antt =====
-- The forms in use.
use Prim.Native.String.{String}
use text.Mathlib.TextEquality.{eq_iff}
use spanreed_netcode_proxy.Prelude.{
  All, ◌≡◌, ◌≢◌, arith, refl, inl, none, some, false, List, [], ◌∷◌,
}
use spanreed_netcode_proxy.Log.{default_log_cb, LogLevel}
use spanreed_netcode_proxy.Page.{Connection, websocket}
use spanreed_netcode_proxy.Ui.Setup.View
use spanreed_netcode_proxy.Ui.Setup.View.{SetupView, ViewEvent}
use spanreed_netcode_proxy.Ui.Setup.View.Typing.{
  user_name, shows, reports, is_same, typed_text, shows-step,
}
use spanreed_netcode_proxy.Ui.Button.{click}
use spanreed_netcode_proxy.Ui.ChatBox
use spanreed_netcode_proxy.Ui.ChatBox.{ChatBox, new_chat_box, changed, key_down, button_event}
use spanreed_netcode_proxy.Ui.ChatBox.Submission.{WasTyped, run-All-ByMouse}
use spanreed_netcode_proxy.Ui.Setup
use spanreed_netcode_proxy.Ui.Setup.{
  new_setup, toggled, connect_clicked, user_name_typed, settled, rejected,
}
use spanreed_netcode_proxy.Ui.Setup.Loading.{IsOrderly, run-IsOrderly}

abbrev typing : List ChatBox.Event
typing = button_event click ∷ changed "hi" ∷ button_event click ∷ button_event click ∷ []

says_hi : (ChatBox.run typing new_chat_box).submitted ≡ "hi" ∷ []
unfolding ChatBox.run ChatBox.handle
says_hi = refl

-- A text is typed and the button clicked, twice: the second time the box is empty.
abbrev chat_events : List ChatBox.Event
chat_events =
    changed "h" ∷ changed "hi" ∷ button_event click ∷ key_down "a" ∷ button_event click ∷ []

abbrev letter : String
letter = "a"

abbrev greeting : String
greeting = "hi"

letter_is_not_enter : letter ≢ "Enter"
letter_is_not_enter h = ground (arith, h, eq_iff letter "Enter")

run-All-ByMouse_example : All (λ s. (s ≢ "") × WasTyped s chat_events) (greeting ∷ [])
unfolding ChatBox.run ChatBox.handle
run-All-ByMouse_example = run-All-ByMouse chat_events (letter_is_not_enter, tt)

abbrev clicks : List Setup.Event
clicks =
    user_name_typed "a"
    ∷ connect_clicked
    ∷ connect_clicked
    ∷ toggled
    ∷ user_name_typed "b"
    ∷ settled (rejected none)
    ∷ connect_clicked
    ∷ []

run-IsOrderly_example : IsOrderly (Setup.run default_log_cb clicks new_setup)
run-IsOrderly_example = run-IsOrderly default_log_cb clicks new_setup (inl (refl, refl))

abbrev lines : List (String × LogLevel)
lines = ("hello", LogLevel.info) ∷ ("[u]: hi", LogLevel.user_chat) ∷ []

abbrev form : SetupView
form = record { form = new_setup; hover = false }

shows-step_example :
    (typed : String → ViewEvent) × (old : String) × (reports user_name form ≡ some typed)
    × (shows user_name form ≡ some old)
    × (shows user_name (View.step default_log_cb (typed "Ann") form)
        ≡ some (typed_text false (is_same user_name user_name) old "Ann"))
shows-step_example = shows-step default_log_cb user_name user_name "Ann" form

abbrev ann : Connection
ann = record { id = 1; type = websocket; user_name = "Ann" }
