-- ===== src/Ui/ChatBox.antt =====
-- examples/hello-spanreed/client/src/ChatBox.tsx
use spanreed_netcode_proxy.Prelude.{
  Bool, true, false, Option, none, some, String, List, [], ◌∷◌, ◌++◌, if◌then◌else◌,
}
use text.Mathlib.Text.{◌==◌}
use spanreed_netcode_proxy.Ui.Html.{Html, words, element, children, on_change, on_key_down}
use spanreed_netcode_proxy.Ui.Button
use spanreed_netcode_proxy.Ui.Button.{ButtonEvent}
pub mod Submission

-- `chatMsg`, the `hover` of the button, and the texts that were handed to `onSubmit`.
pub record ChatBox : Type 0 where
  pub chat_msg : String
  pub hover : Bool
  pub submitted : List String

abbrev pub new_chat_box : ChatBox
new_chat_box = record { chat_msg = ""; hover = false; submitted = [] }

pub data Event : Type 0 where
  changed : String → Event
  key_down : String → Event
  button_event : ButtonEvent → Event

-- `onSubmit(chatMsg); setChatMsg('');`
pub submit : ChatBox → ChatBox
submit c = record c { chat_msg = ""; submitted = c.submitted ++ c.chat_msg ∷ [] }

after_button : Bool × Option (Unit {0}) → ChatBox → ChatBox
unfolding submit
after_button (hover, none) c = record c { hover = hover }
after_button (hover, some _) c = submit (record c { hover = hover })

unfoldable pub handle : Event → ChatBox → ChatBox
unfolding submit after_button Button.on_event
handle (changed value) c = record c { chat_msg = value }
handle (key_down key) c = if key == "Enter" then submit c else c
handle (button_event e) c = after_button (Button.on_event (some tt) (c.chat_msg == "") e c.hover) c

unfoldable pub run : List Event → ChatBox → ChatBox
run [] c = c
run (e ∷ es) c = run es (handle e c)

-- What is rendered.
unfoldable pub view : (nickname : String) → ChatBox → Html Event
view nickname c =
    element "div" []
      (("display", "flex")
        ∷ ("flexDirection", "column")
        ∷ ("padding", "8px 12px")
        ∷ ("border", "2px solid #ccc")
        ∷ [])
      []
      (children (
        element "p" []
          (("margin", "0") ∷ ("fontSize", "14pt") ∷ ("fontWeight", "700") ∷ ("color", "#ccc") ∷ [])
          [] (children (words "Send chat as: " ∷ words nickname ∷ []))
        ∷ element "div" [] (("display", "flex") ∷ ("flexDirection", "row") ∷ []) [] (
            children (
              element "input" (("type", "text") ∷ ("value", c.chat_msg) ∷ [])
                (("border", "2px solid #88cc88")
                  ∷ ("backgroundColor", "#3E4544")
                  ∷ ("color", "#eee")
                  ∷ ("resize", "none")
                  ∷ ("minWidth", "250px")
                  ∷ ("borderRadius", "4px")
                  ∷ ("padding", "4px 8px")
                  ∷ ("margin", "8px 12px 8px 0")
                  ∷ ("flexGrow", "1")
                  ∷ [])
                (on_change changed ∷ on_key_down key_down ∷ []) (children [])
              ∷ Button.view button_event c.hover (c.chat_msg == "") (words "Submit!" ∷ [])
              ∷ []))
        ∷ []))
