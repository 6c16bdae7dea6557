-- ===== src/Ui/Button.antt =====
-- examples/hello-spanreed/client/src/common/Button.tsx
use spanreed_netcode_proxy.Prelude.{
  Bool, true, false, not, Option, none, some, String, List, [], ◌∷◌, ◌++◌, if◌then◌else◌,
}
use spanreed_netcode_proxy.Ui.Html.{
  Html, element, children, when, on_click, on_mouse_enter, on_mouse_leave,
}

-- An event on the button.
pub data ButtonEvent : Type 0 where
  mouse_enter mouse_leave click : ButtonEvent

-- The parts of the style that depend on the state; the others are constants.
pub record Style : Type 0 where
  pub background_color : String
  pub border : String
  pub color : Option String
  pub cursor : String

abbrev base_style : Style
base_style = record {
  background_color = "#4538e5";
  border = "1px solid #eee";
  color = none;
  cursor = "pointer";
}

abbrev hovered : Style → Style
hovered s = record s {
  background_color = "#1C09EE";
  border = "1px solid #1C09EE";
  color = some "#fff";
}

abbrev greyed : Style → Style
greyed s = record s { background_color = "#333"; color = some "#aaa"; cursor = "not-allowed" }

unfoldable pub style : (hover disabled : Bool) → Style
style hover disabled =
    let s = if hover then hovered base_style else base_style in if disabled then greyed s else s

-- The new `hover`, and what the button calls: `!disabled && onClick?.()`.
unfoldable pub on_event :
    {A : Type 0} → Option A → (disabled : Bool) → ButtonEvent → Bool → Bool × Option A
on_event called disabled mouse_enter hover = (true, none)
on_event called disabled mouse_leave hover = (false, none)
on_event called disabled click hover = (hover, if not disabled then called else none)

-- What is rendered; `report` says what an event on the button is for the component that has it.
unfoldable pub view :
    {E : Type 0} → (report : ButtonEvent → E) → (hover disabled : Bool) → List (Html E) → Html E
view report hover disabled inside =
    element "div" []
      (("marginLeft", "auto")
          ∷ ("backgroundColor", "#4538e5")
          ∷ ("padding", "8px 28px")
          ∷ ("border", "1px solid #eee")
          ∷ ("borderRadius", "8px")
          ∷ ("fontWeight", "700")
          ∷ ("fontSize", "14pt")
          ∷ ("cursor", "pointer")
          ∷ ("userSelect", "none")
          ∷ when hover (
              ("backgroundColor", "#1C09EE")
              ∷ ("border", "1px solid #1C09EE")
              ∷ ("color", "#fff")
              ∷ [])
        ++ when disabled
            (("backgroundColor", "#333") ∷ ("color", "#aaa") ∷ ("cursor", "not-allowed") ∷ []))
      (on_mouse_enter (report mouse_enter)
        ∷ on_mouse_leave (report mouse_leave)
        ∷ on_click (report click)
        ∷ [])
      (children inside)
