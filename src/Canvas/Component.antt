-- ===== src/Canvas/Component.antt =====
-- examples/hello-spanreed/client/src/DemoCanvas.tsx: the effects of the canvas component, and its
-- click handler.
use spanreed_netcode_proxy.Prelude.{ℕ, Option, none, some, List, [], ◌∷◌, ◌++◌, get_or_else}
use spanreed_netcode_proxy.Log.{LogCb, wrap_log_fn}
use spanreed_netcode_proxy.Canvas.Numbers.{Numbers}
use spanreed_netcode_proxy.Canvas.Instances.{Instance, Color8}
use spanreed_netcode_proxy.Canvas.Colors
use spanreed_netcode_proxy.Canvas.Gl.{Gl, World}
use spanreed_netcode_proxy.Canvas.Renderer.{DemoRenderer, create}
use spanreed_netcode_proxy.Canvas.Frames.{Loop, start, update}
pub mod Shown

-- What `getBoundingClientRect` gives.
pub record Rect (N : Type 0) : Type 0 where
  pub left : N
  pub top : N
  pub width : N
  pub height : N

module _ (js : Numbers) where
  open js use {Number, number, mul, div, sub}

  abbrev default_dot : Color8 → ℕ → Instance js
  default_dot color x = record { color = color; radius = number 20; x = number x; y = number 200 }

  abbrev pub default_dot_state : List (Instance js)
  default_dot_state =
      default_dot Colors.red 80
      ∷ default_dot Colors.green 140
      ∷ default_dot Colors.blue 200
      ∷ default_dot Colors.indigo 260
      ∷ default_dot Colors.fire_orange 320
      ∷ []

  -- The point that a click on the canvas hands to `onClick`; `none` for a click on anything else.
  unfoldable pub clicked_point :
      Option (Rect Number) → (client_x client_y : Number) → Option (Number × Number)
  clicked_point none client_x client_y = none
  clicked_point (some rect) client_x client_y = some (
    mul (div (sub client_x rect.left) rect.width) (number 400),
    mul (div (sub client_y rect.top) rect.height) (number 400),
  )

  -- What the effect for a context does after its log line: the renderer is made, started, and
  -- given the default dots.
  mounted : (handle : ℕ) → Option DemoRenderer × World → Option Loop × World
  mounted handle (none, w) = (none, w)
  mounted handle (some r, w) =
      let l =
        update js default_dot_state
          (start handle (record { renderer = r; world = w; pending = [] })) in
      (some l, l.world)

  unfoldable pub mount : Gl → LogCb → (handle : ℕ) → World → Option Loop × World
  unfolding mounted
  mount gl log_fn handle w =
      let lines = wrap_log_fn "DemoCanvas" log_fn "Creating new renderer!" none in
      mounted handle (create js gl log_fn (record w { output = w.output ++ lines }))

  -- The effect for new dots.
  pub show_dots : Option (List (Instance js)) → Loop → Loop
  show_dots dots l = update js (get_or_else dots default_dot_state) l
