-- ===== src/Canvas/Frames.antt =====
-- The animation of examples/hello-spanreed/client/src/DemoRenderer.ts: `start`, the callback
-- `frame` that it schedules, and `destroy`. The browser's side is its list of pending animation
-- frames; the handles that `requestAnimationFrame` returns are arguments.
-- `performance.now` and the `dt` that is computed from it have no effect and are left out.
use spanreed_netcode_proxy.Prelude.{
  ℕ, ◌+◌, ◌*◌, ◌<◌, Bool, true, false, Option, none, some, List, [], ◌∷◌, ltb, ◌==◌, if◌then◌else◌,
}
use spanreed_netcode_proxy.Canvas.Numbers.{Numbers}
use spanreed_netcode_proxy.Canvas.Instances.{Instance}
use spanreed_netcode_proxy.Canvas.Gl.{
  World, Action, Rgba, ◌>>=◌, ◌>>◌, call, pure, clear, clear_color, viewport, actions,
}
use spanreed_netcode_proxy.Canvas.Shader.{draw}
use spanreed_netcode_proxy.Canvas.Renderer.{DemoRenderer, circle_segment_count, set_instances}
pub mod Animation
pub mod Safety
pub mod Draws

abbrev background : Rgba
background = record { r = 2000; g = 3330; b = 4666; a = 10000 }

-- The renderer, what has been done with the context, and the pending frames.
pub record Loop : Type 0 where
  pub renderer : DemoRenderer
  pub world : World
  pub pending : List ℕ

abbrev pub remove : ℕ → List ℕ → List ℕ
remove h [] = []
remove h (k ∷ ks) = if k == h then remove h ks else k ∷ remove h ks

abbrev pub contains : ℕ → List ℕ → Bool
contains h [] = false
contains h (k ∷ ks) = if k == h then true else contains h ks

-- What the canvas measures: an HTML canvas by its client size times the pixel ratio, as stored in
-- its integer attributes, any other by 400 times 400.
abbrev pub canvas_size : Option (ℕ × ℕ) → ℕ × ℕ
canvas_size (some size) = size
canvas_size none = (400, 400)

-- `this.raf = requestAnimationFrame(frame)`, which returns `handle`.
abbrev pub request : ℕ → Loop → Loop
request handle l = record l {
  renderer = record l.renderer { raf = some handle };
  pending = handle ∷ l.pending;
}

unfoldable pub start : ℕ → Loop → Loop
start handle l = request handle l

-- The calls of one frame.
pub paint : Option (ℕ × ℕ) → DemoRenderer → Action (Unit {0})
paint measured r = do
  call (clear_color background)
  call clear
  let (width, height) = canvas_size measured
  call (viewport width height)
  if ltb 0 r.instance_ct
      then draw r.solid_shader r.vao (circle_segment_count * 3) r.instance_ct 400 400
      else pure tt

-- The browser runs a pending frame: it is pending no more, paints, and requests the next.
pub frame : (handle next : ℕ) → Option (ℕ × ℕ) → Loop → Loop
frame handle next measured l =
    if contains handle l.pending
    then request next (record l {
      world = (paint measured l.renderer l.world).1;
      pending = remove handle l.pending;
    })
    else l

cancel : Option ℕ → List ℕ → List ℕ
cancel none pending = pending
cancel (some handle) pending = remove handle pending

pub destroy : Loop → Loop
unfolding cancel
destroy l = record l { pending = cancel l.renderer.raf l.pending }

module _ (js : Numbers) where
  -- `setInstances` on the animated renderer; an exception does not end the animation.
  unfoldable pub update : List (Instance js) → Loop → Loop
  update dots l =
      let (_, r, w) = set_instances js dots l.renderer l.world in
      record l { renderer = r; world = w }

  -- What happens between `start` and `destroy`.
  pub data Event : Type 0 where
    framed : (handle next : ℕ) → Option (ℕ × ℕ) → Event
    updated : List (Instance js) → Event

  unfoldable pub handle : Event → Loop → Loop
  handle (framed h next measured) l = frame h next measured l
  handle (updated dots) l = update dots l

  unfoldable pub run : List Event → Loop → Loop
  run [] l = l
  run (e ∷ es) l = run es (handle e l)
