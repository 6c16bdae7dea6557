-- ===== src/Canvas/Component/Shown.antt =====
-- What the canvas of examples/hello-spanreed/client/src/DemoCanvas.tsx shows.
use spanreed_netcode_proxy.Prelude.{
  ℕ, ◌∙◌, ◌++◌, true, ap, arith, [], ◌*◌, ◌≤◌, ◌≡◌, refl, Option, none, some, List, ◌∷◌, length,
  get_or_else,
}
use spanreed_netcode_proxy.Canvas.Numbers.{Numbers}
use spanreed_netcode_proxy.Canvas.ArrayBuffer.{ArrayBuffer}
use spanreed_netcode_proxy.Canvas.Instances.{Instance, max_instance_count}
use spanreed_netcode_proxy.Canvas.Gl.{bind_buffer, buffer_sub_data, History}
use spanreed_netcode_proxy.Canvas.Renderer.Upload.{ShowsAll, set_instances_shows}
use spanreed_netcode_proxy.Canvas.Frames.{Loop, update, contains, frame}
use spanreed_netcode_proxy.Canvas.Frames.Draws.{draws, draw_of, frame-draws}
use spanreed_netcode_proxy.Canvas.Renderer.{DemoRenderer}
use spanreed_netcode_proxy.Canvas.Renderer.Ready.{create-IsReady}
use spanreed_netcode_proxy.Log.{LogCb}
use spanreed_netcode_proxy.Canvas.Gl.{Gl, World}
use spanreed_netcode_proxy.Canvas.Frames.{start}
use spanreed_netcode_proxy.Canvas.Component.{default_dot_state, mounted, mount, show_dots}

module _ (js : Numbers) where
  -- The last upload was a buffer that shows the dots, and the renderer counts as many instances.
  pub record IsShowing (dots : List (Instance js)) (l : Loop) : Type 0 where
    pub buffer : ArrayBuffer
    pub before : History
    pub uploaded :
        l.world.calls
        ≡ bind_buffer none
          ∷ buffer_sub_data 0 buffer
          ∷ bind_buffer (some l.renderer.gpu_instance_buffer)
          ∷ before
    pub shows : ShowsAll js buffer dots
    pub counted : l.renderer.instance_ct ≡ length dots
    pub sized : l.renderer.cpu_instance_buffer.byte_length ≡ 16 * max_instance_count

  update-IsShowing :
      (dots : List (Instance js)) (l : Loop)
      → l.renderer.cpu_instance_buffer.byte_length ≡ 16 * max_instance_count
      → length dots ≤ max_instance_count
      → IsShowing dots (update js dots l)
  unfolding update
  update-IsShowing dots l size fits =
      let (b, e, shows, sized) = set_instances_shows js dots l.renderer l.world size fits in
      rw e (record {
        buffer = b;
        before = l.world.calls;
        uploaded = refl;
        shows = shows;
        counted = refl;
        sized = sized;
      })

  -- A canvas that shows some dots and is given others, at most 200, shows those; without any it
  -- shows the five default dots.
  show_dots-IsShowing :
      (old : List (Instance js)) (dots : Option (List (Instance js))) (l : Loop)
      → IsShowing old l
      → length (get_or_else dots (default_dot_state js)) ≤ max_instance_count
      → IsShowing (get_or_else dots (default_dot_state js)) (show_dots js dots l)
  unfolding show_dots
  show_dots-IsShowing old dots l h fits =
      update-IsShowing (get_or_else dots (default_dot_state js)) l h.sized fits

  loop_of_mounted :
      (handle : ℕ) (made : Option DemoRenderer × World) {l : Loop} {w' : World}
      → mounted js handle made ≡ (some l, w')
      → (r : DemoRenderer) × (w : World) × (made ≡ (some r, w))
        × (l
            ≡ update js
                (default_dot_state js)
                (start handle (record { renderer = r; world = w; pending = [] })))
  unfolding mounted
  loop_of_mounted handle (none, w) e = cc
  loop_of_mounted handle (some r, w) e = (r, w, refl, ground arith)

  -- A canvas that has mounted shows the default dots.
  mount-IsShowing :
      (gl : Gl) (log_fn : LogCb) (handle : ℕ) (w : World) {l : Loop} {w' : World}
      → mount js gl log_fn handle w ≡ (some l, w')
      → IsShowing (default_dot_state js) l
  unfolding mount start
  mount-IsShowing gl log_fn handle w e =
      let (r, v, made, same) = loop_of_mounted handle _ e in
      let ready = create-IsReady js gl log_fn _ made in
      rw same (
        update-IsShowing (default_dot_state js)
          (start handle (record { renderer = r; world = v; pending = [] }))
          (ap ArrayBuffer.byte_length ready.empty_buffer) (omega arith))

  mount-waits :
      (gl : Gl) (log_fn : LogCb) (handle : ℕ) (w : World) {l : Loop} {w' : World}
      → mount js gl log_fn handle w ≡ (some l, w')
      → contains handle l.pending ≡ true
  unfolding mount start update
  mount-waits gl log_fn handle w e =
      let (r, v, made, same) = loop_of_mounted handle _ e in rw same (ground arith)

  -- A canvas that has mounted, with whatever context, shows the dots that it is then given, if
  -- they are at most 200: the buffer that was uploaded last holds them all, in the format that the
  -- shader reads, and the frame that is pending, whatever it measures, makes one draw call, of whole
  -- circles and as many instances as there are dots, or none if there are no dots. Given none, it
  -- shows the five default dots.
  pub mount-show_dots :
      (gl : Gl) (log_fn : LogCb) (handle : ℕ) (w : World) {l : Loop} {w' : World}
      (dots : Option (List (Instance js)))
      → mount js gl log_fn handle w ≡ (some l, w')
      → length (get_or_else dots (default_dot_state js)) ≤ max_instance_count
      → let given = get_or_else dots (default_dot_state js) in
        let l' = show_dots js dots l in
        IsShowing given l'
        × ((next : ℕ) (measured : Option (ℕ × ℕ))
            → draws (frame handle next measured l').world.calls
              ≡ draw_of (length given) ++ draws l'.world.calls)
  unfolding show_dots update
  mount-show_dots gl log_fn handle w {l} dots e fits =
      let shown =
        show_dots-IsShowing (default_dot_state js) dots l (mount-IsShowing gl log_fn handle w e)
          fits in
      (
        shown,
        λ next measured.
            frame-draws handle next measured (show_dots js dots l)
              (mount-waits gl log_fn handle w e)
            ∙ rw shown.counted refl,
      )
