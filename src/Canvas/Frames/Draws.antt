-- ===== src/Canvas/Frames/Draws.antt =====
-- What a frame of examples/hello-spanreed/client/src/DemoRenderer.ts draws.
use spanreed_netcode_proxy.Prelude.{
  ℕ, zero, suc, ◌*◌, ◌≡◌, refl, true, Option, List, [], ◌∷◌, ◌++◌, ltb, arith,
}
use spanreed_netcode_proxy.Canvas.Gl.{World, History, draw_arrays_instanced, actions}
use spanreed_netcode_proxy.Canvas.Shader.{draw}
use spanreed_netcode_proxy.Canvas.Renderer.{DemoRenderer, circle_segment_count}
use spanreed_netcode_proxy.Canvas.Frames.{Loop, contains, paint, frame}

-- The draw calls: the first vertex, the number of vertices, and the number of instances.
abbrev pub draws : History → List (ℕ × ℕ × ℕ)
draws [] = []
draws (draw_arrays_instanced first count instances ∷ h) = (first, count, instances) ∷ draws h
draws (_ ∷ h) = draws h

-- One draw call of whole circles, or none if there are no instances.
abbrev pub draw_of : (instances : ℕ) → List (ℕ × ℕ × ℕ)
draw_of zero = []
draw_of (suc n) = (0, circle_segment_count * 3, suc n) ∷ []

paint-draws :
    (measured : Option (ℕ × ℕ)) (r : DemoRenderer) (w : World) (n : ℕ)
    → r.instance_ct ≡ n
    → draws (paint measured r w).1.calls ≡ draw_of n ++ draws w.calls
unfolding paint draw actions
paint-draws measured r w zero none_ = rw none_ refl
paint-draws measured r w (suc n) some_ =
    let test : ltb 0 (suc n) ≡ true = ground arith in rw (some_, test) refl

-- A frame that is pending draws all instances, once.
pub frame-draws :
    (handle next : ℕ) (measured : Option (ℕ × ℕ)) (l : Loop)
    → contains handle l.pending ≡ true
    → draws (frame handle next measured l).world.calls
      ≡ draw_of l.renderer.instance_ct ++ draws l.world.calls
unfolding frame
frame-draws handle next measured l waits =
    rw waits (paint-draws measured l.renderer l.world l.renderer.instance_ct refl)
