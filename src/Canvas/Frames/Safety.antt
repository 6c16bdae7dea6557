-- ===== src/Canvas/Frames/Safety.antt =====
-- The draw calls of the frames of examples/hello-spanreed/client/src/DemoRenderer.ts.
use spanreed_netcode_proxy.Prelude.{
  ℕ, ◌+◌, ◌*◌, ◌≤◌, Option, List, [], ◌∷◌, length, arith, length-take, Bool-cases, inl, inr,
}
use spanreed_netcode_proxy.Canvas.Numbers.{Numbers}
use spanreed_netcode_proxy.Canvas.Geometry.{build_circle_vertex_buffer_data}
use spanreed_netcode_proxy.Canvas.Geometry.Fan.{length-build_circle_vertex_buffer_data}
use spanreed_netcode_proxy.Canvas.Instances.{Instance, max_instance_count, write_instances}
use spanreed_netcode_proxy.Canvas.Gl.{GlCall, draw_arrays_instanced, History, World, actions}
use spanreed_netcode_proxy.Canvas.Shader.{draw}
use spanreed_netcode_proxy.Canvas.Renderer.{DemoRenderer, circle_segment_count, set_instances}
use spanreed_netcode_proxy.Canvas.Frames.{
  Loop, paint, frame, update, Event, framed, updated, handle, run,
}

module _ (js : Numbers) where
  -- A draw call reads no more vertices than the vertex buffer has, with two numbers each, and no
  -- more instances than the instance buffer has room for.
  abbrev pub IsInRange : GlCall → Type 0
  IsInRange (draw_arrays_instanced first count instances) =
      (2 * (first + count) ≤ length (build_circle_vertex_buffer_data js circle_segment_count))
      × (instances ≤ max_instance_count)
  IsInRange _ = Unit {0}

  abbrev pub AllInRange : History → Type 0
  AllInRange [] = Unit {0}
  AllInRange (c ∷ h) = IsInRange c × AllInRange h

  abbrev pub IsSafe : Loop → Type 0
  IsSafe l = AllInRange l.world.calls × (l.renderer.instance_ct ≤ max_instance_count)

  paint-AllInRange :
      (measured : Option (ℕ × ℕ)) (r : DemoRenderer) (w : World)
      → AllInRange w.calls
      → r.instance_ct ≤ max_instance_count
      → AllInRange (paint measured r w).1.calls
  unfolding paint draw actions
  paint-AllInRange measured r w h fits =
      ground (arith, length-build_circle_vertex_buffer_data js circle_segment_count)

  frame-IsSafe :
      (h next : ℕ) (measured : Option (ℕ × ℕ)) (l : Loop)
      → IsSafe l
      → IsSafe (frame h next measured l)
  unfolding frame
  frame-IsSafe h next measured l safe =
      ground (arith, paint-AllInRange measured l.renderer l.world safe.0 safe.1)

  update-IsSafe : (dots : List (Instance js)) (l : Loop) → IsSafe l → IsSafe (update js dots l)
  unfolding update set_instances actions
  update-IsSafe dots l safe =
      elim (Bool-cases (write_instances js 0 dots l.renderer.cpu_instance_buffer).1) [
        | inl threw ↦ rw threw safe
        | inr done ↦
            rw done ((tt, (tt, (tt, safe.0))), omega (arith, length-take max_instance_count dots))
      ]

  -- If every draw call so far is in range and the instance count is at most 200, then this stays so,
  -- whatever frames run and whatever dots are set, however many.
  pub run-IsSafe : (es : List (Event js)) (l : Loop) → IsSafe l → IsSafe (run js es l)
  unfolding run handle
  run-IsSafe [] l safe = safe
  run-IsSafe (framed h next measured ∷ es) l safe =
      run-IsSafe es (frame h next measured l) (frame-IsSafe h next measured l safe)
  run-IsSafe (updated dots ∷ es) l safe =
      run-IsSafe es (update js dots l) (update-IsSafe dots l safe)
