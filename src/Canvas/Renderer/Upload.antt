-- ===== src/Canvas/Renderer/Upload.antt =====
-- About `setInstances` of examples/hello-spanreed/client/src/DemoRenderer.ts.
use spanreed_netcode_proxy.Prelude.{
  ℕ, suc, zero, ◌+◌, ◌*◌, ◌≤◌, ◌<◌, ◌%◌, ◌≡◌, ap, ◌∙◌, length-take, none, some, List, [], ◌∷◌,
  arith, length, take, get_elem?,
}
use mathlib.Core.Path.{subst}
use native.Mathlib.Nat.{add-zero, zero-add}
use spanreed_netcode_proxy.Canvas.Numbers.{Numbers}
use spanreed_netcode_proxy.Canvas.ArrayBuffer.{ArrayBuffer, f32_at}
use spanreed_netcode_proxy.Canvas.Instances.{Instance, max_instance_count}
use spanreed_netcode_proxy.Canvas.Instances.Layout.{Holds}
use spanreed_netcode_proxy.Canvas.Instances.Loop.{
  AllHeld, write_instances_ok, write_instances_throws,
}
use spanreed_netcode_proxy.Canvas.Gl.{Pointer, World, bind_buffer, buffer_sub_data, actions}
use spanreed_netcode_proxy.Canvas.Shader.{
  shape_location_pointer, shape_radius_pointer, shape_color_pointer,
}
use spanreed_netcode_proxy.Canvas.Renderer.{DemoRenderer, returned, range_error, set_instances}

-- Where the vertex shader reads an attribute of instance `i`.
abbrev pub attribute_at : Pointer → ℕ → ℕ
attribute_at p i = p.stride * i + p.offset

module _ (js : Numbers) where
  open js use {number, sub, fround}

  -- With the formats that `createVao` sets, the shader reads instance `i` of the buffer as the
  -- place, radius and colour of a dot; the canvas has its origin below.
  pub record Shows (b : ArrayBuffer) (i : ℕ) (dot : Instance js) : Type 0 where
    pub x_shown : f32_at b (attribute_at shape_location_pointer i) ≡ fround dot.x
    pub y_shown :
        f32_at b (attribute_at shape_location_pointer i + 4) ≡ fround (sub (number 400) dot.y)
    pub radius_shown : f32_at b (attribute_at shape_radius_pointer i) ≡ fround dot.radius
    pub red_shown : b.byte (attribute_at shape_color_pointer i) ≡ dot.color.red % 256
    pub green_shown : b.byte (attribute_at shape_color_pointer i + 1) ≡ dot.color.green % 256
    pub blue_shown : b.byte (attribute_at shape_color_pointer i + 2) ≡ dot.color.blue % 256

  Holds-Shows : (b : ArrayBuffer) (i : ℕ) (dot : Instance js) → Holds js b i dot → Shows b i dot
  Holds-Shows b i dot h = record {
    x_shown = ap (f32_at b) (omega arith) ∙ h.x_held;
    y_shown = ap (f32_at b) (omega arith) ∙ h.y_held;
    radius_shown = ap (f32_at b) (omega arith) ∙ h.radius_held;
    red_shown = ap b.byte (omega arith) ∙ h.red_held;
    green_shown = ap b.byte (omega arith) ∙ h.green_held;
    blue_shown = ap b.byte (omega arith) ∙ h.blue_held;
  }

  -- Every dot of the list is shown by the instance of its index.
  abbrev pub ShowsAll : ArrayBuffer → List (Instance js) → Type 0
  ShowsAll b dots = (i : ℕ) (dot : Instance js) → get_elem? dots i ≡ some dot → Shows b i dot

  AllHeld-Shows :
      (b : ArrayBuffer) (i k : ℕ) (dots : List (Instance js)) (dot : Instance js)
      → AllHeld js b i dots
      → get_elem? dots k ≡ some dot
      → Holds js b (i + k) dot
  AllHeld-Shows b i k [] dot h e = cc
  AllHeld-Shows b i zero (d ∷ dots) dot h e = rw add-zero (subst (Holds js b i) (cc) h.0)
  AllHeld-Shows b i (suc k) (d ∷ dots) dot h e =
      let next : i + 1 + k ≡ i + suc k = omega arith in
      rw next at (AllHeld-Shows b (i + 1) k dots dot h.1 e)

  AllHeld-ShowsAll :
      (b : ArrayBuffer) (dots : List (Instance js)) → AllHeld js b 0 dots → ShowsAll b dots
  AllHeld-ShowsAll b dots h i dot e =
      Holds-Shows b i dot (rw zero-add at (AllHeld-Shows b 0 i dots dot h e))

  -- With at most 200 dots and a buffer of 3200 bytes `setInstances` returns; it uploads a buffer
  -- that shows every dot, to the instance buffer, leaves no buffer bound, and sets the instance
  -- count to the number of dots.
  pub set_instances_shows :
      (dots : List (Instance js)) (r : DemoRenderer) (w : World)
      → r.cpu_instance_buffer.byte_length ≡ 16 * max_instance_count
      → length dots ≤ max_instance_count
      → (b : ArrayBuffer) × (set_instances js dots r w ≡ (
        returned,
        record r { cpu_instance_buffer = b; instance_ct = length dots },
        record w {
          calls =
              bind_buffer none
              ∷ buffer_sub_data 0 b
              ∷ bind_buffer (some r.gpu_instance_buffer)
              ∷ w.calls;
        },
      ))
        × ShowsAll b dots
        × (b.byte_length ≡ 16 * max_instance_count)
  unfolding set_instances actions
  set_instances_shows dots r w size fits =
      let (b, e, wrote) =
        write_instances_ok js 0 dots r.cpu_instance_buffer (omega arith) (omega arith) in
      let used : length (take max_instance_count dots) ≡ length dots =
        omega (arith, length-take max_instance_count dots) in
      (b, rw (e, used), AllHeld-ShowsAll b dots wrote.all_held, wrote.same_length ∙ size)

  -- With more than 200 dots and a buffer of 3200 bytes `setInstances` throws a RangeError: it has
  -- written the first 200 dots into its own buffer, uploads nothing, and leaves the instance count
  -- as it was.
  pub set_instances_throws :
      (dots : List (Instance js)) (r : DemoRenderer) (w : World)
      → r.cpu_instance_buffer.byte_length ≡ 16 * max_instance_count
      → max_instance_count < length dots
      → (b : ArrayBuffer) × (set_instances js dots r w
          ≡ (range_error, record r { cpu_instance_buffer = b }, w))
        × ShowsAll b (take max_instance_count dots)
  unfolding set_instances
  set_instances_throws dots r w size more =
      let (b, e, wrote) =
        write_instances_throws js max_instance_count 0 dots r.cpu_instance_buffer size (omega arith)
          (omega arith) in
      (b, rw e, AllHeld-ShowsAll b (take max_instance_count dots) wrote.all_held)
