-- ===== src/Canvas/Instances.antt =====
-- The loop of `DemoRenderer.setInstances` over the instances that it is given, which writes each
-- into the renderer's CPU buffer (examples/hello-spanreed/client/src/DemoRenderer.ts).
use spanreed_netcode_proxy.Prelude.{
  ℕ, zero, suc, ◌+◌, ◌*◌, ◌-◌, Bool, true, false, List, [], ◌∷◌, if◌then◌else◌,
}
use spanreed_netcode_proxy.Canvas.Numbers.{Numbers}
use spanreed_netcode_proxy.Canvas.ArrayBuffer.{
  ArrayBuffer, f32_view_ok, u8_view_ok, set_f32, set_u8,
}
pub mod Layout
pub mod Loop

abbrev pub max_instance_count : ℕ
max_instance_count = 200

-- A colour is a `Uint8Array` of three bytes.
pub record Color8 : Type 0 where
  pub red : ℕ
  pub green : ℕ
  pub blue : ℕ

module _ (js : Numbers) where
  open js use {Number, number, sub, fround}

  pub record Instance : Type 0 where
    pub x : Number
    pub y : Number
    pub radius : Number
    pub color : Color8

  -- One round of the loop: the buffer, and whether a view's constructor threw.
  pub write_instance : ℕ → Instance → ArrayBuffer → ArrayBuffer × Bool
  write_instance i instance_ b =
      if f32_view_ok b (16 * i)
      then (let b1 = set_f32 (16 * i) 0 (fround instance_.x) b in
          let b2 = set_f32 (16 * i) 1 (fround (sub (number 400) instance_.y)) b1 in
          let b3 = set_f32 (16 * i) 2 (fround instance_.radius) b2 in
          if u8_view_ok b3 (16 * i + 12)
          then (let b4 = set_u8 (16 * i + 12) 0 instance_.color.red b3 in
              let b5 = set_u8 (16 * i + 12) 1 instance_.color.green b4 in
              (set_u8 (16 * i + 12) 2 instance_.color.blue b5, false))
          else (b3, true))
      else (b, true)

  pub write_instances : ℕ → List Instance → ArrayBuffer → ArrayBuffer × Bool
  write_instances i [] b = (b, false)
  write_instances i (instance_ ∷ rest) b =
      let (b', threw) = write_instance i instance_ b in
      let later = write_instances (i + 1) rest b' in if threw then (b', true) else later
