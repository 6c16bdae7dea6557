-- ===== src/Canvas/Geometry.antt =====
-- examples/hello-spanreed/client/src/geomtry.ts: the circle as a fan of triangles. The numbers
-- of the returned `Float32Array` are given before they are rounded to 32 bits.
use spanreed_netcode_proxy.Prelude.{ℕ, zero, suc, ◌+◌, List, [], ◌∷◌, ◌++◌}
use spanreed_netcode_proxy.Canvas.Numbers.{Numbers}
pub mod Fan

module _ (js : Numbers) where
  open js use {Number, number, mul, div, pi, cos, sin}

  -- `(i * Math.PI * 2) / segmentCount`
  unfoldable pub vertex_angle : ℕ → ℕ → Number
  vertex_angle segment_count i = div (mul (mul (number i) pi) (number 2)) (number segment_count)

  -- What one round of the loop pushes.
  pub segment : ℕ → ℕ → List Number
  unfolding vertex_angle
  segment segment_count i =
      let vertex1_angle = vertex_angle segment_count i in
      let vertex2_angle = vertex_angle segment_count (i + 1) in
      let x1 = cos vertex1_angle in
      let y1 = sin vertex1_angle in
      let x2 = cos vertex2_angle in
      let y2 = sin vertex2_angle in number 0 ∷ number 0 ∷ x1 ∷ y1 ∷ x2 ∷ y2 ∷ []

  -- The loop from round `i`, with the rounds that are left.
  pub segments : ℕ → ℕ → ℕ → List Number
  segments segment_count zero i = []
  segments segment_count (suc left) i =
      segment segment_count i ++ segments segment_count left (i + 1)

  pub build_circle_vertex_buffer_data : ℕ → List Number
  unfolding segments
  build_circle_vertex_buffer_data segment_count = segments segment_count segment_count 0
