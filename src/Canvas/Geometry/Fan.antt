-- ===== src/Canvas/Geometry/Fan.antt =====
-- The shape of the vertex data of examples/hello-spanreed/client/src/geomtry.ts.
use spanreed_netcode_proxy.Prelude.{
  ℕ, zero, suc, ◌+◌, ◌*◌, ◌<◌, ◌≡◌, ◌∙◌, ap, Option, some, List, [], ◌∷◌, arith, length, get_elem?,
}
use native.Mathlib.Nat.{add-zero, zero-add}
use spanreed_netcode_proxy.Canvas.Numbers.{Numbers}
use spanreed_netcode_proxy.Canvas.Geometry.{
  vertex_angle, segment, segments, build_circle_vertex_buffer_data,
}

six_more : (k : ℕ) → 6 * suc k ≡ suc (suc (suc (suc (suc (suc (6 * k))))))
six_more k = omega arith

module _ (js : Numbers) where
  open js use {Number, number, cos, sin}

  length-segments : (n left i : ℕ) → length (segments js n left i) ≡ 6 * left
  unfolding segments segment
  length-segments n zero i = omega arith
  length-segments n (suc left) i = omega (arith, length-segments n left (i + 1))

  -- The data are three vertices of two numbers for each segment.
  pub length-build_circle_vertex_buffer_data :
      (n : ℕ) → length (build_circle_vertex_buffer_data js n) ≡ 2 * (3 * n)
  unfolding build_circle_vertex_buffer_data
  length-build_circle_vertex_buffer_data n = omega (arith, length-segments n n 0)

  -- The six numbers of the triangle that begins at position `p`.
  abbrev pub triangle_at : List Number → ℕ → List (Option Number)
  triangle_at data_ p =
      get_elem? data_ p
      ∷ get_elem? data_ (suc p)
      ∷ get_elem? data_ (suc (suc p))
      ∷ get_elem? data_ (suc (suc (suc p)))
      ∷ get_elem? data_ (suc (suc (suc (suc p))))
      ∷ get_elem? data_ (suc (suc (suc (suc (suc p)))))
      ∷ []

  abbrev pub fan_triangle : ℕ → ℕ → List (Option Number)
  fan_triangle n i =
      some (number 0)
      ∷ some (number 0)
      ∷ some (cos (vertex_angle js n i))
      ∷ some (sin (vertex_angle js n i))
      ∷ some (cos (vertex_angle js n (i + 1)))
      ∷ some (sin (vertex_angle js n (i + 1)))
      ∷ []

  triangle_at-segments :
      (n left i k : ℕ)
      → k < left
      → triangle_at (segments js n left i) (6 * k) ≡ fan_triangle n (i + k)
  unfolding segments segment
  triangle_at-segments n zero i k h = elim h [ ]
  triangle_at-segments n (suc left) i zero h = rw add-zero
  triangle_at-segments n (suc left) i (suc k) h =
      let further : i + 1 + k ≡ i + suc k = omega arith in
      rw (six_more k)
        (triangle_at-segments n left (i + 1) k (omega arith) ∙ ap (fan_triangle n) further)

  -- Each segment `k` of the `n` is the triangle of the centre and of the points of the unit circle
  -- at the angles `k` and `k + 1`; so each triangle ends at the point where the next begins.
  pub build_circle_vertex_buffer_data-triangle :
      (n k : ℕ)
      → k < n
      → triangle_at (build_circle_vertex_buffer_data js n) (6 * k) ≡ fan_triangle n k
  unfolding build_circle_vertex_buffer_data
  build_circle_vertex_buffer_data-triangle n k h =
      triangle_at-segments n n 0 k h ∙ ap (fan_triangle n) (zero-add k)
