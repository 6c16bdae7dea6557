-- ===== src/Wire/Dot.antt =====
-- gen/hello-spanreed/dot.ts: `class Dot`, as the client reads it.
use spanreed_netcode_proxy.Prelude.{ℕ, ◌+◌}
use spanreed_netcode_proxy.Wire.Flatbuffers.{Flatbuffers, Table}

module _ {N : Type 0} (fb : Flatbuffers N) where
  open fb use {Builder}

  unfoldable pub x : Table fb → N
  x t = fb.read_float32 t.bb t.bb_pos

  unfoldable pub y : Table fb → N
  y t = fb.read_float32 t.bb (t.bb_pos + 4)

  unfoldable pub radius : Table fb → N
  radius t = fb.read_float32 t.bb (t.bb_pos + 8)

  unfoldable pub color : Table fb → ℕ
  color t = fb.read_int8 t.bb (t.bb_pos + 12)
