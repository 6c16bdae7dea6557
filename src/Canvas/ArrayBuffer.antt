-- ===== src/Canvas/ArrayBuffer.antt =====
-- An `ArrayBuffer` of the language, and the two typed views that the renderer writes through. A
-- view begins at a byte offset; making one beyond the end of the buffer throws a RangeError, and
-- a write at an index that the view does not have is ignored.
use spanreed_netcode_proxy.Prelude.{
  ℕ, ◌+◌, ◌-◌, ◌*◌, ◌/◌, ◌%◌, Bool, ◌&&◌, ltb, leb, ◌==◌, if◌then◌else◌,
}
use spanreed_netcode_proxy.Canvas.Numbers.{F32}
pub mod Views

pub record ArrayBuffer : Type 0 where
  pub byte_length : ℕ
  pub byte : ℕ → ℕ

-- `new ArrayBuffer(n)`: all bytes are 0.
abbrev pub new_array_buffer : ℕ → ArrayBuffer
new_array_buffer n = record { byte_length = n; byte = λ _. 0 }

abbrev pub update : (ℕ → ℕ) → ℕ → ℕ → ℕ → ℕ
update f p v q = if q == p then v else f q

-- Whether `new Float32Array(buffer, offset)` succeeds.
pub f32_view_ok : ArrayBuffer → ℕ → Bool
f32_view_ok b offset = leb offset b.byte_length && (offset % 4 == 0 && (b.byte_length % 4 == 0))

-- Whether `new Uint8Array(buffer, offset)` succeeds.
pub u8_view_ok : ArrayBuffer → ℕ → Bool
u8_view_ok b offset = leb offset b.byte_length

-- `f32[k] = v` for the view at `offset`.
pub set_f32 : ℕ → ℕ → F32 → ArrayBuffer → ArrayBuffer
set_f32 offset k v b =
    if ltb k ((b.byte_length - offset) / 4)
    then record b {
      byte =
          update
            (update (update (update b.byte (offset + 4 * k) v.b0) (offset + 4 * k + 1) v.b1)
              (offset + 4 * k + 2) v.b2)
            (offset + 4 * k + 3) v.b3;
    }
    else b

-- `u8[k] = v` for the view at `offset`; the value is taken modulo 256.
pub set_u8 : ℕ → ℕ → ℕ → ArrayBuffer → ArrayBuffer
set_u8 offset k v b =
    if ltb k (b.byte_length - offset)
    then record b { byte = update b.byte (offset + k) (v % 256) }
    else b

-- The float at a byte position.
abbrev pub f32_at : ArrayBuffer → ℕ → F32
f32_at b p = record { b0 = b.byte p; b1 = b.byte (p + 1); b2 = b.byte (p + 2); b3 = b.byte (p + 3) }
