-- ===== src/Canvas/ArrayBuffer/Views.antt =====
-- Reads after writes through the typed views.
use spanreed_netcode_proxy.Prelude.{ℕ, ◌+◌, ◌*◌, ◌%◌, ◌≤◌, ◌<◌, ◌≡◌, ◌⊎◌, ◌≢◌, true, false, arith}
use spanreed_netcode_proxy.Canvas.Numbers.{F32}
use spanreed_netcode_proxy.Canvas.ArrayBuffer.{
  ArrayBuffer, f32_view_ok, u8_view_ok, set_f32, set_u8, f32_at,
}

pub f32_view_ok_of_le :
    (b : ArrayBuffer) (offset : ℕ)
    → offset ≤ b.byte_length
    → offset % 4 ≡ 0
    → b.byte_length % 4 ≡ 0
    → f32_view_ok b offset ≡ true
unfolding f32_view_ok
f32_view_ok_of_le b offset h p q = ground arith

pub f32_view_ok-false :
    (b : ArrayBuffer) (offset : ℕ) → b.byte_length < offset → f32_view_ok b offset ≡ false
unfolding f32_view_ok
f32_view_ok-false b offset h = ground arith

pub u8_view_ok_of_le :
    (b : ArrayBuffer) (offset : ℕ) → offset ≤ b.byte_length → u8_view_ok b offset ≡ true
unfolding u8_view_ok
u8_view_ok_of_le b offset h = ground arith

pub u8_view_ok-false :
    (b : ArrayBuffer) (offset : ℕ) → b.byte_length < offset → u8_view_ok b offset ≡ false
unfolding u8_view_ok
u8_view_ok-false b offset h = ground arith

pub byte_length-set_f32 :
    (offset k : ℕ) (v : F32) (b : ArrayBuffer) → (set_f32 offset k v b).byte_length ≡ b.byte_length
unfolding set_f32
byte_length-set_f32 offset k v b = ground arith

pub byte_length-set_u8 :
    (offset k v : ℕ) (b : ArrayBuffer) → (set_u8 offset k v b).byte_length ≡ b.byte_length
unfolding set_u8
byte_length-set_u8 offset k v b = ground arith

-- A float that was written is read back.
pub f32_at-set_f32_self :
    (offset k : ℕ) (v : F32) (b : ArrayBuffer)
    → offset + 4 * k + 4 ≤ b.byte_length
    → f32_at (set_f32 offset k v b) (offset + 4 * k) ≡ v
unfolding set_f32
f32_at-set_f32_self offset k v b h = ground arith

-- A write of a float leaves the bytes before and behind it alone.
pub byte-set_f32_ne :
    (offset k : ℕ) (v : F32) (b : ArrayBuffer) (q : ℕ)
    → (q < offset + 4 * k) ⊎ (offset + 4 * k + 4 ≤ q)
    → (set_f32 offset k v b).byte q ≡ b.byte q
unfolding set_f32
byte-set_f32_ne offset k v b q h = ground arith

pub byte-set_u8_self :
    (offset k v : ℕ) (b : ArrayBuffer)
    → offset + k < b.byte_length
    → (set_u8 offset k v b).byte (offset + k) ≡ v % 256
unfolding set_u8
byte-set_u8_self offset k v b h = ground arith

pub byte-set_u8_ne :
    (offset k v : ℕ) (b : ArrayBuffer) (q : ℕ)
    → q ≢ offset + k
    → (set_u8 offset k v b).byte q ≡ b.byte q
unfolding set_u8
byte-set_u8_ne offset k v b q h = ground arith

-- A view at or behind the end of the buffer has no element, so a write through it is ignored.
pub set_f32_beyond :
    (offset k : ℕ) (v : F32) (b : ArrayBuffer) → b.byte_length ≤ offset → set_f32 offset k v b ≡ b
unfolding set_f32
set_f32_beyond offset k v b h = ground arith
