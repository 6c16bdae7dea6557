-- ===== src/Wire/Flatbuffers/Objects.antt =====
-- What a FlatBuffers buffer can hold, as far as the generated classes use it.
use spanreed_netcode_proxy.Prelude.{
  ℕ, ◌<◌, String, Option, none, some, [], ◌∷◌, ◌==◌, if◌then◌else◌,
}
use spanreed_netcode_proxy.Wire.Flatbuffers.{Bytes}

-- A table has the fields that were added, the latest first, each in its slot.
mutual
  pub data Object (N : Type 0) : Type 0 where
    text : String → Object N
    bytes : Bytes → Object N
    table : Fields N → Object N

  pub data Fields (N : Type 0) : Type 0 where
    nil : Fields N
    field : ℕ → Content N → Fields N → Fields N

  pub data Content (N : Type 0) : Type 0 where
    int8 int32 : ℕ → Content N
    float32 : N → Content N
    offset : Object N → Content N

abbrev pub lookup : {N : Type 0} → ℕ → Fields N → Option (Content N)
lookup slot nil = none
lookup slot (field s c fs) = if s == slot then some c else lookup slot fs

-- The bytes of a `Uint8Array`.
abbrev pub AllBytes : Bytes → Type 0
AllBytes [] = Unit {0}
AllBytes (b ∷ bs) = (b < 256) × AllBytes bs
