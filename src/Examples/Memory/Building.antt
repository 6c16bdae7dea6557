-- ===== src/Examples/Memory/Building.antt =====
-- What the runtime's builder has built.
use spanreed_netcode_proxy.Prelude.{
  ℕ, zero, suc, ◌+◌, ◌≡◌, refl, sym, Bool-cases, inl, inr, false, List, [], ◌∷◌, length, ◌==◌,
  if◌then◌else◌, arith, String,
}
use native.Mathlib.Nat.{add-zero}
use spanreed_netcode_proxy.Wire.Flatbuffers.{Bytes}
use spanreed_netcode_proxy.Wire.Flatbuffers.Objects.{
  Object, text, bytes, table, Fields, nil, field, Content, int8, int32, float32, offset,
}
use spanreed_netcode_proxy.Examples.Memory.Codes.{codes, decode-encode}
use spanreed_netcode_proxy.Examples.Memory.Layout.{
  flatten, Has, Entries, Holds, Has-append, Entries-append, Spells-append_length,
}
use spanreed_netcode_proxy.Examples.Memory.Runtime.{Draft, memory, appended, entered}

-- A field that is stored.
Entries-cons :
    (slot v d : ℕ) (c : Content ℕ) (b : Draft) (fs : Fields ℕ)
    → Holds c b.mem v
    → Entries fs b.mem b.entries
    → Entries (if v == d then fs else field slot c fs) b.mem (entered slot v d b).entries
unfolding Entries
Entries-cons slot v d c b fs here h = elim (Bool-cases (v == d)) [
  | inl default ↦ rw default h
  | inr other ↦ rw other (refl, here, h)
]

-- Nothing stands at the position 0.
not_at_zero : (x : Object ℕ) (mem : List ℕ) (p : ℕ) → Has x mem p → (p == 0) ≡ false
unfolding Has
not_at_zero (text s) mem zero h = cc
not_at_zero (bytes l) mem zero h = cc
not_at_zero (table fs) mem zero (es, h, e) = cc
not_at_zero x mem (suc p) h = ground arith

abbrev pub Created : (x : Object ℕ) (l : List ℕ) (b : Draft) → Type 0
Created x l b = Has x (appended l b).1.mem (appended l b).0

pub create_string-Has : (s : String) (b : Draft) → Created (text s) (length (codes s) ∷ codes s) b
unfolding Has
create_string-Has s b = Spells-append_length b.mem (length (codes s) ∷ codes s)

pub create_byte_vector-Has : (l : Bytes) (b : Draft) → Created (bytes l) (length l ∷ l) b
unfolding Has
create_byte_vector-Has l b = Spells-append_length b.mem (length l ∷ l)

pub end_vector-Has :
    (b : Draft) (l : Bytes)
    → b.vector ≡ l
    → Has (bytes l) (memory.end_vector b).1.mem (memory.end_vector b).0
unfolding Has
end_vector-Has b l h = rw (sym h) (Spells-append_length b.mem (length b.vector ∷ b.vector))

pub appended_keeps :
    (l : List ℕ) (b : Draft) (o : ℕ) (x : Object ℕ) → Has x b.mem o → Has x (appended l b).1.mem o
appended_keeps l b o x h = Has-append x b.mem l o h

pub add_field_offset-Opens :
    (slot p : ℕ) (b : Draft) (fs : Fields ℕ) (x : Object ℕ)
    → Has x b.mem p
    → Entries fs b.mem b.entries
    → Entries (field slot (offset x) fs) b.mem (entered slot p 0 b).entries
unfolding Entries
add_field_offset-Opens slot p b fs x here h = rw (not_at_zero x b.mem p here) (refl, here, h)

pub start_object-Opens : (b : Draft) → Entries nil b.mem []
unfolding Entries
start_object-Opens b = tt

pub int8-Opens :
    (slot v d : ℕ) (b : Draft) (fs : Fields ℕ)
    → Entries fs b.mem b.entries
    → Entries (if v == d then fs else field slot (int8 v) fs) b.mem (entered slot v d b).entries
unfolding Holds
int8-Opens slot v d b fs h = Entries-cons slot v d (int8 v) b fs refl h

pub int32-Opens :
    (slot v d : ℕ) (b : Draft) (fs : Fields ℕ)
    → Entries fs b.mem b.entries
    → Entries (if v == d then fs else field slot (int32 v) fs) b.mem (entered slot v d b).entries
unfolding Holds
int32-Opens slot v d b fs h = Entries-cons slot v d (int32 v) b fs refl h

pub float32-Opens :
    (slot v : ℕ) (b : Draft) (fs : Fields ℕ)
    → Entries fs b.mem b.entries
    → Entries (if v == 0 then fs else field slot (float32 v) fs) b.mem (entered slot v 0 b).entries
unfolding Holds
float32-Opens slot v b fs h = Entries-cons slot v 0 (float32 v) b fs refl h

pub end_object-Has :
    (b : Draft) (fs : Fields ℕ)
    → Entries fs b.mem b.entries
    → Has (table fs) (memory.end_object b).1.mem (memory.end_object b).0
unfolding Has
end_object-Has b fs h =
    let l = length b.entries ∷ flatten b.entries in
    (b.entries, Spells-append_length b.mem l, Entries-append fs b.mem l b.entries h)

pub finish-At :
    (o : ℕ) (b : Draft) (fs : Fields ℕ)
    → Has (table fs) b.mem o
    → let bb = memory.new_byte_buffer (memory.as_uint8_array (memory.finish o b)) in
      Has (table fs) bb.1 (memory.read_int32 bb (memory.position bb) + memory.position bb)
finish-At o b fs h = rw (decode-encode (o ∷ b.mem), add-zero o) h
