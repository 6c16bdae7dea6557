-- ===== src/Wire/Flatbuffers/Laws.antt =====
-- What the runtime package `flatbuffers` documents, as far as the messages of the client rest on
-- it: what has been built stays, and a finished buffer reads back as what was built. A field of
-- its default value is not stored, and reads as the default.
use spanreed_netcode_proxy.Prelude.{
  ℕ, ◌+◌, ◌*◌, ◌<◌, ◌^◌, ◌≡◌, ◌≢◌, Bool, String, none, some, List, [], ◌∷◌, ◌==◌, length, get_elem?,
  if◌then◌else◌,
}
use spanreed_netcode_proxy.Wire.Flatbuffers.{Flatbuffers, Bytes}
use spanreed_netcode_proxy.Wire.Flatbuffers.Objects.{
  Object, text, bytes, table, Fields, nil, field, Content, int8, int32, float32, offset, lookup,
  AllBytes,
}

-- `Idle`: the builder has no object or vector that was started and not ended, as it must be when
-- the next is started. `Has`: the builder has the object at the offset. `Opens`: the table that was
-- started, with that many slots, has the fields so far. `Fills`: the vector of bytes that was
-- started has them so far. `At`: the buffer has the object at the position. `Refers`: the offset that
-- stands at the position leads to the object.
pub record Laws {N : Type 0} (fb : Flatbuffers N) : Type 1 where
  pub Idle : fb.Builder → Type 0
  pub Has : fb.Builder → ℕ → Object N → Type 0
  pub Opens : fb.Builder → ℕ → Fields N → Type 0
  pub Fills : fb.Builder → ℕ → Bytes → Type 0
  pub At : fb.ByteBuffer → ℕ → Object N → Type 0
  pub Refers : fb.ByteBuffer → ℕ → Object N → Type 0
  -- A number as a `float32`, and the test for the default of a `float32`.
  pub round : N → N
  pub is_zero : N → Bool
  pub new_builder-Idle : (n : ℕ) → Idle (fb.new_builder n)
  pub create_string-Idle : (s : String) (b : fb.Builder) → Idle b → Idle (fb.create_string s b).1
  pub create_string-Has :
      (s : String) (b : fb.Builder)
      → Idle b
      → Has (fb.create_string s b).1 (fb.create_string s b).0 (text s)
  pub create_string_keeps :
      (s : String) (b : fb.Builder) (o : ℕ) (x : Object N)
      → Has b o x
      → Has (fb.create_string s b).1 o x
  pub create_byte_vector-Idle :
      (l : Bytes) (b : fb.Builder) → Idle b → Idle (fb.create_byte_vector l b).1
  pub create_byte_vector-Has :
      (l : Bytes) (b : fb.Builder)
      → Idle b
      → AllBytes l
      → Has (fb.create_byte_vector l b).1 (fb.create_byte_vector l b).0 (bytes l)
  pub create_byte_vector_keeps :
      (l : Bytes) (b : fb.Builder) (o : ℕ) (x : Object N)
      → Has b o x
      → Has (fb.create_byte_vector l b).1 o x
  pub start_vector-Fills : (n : ℕ) (b : fb.Builder) → Idle b → Fills (fb.start_vector 1 n 1 b) n []
  pub start_vector_keeps :
      (n : ℕ) (b : fb.Builder) (o : ℕ) (x : Object N)
      → Has b o x
      → Has (fb.start_vector 1 n 1 b) o x
  pub add_int8-Fills :
      (v : ℕ) (b : fb.Builder) (n : ℕ) (l : Bytes)
      → v < 256
      → length l < n
      → Fills b n l
      → Fills (fb.add_int8 v b) n (v ∷ l)
  pub add_int8_keeps :
      (v : ℕ) (b : fb.Builder) (o : ℕ) (x : Object N) → Has b o x → Has (fb.add_int8 v b) o x
  pub end_vector-Has :
      (b : fb.Builder) (n : ℕ) (l : Bytes)
      → length l ≡ n
      → Fills b n l
      → Has (fb.end_vector b).1 (fb.end_vector b).0 (bytes l)
  pub end_vector-Idle :
      (b : fb.Builder) (n : ℕ) (l : Bytes) → Fills b n l → Idle (fb.end_vector b).1
  pub end_vector_keeps :
      (b : fb.Builder) (o : ℕ) (x : Object N) → Has b o x → Has (fb.end_vector b).1 o x
  pub start_object-Opens : (n : ℕ) (b : fb.Builder) → Idle b → Opens (fb.start_object n b) n nil
  pub start_object_keeps :
      (n : ℕ) (b : fb.Builder) (o : ℕ) (x : Object N) → Has b o x → Has (fb.start_object n b) o x
  pub add_field_int8-Opens :
      (slot v d : ℕ) (b : fb.Builder) (n : ℕ) (fs : Fields N)
      → slot < n
      → v < 128
      → Opens b n fs
      → Opens (fb.add_field_int8 slot v d b) n (if v == d then fs else field slot (int8 v) fs)
  pub add_field_int8_keeps :
      (slot v d : ℕ) (b : fb.Builder) (o : ℕ) (x : Object N)
      → Has b o x
      → Has (fb.add_field_int8 slot v d b) o x
  pub add_field_int32-Opens :
      (slot v d : ℕ) (b : fb.Builder) (n : ℕ) (fs : Fields N)
      → slot < n
      → v < 2 ^ 32
      → Opens b n fs
      → Opens (fb.add_field_int32 slot v d b) n (if v == d then fs else field slot (int32 v) fs)
  pub add_field_int32_keeps :
      (slot v d : ℕ) (b : fb.Builder) (o : ℕ) (x : Object N)
      → Has b o x
      → Has (fb.add_field_int32 slot v d b) o x
  pub add_field_float32-Opens :
      (slot : ℕ) (v : N) (b : fb.Builder) (n : ℕ) (fs : Fields N)
      → slot < n
      → Opens b n fs
      → Opens
          (fb.add_field_float32 slot v 0 b)
          n
          (if is_zero v then fs else field slot (float32 (round v)) fs)
  pub add_field_float32_keeps :
      (slot : ℕ) (v : N) (b : fb.Builder) (o : ℕ) (x : Object N)
      → Has b o x
      → Has (fb.add_field_float32 slot v 0 b) o x
  pub add_field_offset-Opens :
      (slot p : ℕ) (b : fb.Builder) (n : ℕ) (fs : Fields N) (x : Object N)
      → slot < n
      → Has b p x
      → Opens b n fs
      → Opens (fb.add_field_offset slot p 0 b) n (field slot (offset x) fs)
  pub add_field_offset_none :
      (slot : ℕ) (b : fb.Builder) (n : ℕ) (fs : Fields N)
      → Opens b n fs
      → Opens (fb.add_field_offset slot 0 0 b) n fs
  pub add_field_offset_keeps :
      (slot p : ℕ) (b : fb.Builder) (o : ℕ) (x : Object N)
      → Has b o x
      → Has (fb.add_field_offset slot p 0 b) o x
  pub end_object-Has :
      (b : fb.Builder) (n : ℕ) (fs : Fields N)
      → Opens b n fs
      → Has (fb.end_object b).1 (fb.end_object b).0 (table fs)
  pub end_object-Idle :
      (b : fb.Builder) (n : ℕ) (fs : Fields N) → Opens b n fs → Idle (fb.end_object b).1
  pub end_object_keeps :
      (b : fb.Builder) (o : ℕ) (x : Object N) → Has b o x → Has (fb.end_object b).1 o x
  pub as_uint8_array-AllBytes : (b : fb.Builder) → AllBytes (fb.as_uint8_array b)
  pub finish-At :
      (o : ℕ) (b : fb.Builder) (fs : Fields N)
      → Idle b
      → Has b o (table fs)
      → let bb = fb.new_byte_buffer (fb.as_uint8_array (fb.finish o b)) in
        At bb (fb.read_int32 bb (fb.position bb) + fb.position bb) (table fs)
  pub field_absent :
      (slot : ℕ) (bb : fb.ByteBuffer) (p : ℕ) (fs : Fields N)
      → At bb p (table fs)
      → lookup slot fs ≡ none
      → fb.vtable_offset bb p (4 + 2 * slot) ≡ 0
  pub field_present :
      (slot : ℕ) (bb : fb.ByteBuffer) (p : ℕ) (fs : Fields N) (c : Content N)
      → At bb p (table fs)
      → lookup slot fs ≡ some c
      → fb.vtable_offset bb p (4 + 2 * slot) ≢ 0
  pub read_int8_lem :
      (slot : ℕ) (bb : fb.ByteBuffer) (p : ℕ) (fs : Fields N) (v : ℕ)
      → At bb p (table fs)
      → lookup slot fs ≡ some (int8 v)
      → let q = p + fb.vtable_offset bb p (4 + 2 * slot) in
        (fb.read_int8 bb q ≡ v) × (fb.read_uint8 bb q ≡ v)
  pub read_uint32_lem :
      (slot : ℕ) (bb : fb.ByteBuffer) (p : ℕ) (fs : Fields N) (v : ℕ)
      → At bb p (table fs)
      → lookup slot fs ≡ some (int32 v)
      → fb.read_uint32 bb (p + fb.vtable_offset bb p (4 + 2 * slot)) ≡ v
  pub read_float32_lem :
      (slot : ℕ) (bb : fb.ByteBuffer) (p : ℕ) (fs : Fields N) (v : N)
      → At bb p (table fs)
      → lookup slot fs ≡ some (float32 v)
      → fb.read_float32 bb (p + fb.vtable_offset bb p (4 + 2 * slot)) ≡ v
  pub field-Refers :
      (slot : ℕ) (bb : fb.ByteBuffer) (p : ℕ) (fs : Fields N) (x : Object N)
      → At bb p (table fs)
      → lookup slot fs ≡ some (offset x)
      → Refers bb (p + fb.vtable_offset bb p (4 + 2 * slot)) x
  pub string_lem :
      (bb : fb.ByteBuffer) (q : ℕ) (s : String) → Refers bb q (text s) → fb.string bb q ≡ s
  pub vector_len_lem :
      (bb : fb.ByteBuffer) (q : ℕ) (l : Bytes)
      → Refers bb q (bytes l)
      → fb.vector_len bb q ≡ length l
  pub vector_lem :
      (bb : fb.ByteBuffer) (q : ℕ) (l : Bytes) (k v : ℕ)
      → Refers bb q (bytes l)
      → get_elem? l k ≡ some v
      → fb.read_uint8 bb (fb.vector bb q + k) ≡ v
  pub bytes_at_lem :
      (bb : fb.ByteBuffer) (q : ℕ) (l : Bytes)
      → Refers bb q (bytes l)
      → fb.bytes_at bb (fb.vector bb q) (length l) ≡ l
  pub union-At :
      (bb : fb.ByteBuffer) (q : ℕ) (fs : Fields N)
      → Refers bb q (table fs)
      → At bb (fb.union bb q) (table fs)
  pub create_scalar_list_lem :
      (f : ℕ → ℕ) (l : List ℕ)
      → ((k v : ℕ) → get_elem? l k ≡ some v → f k ≡ v)
      → fb.create_scalar_list f (length l) ≡ l
