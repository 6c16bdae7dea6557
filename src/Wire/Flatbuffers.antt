-- ===== src/Wire/Flatbuffers.antt =====
-- The runtime package `flatbuffers`. It is not code of the repository, so its operations are a
-- parameter: a `Builder` that is mutated is passed on, and a `ByteBuffer` is only read.
use spanreed_netcode_proxy.Prelude.{
  ℕ, ◌+◌, String, Option, none, some, List, [], ◌∷◌, ◌==◌, if◌then◌else◌, length,
}
pub mod Objects
pub mod Laws
pub mod Reading
pub mod Writing
pub mod Optional
pub mod Placing

abbrev pub Bytes : Type 0
Bytes = List ℕ

-- `Number` is the type of the numbers that a `float32` is read as.
pub record Flatbuffers (Number : Type 0) : Type 1 where
  pub Builder : Type 0
  pub new_builder : ℕ → Builder
  pub create_string : String → Builder → ℕ × Builder
  pub create_byte_vector : Bytes → Builder → ℕ × Builder
  pub start_object : ℕ → Builder → Builder
  pub add_field_int8 : (slot value default : ℕ) → Builder → Builder
  pub add_field_int32 : (slot value default : ℕ) → Builder → Builder
  pub add_field_float32 : (slot : ℕ) (value : Number) (default : ℕ) → Builder → Builder
  pub add_field_offset : (slot offset default : ℕ) → Builder → Builder
  pub end_object : Builder → ℕ × Builder
  pub start_vector : (elem_size num_elems alignment : ℕ) → Builder → Builder
  pub add_int8 : ℕ → Builder → Builder
  pub end_vector : Builder → ℕ × Builder
  pub finish : ℕ → Builder → Builder
  pub finish_size_prefixed : ℕ → Builder → Builder
  pub as_uint8_array : Builder → Bytes
  pub ByteBuffer : Type 0
  pub new_byte_buffer : Bytes → ByteBuffer
  pub position : ByteBuffer → ℕ
  pub set_position : ℕ → ByteBuffer → ByteBuffer
  pub size_prefix_length : ℕ
  pub read_int32 : ByteBuffer → ℕ → ℕ
  pub read_int8 : ByteBuffer → ℕ → ℕ
  pub read_uint8 : ByteBuffer → ℕ → ℕ
  pub read_uint32 : ByteBuffer → ℕ → ℕ
  pub read_float32 : ByteBuffer → ℕ → Number
  pub vtable_offset : ByteBuffer → ℕ → ℕ → ℕ
  pub string : ByteBuffer → ℕ → String
  pub vector : ByteBuffer → ℕ → ℕ
  pub vector_len : ByteBuffer → ℕ → ℕ
  pub union : ByteBuffer → ℕ → ℕ
  -- The view on the bytes of the buffer from `start` on, `new Uint8Array(…)` of them.
  pub bytes_at : ByteBuffer → (start len : ℕ) → Bytes
  -- The values that an accessor gives at the indices below a length.
  pub create_scalar_list : (ℕ → ℕ) → ℕ → List ℕ

-- A function that mutates a builder and returns a value.
abbrev pub Build {ℓ} : Type 0 → Type ℓ → Type ℓ
Build S A = S → A × S

infixl 5 ◌>>=◌ ◌>>◌
abbrev pub ◌>>=◌ : {S A B : Type 0} → (S → A × S) → (A → S → B × S) → S → B × S
◌>>=◌ m f s = let (a, s') = m s in f a s'

abbrev pub ◌>>◌ : {S B : Type 0} → (S → Unit {0} × S) → (S → B × S) → S → B × S
m >> k = m >>= λ _. k

-- A method of the builder that returns nothing.
abbrev pub mutate : {S : Type 0} → (S → S) → S → Unit {0} × S
mutate f s = (tt, f s)

module _ {N : Type 0} (fb : Flatbuffers N) where
  -- A generated object: the buffer that it reads, and its position there.
  pub record Table : Type 0 where
    pub bb : fb.ByteBuffer
    pub bb_pos : ℕ

  -- `getRootAs…`
  unfoldable pub get_root : fb.ByteBuffer → Table
  get_root bb = record { bb = bb; bb_pos = fb.read_int32 bb (fb.position bb) + fb.position bb }

  -- `getSizePrefixedRootAs…`
  unfoldable pub get_size_prefixed_root : fb.ByteBuffer → Table
  unfolding get_root
  get_size_prefixed_root bb = get_root (fb.set_position (fb.position bb + fb.size_prefix_length) bb)

  -- A field that is read at its offset, or has its default if the offset is 0.
  unfoldable pub field_or {ℓ} : {A : Type ℓ} → A → ℕ → (fb.ByteBuffer → ℕ → A) → Table → A
  field_or default vt read t =
      let offset = fb.vtable_offset t.bb t.bb_pos vt in
      if offset == 0 then default else read t.bb (t.bb_pos + offset)

  unfoldable pub string_field : ℕ → Table → Option String
  unfolding field_or
  string_field vt t = field_or none vt (λ bb p. some (fb.string bb p)) t

  -- The object that a union field refers to, of the type that the caller asks for.
  unfoldable pub union_field : ℕ → Table → Option Table
  unfolding field_or
  union_field vt t = field_or none vt (λ bb p. some (record { bb = bb; bb_pos = fb.union bb p })) t

  -- A vector of bytes: the byte at an index, the length, and the view on all of it.
  unfoldable pub byte_field : ℕ → Table → ℕ → ℕ
  unfolding field_or
  byte_field vt t index = field_or 0 vt (λ bb p. fb.read_uint8 bb (fb.vector bb p + index)) t

  unfoldable pub length_field : ℕ → Table → ℕ
  unfolding field_or
  length_field vt t = field_or 0 vt fb.vector_len t

  unfoldable pub bytes_field : ℕ → Table → Option Bytes
  unfolding field_or
  bytes_field vt t =
      field_or none vt (λ bb p. some (fb.bytes_at bb (fb.vector bb p) (fb.vector_len bb p))) t

  -- The loop of a generated `create…Vector`, from the last byte to the first.
  unfoldable pub add_bytes : Bytes → fb.Builder → fb.Builder
  add_bytes [] b = b
  add_bytes (v ∷ vs) b = fb.add_int8 v (add_bytes vs b)

  -- `create…Vector` for bytes.
  unfoldable pub create_bytes : Bytes → Build fb.Builder ℕ
  unfolding add_bytes
  create_bytes vs = do
    mutate (fb.start_vector 1 (length vs) 1)
    mutate (add_bytes vs)
    fb.end_vector
