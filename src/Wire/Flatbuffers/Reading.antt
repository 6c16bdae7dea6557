-- ===== src/Wire/Flatbuffers/Reading.antt =====
-- The fields of a generated object that stands on a table of known content.
use spanreed_netcode_proxy.Prelude.{
  ap, not, ◌∙◌, ℕ, ◌+◌, ◌*◌, ◌≡◌, refl, String, none, some, ◌==◌, length, get_elem?, arith, false,
}
use spanreed_netcode_proxy.Wire.Flatbuffers.{
  Flatbuffers, Bytes, Table, field_or, string_field, union_field, byte_field, length_field,
  bytes_field,
}
use spanreed_netcode_proxy.Wire.Flatbuffers.Objects.{
  text, bytes, table, Fields, Content, int8, int32, float32, offset, lookup,
}
use spanreed_netcode_proxy.Wire.Flatbuffers.Laws.{Laws}

module _ {N : Type 0} (fb : Flatbuffers N) (laws : Laws fb) where
  -- The generated object stands on the table of these fields.
  abbrev pub StandsOn : Table fb → Fields N → Type 0
  StandsOn t fs = laws.At t.bb t.bb_pos (table fs)

  module _ (slot : ℕ) (t : Table fb) (fs : Fields N) (here : StandsOn t fs) where
    -- A field that is not there has its default.
    pub field_or_absent {ℓ} :
        {A : Type ℓ} (d : A) (read : fb.ByteBuffer → ℕ → A)
        → lookup slot fs ≡ none
        → field_or fb d (4 + 2 * slot) read t ≡ d
    unfolding field_or
    field_or_absent d read e = rw (laws.field_absent slot t.bb t.bb_pos fs here e) refl

    -- A field that is there is read.
    field_or_present {ℓ} :
        {A : Type ℓ} (d : A) (read : fb.ByteBuffer → ℕ → A) (c : Content N)
        → lookup slot fs ≡ some c
        → field_or fb d (4 + 2 * slot) read t
          ≡ read t.bb (t.bb_pos + fb.vtable_offset t.bb t.bb_pos (4 + 2 * slot))
    unfolding field_or
    field_or_present d read c e =
        let there : (fb.vtable_offset t.bb t.bb_pos (4 + 2 * slot) == 0) ≡ false =
          ground (arith, laws.field_present slot t.bb t.bb_pos fs c here e) in
        rw there refl

    pub int8_field :
        (d v : ℕ)
        → lookup slot fs ≡ some (int8 v)
        → field_or fb d (4 + 2 * slot) fb.read_uint8 t ≡ v
    int8_field d v e =
        field_or_present d fb.read_uint8 (int8 v) e
        ∙ (laws.read_int8_lem slot t.bb t.bb_pos fs v here e).1

    pub bool_field :
        (v : ℕ)
        → lookup slot fs ≡ some (int8 v)
        → field_or fb false (4 + 2 * slot) (λ bb p. not (fb.read_int8 bb p == 0)) t ≡ not (v == 0)
    bool_field v e =
        field_or_present false (λ bb p. not (fb.read_int8 bb p == 0)) (int8 v) e
        ∙ ap (λ n. not (n == 0)) (laws.read_int8_lem slot t.bb t.bb_pos fs v here e).0

    pub int32_field :
        (d v : ℕ)
        → lookup slot fs ≡ some (int32 v)
        → field_or fb d (4 + 2 * slot) fb.read_uint32 t ≡ v
    int32_field d v e =
        field_or_present d fb.read_uint32 (int32 v) e
        ∙ laws.read_uint32_lem slot t.bb t.bb_pos fs v here e

    pub float32_field :
        (d v : N)
        → lookup slot fs ≡ some (float32 v)
        → field_or fb d (4 + 2 * slot) fb.read_float32 t ≡ v
    float32_field d v e =
        field_or_present d fb.read_float32 (float32 v) e
        ∙ laws.read_float32_lem slot t.bb t.bb_pos fs v here e

    pub string_field_there :
        (s : String)
        → lookup slot fs ≡ some (offset (text s))
        → string_field fb (4 + 2 * slot) t ≡ some s
    unfolding string_field
    string_field_there s e =
        field_or_present none (λ bb p. some (fb.string bb p)) (offset (text s)) e
        ∙ ap some (laws.string_lem t.bb _ s (laws.field-Refers slot t.bb t.bb_pos fs _ here e))

    pub string_field_absent : lookup slot fs ≡ none → string_field fb (4 + 2 * slot) t ≡ none
    unfolding string_field
    string_field_absent e = field_or_absent none (λ bb p. some (fb.string bb p)) e

    pub union_field_table :
        (gs : Fields N)
        → lookup slot fs ≡ some (offset (table gs))
        → (u : Table fb) × (union_field fb (4 + 2 * slot) t ≡ some u) × StandsOn u gs
    unfolding union_field
    union_field_table gs e = (
      record {
        bb = t.bb;
        bb_pos = fb.union t.bb (t.bb_pos + fb.vtable_offset t.bb t.bb_pos (4 + 2 * slot));
      },
      field_or_present none (λ bb p. some (record { bb = bb; bb_pos = fb.union bb p }))
          (offset (table gs)) e,
      laws.union-At t.bb _ gs (laws.field-Refers slot t.bb t.bb_pos fs _ here e),
    )

    module _ (l : Bytes) (e : lookup slot fs ≡ some (offset (bytes l))) where
      abbrev place : ℕ
      place = t.bb_pos + fb.vtable_offset t.bb t.bb_pos (4 + 2 * slot)

      refers : laws.Refers t.bb place (bytes l)
      refers = laws.field-Refers slot t.bb t.bb_pos fs (bytes l) here e

      pub length_field_bytes : length_field fb (4 + 2 * slot) t ≡ length l
      unfolding length_field
      length_field_bytes =
          field_or_present 0 fb.vector_len (offset (bytes l)) e
          ∙ laws.vector_len_lem t.bb place l refers

      pub byte_field_bytes :
          (k v : ℕ) → get_elem? l k ≡ some v → byte_field fb (4 + 2 * slot) t k ≡ v
      unfolding byte_field
      byte_field_bytes k v at_k =
          field_or_present 0 (λ bb p. fb.read_uint8 bb (fb.vector bb p + k)) (offset (bytes l)) e
          ∙ laws.vector_lem t.bb place l k v refers at_k

      pub bytes_field_bytes : bytes_field fb (4 + 2 * slot) t ≡ some l
      unfolding bytes_field
      bytes_field_bytes =
          field_or_present none
            (λ bb p. some (fb.bytes_at bb (fb.vector bb p) (fb.vector_len bb p))) (offset (bytes l))
            e
          ∙ ap some
              (rw (laws.vector_len_lem t.bb place l refers) (laws.bytes_at_lem t.bb place l refers))
