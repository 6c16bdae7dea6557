-- ===== src/Wire/Flatbuffers/Writing.antt =====
-- What the generated functions that build have built, step by step.
use spanreed_netcode_proxy.Prelude.{
  ℕ, ◌<◌, ◌≤◌, ◌^◌, refl, String, [], ◌∷◌, ◌==◌, length, if◌then◌else◌, arith,
}
use spanreed_netcode_proxy.Wire.Flatbuffers.{Flatbuffers, Bytes, add_bytes, create_bytes}
use spanreed_netcode_proxy.Wire.Flatbuffers.Objects.{
  Object, text, bytes, table, Fields, nil, field, int8, int32, float32, offset, AllBytes,
}
use spanreed_netcode_proxy.Wire.Flatbuffers.Laws.{Laws}

module _ {N : Type 0} (fb : Flatbuffers N) (laws : Laws fb) where
  open fb use {Builder}
  open laws use {Idle, Has, Opens, Fills}

  -- Everything that `old` has is there in `b`.
  abbrev pub Keeps : Builder → Builder → Type 0
  Keeps old b = (o : ℕ) (x : Object N) → Has old o x → Has b o x

  -- From `old` on, a function has built the object, and returned its offset.
  pub record Makes (old : Builder) (r : ℕ × Builder) (x : Object N) : Type 0 where
    pub idle : Idle r.1
    pub made : Has r.1 r.0 x
    pub kept : Keeps old r.1

  -- From `old` on, a table of `n` slots was started and has these fields.
  pub record Builds (old : Builder) (n : ℕ) (b : Builder) (fs : Fields N) : Type 0 where
    pub opens : Opens b n fs
    pub kept : Keeps old b

  pub create_string-Makes :
      (s : String) (b : Builder) → Idle b → Makes b (fb.create_string s b) (text s)
  create_string-Makes s b i = record {
    idle = laws.create_string-Idle s b i;
    made = laws.create_string-Has s b i;
    kept = laws.create_string_keeps s b;
  }

  pub create_byte_vector-Makes :
      (l : Bytes) (b : Builder)
      → Idle b
      → AllBytes l
      → Makes b (fb.create_byte_vector l b) (bytes l)
  create_byte_vector-Makes l b i h = record {
    idle = laws.create_byte_vector-Idle l b i;
    made = laws.create_byte_vector-Has l b i h;
    kept = laws.create_byte_vector_keeps l b;
  }

  module _ {old : Builder} where
    pub starts : (n : ℕ) → Idle old → Builds old n (fb.start_object n old) nil
    starts n i = record {
      opens = laws.start_object-Opens n old i;
      kept = laws.start_object_keeps n old;
    }

    pub adds_int8 :
        (slot v d : ℕ) {n : ℕ} {b : Builder} {fs : Fields N}
        → slot < n
        → v < 128
        → Builds old n b fs
        → Builds old n
            (fb.add_field_int8 slot v d b)
            (if v == d then fs else field slot (int8 v) fs)
    adds_int8 slot v d {n} {b} {fs} lt fits h = record {
      opens = laws.add_field_int8-Opens slot v d b n fs lt fits h.opens;
      kept = λ o x p. laws.add_field_int8_keeps slot v d b o x (h.kept o x p);
    }

    pub adds_int32 :
        (slot v d : ℕ) {n : ℕ} {b : Builder} {fs : Fields N}
        → slot < n
        → v < 2 ^ 32
        → Builds old n b fs
        → Builds old n
            (fb.add_field_int32 slot v d b)
            (if v == d then fs else field slot (int32 v) fs)
    adds_int32 slot v d {n} {b} {fs} lt fits h = record {
      opens = laws.add_field_int32-Opens slot v d b n fs lt fits h.opens;
      kept = λ o x p. laws.add_field_int32_keeps slot v d b o x (h.kept o x p);
    }

    pub adds_float32 :
        (slot : ℕ) (v : N) {n : ℕ} {b : Builder} {fs : Fields N}
        → slot < n
        → Builds old n b fs
        → Builds old n
            (fb.add_field_float32 slot v 0 b)
            (if laws.is_zero v then fs else field slot (float32 (laws.round v)) fs)
    adds_float32 slot v {n} {b} {fs} lt h = record {
      opens = laws.add_field_float32-Opens slot v b n fs lt h.opens;
      kept = λ o x p. laws.add_field_float32_keeps slot v b o x (h.kept o x p);
    }

    pub adds_offset :
        (slot p : ℕ) (x : Object N) {n : ℕ} {b : Builder} {fs : Fields N}
        → slot < n
        → Has old p x
        → Builds old n b fs
        → Builds old n (fb.add_field_offset slot p 0 b) (field slot (offset x) fs)
    adds_offset slot p x {n} {b} {fs} lt there h = record {
      opens = laws.add_field_offset-Opens slot p b n fs x lt (h.kept p x there) h.opens;
      kept = λ o y q. laws.add_field_offset_keeps slot p b o y (h.kept o y q);
    }

    -- An offset of 0 stands for nothing.
    pub adds_none :
        (slot : ℕ) {n : ℕ} {b : Builder} {fs : Fields N}
        → Builds old n b fs
        → Builds old n (fb.add_field_offset slot 0 0 b) fs
    adds_none slot {n} {b} {fs} h = record {
      opens = laws.add_field_offset_none slot b n fs h.opens;
      kept = λ o y q. laws.add_field_offset_keeps slot 0 b o y (h.kept o y q);
    }

    pub ends :
        {n : ℕ} {b : Builder} {fs : Fields N}
        → Builds old n b fs
        → Makes old (fb.end_object b) (table fs)
    ends {n} {b} {fs} h = record {
      idle = laws.end_object-Idle b n fs h.opens;
      made = laws.end_object-Has b n fs h.opens;
      kept = λ o x p. laws.end_object_keeps b o x (h.kept o x p);
    }

    -- What is built after something else.
    pub after : {r s : ℕ × Builder} {x y : Object N} → Makes old r x → Makes r.1 s y → Makes old s y
    after h k = record { idle = k.idle; made = k.made; kept = λ o z p. k.kept o z (h.kept o z p) }

  add_bytes-Fills :
      (vs : Bytes) (b : Builder) (n : ℕ)
      → AllBytes vs
      → length vs ≤ n
      → Fills b n []
      → Fills (add_bytes fb vs b) n vs
  unfolding add_bytes
  add_bytes-Fills [] b n h le f = f
  add_bytes-Fills (v ∷ vs) b n (fits, h) le f =
      laws.add_int8-Fills v (add_bytes fb vs b) n vs fits (omega arith)
        (add_bytes-Fills vs b n h (omega arith) f)

  add_bytes-Keeps : (vs : Bytes) (b : Builder) → Keeps b (add_bytes fb vs b)
  unfolding add_bytes
  add_bytes-Keeps [] b o x h = h
  add_bytes-Keeps (v ∷ vs) b o x h =
      laws.add_int8_keeps v (add_bytes fb vs b) o x (add_bytes-Keeps vs b o x h)

  -- The loop from the last byte to the first builds the same vector as `createByteVector`.
  pub create_bytes-Makes :
      (vs : Bytes) (b : Builder) → Idle b → AllBytes vs → Makes b (create_bytes fb vs b) (bytes vs)
  unfolding create_bytes
  create_bytes-Makes vs b i h =
      let n = length vs in
      let begun = fb.start_vector 1 n 1 b in
      let full = add_bytes-Fills vs begun n h (omega arith) (laws.start_vector-Fills n b i) in
      record {
        idle = laws.end_vector-Idle (add_bytes fb vs begun) n vs full;
        made = laws.end_vector-Has (add_bytes fb vs begun) n vs refl full;
        kept = λ o x p.
            laws.end_vector_keeps (add_bytes fb vs begun) o x
              (add_bytes-Keeps vs begun o x (laws.start_vector_keeps n b o x p));
      }
