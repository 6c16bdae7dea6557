-- ===== src/Examples/Samples.antt =====
-- Concrete parameters: numbers, a context that grants everything, and a reader of the FlatBuffers
-- format with a builder that only collects what it is given.
use spanreed_netcode_proxy.Prelude.{
  ℕ, zero, suc, ◌+◌, ◌-◌, ◌*◌, ◌/◌, ◌%◌, true, some, [], ◌∷◌, ◌++◌, length, ltb, if◌then◌else◌,
}
use spanreed_netcode_proxy.Canvas.Numbers.{Numbers}
use spanreed_netcode_proxy.Canvas.Gl.{Gl, World}
use spanreed_netcode_proxy.Wire.Flatbuffers.{Flatbuffers, Bytes}

-- Whole numbers; a float is stored as a 32-bit integer.
abbrev pub whole : Numbers
whole = record {
  Number = ℕ;
  number = λ n. n;
  add = λ a b. a + b;
  sub = λ a b. a - b;
  mul = λ a b. a * b;
  div = λ a b. a / b;
  pi = 3;
  cos = λ a. a;
  sin = λ a. a;
  fround = λ n. record {
    b0 = n % 256;
    b1 = n / 256 % 256;
    b2 = n / 65536 % 256;
    b3 = n / 16777216 % 256;
  };
}

-- Every object is made, and named by the number of calls so far.
abbrev pub granting : Gl
granting = record {
  new_buffer = λ h. some (length h);
  new_shader = λ h. some (length h);
  new_program = λ h. some (length h);
  new_vertex_array = λ h. some (length h);
  compile_status = λ h s. true;
  link_status = λ h p. true;
  shader_info_log = λ h s. "";
  program_info_log = λ h p. "";
  attrib_location = λ h p name. some 0;
  uniform_location = λ h p name. some 0;
}

abbrev pub new_world : World
new_world = record { calls = []; output = [] }

abbrev byte_at : Bytes → ℕ → ℕ
byte_at [] i = 0
byte_at (b ∷ bs) zero = b
byte_at (b ∷ bs) (suc i) = byte_at bs i

abbrev int16_at : Bytes → ℕ → ℕ
int16_at b p = byte_at b p + 256 * byte_at b (p + 1)

abbrev int32_at : Bytes → ℕ → ℕ
int32_at b p = int16_at b p + 65536 * int16_at b (p + 2)

abbrev pub reader : Flatbuffers ℕ
reader = record {
  Builder = Bytes;
  new_builder = λ n. [];
  create_string = λ s b. (length b, 1 ∷ b);
  create_byte_vector = λ bytes b. (length b, bytes ++ b);
  start_object = λ n b. n ∷ b;
  add_field_int8 = λ slot v d b. slot ∷ v ∷ b;
  add_field_int32 = λ slot v d b. slot ∷ v ∷ b;
  add_field_float32 = λ slot v d b. slot ∷ v ∷ b;
  add_field_offset = λ slot v d b. slot ∷ v ∷ b;
  end_object = λ b. (length b, b);
  start_vector = λ size n alignment b. n ∷ b;
  add_int8 = λ v b. v ∷ b;
  end_vector = λ b. (length b, b);
  finish = λ offset b. offset ∷ b;
  finish_size_prefixed = λ offset b. length b ∷ offset ∷ b;
  as_uint8_array = λ b. b;
  ByteBuffer = Bytes;
  new_byte_buffer = λ b. b;
  position = λ b. 0;
  set_position = λ p b. b;
  size_prefix_length = 4;
  read_int32 = int32_at;
  read_int8 = byte_at;
  read_uint8 = byte_at;
  read_uint32 = int32_at;
  read_float32 = int32_at;
  vtable_offset = λ b pos vt.
      let vtable = pos - int32_at b pos in
      if ltb vt (int16_at b vtable) then int16_at b (vtable + vt) else 0;
  string = λ b p. "text";
  vector = λ b p. p + int32_at b p + 4;
  vector_len = λ b p. int32_at b (p + int32_at b p);
  union = λ b p. p + int32_at b p;
  bytes_at = λ b start len. [];
  create_scalar_list = λ f n. [];
}

-- A verdict that accepts, and one without fields, which refuses.
abbrev pub accepting_verdict : Bytes
accepting_verdict = 10 ∷ 0 ∷ 0 ∷ 0 ∷ 6 ∷ 0 ∷ 5 ∷ 0 ∷ 4 ∷ 0 ∷ 6 ∷ 0 ∷ 0 ∷ 0 ∷ 1 ∷ []

abbrev pub refusing_verdict : Bytes
refusing_verdict = 8 ∷ 0 ∷ 0 ∷ 0 ∷ 4 ∷ 0 ∷ 4 ∷ 0 ∷ 4 ∷ 0 ∷ 0 ∷ 0 ∷ []

-- A game state with one indigo dot of radius 20 at (80, 200).
abbrev pub game_state : Bytes
game_state =
    (12 ∷ 0 ∷ 0 ∷ 0 ∷ 8 ∷ 0 ∷ 9 ∷ 0 ∷ 8 ∷ 0 ∷ 4 ∷ 0 ∷ [])
    ++ ((8 ∷ 0 ∷ 0 ∷ 0 ∷ 16 ∷ 0 ∷ 0 ∷ 0 ∷ 2 ∷ 0 ∷ 0 ∷ 0 ∷ [])
        ++ ((6 ∷ 0 ∷ 8 ∷ 0 ∷ 4 ∷ 0 ∷ 0 ∷ 0 ∷ 8 ∷ 0 ∷ 0 ∷ 0 ∷ 4 ∷ 0 ∷ 0 ∷ 0 ∷ [])
            ++ ((1 ∷ 0 ∷ 0 ∷ 0 ∷ [])
                ++ (80 ∷ 0 ∷ 0 ∷ 0 ∷ 200 ∷ 0 ∷ 0 ∷ 0 ∷ 20 ∷ 0 ∷ 0 ∷ 0 ∷ 3 ∷ 0 ∷ 0 ∷ 0 ∷ []))))

-- A chat message with a user and a text.
abbrev pub chat_message : Bytes
chat_message =
    (12 ∷ 0 ∷ 0 ∷ 0 ∷ 8 ∷ 0 ∷ 9 ∷ 0 ∷ 8 ∷ 0 ∷ 4 ∷ 0 ∷ [])
    ++ ((8 ∷ 0 ∷ 0 ∷ 0 ∷ 16 ∷ 0 ∷ 0 ∷ 0 ∷ 1 ∷ 0 ∷ 0 ∷ 0 ∷ [])
        ++ ((8 ∷ 0 ∷ 12 ∷ 0 ∷ 4 ∷ 0 ∷ 8 ∷ 0 ∷ 8 ∷ 0 ∷ 0 ∷ 0 ∷ 8 ∷ 0 ∷ 0 ∷ 0 ∷ [])
            ++ ((12 ∷ 0 ∷ 0 ∷ 0 ∷ [])
                ++ (1 ∷ 0 ∷ 0 ∷ 0 ∷ 65 ∷ 0 ∷ 0 ∷ 0 ∷ 1 ∷ 0 ∷ 0 ∷ 0 ∷ 66 ∷ 0 ∷ 0 ∷ 0 ∷ []))))
