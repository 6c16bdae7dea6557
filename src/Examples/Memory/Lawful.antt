-- ===== src/Examples/Memory/Lawful.antt =====
-- The runtime keeps what the messages of the client rest on.
use spanreed_netcode_proxy.Prelude.{◌≡◌, refl, ap, ◌∷◌, length, ◌==◌}
use spanreed_netcode_proxy.Wire.Flatbuffers.Laws.{Laws}
use spanreed_netcode_proxy.Examples.Memory.Codes.{codes, encode-AllBytes}
use spanreed_netcode_proxy.Examples.Memory.Layout.{flatten, Has, Entries}
use spanreed_netcode_proxy.Examples.Memory.Runtime.{memory}
use spanreed_netcode_proxy.Examples.Memory.Building.{
  create_string-Has, create_byte_vector-Has, end_vector-Has, appended_keeps, add_field_offset-Opens,
  start_object-Opens, int8-Opens, int32-Opens, float32-Opens, end_object-Has, finish-At,
}
use spanreed_netcode_proxy.Examples.Memory.Reads.{
  field_not_found, Refers, field-Refers, field_present, int8_read, int32_read, float32_read,
  string_read, vector_len_read, vector_read, bytes_read, union_read, collected,
}

unfoldable pub lawful : Laws memory
lawful = record {
  Idle = λ b. Unit;
  Has = λ b o x. Has x b.mem o;
  Opens = λ b n fs. Entries fs b.mem b.entries;
  Fills = λ b n l. b.vector ≡ l;
  At = λ bb p x. Has x bb.1 p;
  Refers = Refers;
  round = λ n. n;
  is_zero = λ n. n == 0;
  new_builder-Idle = λ n. tt;
  create_string-Idle = λ s b i. tt;
  create_string-Has = λ s b i. create_string-Has s b;
  create_string_keeps = λ s b o x h. appended_keeps (length (codes s) ∷ codes s) b o x h;
  create_byte_vector-Idle = λ l b i. tt;
  create_byte_vector-Has = λ l b i all. create_byte_vector-Has l b;
  create_byte_vector_keeps = λ l b o x h. appended_keeps (length l ∷ l) b o x h;
  start_vector-Fills = λ n b i. refl;
  start_vector_keeps = λ n b o x h. h;
  add_int8-Fills = λ v b n l fits lt h. ap (λ m. v ∷ m) h;
  add_int8_keeps = λ v b o x h. h;
  end_vector-Has = λ b n l size h. end_vector-Has b l h;
  end_vector-Idle = λ b n l h. tt;
  end_vector_keeps = λ b o x h. appended_keeps (length b.vector ∷ b.vector) b o x h;
  start_object-Opens = λ n b i. start_object-Opens b;
  start_object_keeps = λ n b o x h. h;
  add_field_int8-Opens = λ slot v d b n fs lt fits h. int8-Opens slot v d b fs h;
  add_field_int8_keeps = λ slot v d b o x h. h;
  add_field_int32-Opens = λ slot v d b n fs lt fits h. int32-Opens slot v d b fs h;
  add_field_int32_keeps = λ slot v d b o x h. h;
  add_field_float32-Opens = λ slot v b n fs lt h. float32-Opens slot v b fs h;
  add_field_float32_keeps = λ slot v b o x h. h;
  add_field_offset-Opens = λ slot p b n fs x lt here h. add_field_offset-Opens slot p b fs x here h;
  add_field_offset_none = λ slot b n fs h. h;
  add_field_offset_keeps = λ slot p b o x h. h;
  end_object-Has = λ b n fs h. end_object-Has b fs h;
  end_object-Idle = λ b n fs h. tt;
  end_object_keeps = λ b o x h. appended_keeps (length b.entries ∷ flatten b.entries) b o x h;
  as_uint8_array-AllBytes = λ b. encode-AllBytes (b.root ∷ b.mem);
  finish-At = λ o b fs i h. finish-At o b fs h;
  field_absent = field_not_found;
  field_present = field_present;
  read_int8_lem =
      λ slot bb p fs v h e. (int8_read slot bb p fs v h e, int8_read slot bb p fs v h e);
  read_uint32_lem = int32_read;
  read_float32_lem = float32_read;
  field-Refers = field-Refers;
  string_lem = string_read;
  vector_len_lem = vector_len_read;
  vector_lem = vector_read;
  bytes_at_lem = bytes_read;
  union-At = union_read;
  create_scalar_list_lem = λ f l h. collected f l h;
}
