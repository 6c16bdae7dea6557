-- ===== src/Examples/Memory/Runtime.antt =====
-- The runtime: a builder appends to its words, and a buffer is read word by word.
use spanreed_netcode_proxy.Prelude.{
  ℕ, zero, suc, ◌-◌, ◌/◌, List, [], ◌∷◌, ◌++◌, length, ◌==◌, if◌then◌else◌,
}
use spanreed_netcode_proxy.Wire.Flatbuffers.{Flatbuffers, Bytes}
use spanreed_netcode_proxy.Examples.Memory.Codes.{encode, decode, codes, of_codes}
use spanreed_netcode_proxy.Examples.Memory.Layout.{word, words, flatten}
use spanreed_netcode_proxy.Examples.Memory.Tables.{seek}

-- The words, the entries of the table and the bytes of the vector that were started, and where
-- the root is.
pub record Draft : Type 0 where
  pub mem : List ℕ
  pub entries : List (ℕ × ℕ)
  pub vector : Bytes
  pub root : ℕ

-- The words `l` at the end, and where they begin.
abbrev pub appended : List ℕ → Draft → ℕ × Draft
appended l b = (suc (length b.mem), record b { mem = b.mem ++ l })

-- The root, and the words.
abbrev pub opened : List ℕ → ℕ × List ℕ
opened [] = (0, [])
opened (root ∷ mem) = (root, mem)

-- A field is not stored if it has its default.
abbrev pub entered : ℕ → ℕ → ℕ → Draft → Draft
entered slot v d b = record b { entries = if v == d then b.entries else (slot, v) ∷ b.entries }

-- `f` at `n` indices from `k` on.
abbrev pub collect : (ℕ → ℕ) → (k n : ℕ) → List ℕ
collect f k zero = []
collect f k (suc n) = f k ∷ collect f (suc k) n

abbrev pub memory : Flatbuffers ℕ
memory = record {
  Builder = Draft;
  new_builder = λ n. record { mem = []; entries = []; vector = []; root = 0 };
  create_string = λ s. appended (length (codes s) ∷ codes s);
  create_byte_vector = λ l. appended (length l ∷ l);
  start_object = λ n b. record b { entries = [] };
  add_field_int8 = entered;
  add_field_int32 = entered;
  add_field_float32 = entered;
  add_field_offset = entered;
  end_object = λ b. appended (length b.entries ∷ flatten b.entries) b;
  start_vector = λ size n alignment b. record b { vector = [] };
  add_int8 = λ v b. record b { vector = v ∷ b.vector };
  end_vector = λ b. appended (length b.vector ∷ b.vector) b;
  finish = λ o b. record b { root = o };
  finish_size_prefixed = λ o b. record b { root = o };
  as_uint8_array = λ b. encode (b.root ∷ b.mem);
  ByteBuffer = ℕ × List ℕ;
  new_byte_buffer = λ l. opened (decode l);
  position = λ bb. 0;
  set_position = λ p bb. bb;
  size_prefix_length = 0;
  read_int32 = λ bb p. bb.0;
  read_int8 = λ bb p. word bb.1 p;
  read_uint8 = λ bb p. word bb.1 p;
  read_uint32 = λ bb p. word bb.1 p;
  read_float32 = λ bb p. word bb.1 p;
  vtable_offset = λ bb p vt. seek bb.1 ((vt - 4) / 2) p (word bb.1 p) (suc p);
  string = λ bb q. of_codes (words bb.1 (suc (word bb.1 q)) (word bb.1 (word bb.1 q)));
  vector = λ bb q. suc (word bb.1 q);
  vector_len = λ bb q. word bb.1 (word bb.1 q);
  union = λ bb q. word bb.1 q;
  bytes_at = λ bb p n. words bb.1 p n;
  create_scalar_list = λ f n. collect f 0 n;
}
