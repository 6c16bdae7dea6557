-- ===== src/Examples/Memory/Reads.antt =====
-- What the runtime reads where an object stands.
use spanreed_netcode_proxy.Prelude.{
  ℕ, suc, ◌+◌, ◌*◌, ◌-◌, ◌/◌, ◌≡◌, ◌≢◌, refl, suc, [], ◌∷◌, ap, ◌∙◌, List, length, none, some,
  arith, get_elem?, String,
}
use spanreed_netcode_proxy.Wire.Flatbuffers.{Bytes}
use spanreed_netcode_proxy.Wire.Flatbuffers.Objects.{
  Object, text, bytes, table, Fields, Content, int8, int32, float32, offset, lookup,
}
use spanreed_netcode_proxy.Examples.Memory.Codes.{codes, of_codes-codes}
use spanreed_netcode_proxy.Examples.Memory.Layout.{word, Has, words-Spells, word-Spells}
use spanreed_netcode_proxy.Examples.Memory.Tables.{seek_absent, seek_present, Found}
use spanreed_netcode_proxy.Examples.Memory.Runtime.{collect, memory}

-- The position of a slot's offset in a table.
slot_of : (slot : ℕ) → (4 + 2 * slot - 4) / 2 ≡ slot
slot_of slot = omega arith

field-Found :
    (slot : ℕ) (bb : ℕ × List ℕ) (p : ℕ) (fs : Fields ℕ) (c : Content ℕ)
    → Has (table fs) bb.1 p
    → lookup slot fs ≡ some c
    → Found bb.1 p (memory.vtable_offset bb p (4 + 2 * slot)) c
unfolding Has
field-Found slot bb p fs c (es, (count, h), e) there =
    rw (slot_of slot, count) (seek_present bb.1 slot p fs es (suc p) c h e there (omega arith))

pub field_not_found :
    (slot : ℕ) (bb : ℕ × List ℕ) (p : ℕ) (fs : Fields ℕ)
    → Has (table fs) bb.1 p
    → lookup slot fs ≡ none
    → memory.vtable_offset bb p (4 + 2 * slot) ≡ 0
unfolding Has
field_not_found slot bb p fs (es, (count, h), e) absent =
    rw (slot_of slot, count) (seek_absent bb.1 slot p fs es (suc p) h e absent)

pub Refers : ℕ × List ℕ → ℕ → Object ℕ → Type 0
Refers bb q x = Has x bb.1 (word bb.1 q)

pub field-Refers :
    (slot : ℕ) (bb : ℕ × List ℕ) (p : ℕ) (fs : Fields ℕ) (x : Object ℕ)
    → Has (table fs) bb.1 p
    → lookup slot fs ≡ some (offset x)
    → Refers bb (p + memory.vtable_offset bb p (4 + 2 * slot)) x
unfolding Refers Has
field-Refers slot bb p fs x h e =
    let (v, _, there, held) = field-Found slot bb p fs (offset x) h e in rw there held

pub field_present :
    (slot : ℕ) (bb : ℕ × List ℕ) (p : ℕ) (fs : Fields ℕ) (c : Content ℕ)
    → Has (table fs) bb.1 p
    → lookup slot fs ≡ some c
    → memory.vtable_offset bb p (4 + 2 * slot) ≢ 0
field_present slot bb p fs c h e = let (w, far, at, held) = field-Found slot bb p fs c h e in far

pub int8_read :
    (slot : ℕ) (bb : ℕ × List ℕ) (p : ℕ) (fs : Fields ℕ) (v : ℕ)
    → Has (table fs) bb.1 p
    → lookup slot fs ≡ some (int8 v)
    → word bb.1 (p + memory.vtable_offset bb p (4 + 2 * slot)) ≡ v
unfolding Has
int8_read slot bb p fs v h e =
    let (w, _, there, same) = field-Found slot bb p fs (int8 v) h e in there ∙ same

pub int32_read :
    (slot : ℕ) (bb : ℕ × List ℕ) (p : ℕ) (fs : Fields ℕ) (v : ℕ)
    → Has (table fs) bb.1 p
    → lookup slot fs ≡ some (int32 v)
    → word bb.1 (p + memory.vtable_offset bb p (4 + 2 * slot)) ≡ v
unfolding Has
int32_read slot bb p fs v h e =
    let (w, _, there, same) = field-Found slot bb p fs (int32 v) h e in there ∙ same

pub float32_read :
    (slot : ℕ) (bb : ℕ × List ℕ) (p : ℕ) (fs : Fields ℕ) (v : ℕ)
    → Has (table fs) bb.1 p
    → lookup slot fs ≡ some (float32 v)
    → word bb.1 (p + memory.vtable_offset bb p (4 + 2 * slot)) ≡ v
unfolding Has
float32_read slot bb p fs v h e =
    let (w, _, there, same) = field-Found slot bb p fs (float32 v) h e in there ∙ same

pub string_read :
    (bb : ℕ × List ℕ) (q : ℕ) (s : String) → Refers bb q (text s) → memory.string bb q ≡ s
unfolding Refers Has
string_read bb q s (size, h) =
    rw (size, words-Spells bb.1 (suc (word bb.1 q)) (codes s) h) (of_codes-codes s)

pub vector_len_read :
    (bb : ℕ × List ℕ) (q : ℕ) (l : Bytes)
    → Refers bb q (bytes l)
    → memory.vector_len bb q ≡ length l
unfolding Refers Has
vector_len_read bb q l (size, h) = rw size refl

pub vector_read :
    (bb : ℕ × List ℕ) (q : ℕ) (l : Bytes) (k v : ℕ)
    → Refers bb q (bytes l)
    → get_elem? l k ≡ some v
    → memory.read_uint8 bb (memory.vector bb q + k) ≡ v
unfolding Refers Has
vector_read bb q l k v (_, h) e = word-Spells bb.1 (suc (word bb.1 q)) l k v h e

pub bytes_read :
    (bb : ℕ × List ℕ) (q : ℕ) (l : Bytes)
    → Refers bb q (bytes l)
    → memory.bytes_at bb (memory.vector bb q) (length l) ≡ l
unfolding Refers Has
bytes_read bb q l (_, h) = words-Spells bb.1 (suc (word bb.1 q)) l h

pub union_read :
    (bb : ℕ × List ℕ) (q : ℕ) (fs : Fields ℕ)
    → Refers bb q (table fs)
    → Has (table fs) bb.1 (memory.union bb q)
unfolding Refers
union_read bb q fs h = h

collect_read :
    (f : ℕ → ℕ) (k : ℕ) (l : List ℕ)
    → ((j v : ℕ) → get_elem? l j ≡ some v → f (k + j) ≡ v)
    → collect f k (length l) ≡ l
collect_read f k [] h = refl
collect_read f k (v ∷ l) h =
    let first : k + 0 ≡ k = omega arith in
    let next : (j : ℕ) → suc k + j ≡ k + suc j = λ j. omega arith in
    let rest = collect_read f (suc k) l (λ j w e. ap f (next j) ∙ h (suc j) w e) in
    rw (rw first at (h 0 v refl), rest) refl

pub collected :
    (f : ℕ → ℕ) (l : List ℕ)
    → ((j v : ℕ) → get_elem? l j ≡ some v → f j ≡ v)
    → collect f 0 (length l) ≡ l
collected f l h =
    let same : (j : ℕ) → 0 + j ≡ j = λ j. omega arith in
    collect_read f 0 l (λ j v e. ap f (same j) ∙ h j v e)
