-- ===== src/Wire/Flatbuffers/Placing.antt =====
-- Functions that build an object, or nothing, for a field that may be absent.
use spanreed_netcode_proxy.Prelude.{ℕ, refl, String, Option, none, some}
use spanreed_netcode_proxy.Wire.Flatbuffers.{Flatbuffers, Bytes, Build, create_bytes}
use spanreed_netcode_proxy.Wire.Flatbuffers.Objects.{Object, AllBytes}
use spanreed_netcode_proxy.Wire.Flatbuffers.Laws.{Laws}
use spanreed_netcode_proxy.Wire.Flatbuffers.Writing.{
  Makes, Keeps, create_string-Makes, create_bytes-Makes, create_byte_vector-Makes,
}
use spanreed_netcode_proxy.Wire.Flatbuffers.Optional.{Placed, Placed-kept, text_of, bytes_of}

-- The offset of what is built, and 0 if there is nothing to build.
abbrev pub place : {S A : Type 0} → (A → Build S ℕ) → Option A → Build S ℕ
place create none b = (0, b)
place create (some a) b = create a b

abbrev pub AreBytes : Option Bytes → Type 0
AreBytes none = Unit {0}
AreBytes (some l) = AllBytes l

module _ {N : Type 0} (fb : Flatbuffers N) (laws : Laws fb) where
  open fb use {Builder}
  open laws use {Idle}

  -- From `old` on, a function has built what there was to build, and returned its offset or 0.
  pub record Places (old : Builder) (r : ℕ × Builder) (x : Option (Object N)) : Type 0 where
    pub idle : Idle r.1
    pub placed : Placed fb laws r.1 r.0 x
    pub kept : Keeps fb laws old r.1

  Places-nothing : (b : Builder) → Idle b → Places b (0, b) none
  Places-nothing b i = record { idle = i; placed = refl; kept = λ o x h. h }

  Places-of_Makes :
      {b : Builder} {r : ℕ × Builder} {x : Object N} → Makes fb laws b r x → Places b r (some x)
  Places-of_Makes m = record { idle = m.idle; placed = m.made; kept = m.kept }

  pub place-text :
      (s : Option String) (b : Builder) → Idle b → Places b (place fb.create_string s b) (text_of s)
  place-text none b i = Places-nothing b i
  place-text (some s) b i = Places-of_Makes (create_string-Makes fb laws s b i)

  pub place-bytes :
      (l : Option Bytes) (b : Builder)
      → Idle b
      → AreBytes l
      → Places b (place (create_bytes fb) l b) (bytes_of l)
  place-bytes none b i h = Places-nothing b i
  place-bytes (some l) b i h = Places-of_Makes (create_bytes-Makes fb laws l b i h)

  pub place-vector :
      (l : Option Bytes) (b : Builder)
      → Idle b
      → AreBytes l
      → Places b (place fb.create_byte_vector l b) (bytes_of l)
  place-vector none b i h = Places-nothing b i
  place-vector (some l) b i h = Places-of_Makes (create_byte_vector-Makes fb laws l b i h)

  -- A text and bytes, each if there is one, built one after the other.
  pub record Both (old : Builder) (p : ℕ) (r : ℕ × Builder) (x y : Option (Object N)) : Type 0 where
    pub idle : Idle r.1
    pub first : Placed fb laws r.1 p x
    pub second : Placed fb laws r.1 r.0 y

  pub place-text_bytes :
      (s : Option String) (l : Option Bytes) (b : Builder)
      → Idle b
      → AreBytes l
      → let (p, c) = place fb.create_string s b in
        Both b p (place (create_bytes fb) l c) (text_of s) (bytes_of l)
  place-text_bytes s l b i h =
      let m = place-text s b i in
      let (p, c) = place fb.create_string s b in
      let k = place-bytes l c m.idle h in
      record {
        idle = k.idle;
        first = Placed-kept fb laws p (text_of s) k.kept m.placed;
        second = k.placed;
      }
