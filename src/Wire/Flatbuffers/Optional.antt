-- ===== src/Wire/Flatbuffers/Optional.antt =====
-- Fields that are stored or not: a flag that is false, a number that is 0 and an offset of nothing
-- are not.
use spanreed_netcode_proxy.Prelude.{
  ℕ, zero, suc, ◌+◌, ◌*◌, ◌<◌, ◌^◌, ◌==◌, ◌≡◌, refl, ◌∙◌, Bool, true, false, not, String, List, [],
  ◌∷◌, Option, none, some, get_elem?, if◌then◌else◌, arith,
}
use spanreed_netcode_proxy.Wire.Flatbuffers.{
  Flatbuffers, Bytes, Table, field_or, string_field, bytes_field,
}
use spanreed_netcode_proxy.Wire.Flatbuffers.Objects.{
  Object, text, bytes, Fields, nil, field, Content, int8, int32, offset, lookup,
}
use spanreed_netcode_proxy.Wire.Flatbuffers.Laws.{Laws}
use spanreed_netcode_proxy.Wire.Flatbuffers.Reading.{
  StandsOn, field_or_absent, bool_field, int32_field, string_field_there, string_field_absent,
  bytes_field_bytes,
}
use spanreed_netcode_proxy.Wire.Flatbuffers.Writing.{
  Builds, Keeps, adds_int8, adds_int32, adds_offset, adds_none,
}

module _ {N : Type 0} where
  abbrev pub entry : ℕ → Option (Content N) → Fields N → Fields N
  entry slot none fs = fs
  entry slot (some c) fs = field slot c fs

  -- A table whose slots are added in order.
  abbrev pub rows_from : ℕ → List (Option (Content N)) → Fields N → Fields N
  rows_from n [] fs = fs
  rows_from n (c ∷ cs) fs = rows_from (suc n) cs (entry n c fs)

  abbrev pub rows : List (Option (Content N)) → Fields N
  rows cs = rows_from 0 cs nil

  abbrev pub flag : Bool → Option (Content N)
  flag true = some (int8 1)
  flag false = none

  abbrev pub number : ℕ → Option (Content N)
  number zero = none
  number (suc n) = some (int32 (suc n))

  abbrev pub text_of : Option String → Option (Object N)
  text_of none = none
  text_of (some s) = some (text s)

  abbrev pub bytes_of : Option Bytes → Option (Object N)
  bytes_of none = none
  bytes_of (some l) = some (bytes l)

  abbrev pub offset_of : Option (Object N) → Option (Content N)
  offset_of none = none
  offset_of (some x) = some (offset x)

  lookup-entry_same :
      (slot : ℕ) (c : Option (Content N)) (fs : Fields N)
      → lookup slot fs ≡ none
      → lookup slot (entry slot c fs) ≡ c
  lookup-entry_same slot none fs h = h
  lookup-entry_same slot (some c) fs h =
      let same : (slot == slot) ≡ true = ground arith in rw same refl

  lookup-entry_other :
      (slot s : ℕ) (c : Option (Content N)) (fs : Fields N)
      → (slot == s) ≡ false
      → lookup s (entry slot c fs) ≡ lookup s fs
  lookup-entry_other slot s none fs h = refl
  lookup-entry_other slot s (some c) fs h = rw h refl

  lookup-rows_from_low :
      (n s : ℕ) (cs : List (Option (Content N))) (fs : Fields N)
      → s < n
      → lookup s (rows_from n cs fs) ≡ lookup s fs
  lookup-rows_from_low n s [] fs h = refl
  lookup-rows_from_low n s (c ∷ cs) fs h =
      lookup-rows_from_low (suc n) s cs (entry n c fs) (omega arith)
      ∙ lookup-entry_other n s c fs (ground arith)

  lookup-rows_from :
      (n k : ℕ) (cs : List (Option (Content N))) (fs : Fields N) (c : Option (Content N))
      → ((j : ℕ) → lookup (n + j) fs ≡ none)
      → get_elem? cs k ≡ some c
      → lookup (n + k) (rows_from n cs fs) ≡ c
  lookup-rows_from n k [] fs c h e = cc
  lookup-rows_from n zero (d ∷ cs) fs c h e =
      let here : n + 0 ≡ n = omega arith in
      let d_is_c : d ≡ c = ground (arith, e) in
      rw (here, lookup-rows_from_low (suc n) n cs (entry n d fs) (omega arith))
        (lookup-entry_same n d fs (rw here at (h 0)) ∙ d_is_c)
  lookup-rows_from n (suc k) (d ∷ cs) fs c h e =
      let next : (j : ℕ) → suc n + j ≡ n + suc j = λ j. omega arith in
      let past : (j : ℕ) → lookup (suc n + j) (entry n d fs) ≡ none =
        λ j. lookup-entry_other n (suc n + j) d fs (ground arith) ∙ rw (next j) (h (suc j)) in
      rw (next k) at (lookup-rows_from (suc n) k cs (entry n d fs) c past e)

  -- The slots of a table have what was added.
  pub lookup-rows :
      (cs : List (Option (Content N))) (k : ℕ) (c : Option (Content N))
      → get_elem? cs k ≡ some c
      → lookup k (rows cs) ≡ c
  lookup-rows cs k c e =
      let same : 0 + k ≡ k = omega arith in rw same at (lookup-rows_from 0 k cs nil c (λ j. refl) e)

module _ {N : Type 0} (fb : Flatbuffers N) (laws : Laws fb) where
  open fb use {Builder}
  open laws use {Idle, Has}

  -- An offset of what there may be: 0 for nothing.
  abbrev pub Placed : Builder → ℕ → Option (Object N) → Type 0
  Placed b p none = p ≡ 0
  Placed b p (some x) = Has b p x

  pub Placed-kept :
      {old b : Builder} (p : ℕ) (x : Option (Object N))
      → Keeps fb laws old b
      → Placed old p x
      → Placed b p x
  Placed-kept p none k h = h
  Placed-kept p (some x) k h = k p x h

  module _ {old : Builder} {n : ℕ} {b : Builder} {fs : Fields N} where
    pub adds_flag :
        (slot : ℕ) (v : Bool)
        → slot < n
        → Builds fb laws old n b fs
        → Builds fb laws old n
            (fb.add_field_int8 slot (if v then 1 else 0) 0 b)
            (entry slot (flag v) fs)
    adds_flag slot true lt h = adds_int8 fb laws slot 1 0 lt (omega arith) h
    adds_flag slot false lt h = adds_int8 fb laws slot 0 0 lt (omega arith) h

    pub adds_kind :
        (slot v : ℕ)
        → slot < n
        → v < 128
        → (v == 0) ≡ false
        → Builds fb laws old n b fs
        → Builds fb laws old n (fb.add_field_int8 slot v 0 b) (entry slot (some (int8 v)) fs)
    adds_kind slot v lt fits there h = rw there at (adds_int8 fb laws slot v 0 lt fits h)

    pub adds_number :
        (slot v : ℕ)
        → slot < n
        → v < 2 ^ 32
        → Builds fb laws old n b fs
        → Builds fb laws old n (fb.add_field_int32 slot v 0 b) (entry slot (number v) fs)
    adds_number slot zero lt fits h = adds_int32 fb laws slot 0 0 lt fits h
    adds_number slot (suc v) lt fits h =
        let stored : (suc v == 0) ≡ false = ground arith in
        rw stored at (adds_int32 fb laws slot (suc v) 0 lt fits h)

    pub adds_optional :
        (slot p : ℕ) (x : Option (Object N))
        → slot < n
        → Placed old p x
        → Builds fb laws old n b fs
        → Builds fb laws old n (fb.add_field_offset slot p 0 b) (entry slot (offset_of x) fs)
    adds_optional slot p none lt there h = rw there (adds_none fb laws slot h)
    adds_optional slot p (some x) lt there h = adds_offset fb laws slot p x lt there h

  module _ (slot : ℕ) (t : Table fb) (fs : Fields N) (here : StandsOn fb laws t fs) where
    pub flag_field :
        (v : Bool)
        → lookup slot fs ≡ flag v
        → field_or fb false (4 + 2 * slot) (λ bb p. not (fb.read_int8 bb p == 0)) t ≡ v
    flag_field true e = bool_field fb laws slot t fs here 1 e
    flag_field false e =
        field_or_absent fb laws slot t fs here false (λ bb p. not (fb.read_int8 bb p == 0)) e

    pub number_field :
        (v : ℕ) → lookup slot fs ≡ number v → field_or fb 0 (4 + 2 * slot) fb.read_uint32 t ≡ v
    number_field zero e = field_or_absent fb laws slot t fs here 0 fb.read_uint32 e
    number_field (suc v) e = int32_field fb laws slot t fs here 0 (suc v) e

    pub string_field_of :
        (s : Option String)
        → lookup slot fs ≡ offset_of (text_of s)
        → string_field fb (4 + 2 * slot) t ≡ s
    string_field_of none e = string_field_absent fb laws slot t fs here e
    string_field_of (some s) e = string_field_there fb laws slot t fs here s e

    pub bytes_field_of :
        (l : Option Bytes)
        → lookup slot fs ≡ offset_of (bytes_of l)
        → bytes_field fb (4 + 2 * slot) t ≡ l
    unfolding bytes_field
    bytes_field_of none e =
        field_or_absent fb laws slot t fs here none
          (λ bb p. some (fb.bytes_at bb (fb.vector bb p) (fb.vector_len bb p))) e
    bytes_field_of (some l) e = bytes_field_bytes fb laws slot t fs here l e
