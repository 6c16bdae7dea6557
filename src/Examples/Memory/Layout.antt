-- ===== src/Examples/Memory/Layout.antt =====
-- The words of the memory, and the objects that they spell.
use spanreed_netcode_proxy.Prelude.{
  ℕ, zero, suc, ◌+◌, ◌≡◌, refl, ap, List, [], ◌∷◌, ◌++◌, Option, none, some, arith, length,
  get_elem?, get_or_else, length-append,
}
use spanreed_netcode_proxy.Wire.Flatbuffers.Objects.{
  Object, text, bytes, table, Fields, nil, field, Content, int8, int32, float32, offset,
}
use spanreed_netcode_proxy.Examples.Memory.Codes.{codes}

-- Positions begin at 1.
abbrev pub word? : List ℕ → ℕ → Option ℕ
word? mem zero = none
word? mem (suc i) = get_elem? mem i

abbrev pub word : List ℕ → ℕ → ℕ
word mem p = get_or_else (word? mem p) 0

-- The words `l` stand from `p` on.
abbrev pub Spells : List ℕ → ℕ → List ℕ → Type 0
Spells mem p [] = Unit {0}
Spells mem p (v ∷ l) = (word? mem p ≡ some v) × Spells mem (suc p) l

get_elem?-append :
    (mem rest : List ℕ) (i v : ℕ) → get_elem? mem i ≡ some v → get_elem? (mem ++ rest) i ≡ some v
get_elem?-append [] rest i v h = cc
get_elem?-append (x ∷ mem) rest zero v h = h
get_elem?-append (x ∷ mem) rest (suc i) v h = get_elem?-append mem rest i v h

pub Spells-append :
    (mem rest : List ℕ) (p : ℕ) (l : List ℕ) → Spells mem p l → Spells (mem ++ rest) p l
Spells-append mem rest p [] h = tt
Spells-append mem rest zero (v ∷ l) (at, h) = absurd (cc)
Spells-append mem rest (suc p) (v ∷ l) (at, h) =
    (get_elem?-append mem rest p v at, Spells-append mem rest (suc (suc p)) l h)

get_elem?-append_length :
    (mem : List ℕ) (v : ℕ) (rest : List ℕ) → get_elem? (mem ++ v ∷ rest) (length mem) ≡ some v
get_elem?-append_length [] v rest = refl
get_elem?-append_length (x ∷ mem) v rest = get_elem?-append_length mem v rest

append_step : (mem : List ℕ) (v : ℕ) (l : List ℕ) → (mem ++ v ∷ []) ++ l ≡ mem ++ v ∷ l
append_step [] v l = refl
append_step (x ∷ mem) v l = ap (λ m. x ∷ m) (append_step mem v l)

-- What is appended stands at the end.
pub Spells-append_length : (mem l : List ℕ) → Spells (mem ++ l) (suc (length mem)) l
Spells-append_length mem [] = tt
Spells-append_length mem (v ∷ l) =
    let size : length (mem ++ v ∷ []) ≡ suc (length mem) =
      omega (arith, length-append mem (v ∷ [])) in
    (
      get_elem?-append_length mem v l,
      rw (append_step mem v l, size) at (Spells-append_length (mem ++ v ∷ []) l),
    )

abbrev pub words : List ℕ → ℕ → ℕ → List ℕ
words mem p zero = []
words mem p (suc n) = word mem p ∷ words mem (suc p) n

pub words-Spells : (mem : List ℕ) (p : ℕ) (l : List ℕ) → Spells mem p l → words mem p (length l) ≡ l
words-Spells mem p [] h = refl
words-Spells mem p (v ∷ l) (at, h) = rw (at, words-Spells mem (suc p) l h) refl

pub word-Spells :
    (mem : List ℕ) (p : ℕ) (l : List ℕ) (k v : ℕ)
    → Spells mem p l
    → get_elem? l k ≡ some v
    → word mem (p + k) ≡ v
word-Spells mem p [] k v h e = cc
word-Spells mem p (x ∷ l) zero v (at, h) e =
    let same : p + 0 ≡ p = omega arith in rw (same, at) (ground (arith, e))
word-Spells mem p (x ∷ l) (suc k) v (at, h) e =
    let next : suc p + k ≡ p + suc k = omega arith in rw next at (word-Spells mem (suc p) l k v h e)

-- A table is the number of its fields, and for each its slot and its word.
abbrev pub flatten : List (ℕ × ℕ) → List ℕ
flatten [] = []
flatten ((slot, v) ∷ es) = slot ∷ v ∷ flatten es

unfoldable mutual
  pub Has : Object ℕ → List ℕ → ℕ → Type 0
  Has (text s) mem p = Spells mem p (length (codes s) ∷ codes s)
  Has (bytes l) mem p = Spells mem p (length l ∷ l)
  Has (table fs) mem p =
      (es : List (ℕ × ℕ)) × Spells mem p (length es ∷ flatten es) × Entries fs mem es

  pub Entries : Fields ℕ → List ℕ → List (ℕ × ℕ) → Type 0
  Entries nil mem [] = Unit {0}
  Entries nil mem (e ∷ es) = ⊥
  Entries (field slot c fs) mem [] = ⊥
  Entries (field slot c fs) mem ((s, v) ∷ es) = (s ≡ slot) × Holds c mem v × Entries fs mem es

  pub Holds : Content ℕ → List ℕ → ℕ → Type 0
  Holds (int8 n) mem v = v ≡ n
  Holds (int32 n) mem v = v ≡ n
  Holds (float32 n) mem v = v ≡ n
  Holds (offset x) mem v = Has x mem v

-- What stands in the memory stays when more is appended.
mutual
  unfolding Has Entries Holds

  pub Has-append : (x : Object ℕ) (mem rest : List ℕ) (p : ℕ) → Has x mem p → Has x (mem ++ rest) p
  Has-append (text s) mem rest p h = Spells-append mem rest p (length (codes s) ∷ codes s) h
  Has-append (bytes l) mem rest p h = Spells-append mem rest p (length l ∷ l) h
  Has-append (table fs) mem rest p (es, h, e) =
      (es, Spells-append mem rest p (length es ∷ flatten es) h, Entries-append fs mem rest es e)

  pub Entries-append :
      (fs : Fields ℕ) (mem rest : List ℕ) (es : List (ℕ × ℕ))
      → Entries fs mem es
      → Entries fs (mem ++ rest) es
  Entries-append nil mem rest [] h = tt
  Entries-append nil mem rest (e ∷ es) h = elim h [ ]
  Entries-append (field slot c fs) mem rest [] h = elim h [ ]
  Entries-append (field slot c fs) mem rest ((s, v) ∷ es) (same, here, h) =
      (same, Holds-append c mem rest v here, Entries-append fs mem rest es h)

  pub Holds-append :
      (c : Content ℕ) (mem rest : List ℕ) (v : ℕ) → Holds c mem v → Holds c (mem ++ rest) v
  Holds-append (int8 n) mem rest v h = h
  Holds-append (int32 n) mem rest v h = h
  Holds-append (float32 n) mem rest v h = h
  Holds-append (offset x) mem rest v h = Has-append x mem rest v h
