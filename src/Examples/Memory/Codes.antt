-- ===== src/Examples/Memory/Codes.antt =====
-- Words as bytes, and texts as words.
use Prim.Native.Nat.{compare, Ordering}
use Prim.Native.Char.{Char, char, code, nul, IsLt, IsScalar}
use spanreed_netcode_proxy.Prelude.{
  ℕ, zero, suc, ◌+◌, ◌≡◌, refl, ap, ◌∙◌, String, List, [], ◌∷◌, Option, none, some, arith,
}
use spanreed_netcode_proxy.Wire.Flatbuffers.{Bytes}
use spanreed_netcode_proxy.Wire.Flatbuffers.Objects.{AllBytes}

-- A word is as many ones, and a zero.
unary : ℕ → Bytes → Bytes
unary zero rest = 0 ∷ rest
unary (suc n) rest = 1 ∷ unary n rest

unfoldable pub encode : List ℕ → Bytes
unfolding unary
encode [] = []
encode (n ∷ ns) = unary n (encode ns)

decode_from : ℕ → Bytes → List ℕ
decode_from k [] = []
decode_from k (zero ∷ bytes) = k ∷ decode_from 0 bytes
decode_from k (suc _ ∷ bytes) = decode_from (suc k) bytes

pub decode : Bytes → List ℕ
unfolding decode_from
decode = decode_from 0

unary-AllBytes : (n : ℕ) (rest : Bytes) → AllBytes rest → AllBytes (unary n rest)
unfolding unary
unary-AllBytes zero rest h = (omega arith, h)
unary-AllBytes (suc n) rest h = (omega arith, unary-AllBytes n rest h)

pub encode-AllBytes : (ns : List ℕ) → AllBytes (encode ns)
unfolding encode
encode-AllBytes [] = tt
encode-AllBytes (n ∷ ns) = unary-AllBytes n (encode ns) (encode-AllBytes ns)

decode_from-unary :
    (n k : ℕ) (rest : Bytes) → decode_from k (unary n rest) ≡ (n + k) ∷ decode_from 0 rest
unfolding decode_from unary
decode_from-unary zero k rest = let same : 0 + k ≡ k = omega arith in rw same refl
decode_from-unary (suc n) k rest =
    let next : n + suc k ≡ suc n + k = omega arith in rw next at (decode_from-unary n (suc k) rest)

pub decode-encode : (ns : List ℕ) → decode (encode ns) ≡ ns
unfolding decode encode
decode-encode [] = refl
decode-encode (n ∷ ns) =
    let same : n + 0 ≡ n = omega arith in
    decode_from-unary n 0 (encode ns) ∙ rw same (ap (λ l. n ∷ l) (decode-encode ns))

-- A text is its characters' numbers.
unfoldable pub codes : String → List ℕ
codes String.[] = []
codes (String.◌∷◌ c s) = code c ∷ codes s

-- These have the clauses of the private helpers of `IsScalar`.
abbrev Both : Ordering → Ordering → Type 0
Both Ordering.lt o = IsLt o
Both Ordering.eq _ = ⊥
Both Ordering.gt _ = ⊥

abbrev Scalar : Ordering → Ordering → Ordering → Type 0
Scalar Ordering.lt _ _ = Unit
Scalar Ordering.eq o p = Both o p
Scalar Ordering.gt o p = Both o p

both? : (o p : Ordering) → Option (Both o p)
both? Ordering.lt Ordering.lt = some tt
both? Ordering.lt Ordering.eq = none
both? Ordering.lt Ordering.gt = none
both? Ordering.eq p = none
both? Ordering.gt p = none

scalar? : (o p q : Ordering) → Option (Scalar o p q)
unfolding both?
scalar? Ordering.lt p q = some tt
scalar? Ordering.eq p q = both? p q
scalar? Ordering.gt p q = both? p q

both?-eq-some : (o p : Ordering) (h : Both o p) → both? o p ≡ some h
unfolding both?
both?-eq-some Ordering.lt Ordering.lt h = refl
both?-eq-some Ordering.lt Ordering.eq h = elim h [ ]
both?-eq-some Ordering.lt Ordering.gt h = elim h [ ]
both?-eq-some Ordering.eq p h = elim h [ ]
both?-eq-some Ordering.gt p h = elim h [ ]

scalar?-eq-some : (o p q : Ordering) (h : Scalar o p q) → scalar? o p q ≡ some h
unfolding scalar?
scalar?-eq-some Ordering.lt p q h = refl
scalar?-eq-some Ordering.eq p q h = both?-eq-some p q h
scalar?-eq-some Ordering.gt p q h = both?-eq-some p q h

char_or_nul : (n : ℕ) → Option (IsScalar n) → Char
char_or_nul n none = nul
char_or_nul n (some h) = char n h

of_code : ℕ → Char
unfolding char_or_nul
of_code n = char_or_nul n (scalar? (compare n 55296) (compare 57343 n) (compare n 1114112))

of_code-code : (c : Char) → of_code (code c) ≡ c
unfolding of_code
of_code-code (char n h) =
    ap (char_or_nul n) (scalar?-eq-some (compare n 55296) (compare 57343 n) (compare n 1114112) h)

pub of_codes : List ℕ → String
of_codes [] = String.[]
of_codes (n ∷ ns) = String.◌∷◌ (of_code n) (of_codes ns)

pub of_codes-codes : (s : String) → of_codes (codes s) ≡ s
unfolding codes of_codes
of_codes-codes String.[] = refl
of_codes-codes (String.◌∷◌ c s) = λ i. String.◌∷◌ (of_code-code c i) (of_codes-codes s i)
