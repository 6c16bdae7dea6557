-- ===== src/Examples/Memory/Tables.antt =====
-- The search for a field of a table.
use spanreed_netcode_proxy.Prelude.{
  ℕ, zero, suc, ◌+◌, ◌-◌, ◌≤◌, ◌≡◌, ◌≢◌, refl, List, [], ◌∷◌, none, some, arith, length, ◌==◌,
  if◌then◌else◌, Bool-cases, inl, inr, true,
}
use mathlib.Core.Path.{subst}
use spanreed_netcode_proxy.Wire.Flatbuffers.Objects.{Fields, nil, field, Content, lookup}
use spanreed_netcode_proxy.Examples.Memory.Layout.{word, Spells, flatten, Entries, Holds}

-- How far from `base` the word of the slot stands, of the `n` entries from `p` on; 0 if there is
-- none.
pub seek : List ℕ → (slot base n p : ℕ) → ℕ
seek mem slot base zero p = 0
seek mem slot base (suc n) p =
    let rest = seek mem slot base n (suc (suc p)) in
    if word mem p == slot then suc p - base else rest

-- The word where the field stands, and what it holds.
abbrev pub Found : List ℕ → (base far : ℕ) → Content ℕ → Type 0
Found mem base far c = (v : ℕ) × (far ≢ 0) × (word mem (base + far) ≡ v) × Holds c mem v

==_refl : (n : ℕ) → (n == n) ≡ true
==_refl n = ground arith

module _ (mem : List ℕ) (slot base : ℕ) where
  pub seek_absent :
      (fs : Fields ℕ) (es : List (ℕ × ℕ)) (p : ℕ)
      → Spells mem p (flatten es)
      → Entries fs mem es
      → lookup slot fs ≡ none
      → seek mem slot base (length es) p ≡ 0
  unfolding seek Entries
  seek_absent nil [] p h e absent = refl
  seek_absent nil (x ∷ es) p h e absent = elim e [ ]
  seek_absent (field s c fs) [] p h e absent = elim e [ ]
  seek_absent (field s c fs) ((s', v) ∷ es) p (at, (_, h)) (same, _, e) absent =
      elim (Bool-cases (s == slot)) [
        | inl now ↦ absurd (ground (arith, now, absent))
        | inr other ↦
            rw (at, same, other) (seek_absent fs es (suc (suc p)) h e (rw other at absent))
      ]

  pub seek_present :
      (fs : Fields ℕ) (es : List (ℕ × ℕ)) (p : ℕ) (c : Content ℕ)
      → Spells mem p (flatten es)
      → Entries fs mem es
      → lookup slot fs ≡ some c
      → base ≤ p
      → Found mem base (seek mem slot base (length es) p) c
  unfolding seek Entries
  seek_present nil es p c h e there le = cc
  seek_present (field s d fs) [] p c h e there le = elim e [ ]
  seek_present (field s d fs) ((s', v) ∷ es) p c (at, (at', h)) (same, here, e) there le =
      elim (Bool-cases (s == slot)) [
        | inl now ↦
            let d_is_c : d ≡ c = ground (arith, now, there) in
            let place : base + (suc p - base) ≡ suc p = omega arith in
            let far : suc p - base ≢ 0 = omega arith in
            rw (at, same, now)
              (v, far, rw (place, at') refl, subst (λ x. Holds x mem v) d_is_c here)
        | inr other ↦
            rw (at, same, other)
              (seek_present fs es (suc (suc p)) c h e (rw other at there) (omega arith))
      ]
