-- ===== src/Proxy/Hosts/Listing.antt =====
-- What the checks of hosts of the transports in pkg/transport mean.
use mathlib.Core.Logic.Or
use mathlib.Core.Bool.{Bool-set}
use mathlib.Core.List.{Mem, mem-cons, not-mem-nil}
use text.Mathlib.TextEquality.{eq_iff}
use spanreed_netcode_proxy.Prelude.{
  ◌≡◌, refl, sym, ◌∙◌, ◌⊎◌, ◌↔◌, inl, inr, Bool, true, false, String, List, [], ◌∷◌, Bool-cases,
  if◌then◌else◌,
}
use spanreed_netcode_proxy.Proxy.State.{same_name}
use spanreed_netcode_proxy.Proxy.Hosts.{contains, is_destination_allowed, check_origin}

-- A host is allowed if it is not on the list of the denied, and all are allowed, or it is on the
-- other list.
abbrev pub IsAllowed : Bool → (allowlist denylist : List String) → String → Type 0
IsAllowed allow_all allowlist denylist host =
    (¬ Mem host denylist) × ((allow_all ≡ true) ⊎ Mem host allowlist)

contains-Mem : (s : String) (l : List String) → contains s l ≡ true → Mem s l
unfolding contains
contains-Mem s [] h = cc
contains-Mem s (c ∷ l) h = elim (Bool-cases (same_name c s)) [
  | inl same ↦ mem-cons.1 (Or.inl (sym ((eq_iff c s).0 same)))
  | inr other ↦ mem-cons.1 (Or.inr (contains-Mem s l (rw other at h)))
]

Mem-contains : (s : String) (l : List String) → Mem s l → contains s l ≡ true
unfolding contains
Mem-contains s [] m = absurd (not-mem-nil m)
Mem-contains s (c ∷ l) m =
    Or.elim (Bool-set _ _) (mem-cons.0 m)
      (λ e. let same : same_name c s ≡ true = (eq_iff c s).1 (sym e) in rw same refl)
      (λ h. elim (Bool-cases (same_name c s)) [
        | inl same ↦ rw same refl
        | inr other ↦ rw other (Mem-contains s l h)
      ])

decide :
    (allow_all : Bool) (allowlist denylist : List String) (host : String)
    → let b =
        if contains host denylist
        then false
        else if allow_all
        then true
        else contains host allowlist in
      (b ≡ true) ↔ IsAllowed allow_all allowlist denylist host
decide allow_all allowlist denylist host = elim (Bool-cases (contains host denylist)) [
  | inl denied ↦
      rw denied
        (λ e. cc, λ (not_denied, _). absurd (not_denied (contains-Mem host denylist denied)))
  | inr free ↦ rw free (
    λ e. (
      λ m. let e' : true ≡ false = sym (Mem-contains host denylist m) ∙ free in cc,
      allowed_by allow_all e,
    ),
    λ (_, h). decided allow_all h,
  )
]
  where
    allowed_by :
        (all : Bool)
        → (if all then true else contains host allowlist) ≡ true
        → (all ≡ true) ⊎ Mem host allowlist
    allowed_by true e = inl refl
    allowed_by false e = inr (contains-Mem host allowlist e)

    decided :
        (all : Bool)
        → (all ≡ true) ⊎ Mem host allowlist
        → (if all then true else contains host allowlist) ≡ true
    decided true h = refl
    decided false (inl e) = cc
    decided false (inr m) = Mem-contains host allowlist m

-- The handlers of the destinations and of the WebSocket clients check hosts alike: a host passes
-- exactly if it is not on the list of the denied, and all are allowed or it is on the list of the
-- allowed.
pub is_destination_allowed-check_origin :
    (allow_all : Bool) (allowlist denylist : List String) (host : String)
    → ((is_destination_allowed allow_all allowlist denylist host ≡ true)
        ↔ IsAllowed allow_all allowlist denylist host)
      × ((check_origin allow_all allowlist denylist host ≡ true)
          ↔ IsAllowed allow_all allowlist denylist host)
unfolding is_destination_allowed check_origin
is_destination_allowed-check_origin allow_all allowlist denylist host =
    (decide allow_all allowlist denylist host, decide allow_all allowlist denylist host)
