-- ===== src/Credential/Choice.antt =====
-- What `Pick` may choose, and what the methods keep.
use srosha.Prelude.{
  ◌≡◌, refl, ap, ◌⊎◌, inl, inr, Bool, true, false, ◌&&◌, List, [], ◌∷◌, Text, text_eqb,
  text_eqb_iff, is_empty, arith, Bool-cases, if◌then◌else◌,
}
use srosha.Errs.{Error, nil}
use srosha.Errs.Result.{ok, err, ok_injective}
use srosha.Delivery.{Time}
use srosha.Credential.{
  Credential, make_default, deactivate, activate, pick_named, pick_default, pick,
}

-- Membership.
abbrev pub IsIn : Credential → List Credential → Type 0
IsIn c [] = ⊥
IsIn c (d ∷ ds) = (d ≡ c) ⊎ IsIn c ds

-- What is chosen for a name: one of the list, active, and the one named or a default.
abbrev pub IsChoice : List Credential → Text → Credential → Type 0
IsChoice creds name c =
    IsIn c creds
    × (c.is_active ≡ true)
    × ((c.name ≡ name) ⊎ ((is_empty name ≡ true) × (c.is_default ≡ true)))

chosen_if :
    (b : Bool) (d c : Credential) (e : Error)
    → (if b then ok d else err e) ≡ ok c
    → (d ≡ c) × (b ≡ true)
chosen_if true d c e h = (ok_injective d c h, refl)
chosen_if false d c e h = cc

pick_named-choice :
    (name : Text) (cs : List Credential) (c : Credential)
    → pick_named name cs ≡ ok c
    → IsIn c cs × (c.is_active ≡ true) × (c.name ≡ name)
unfolding pick_named
pick_named-choice name [] c h = cc
pick_named-choice name (d ∷ ds) c h = elim (Bool-cases (text_eqb d.name name)) [
  | inl t ↦
      let (same, a) = chosen_if d.is_active d c _ (rw t at h) in
      (
        inl same,
        ground (arith, ap (λ (x : Credential). x.is_active) same),
        ground (arith, (text_eqb_iff d.name name).0 t, ap (λ (x : Credential). x.name) same),
      )
  | inr t ↦ let (i, a, n) = pick_named-choice name ds c (rw t at h) in (inr i, a, n)
]

pick_default-choice :
    (all_of cs : List Credential) (c : Credential)
    → pick_default all_of cs ≡ ok c
    → IsIn c cs × (c.is_active ≡ true) × (c.is_default ≡ true)
unfolding pick_default
pick_default-choice [] [] c h = cc
pick_default-choice (_ ∷ _) [] c h = cc
pick_default-choice all_of (d ∷ ds) c h = elim (Bool-cases (d.is_default && d.is_active)) [
  | inl t ↦
      let same : d ≡ c = ok_injective d c (rw t at h) in
      (
        inl same,
        ground (arith, ap (λ (x : Credential). x.is_active) same),
        ground (arith, ap (λ (x : Credential). x.is_default) same),
      )
  | inr t ↦ let (i, a, n) = pick_default-choice all_of ds c (rw t at h) in (inr i, a, n)
]

-- What `Pick` chooses is one of the credentials that it was given and active; it has the name
-- that was asked for or, where none was, it is a default.
pub pick-IsChoice :
    (creds : List Credential) (name : Text) (c : Credential)
    → pick creds name ≡ ok c
    → IsChoice creds name c
unfolding pick
pick-IsChoice creds name c h = elim (Bool-cases (is_empty name)) [
  | inl t ↦ let (i, a, d) = pick_default-choice creds creds c (rw t at h) in (i, a, inr (t, d))
  | inr t ↦ let (i, a, n) = pick_named-choice name creds c (rw t at h) in (i, a, inl n)
]

-- A default can be used.
abbrev pub IsUsable : Credential → Type 0
IsUsable c = (c.is_default ≡ false) ⊎ (c.is_active ≡ true)

-- Switching a credential off and on, and making it the default, keep every default usable; a
-- refused change changes nothing, and switching it on again does not make it the default.
pub methods-IsUsable :
    (c : Credential) (now : Time)
    → IsUsable c
    → IsUsable (make_default now c).0
      × IsUsable (deactivate now c)
      × IsUsable (activate now c)
      × (((make_default now c).1 ≡ nil) ⊎ ((make_default now c).0 ≡ c))
      × ((activate now (deactivate now c)).is_default ≡ false)
unfolding make_default deactivate activate
methods-IsUsable c now h = (ground arith, ground arith, ground arith, ground arith, refl)
