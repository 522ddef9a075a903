-- ===== src/Console/SignIn/Newest.antt =====
-- The newest code of a person, among the codes that are stored.
use srosha.Prelude.{
  All, All-map, Bool, Bool-cases, List, Option, [], ap, arith, false, if◌then◌else◌, inl, inr, leb,
  none, refl, some, some_injective, subst, sym, text_eqb_iff, true, ◌∙◌, ◌∷◌, ◌≡◌, ◌≤◌,
}
use srosha.Table.{change_where}
use srosha.Table.Found.{IsIn}
use srosha.Shared.Id.{SharedId}
use srosha.Delivery.{Time}
use srosha.LoginCode.{LoginCode}
use srosha.Console.SignIn.{is_code_of, later, newest, is_code, as_spent}

-- The code of a person that was created last.
abbrev pub IsLast : SharedId → List LoginCode → LoginCode → Type 0
IsLast user_id rows c =
    IsIn c rows
    × (c.user_id ≡ user_id)
    × All (λ (d : LoginCode). d.user_id ≡ user_id → d.created_at ≤ c.created_at) rows

true-false : true ≡ false → ⊥
true-false h = cc

none_of :
    (user_id : SharedId) (rows : List LoginCode) (at : Time)
    → newest user_id rows ≡ none
    → All (λ (d : LoginCode). d.user_id ≡ user_id → d.created_at ≤ at) rows
unfolding newest
none_of user_id [] at h = tt
none_of user_id (row ∷ rows) at h = (
  λ own. ground (arith, h, (text_eqb_iff row.user_id user_id).1 own),
  none_of user_id rows at (ground arith),
)

pub newest-IsLast :
    (user_id : SharedId) (rows : List LoginCode) (c : LoginCode)
    → newest user_id rows ≡ some c
    → IsLast user_id rows c
unfolding newest
newest-IsLast user_id [] c h = cc
newest-IsLast user_id (row ∷ rows) c h =
    step (newest-IsLast user_id rows) (is_code_of user_id row) (newest user_id rows) refl refl h
  where
    older :
        (d : LoginCode)
        → d.created_at ≤ row.created_at
        → All (λ (x : LoginCode). x.user_id ≡ user_id → x.created_at ≤ d.created_at) rows
        → All (λ (x : LoginCode). x.user_id ≡ user_id → x.created_at ≤ row.created_at) rows
    older d k l = All-map _ _ rows (λ x f own. let g = f own in omega (arith, g, k)) l

    step :
        ((d : LoginCode) → newest user_id rows ≡ some d → IsLast user_id rows d)
        → (b : Bool) (o : Option LoginCode) → is_code_of user_id row ≡ b
        → newest user_id rows ≡ o
        → (if b then some (later row o) else o) ≡ some c
        → IsLast user_id (row ∷ rows) c
    step ih false none own e k = cc
    step ih false (some d) own e k =
        let (sent, theirs, latest) = ih c (e ∙ k) in
        (
          inr sent,
          theirs,
          (
            λ mine. absurd (true-false (sym ((text_eqb_iff row.user_id user_id).1 mine) ∙ own)),
            latest,
          ),
        )
    step ih true none own e k =
        subst (λ (x : LoginCode). IsLast user_id (row ∷ rows) x) (some_injective row c k)
          (
            inl refl,
            (text_eqb_iff row.user_id user_id).0 own,
            ((λ _. omega arith), none_of user_id rows row.created_at e),
          )
    step ih true (some d) own e k =
        let (sent, theirs, latest) = ih d e in
        elim (Bool-cases (leb d.created_at row.created_at)) [
          | inl y ↦
              let is : row ≡ c = some_injective row c (rw y at k) in
              subst (λ (x : LoginCode). IsLast user_id (row ∷ rows) x) is
                (
                  inl refl,
                  (text_eqb_iff row.user_id user_id).0 own,
                  ((λ _. omega arith), older d (ground (arith, y)) latest),
                )
          | inr n ↦
              let is : d ≡ c = some_injective d c (rw n at k) in
              subst (λ (x : LoginCode). IsLast user_id (row ∷ rows) x) is
                (inr sent, theirs, ((λ _. ground (arith, n)), latest))
        ]

-- A code as it is stored when one with its identifier was used.
abbrev pub stored : LoginCode → LoginCode → LoginCode
stored c row = if is_code c.id row then as_spent c row else row

abbrev pub stored_if : LoginCode → Option LoginCode → Option LoginCode
stored_if c none = none
stored_if c (some row) = some (stored c row)

later-stored :
    (c row : LoginCode) (rest : Option LoginCode)
    → later (stored c row) (stored_if c rest) ≡ stored c (later row rest)
later-stored c row none = refl
later-stored c row (some d) = ground arith

stored-owner : (c row : LoginCode) → (stored c row).user_id ≡ row.user_id
stored-owner c row = ground arith

pub newest-change :
    (c : LoginCode) (user_id : SharedId) (rows : List LoginCode)
    → newest user_id (change_where (is_code c.id) (as_spent c) rows)
      ≡ stored_if c (newest user_id rows)
unfolding newest change_where
newest-change c user_id [] = refl
newest-change c user_id (row ∷ rows) =
    rw (newest-change c user_id rows, stored-owner c row)
      (elim (Bool-cases (is_code_of user_id row)) [
        | inl own ↦ rw own (ap some (later-stored c row (newest user_id rows)))
        | inr other ↦ rw other refl
      ])
