-- ===== src/Table/Found.antt =====
-- What a read finds behind a write.
use srosha.Prelude.{
  ◌≡◌, ◌⊎◌, refl, ap, map, Bool, true, Option, none, some, List, [], ◌∷◌, arith, if◌then◌else◌,
}
use srosha.Table.{find_where, change_where}

-- Membership.
abbrev pub IsIn : {A : Type 0} → A → List A → Type 0
IsIn a [] = ⊥
IsIn a (b ∷ rows) = (b ≡ a) ⊎ IsIn a rows

abbrev pub changed_row : {A : Type 0} → (A → Bool) → (A → A) → Option A → Option A
changed_row q f none = none
changed_row q f (some a) = some (if q a then f a else a)

-- A write that leaves the test of a read as it was changes only the row that is found.
pub find_where-change_where :
    {A : Type 0} (p q : A → Bool) (f : A → A) (rows : List A)
    → ((a : A) → p (f a) ≡ p a)
    → find_where p (change_where q f rows) ≡ changed_row q f (find_where p rows)
unfolding find_where change_where
find_where-change_where p q f [] h = refl
find_where-change_where p q f (a ∷ rows) h =
    ground (arith, h a, find_where-change_where p q f rows h)

pub find_where_inv :
    {A : Type 0} (p : A → Bool) (rows : List A) (a : A) → find_where p rows ≡ some a → p a ≡ true
unfolding find_where
find_where_inv p [] a h = cc
find_where_inv p (b ∷ rows) a h = ground (arith, h, find_where_inv p rows a)

pub change_where-map :
    {A : Type 0} (q : A → Bool) (f : A → A) (rows : List A)
    → change_where q f rows ≡ map (λ a. if q a then f a else a) rows
unfolding change_where
change_where-map q f [] = refl
change_where-map q f (a ∷ rows) = ap (λ r. (if q a then f a else a) ∷ r) (change_where-map q f rows)
