-- ===== src/Table.antt =====
-- Tables as lists of rows, and the statements that the repositories of
-- internal/adapter/db/postgres run on them.
pub mod Found
use srosha.Prelude.{
  ◌≡◌, ap, ℕ, zero, suc, ◌+◌, Bool, Option, none, some, List, [], ◌∷◌, ◌==◌, if◌then◌else◌,
}
use srosha.Errs.{Error}
use srosha.Errs.Result.{Result, ok, err, ok_injective}

module _ {A : Type 0} where
  -- `SELECT … WHERE … LIMIT 1`.
  unfoldable pub find_where : (A → Bool) → List A → Option A
  find_where p [] = none
  find_where p (a ∷ rows) = if p a then some a else find_where p rows

  -- `SELECT … WHERE …`.
  unfoldable pub filter_where : (A → Bool) → List A → List A
  filter_where p [] = []
  filter_where p (a ∷ rows) = let rest = filter_where p rows in if p a then a ∷ rest else rest

  -- `SELECT count(*) … WHERE …`, and the number of rows that a statement reports.
  unfoldable pub count_where : (A → Bool) → List A → ℕ
  count_where p [] = 0
  count_where p (a ∷ rows) = (if p a then 1 else 0) + count_where p rows

  -- `UPDATE … SET … WHERE …`.
  unfoldable pub change_where : (A → Bool) → (A → A) → List A → List A
  change_where p f [] = []
  change_where p f (a ∷ rows) = (if p a then f a else a) ∷ change_where p f rows

  -- `DELETE … WHERE …`.
  unfoldable pub delete_where : (A → Bool) → List A → List A
  delete_where p [] = []
  delete_where p (a ∷ rows) = let rest = delete_where p rows in if p a then rest else a ∷ rest

  unfoldable pub insert_by : (A → A → Bool) → A → List A → List A
  insert_by before a [] = a ∷ []
  insert_by before a (b ∷ rows) =
      let rest = insert_by before a rows in if before a b then a ∷ (b ∷ rows) else b ∷ rest

  -- `ORDER BY …`: rows of which neither comes before the other keep their order.
  unfoldable pub order_by : (A → A → Bool) → List A → List A
  unfolding insert_by
  order_by before [] = []
  order_by before (a ∷ rows) = insert_by before a (order_by before rows)

  -- `LIMIT n`, and `rows[:n]`.
  unfoldable pub limited : ℕ → List A → List A
  limited zero rows = []
  limited (suc n) [] = []
  limited (suc n) (a ∷ rows) = a ∷ limited n rows

  -- A read that answers with an error where there is no row.
  abbrev pub or_missing : Option A → Error → Result A
  or_missing none missing = err missing
  or_missing (some a) missing = ok a

-- A write that reports no row is an error.
abbrev pub wrote : ℕ → Error → Result (Unit {0})
wrote n missing = if n == 0 then err missing else ok tt

pub found_inv : {A : Type 0} (o : Option A) (e : Error) (a : A) → or_missing o e ≡ ok a → o ≡ some a
found_inv none e a h = cc
found_inv (some b) e a h = ap some (ok_injective b a h)
