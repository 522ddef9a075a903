-- ===== src/Effect.antt =====
-- Code that runs statements on tables: each may fail, before it took effect or after, so that its
-- reply is lost. Which do is a list, the next statement's first; beyond its end none fails.
pub mod Keeps
pub mod Inversion
use srosha.Prelude.{◌≡◌, List, [], ◌∷◌}
use srosha.Errs.{Error, app, both, str, unavailable}
use srosha.Errs.Result.{Result, ok, err}

pub data Fault : Type 0 where
  fine before after : Fault

-- `failed(op, err)` of internal/adapter/db/postgres/postgres.go: an error around the driver's.
abbrev pub driver_failure : Error
driver_failure = app unavailable (both str str)

-- The tables and the faults to come.
abbrev pub Under : Type 0 → Type 0
Under S = S × List Fault

abbrev pub Effect : Type 0 → Type 0 → Type 0
Effect S A = Under S → Result A × Under S

abbrev pub then_do : {S A B : Type 0} → Result A × Under S → (A → Effect S B) → Result B × Under S
then_do (ok a, u) f = f a u
then_do (err e, u) f = (err e, u)

infixl 5 ◌>>=◌ ◌>>◌
abbrev pub ◌>>=◌ : {S A B : Type 0} → Effect S A → (A → Effect S B) → Effect S B
◌>>=◌ m f u = then_do (m u) f

abbrev pub ◌>>◌ : {S A B : Type 0} → Effect S A → Effect S B → Effect S B
◌>>◌ m k u = then_do (m u) (λ _. k)

abbrev pub pure : {S A : Type 0} → A → Effect S A
pure a u = (ok a, u)

abbrev pub fail : {S A : Type 0} → Error → Effect S A
fail e u = (err e, u)

-- What does not touch the tables.
abbrev pub lift : {S A : Type 0} → Result A → Effect S A
lift r u = (r, u)

abbrev run_one : {S A : Type 0} → (S → Result A × S) → S → Fault → Result A × S
run_one q s fine = q s
run_one q s before = (err driver_failure, s)
run_one q s after = (err driver_failure, (q s).1)

abbrev with_rest : {S A : Type 0} → Result A × S → List Fault → Result A × Under S
with_rest (r, s) fs = (r, (s, fs))

abbrev pub statement : {S A : Type 0} → (S → Result A × S) → Effect S A
statement q (s, []) = with_rest (q s) []
statement q (s, f ∷ fs) = with_rest (run_one q s f) fs

-- The answer of a statement that only reads.
abbrev pub asked : {S A : Type 0} → (S → Result A) → S → Result A × S
asked q s = (q s, s)

abbrev pub query : {S A : Type 0} → (S → Result A) → Effect S A
query q = statement (asked q)

-- An error that is ignored.
abbrev unfailing : {S A : Type 0} → Result A × Under S → Result (Unit {0}) × Under S
unfailing (r, u) = (ok tt, u)

abbrev pub attempt : {S A : Type 0} → Effect S A → Effect S (Unit {0})
attempt m u = unfailing (m u)

-- The end of a transaction: an error rolls back; a commit is a statement, and one that fails
-- before it took effect leaves the tables as they were.
abbrev pub committed : {S A : Type 0} → S → Result A × Under S → Result A × Under S
committed s (err e, (_, fs)) = (err e, (s, fs))
committed s (ok a, (t, [])) = (ok a, (t, []))
committed s (ok a, (t, fine ∷ fs)) = (ok a, (t, fs))
committed s (ok a, (t, before ∷ fs)) = (err driver_failure, (s, fs))
committed s (ok a, (t, after ∷ fs)) = (err driver_failure, (t, fs))

-- `UnitOfWork.Atomically`.
abbrev pub atomically : {S A : Type 0} → Effect S A → Effect S A
atomically m (s, fs) = committed s (m (s, fs))
