-- ===== src/LoginCode/Once.antt =====
-- The answers that a code is given.
use srosha.Prelude.{
  ℕ, ◌+◌, ◌<◌, ◌≤◌, ◌≡◌, refl, ◌⊎◌, inl, inr, ◌↔◌, ◌≢◌, none, some, List, [], ◌∷◌, Text,
  text_eqb_iff, arith, if◌then◌else◌,
}
use srosha.Errs.{Error, nil, is_nil}
use srosha.Shared.Id.{SharedId}
use srosha.Delivery.{Time}
use srosha.LoginCode.{LoginCode, new, spent, check, max_guesses}

-- A code that may still be answered at a moment.
abbrev pub IsOpen : Time → LoginCode → Type 0
IsOpen now c = (c.used_at ≡ none) × (c.attempts < max_guesses) × (now < c.expires_at)

IsOpen-or_not : (now : Time) (c : LoginCode) → IsOpen now c ⊎ ¬ IsOpen now c
IsOpen-or_not now c = ground arith

-- `Check` accepts exactly the right answer to an open code. An open code is spent by any answer,
-- right or wrong; any other is left as it was, and refused.
pub check_lem :
    (given : Text) (now : Time) (c : LoginCode)
    → (((check given now c).1 ≡ nil) ↔ (IsOpen now c × (given ≡ c.code)))
      × ((IsOpen now c × ((check given now c).0 ≡ spent now c))
          ⊎ (((check given now c).0 ≡ c) × ((check given now c).1 ≢ nil)))
unfolding check
check_lem given now c = (
  (λ h. ground (arith, text_eqb_iff given c.code), λ h. ground (arith, text_eqb_iff given c.code)),
  elim (IsOpen-or_not now c) [
    | inl o ↦ inl (o, ground arith)
    | inr n ↦ inr (ground arith, ground arith)
  ],
)

pub check-spent :
    (given : Text) (now : Time) (c : LoginCode) → IsOpen now c → (check given now c).0 ≡ spent now c
unfolding check
check-spent given now c o = ground arith

-- The answers that a code is given one after the other, and what each returns.
unfoldable pub check_all : List (Text × Time) → LoginCode → LoginCode × List Error
unfolding check
check_all [] c = (c, [])
check_all ((given, now) ∷ rest) c =
    let (c', e) = check given now c in let (c'', es) = check_all rest c' in (c'', e ∷ es)

abbrev pub accepted : List Error → ℕ
accepted [] = 0
accepted (e ∷ es) = (if is_nil e then 1 else 0) + accepted es

spent-accepted :
    (answers : List (Text × Time)) (c : LoginCode) (t : Time)
    → c.used_at ≡ some t
    → ((check_all answers c).0 ≡ c) × (accepted (check_all answers c).1 ≡ 0)
unfolding check_all
spent-accepted [] c t h = (refl, refl)
spent-accepted ((given, now) ∷ rest) c t h = ground (arith, spent-accepted rest c t h)

fresh-accepted :
    (answers : List (Text × Time)) (c : LoginCode)
    → c.used_at ≡ none
    → c.attempts ≡ 0
    → (accepted (check_all answers c).1 ≤ 1) × ((check_all answers c).0.attempts ≤ 1)
unfolding check_all
fresh-accepted [] c u a = (ground arith, ground arith)
fresh-accepted ((given, now) ∷ rest) c u a =
    ground (arith, spent-accepted rest (spent now c) now refl, fresh-accepted rest c u a)

-- A code that `New` made is never accepted twice, and never counts more than one attempt, whatever
-- it is answered and when: its first answer in time spends it, so that the limit of three guesses
-- is never what refuses an answer.
pub check_all-new :
    (id user : SharedId) (code : Text) (made : Time) (answers : List (Text × Time))
    → let done = check_all answers (new id user code made) in
      (accepted done.1 ≤ 1) × (done.0.attempts ≤ 1)
unfolding new
check_all-new id user code made answers = fresh-accepted answers (new id user code made) refl refl
