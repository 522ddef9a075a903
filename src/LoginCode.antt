-- ===== src/LoginCode.antt =====
-- internal/core/domain/logincode: a one-time code. A duration is a number of nanoseconds; the code
-- itself is drawn by `crypto/rand`, which is outside the model.
pub mod Once
use srosha.Prelude.{
  ℕ, ◌+◌, ◌*◌, Bool, true, false, not, Option, none, some, is_some, Text, text_eqb, leb,
  if◌then◌else◌,
}
use srosha.Errs.{
  Error, nil, refused, invalid_input, code_spent, code_expired, code_wrong, too_many_guesses,
}
use srosha.Shared.Id.{SharedId}
use srosha.Delivery.{Time}

pub record LoginCode : Type 0 where
  pub id : SharedId
  pub user_id : SharedId
  pub code : Text
  pub expires_at : Time
  pub attempts : ℕ
  pub used_at : Option Time
  pub created_at : Time

abbrev pub minute : ℕ
minute = 60_000_000_000

abbrev pub lifetime : ℕ
lifetime = 10 * minute

abbrev pub max_guesses : ℕ
max_guesses = 3

unfoldable pub new : SharedId → SharedId → Text → Time → LoginCode
new id user_id code now = record {
  id = id;
  user_id = user_id;
  code = code;
  expires_at = now + lifetime;
  attempts = 0;
  used_at = none;
  created_at = now;
}

-- The code as an answer leaves it.
abbrev pub spent : Time → LoginCode → LoginCode
spent now c = record c { attempts = c.attempts + 1; used_at = some now }

-- `Check` changes the code in place: it returns it as it then is, and its error.
unfoldable pub check : Text → Time → LoginCode → LoginCode × Error
check given now c =
    if is_some c.used_at
    then (c, refused invalid_input code_spent)
    else if leb max_guesses c.attempts
    then (c, refused invalid_input too_many_guesses)
    else if leb c.expires_at now
    then (c, refused invalid_input code_expired)
    else if text_eqb given c.code
    then (spent now c, nil)
    else (spent now c, refused invalid_input code_wrong)
