-- ===== src/User.antt =====
-- internal/core/domain/user: a person who may sign in, and what they may do.
pub mod Email
use srosha.Prelude.{
  ℕ, Bool, true, false, not, ◌+◌, List, map, Text, trim_space, is_empty, is_upper, length, ltb,
  if◌then◌else◌,
}
use srosha.Errs.{
  Error, nil, refused, detailed, invalid_input, forbidden, unknown_role, user_inactive, empty_email,
  invalid_email,
}
use srosha.Errs.Result.{Result, ok, err, ◌>>=◌, ◌>>◌, refuse_if}
use srosha.Shared.Id.{SharedId}
use srosha.Delivery.{Time}

-- A Go `Role` is any string; `other_role` holds those that are none of the constants.
pub data Role : Type 0 where
  customer admin super_admin : Role
  other_role : Text → Role

abbrev pub role_valid : Role → Bool
role_valid (other_role _) = false
role_valid _ = true

abbrev pub is_operator : Role → Bool
is_operator admin = true
is_operator super_admin = true
is_operator customer = false
is_operator (other_role _) = false

abbrev pub is_super_admin : Role → Bool
is_super_admin super_admin = true
is_super_admin admin = false
is_super_admin customer = false
is_super_admin (other_role _) = false

pub record User : Type 0 where
  pub id : SharedId
  pub email : Text
  pub role : Role
  pub is_active : Bool
  pub created_at : Time
  pub updated_at : Time

abbrev pub max_email_len : ℕ
max_email_len = 254

-- What this takes from Go's library: whether `mail.ParseAddress` accepts a text, and
-- `strings.ToLower`, whose tables of runes are outside the model.
pub record Mail : Type 0 where
  pub parses : Text → Bool
  pub to_lower : Text → Text

unfoldable pub check_email : Mail → Text → Result Text
check_email mail t = do
  refuse_if (is_empty t) (refused invalid_input empty_email)
  refuse_if (ltb max_email_len (length t)) (detailed invalid_input invalid_email)
  refuse_if (not (mail.parses t)) (refused invalid_input invalid_email)
  ok t

unfoldable pub normalize_email : Mail → Text → Result Text
unfolding check_email
normalize_email mail email = check_email mail (mail.to_lower (trim_space email))

unfoldable pub new : Mail → SharedId → Text → Role → Time → Result User
new mail id email role now = do
  address ← normalize_email mail email
  refuse_if (not (role_valid role)) (detailed invalid_input unknown_role)
  ok (record {
    id = id;
    email = address;
    role = role;
    is_active = true;
    created_at = now;
    updated_at = now;
  })

unfoldable pub change_role : Role → Time → User → User × Error
change_role r now u =
    if role_valid r
    then (record u { role = r; updated_at = now }, nil)
    else (u, detailed invalid_input unknown_role)

unfoldable pub ensure_active : User → Result (Unit {0})
ensure_active u = if u.is_active then ok tt else err (detailed forbidden user_inactive)
