-- ===== src/Credential.antt =====
-- internal/core/domain/credential/entity.go: which identity a source sends with on a channel.
pub mod Choice
use srosha.Prelude.{
  ℕ, Bool, true, false, not, ◌||◌, ◌&&◌, List, [], ◌∷◌, Text, text_eqb, is_empty, is_lower,
  is_digit, all, length, ltb, if◌then◌else◌, ◌==◌,
}
use srosha.Errs.{
  Error, nil, refused, detailed, internal, invalid_input, invalid_id, missing_source,
  unknown_channel, default_unusable, credential_inactive, credential_not_found, no_credentials,
  no_default, no_credential_name, invalid_name,
}
use srosha.Errs.Result.{Result, ok, err, ◌>>=◌, ◌>>◌, refuse_if}
use srosha.Shared.Id.{SharedId, is_zero}
use srosha.Shared.Channel.{Channel, valid}
use srosha.Delivery.{Time}

pub record Credential : Type 0 where
  pub id : SharedId
  pub source_id : Text
  pub channel : Channel
  pub name : Text
  pub created_at : Time
  pub updated_at : Time
  pub is_default : Bool
  pub is_active : Bool

abbrev max_name_len : ℕ
max_name_len = 32

-- A byte of a rune beyond ASCII is none of these, as its rune is not.
abbrev name_byte : ℕ → Bool
name_byte c = is_lower c || is_digit c || (c == b'-')

unfoldable pub validate_name : Text → Result (Unit {0})
validate_name name = do
  refuse_if (is_empty name) (refused invalid_input no_credential_name)
  refuse_if (ltb max_name_len (length name)) (detailed invalid_input invalid_name)
  refuse_if (not (all name_byte name)) (detailed invalid_input invalid_name)

unfoldable pub new : SharedId → Text → Channel → Text → Bool → Time → Result Credential
unfolding validate_name
new id source_id c name is_default now = do
  refuse_if (is_zero id) (refused internal invalid_id)
  refuse_if (is_empty source_id) (refused internal missing_source)
  refuse_if (now == 0) (refused internal invalid_id)
  refuse_if (not (valid c)) (detailed invalid_input unknown_channel)
  validate_name name
  ok (record {
    id = id;
    source_id = source_id;
    channel = c;
    name = name;
    created_at = now;
    updated_at = now;
    is_default = is_default;
    is_active = true;
  })

unfoldable pub make_default : Time → Credential → Credential × Error
make_default now c =
    if c.is_active
    then (record c { is_default = true; updated_at = now }, nil)
    else (c, detailed invalid_input default_unusable)

unfoldable pub deactivate : Time → Credential → Credential
deactivate now c = record c { is_active = false; is_default = false; updated_at = now }

unfoldable pub activate : Time → Credential → Credential
activate now c = record c { is_active = true; updated_at = now }

-- The two loops of `Pick`.
pick_named : Text → List Credential → Result Credential
unfolding text_eqb
pick_named name [] = err (detailed invalid_input credential_not_found)
pick_named name (c ∷ cs) =
    if text_eqb c.name name
    then if c.is_active then ok c else err (detailed invalid_input credential_inactive)
    else pick_named name cs

abbrev none_left : List Credential → Result Credential
none_left [] = err (refused invalid_input no_credentials)
none_left (_ ∷ _) = err (refused invalid_input no_default)

-- `all_of` is the whole list, which the last answer looks at.
unfoldable pub pick_default : List Credential → List Credential → Result Credential
pick_default all_of [] = none_left all_of
pick_default all_of (c ∷ cs) = if c.is_default && c.is_active then ok c else pick_default all_of cs

unfoldable pub pick : List Credential → Text → Result Credential
unfolding pick_named pick_default
pick creds name = if is_empty name then pick_default creds creds else pick_named name creds
