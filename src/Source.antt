-- ===== src/Source.antt =====
-- internal/core/domain/source: entity.go and const.go. The caller identity, and the operator's
-- decisions about it. The map of default addresses is an association list, and the loop over it
-- goes in the list's order where Go's is not fixed.
pub mod Review
pub mod Routes
use srosha.Prelude.{
  ℕ, Bool, true, false, ◌||◌, Option, none, some, is_some, List, [], ◌∷◌, Text, is_empty,
  trim_space, length, ltb, if◌then◌else◌,
}
use srosha.Errs.{
  Error, nil, refused, detailed, invalid_input, forbidden, empty_name, source_inactive,
  no_reachable_address, already_approved, no_reason, not_approved, not_reviewed,
}
use srosha.Errs.Result.{Result, ok, err, ◌>>=◌, ◌>>◌, refuse_if}
use srosha.Shared.Id.{SharedId}
use srosha.Shared.Priority.{Priority, priority_normal}
use srosha.Shared.Channel.{Channel, channel_eqb, validate_address}

abbrev pub Time : Type 0
Time = ℕ

abbrev pub Addresses : Type 0
Addresses = List (Channel × Text)

pub record Source : Type 0 where
  pub id : Text
  pub name : Text
  pub description : Text
  pub max_priority : Priority
  pub is_active : Bool
  pub owner_user_id : SharedId
  pub approved_at : Option Time
  pub reviewed_at : Option Time
  pub review_note : Text
  pub allow_custom_address : Bool
  pub default_addresses : Addresses
  pub created_at : Time
  pub updated_at : Time

abbrev pub max_name_len : ℕ
max_name_len = 64

abbrev pub max_description_len : ℕ
max_description_len = 280

abbrev pub max_review_note_len : ℕ
max_review_note_len = 500

-- The loop `for channel, address := range addresses`.
unfoldable pub check_addresses : (Text → Bool) → Addresses → Result (Unit {0})
check_addresses is_mail [] = ok tt
check_addresses is_mail ((c, a) ∷ m) = validate_address is_mail c a >> check_addresses is_mail m

check_name : Text → Result (Unit {0})
check_name trimmed = do
  refuse_if (is_empty trimmed) (refused invalid_input empty_name)
  refuse_if (ltb max_name_len (length trimmed)) (detailed invalid_input empty_name)

unfoldable pub new : (Text → Bool) → Text → SharedId → Text → Addresses → Time → Result Source
unfolding check_name check_addresses
new is_mail id owner name addresses now = do
  check_name (trim_space name)
  check_addresses is_mail addresses
  ok (record {
    id = id;
    name = trim_space name;
    description = [];
    max_priority = priority_normal;
    is_active = false;
    owner_user_id = owner;
    approved_at = none;
    reviewed_at = none;
    review_note = [];
    allow_custom_address = false;
    default_addresses = addresses;
    created_at = now;
    updated_at = now;
  })

-- The methods change the source in place: they return it as it then is, and their error.
abbrev on_ok : Result (Unit {0}) → Source → Source → Source × Error
on_ok (ok _) old changed = (changed, nil)
on_ok (err e) old changed = (old, e)

-- The guards of `Reconfigure`, all of them before anything is written.
check_settings : (Text → Bool) → Text → Text → Addresses → Result (Unit {0})
unfolding check_name
check_settings is_mail name description addresses = do
  check_name (trim_space name)
  refuse_if (ltb max_description_len (length (trim_space description)))
      (detailed invalid_input empty_name)
  check_addresses is_mail addresses

unfoldable pub reconfigure :
    (Text → Bool) → Text → Text → Addresses → Time → Source → Source × Error
unfolding check_settings
reconfigure is_mail name description addresses now s =
    on_ok (check_settings is_mail name description addresses) s (record s {
      name = trim_space name;
      description = trim_space description;
      default_addresses = addresses;
      updated_at = now;
    })

unfoldable pub ensure_active : Source → Result (Unit {0})
ensure_active s = if s.is_active then ok tt else err (detailed forbidden source_inactive)

abbrev pub is_approved : Source → Bool
is_approved s = is_some s.approved_at

abbrev pub is_reviewed : Source → Bool
is_reviewed s = is_some s.reviewed_at

abbrev has_any : Addresses → Bool
has_any [] = false
has_any (_ ∷ _) = true

abbrev pub is_reachable : Source → Bool
is_reachable s = has_any s.default_addresses || s.allow_custom_address

-- `if s.ApprovedAt == nil { s.ApprovedAt = &now }`.
abbrev first_approved : Option Time → Time → Option Time
first_approved none now = some now
first_approved (some t) now = some t

abbrev let_out : Time → Source → Source
let_out now s = record s {
  approved_at = first_approved s.approved_at now;
  reviewed_at = some now;
  review_note = [];
  is_active = true;
  updated_at = now;
}

unfoldable pub approve : Time → Source → Source × Error
approve now s =
    if is_reachable s
    then (let_out now s, nil)
    else (s, detailed invalid_input no_reachable_address)

unfoldable pub refuse : Text → Time → Source → Source × Error
refuse note now s =
    let trimmed = trim_space note in
    if is_approved s
    then (s, detailed invalid_input already_approved)
    else if is_empty trimmed
    then (s, refused invalid_input no_reason)
    else if ltb max_review_note_len (length trimmed)
    then (s, detailed invalid_input no_reason)
    else (
      record s {
        reviewed_at = some now;
        review_note = trimmed;
        is_active = false;
        updated_at = now;
      },
      nil,
    )

unfoldable pub suspend : Time → Source → Source × Error
suspend now s =
    if is_approved s
    then (record s { reviewed_at = some now; is_active = false; updated_at = now }, nil)
    else (s, detailed invalid_input not_approved)

unfoldable pub restore : Time → Source → Source × Error
restore now s =
    if is_reviewed s
    then if is_reachable s
      then (let_out now s, nil)
      else (s, detailed invalid_input no_reachable_address)
    else (s, detailed invalid_input not_reviewed)
