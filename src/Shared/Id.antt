-- ===== src/Shared/Id.antt =====
-- internal/core/shared/id.go: the identifier of every row, in the shape of a ULID.
pub mod Parse
use srosha.Prelude.{
  ℕ, ◌+◌, ◌-◌, Bool, true, false, not, ◌&&◌, List, [], ◌∷◌, Text, text, is_empty, is_lower, length,
  all, any, ◌==◌, if◌then◌else◌,
}
use srosha.Errs.{detailed, invalid_input, invalid_id}
use srosha.Errs.Result.{Result, ok, err}

-- A Go `ID` is any string; `ParseID` is what gives one its shape.
abbrev pub SharedId : Type 0
SharedId = Text

abbrev pub id_length : ℕ
id_length = 26

abbrev crockford_base : Text
crockford_base = text "0123456789ABCDEFGHJKMNPQRSTVWXYZ"

unfoldable pub is_crockford : ℕ → Bool
is_crockford c = any (λ b. b == c) crockford_base

abbrev pub upper_byte : ℕ → ℕ
upper_byte c = if is_lower c then c - 32 else c

-- `strings.ToUpper`. Two runes outside ASCII have an upper case inside it: U+0131, two bytes
-- that give `I`, and U+017F, two bytes that give `S`. What other bytes from 0x80 on become
-- is again such bytes; they are kept, since `parse_id` refuses either.
unfoldable pub to_upper : Text → Text
to_upper [] = []
to_upper (a ∷ []) = upper_byte a ∷ []
to_upper (a ∷ b ∷ s) =
    let rest = to_upper (b ∷ s) in
    let past = to_upper s in
    if (a == 0xC4) && (b == 0xB1)
    then b'I' ∷ past
    else if (a == 0xC5) && (b == 0xBF)
    then b'S' ∷ past
    else upper_byte a ∷ rest

unfoldable pub parse_id : Text → Result SharedId
unfolding to_upper is_crockford
parse_id s =
    if not (length s == id_length)
    then err (detailed invalid_input invalid_id)
    else let upper = to_upper s in
      if all is_crockford upper then ok upper else err (detailed invalid_input invalid_id)

abbrev pub is_zero : SharedId → Bool
is_zero = is_empty
