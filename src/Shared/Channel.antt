-- ===== src/Shared/Channel.antt =====
-- internal/core/shared/channel.go and const.go: a delivery route, and the shape of an address on
-- it. `net/mail`'s grammar is outside the model: its verdict on a text is the parameter `is_mail`.
-- A Go loop over the runes of a string is read over its bytes: every rune that the loops here
-- allow is one byte, and a byte from 0x80 on is refused as the rune it belongs to is.
pub mod Names
use srosha.Prelude.{
  ℕ, suc, ◌+◌, ◌-◌, ◌*◌, ◌^◌, Bool, true, false, not, ◌&&◌, ◌||◌, Option, none, some, List, [], ◌∷◌,
  Text, text, text_eqb, is_empty, is_digit, is_lower, is_upper, cut, cut_prefix, trim_space, length,
  all, ltb, leb, ◌==◌, if◌then◌else◌,
}
use srosha.Errs.{refused, detailed, invalid_input, unknown_channel, empty_address, invalid_address}
use srosha.Errs.Result.{Result, ok, err}

-- A Go `Channel` is any string; `other` holds those that are none of the constants.
pub data Channel : Type 0 where
  email telegram bale whatsapp matrix gotify fcm apns : Channel
  other : Text → Channel

unfoldable pub name : Channel → Text
name email = text "email"
name telegram = text "telegram"
name bale = text "bale"
name whatsapp = text "whatsapp"
name matrix = text "matrix"
name gotify = text "gotify"
name fcm = text "fcm"
name apns = text "apns"
name (other s) = s

abbrev pub all_channels : List Channel
all_channels = email ∷ telegram ∷ bale ∷ whatsapp ∷ matrix ∷ gotify ∷ fcm ∷ apns ∷ []

abbrev pub valid : Channel → Bool
valid (other _) = false
valid _ = true

-- The constant whose text this is: the conversion `Channel(s)`.
channel_of : List Channel → Text → Channel
unfolding name text_eqb
channel_of [] s = other s
channel_of (c ∷ cs) s = if text_eqb (name c) s then c else channel_of cs s

checked : Channel → Result Channel
checked c = if valid c then ok c else err (detailed invalid_input unknown_channel)

unfoldable pub parse_channel : Text → Result Channel
unfolding channel_of checked
parse_channel s = checked (channel_of all_channels s)

-- Two channels are one string.
unfoldable pub channel_eqb : Channel → Channel → Bool
unfolding name text_eqb
channel_eqb c d = text_eqb (name c) (name d)

-- `strconv.ParseUint(s, 10, 64)` and `strconv.ParseInt(s, 10, 64)`, of which `ParseInt` is only
-- asked whether it succeeds.
digits_value : ℕ → Text → Option ℕ
digits_value acc [] = some acc
digits_value acc (c ∷ s) = elim (is_digit c) [
  | true ↦ digits_value (acc * 10 + (c - b'0')) s
  | false ↦ none
]

below : ℕ → Option ℕ → Option ℕ
below limit none = none
below limit (some n) = if ltb n limit then some n else none

unfoldable pub parse_uint : Text → Option ℕ
unfolding digits_value below
parse_uint [] = none
parse_uint (c ∷ s) = below (2 ^ 64) (digits_value 0 (c ∷ s))

abbrev has_some : Option ℕ → (ℕ → Bool) → Bool
has_some none p = false
has_some (some n) p = p n

unfoldable pub is_chat_id : Text → Bool
unfolding parse_uint
is_chat_id [] = false
is_chat_id (c ∷ s) =
    if c == b'-'
    then has_some (parse_uint s) (λ n. leb n (2 ^ 63))
    else if c == b'+'
    then has_some (parse_uint s) (λ n. ltb n (2 ^ 63))
    else has_some (parse_uint (c ∷ s)) (λ n. ltb n (2 ^ 63))

abbrev pub min_username_len : ℕ
min_username_len = 5

abbrev pub max_username_len : ℕ
max_username_len = 32

-- One turn of the loop in `isUsername`, at byte `i` of `n`.
username_byte : ℕ → ℕ → ℕ → Bool
username_byte i n c =
    if is_lower c || is_upper c
    then true
    else if is_digit c
    then not (i == 0)
    else if c == b'_'
    then not ((i == 0) || (i == n - 1))
    else false

username_from : ℕ → ℕ → Text → Bool
unfolding username_byte
username_from i n [] = true
username_from i n (c ∷ s) = username_byte i n c && username_from (i + 1) n s

unfoldable pub is_username : Text → Bool
unfolding username_from
is_username s =
    let n = length s in
    if ltb n min_username_len || ltb max_username_len n then false else username_from 0 n s

abbrev matrix_room_sigil : ℕ
matrix_room_sigil = b'!'

unfoldable pub is_matrix_room : Text → Bool
unfolding cut_prefix cut
is_matrix_room s = elim (cut_prefix matrix_room_sigil s) [
  | none ↦ false
  | some local ↦ elim (cut b':' local) [
    | none ↦ false
    | some (room, server) ↦ not (is_empty room) && not (is_empty server)
  ]
]

unfoldable pub is_gotify_app_id : Text → Bool
unfolding parse_uint
is_gotify_app_id s = has_some (parse_uint s) (λ n. ltb 0 n)

abbrev pub min_e164_digits : ℕ
min_e164_digits = 8

abbrev pub max_e164_digits : ℕ
max_e164_digits = 15

unfoldable pub is_e164 : Text → Bool
unfolding cut_prefix
is_e164 s = elim (cut_prefix b'+' s) [
  | none ↦ false
  | some digits ↦
      if ltb (length digits) min_e164_digits || ltb max_e164_digits (length digits)
      then false
      else all is_digit digits
]

abbrev is_hex_byte : ℕ → Bool
is_hex_byte c = is_digit c || (leb b'a' c && leb c b'f') || (leb b'A' c && leb c b'F')

unfoldable pub is_hex : Text → Bool
is_hex s = all is_hex_byte s

abbrev pub min_device_token_len : ℕ
min_device_token_len = 32

abbrev pub max_device_token_len : ℕ
max_device_token_len = 4096

abbrev pub min_apns_token_len : ℕ
min_apns_token_len = 32

abbrev pub max_apns_token_len : ℕ
max_apns_token_len = 200

abbrev within : ℕ → ℕ → Text → Bool
within lo hi t = not (ltb (length t) lo || ltb hi (length t))

-- The `case ChannelTelegram, ChannelBale`: after an `@`, a name; without one, a chat id.
unfoldable pub is_bot_address : Text → Bool
unfolding is_username is_chat_id cut_prefix
is_bot_address t = elim (cut_prefix b'@' t) [
  | some handle ↦ is_username handle
  | none ↦ is_chat_id t
]

-- The rule of each channel on a trimmed text that is not empty.
unfoldable pub has_shape : (Text → Bool) → Channel → Text → Bool
unfolding is_bot_address is_e164 is_matrix_room is_gotify_app_id is_hex
has_shape is_mail email t = is_mail t
has_shape is_mail telegram t = is_bot_address t
has_shape is_mail bale t = is_bot_address t
has_shape is_mail whatsapp t = is_e164 t
has_shape is_mail fcm t = within min_device_token_len max_device_token_len t
has_shape is_mail apns t = within min_apns_token_len max_apns_token_len t && is_hex t
has_shape is_mail matrix t = is_matrix_room t
has_shape is_mail gotify t = is_gotify_app_id t
has_shape is_mail (other s) t = false

-- `Channel.ValidateAddress`.
unfoldable pub validate_address : (Text → Bool) → Channel → Text → Result (Unit {0})
unfolding has_shape trim_space
validate_address is_mail c address =
    let t = trim_space address in
    if is_empty t
    then err (detailed invalid_input empty_address)
    else if has_shape is_mail c t
    then ok tt
    else if valid c
    then err (detailed invalid_input invalid_address)
    else err (detailed invalid_input unknown_channel)
