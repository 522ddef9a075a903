-- ===== src/Callback.antt =====
-- The callback that tells a source what became of its message: how it is signed and posted
-- (internal/adapter/notifier), and how a receiver verifies it (sdk/go/srosha/callback.go).
pub mod Notifier
pub mod Verifier
pub mod Window
pub mod Trust
pub mod Posted
use srosha.Prelude.{
  ℕ, ◌*◌, ◌/◌, ◌++◌, ◌∷◌, [], Text, text, ℤ, pos, negsuc, ◌-◌, leb, List, text_eqb, if◌then◌else◌,
}
use srosha.Encode.Decimal.{format_int}
use srosha.Encode.Hex.{encode}
use srosha.Delivery.{Time}

abbrev pub signature_header : Text
signature_header = text "X-Srosha-Signature"

abbrev pub timestamp_header : Text
timestamp_header = text "X-Srosha-Timestamp"

abbrev pub signature_version : Text
signature_version = text "v1"

abbrev pub signed_separator : Text
signed_separator = text "."

abbrev pub second : ℕ
second = 1_000_000_000

-- The seconds between the year 1, where moments start, and 1970.
abbrev pub to_unix : ℕ
to_unix = 62_135_596_800

-- `Time.Unix`.
abbrev pub unix : Time → ℤ
unix at =
    if leb to_unix (at / second)
    then pos (at / second - to_unix)
    else negsuc (to_unix - at / second - 1)

-- An `http.Header` whose names have one value each.
abbrev pub Header : Type 0
Header = List (Text × Text)

-- `Header.Get` at a canonical name; a missing header reads as the empty text.
unfoldable pub header_value : Text → Header → Text
header_value name [] = []
header_value name ((key, value) ∷ rest) =
    let further = header_value name rest in if text_eqb key name then value else further

-- What the signature covers.
abbrev pub signed_bytes : Text → Text → Text
signed_bytes timestamp body = timestamp ++ signed_separator ++ body

-- HMAC-SHA256 of a text under a secret is outside the model.
module _ (mac : Text → Text → Text) where
  -- `sign`: the value of the signature header, and that of the timestamp's.
  unfoldable pub sign : Text → Time → Text → Text × Text
  unfolding format_int encode
  sign secret at body =
      let timestamp = format_int (unix at) in
      (
        signature_version ++ (text "=" ++ encode (mac secret (signed_bytes timestamp body))),
        timestamp,
      )
