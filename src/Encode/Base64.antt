-- ===== src/Encode/Base64.antt =====
-- `base64.RawURLEncoding`: the alphabet for URLs, without padding. The reader skips line ends and
-- does not look at the bits that are left over.
use srosha.Prelude.{
  ℕ, ◌+◌, ◌-◌, ◌*◌, ◌/◌, ◌%◌, ◌<◌, ◌≡◌, ◌∙◌, refl, ap, Bool, false, ◌||◌, Option, none, some, [],
  ◌∷◌, Text, arith, All, any, ltb, ◌==◌, is_digit, is_upper, is_lower, if◌then◌else◌,
}
use srosha.Encode.Hex.{IsByte}

digit : ℕ → ℕ
digit d =
    if ltb d 26
    then b'A' + d
    else if ltb d 52
    then b'a' + (d - 26)
    else if ltb d 62
    then b'0' + (d - 52)
    else if d == 62
    then b'-'
    else b'_'

digit_value : ℕ → Option ℕ
digit_value c =
    if is_upper c
    then some (c - b'A')
    else if is_lower c
    then some (c - b'a' + 26)
    else if is_digit c
    then some (c - b'0' + 52)
    else if c == b'-'
    then some 62
    else if c == b'_'
    then some 63
    else none

-- `EncodeToString`.
unfoldable pub encode : Text → Text
unfolding digit
encode [] = []
encode (a ∷ []) = digit (a / 4) ∷ (digit (a % 4 * 16) ∷ [])
encode (a ∷ b ∷ []) = digit (a / 4) ∷ (digit (a % 4 * 16 + b / 16) ∷ (digit (b % 16 * 4) ∷ []))
encode (a ∷ b ∷ c ∷ rest) =
    digit (a / 4)
    ∷ (digit (a % 4 * 16 + b / 16) ∷ (digit (b % 16 * 4 + c / 64) ∷ (digit (c % 64) ∷ encode rest)))

is_line_end : ℕ → Bool
is_line_end c = (c == 10) || (c == 13)

-- What the reader sees: the line ends are skipped.
unfoldable significant : Text → Text
unfolding is_line_end
significant [] = []
significant (c ∷ cs) = let rest = significant cs in if is_line_end c then rest else c ∷ rest

two : Option ℕ → Option ℕ → Option Text
two (some p) (some q) = some ((p * 4 + q / 16) ∷ [])
two _ _ = none

three : Option ℕ → Option ℕ → Option ℕ → Option Text
three (some p) (some q) (some r) = some ((p * 4 + q / 16) ∷ ((q % 16 * 16 + r / 4) ∷ []))
three _ _ _ = none

four : Option ℕ → Option ℕ → Option ℕ → Option ℕ → Option Text → Option Text
four (some p) (some q) (some r) (some s) (some rest) =
    some ((p * 4 + q / 16) ∷ ((q % 16 * 16 + r / 4) ∷ ((r % 4 * 64 + s) ∷ rest)))
four _ _ _ _ _ = none

unfoldable groups : Text → Option Text
unfolding digit_value two three four
groups [] = some []
groups (_ ∷ []) = none
groups (p ∷ q ∷ []) = two (digit_value p) (digit_value q)
groups (p ∷ q ∷ r ∷ []) = three (digit_value p) (digit_value q) (digit_value r)
groups (p ∷ q ∷ r ∷ s ∷ rest) =
    four (digit_value p) (digit_value q) (digit_value r) (digit_value s) (groups rest)

-- `DecodeString`.
unfoldable pub decode : Text → Option Text
unfolding significant groups
decode t = groups (significant t)

-- What `digit` writes is read back, and is neither a line end nor a full stop.
digit_value-digit : (d : ℕ) → d < 64 → digit_value (digit d) ≡ some d
unfolding digit digit_value
digit_value-digit d h = ground arith

digit_plain : (d : ℕ) → d < 64 → is_line_end (digit d) ≡ false
unfolding digit is_line_end
digit_plain d h = ground arith

digit_dotless : (d : ℕ) → d < 64 → (digit d == b'.') ≡ false
unfolding digit
digit_dotless d h = ground arith

significant-encode : (bs : Text) → All IsByte bs → significant (encode bs) ≡ encode bs
unfolding significant encode
significant-encode [] h = refl
significant-encode (a ∷ []) h =
    ground (arith, digit_plain (a / 4) (omega (arith, h.0)), digit_plain (a % 4 * 16) (omega arith))
significant-encode (a ∷ b ∷ []) h = ground (
  arith,
  digit_plain (a / 4) (omega (arith, h.0)),
  digit_plain (a % 4 * 16 + b / 16) (omega (arith, h.1.0)),
  digit_plain (b % 16 * 4) (omega arith),
)
significant-encode (a ∷ b ∷ c ∷ rest) h = ground (
  arith,
  digit_plain (a / 4) (omega (arith, h.0)),
  digit_plain (a % 4 * 16 + b / 16) (omega (arith, h.1.0)),
  digit_plain (b % 16 * 4 + c / 64) (omega (arith, h.1.1.0)),
  digit_plain (c % 64) (omega arith),
  significant-encode rest h.1.1.1,
)

groups-encode : (bs : Text) → All IsByte bs → groups (encode bs) ≡ some bs
unfolding groups encode two three four
groups-encode [] h = refl
groups-encode (a ∷ []) h = ground (
  arith,
  digit_value-digit (a / 4) (omega (arith, h.0)),
  digit_value-digit (a % 4 * 16) (omega arith),
)
groups-encode (a ∷ b ∷ []) h = ground (
  arith,
  h.0,
  digit_value-digit (a / 4) (omega (arith, h.0)),
  digit_value-digit (a % 4 * 16 + b / 16) (omega (arith, h.1.0)),
  digit_value-digit (b % 16 * 4) (omega arith),
)
groups-encode (a ∷ b ∷ c ∷ rest) h = ground (
  arith,
  h.0,
  digit_value-digit (a / 4) (omega (arith, h.0)),
  digit_value-digit (a % 4 * 16 + b / 16) (omega (arith, h.1.0)),
  digit_value-digit (b % 16 * 4 + c / 64) (omega (arith, h.1.1.0)),
  digit_value-digit (c % 64) (omega arith),
  groups-encode rest h.1.1.1,
)

pub decode-encode : (bs : Text) → All IsByte bs → decode (encode bs) ≡ some bs
unfolding decode
decode-encode bs h = ap groups (significant-encode bs h) ∙ groups-encode bs h

-- Whether a text has the separator of the keyring in it.
abbrev pub has_dot : Text → Bool
has_dot t = any (λ c. c == b'.') t

pub has_dot-encode : (bs : Text) → All IsByte bs → has_dot (encode bs) ≡ false
unfolding encode
has_dot-encode [] h = refl
has_dot-encode (a ∷ []) h =
    ground
      (arith, digit_dotless (a / 4) (omega (arith, h.0)), digit_dotless (a % 4 * 16) (omega arith))
has_dot-encode (a ∷ b ∷ []) h = ground (
  arith,
  digit_dotless (a / 4) (omega (arith, h.0)),
  digit_dotless (a % 4 * 16 + b / 16) (omega (arith, h.1.0)),
  digit_dotless (b % 16 * 4) (omega arith),
)
has_dot-encode (a ∷ b ∷ c ∷ rest) h = ground (
  arith,
  digit_dotless (a / 4) (omega (arith, h.0)),
  digit_dotless (a % 4 * 16 + b / 16) (omega (arith, h.1.0)),
  digit_dotless (b % 16 * 4 + c / 64) (omega (arith, h.1.1.0)),
  digit_dotless (c % 64) (omega arith),
  has_dot-encode rest h.1.1.1,
)
