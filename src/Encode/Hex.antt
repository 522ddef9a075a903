-- ===== src/Encode/Hex.antt =====
-- `encoding/hex`: two digits for a byte; both cases are read, the lower one is written.
use srosha.Prelude.{
  ℕ, ◌+◌, ◌-◌, ◌*◌, ◌/◌, ◌%◌, ◌<◌, ◌≡◌, refl, ◌&&◌, Option, none, some, [], ◌∷◌, Text, arith, All,
  leb, is_digit, if◌then◌else◌,
}

-- What is a byte.
abbrev pub IsByte : ℕ → Type 0
IsByte b = b < 256

digit : ℕ → ℕ
digit d = if leb d 9 then b'0' + d else b'a' + (d - 10)

-- `hex.EncodeToString`.
unfoldable pub encode : Text → Text
unfolding digit
encode [] = []
encode (b ∷ bs) = digit (b / 16) ∷ (digit (b % 16) ∷ encode bs)

digit_value : ℕ → Option ℕ
digit_value c =
    if is_digit c
    then some (c - b'0')
    else if leb b'a' c && leb c b'f'
    then some (c - b'a' + 10)
    else if leb b'A' c && leb c b'F'
    then some (c - b'A' + 10)
    else none

byte_of : Option ℕ → Option ℕ → Option Text → Option Text
byte_of (some h) (some l) (some bs) = some ((h * 16 + l) ∷ bs)
byte_of _ _ _ = none

-- `hex.DecodeString`: an odd length and a byte that is no digit are refused.
unfoldable pub decode : Text → Option Text
unfolding digit_value byte_of
decode [] = some []
decode (_ ∷ []) = none
decode (h ∷ l ∷ cs) = byte_of (digit_value h) (digit_value l) (decode cs)

digit_value-digit : (d : ℕ) → d < 16 → digit_value (digit d) ≡ some d
unfolding digit digit_value
digit_value-digit d h = ground arith

byte_of_digits :
    (b : ℕ) (bs : Text) {h l : Option ℕ} {rest : Option Text}
    → h ≡ some (b / 16)
    → l ≡ some (b % 16)
    → rest ≡ some bs
    → byte_of h l rest ≡ some (b ∷ bs)
unfolding byte_of
byte_of_digits b bs {h = some h} {l = some l} {rest = some r} p q w = ground arith
byte_of_digits b bs {h = none} p q r = cc
byte_of_digits b bs {h = some h} {l = none} p q r = cc
byte_of_digits b bs {h = some h} {l = some l} {rest = none} p q r = cc

pub decode-encode : (bs : Text) → All IsByte bs → decode (encode bs) ≡ some bs
unfolding encode decode
decode-encode [] h = refl
decode-encode (b ∷ bs) h =
    byte_of_digits b bs (digit_value-digit (b / 16) (omega (arith, h.0)))
      (digit_value-digit (b % 16) (omega arith)) (decode-encode bs h.1)
