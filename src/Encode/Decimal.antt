-- ===== src/Encode/Decimal.antt =====
-- `strconv` at base 10 and 64 bits: `FormatInt` and `ParseInt`.
use srosha.Prelude.{
  ap, inl, inr, Bool-cases, leb→le, ℕ, zero, suc, ◌+◌, ◌-◌, ◌*◌, ◌/◌, ◌%◌, ◌^◌, ◌≤◌, ◌<◌, ◌≡◌, refl,
  ◌∙◌, sym, false, Option, none, some, [], ◌∷◌, Text, arith, leb, ltb, ◌==◌, is_digit, is_empty,
  if◌then◌else◌, ℤ, pos, negsuc,
}

-- The digits of a number, in front of a text. One unit of fuel for each digit.
unfoldable digits : ℕ → ℕ → Text → Text
digits zero n rest = (b'0' + n % 10) ∷ rest
digits (suc fuel) n rest =
    let more = digits fuel (n / 10) ((b'0' + n % 10) ∷ rest) in
    if leb n 9 then (b'0' + n) ∷ rest else more

-- `strconv.FormatInt(i, 10)`.
unfoldable pub format_int : ℤ → Text
unfolding digits
format_int (pos n) = digits n n []
format_int (negsuc n) = b'-' ∷ digits (suc n) (suc n) []

-- The value of a text of digits behind those that were read.
unfoldable value : ℕ → Text → Option ℕ
value n [] = some n
value n (c ∷ cs) = if is_digit c then value (n * 10 + (c - b'0')) cs else none

-- `strconv.ParseUint(s, 10, …)`, before its bound: at least one digit.
unfoldable magnitude : Text → Option ℕ
unfolding value
magnitude [] = none
magnitude (c ∷ cs) = value 0 (c ∷ cs)

-- The bounds of an int64.
non_negative : Option ℕ → Option ℤ
non_negative none = none
non_negative (some n) = if ltb n (2 ^ 63) then some (pos n) else none

negative : Option ℕ → Option ℤ
negative none = none
negative (some zero) = some (pos 0)
negative (some (suc n)) = if ltb n (2 ^ 63) then some (negsuc n) else none

-- `strconv.ParseInt(s, 10, 64)`: a sign, digits, and the bounds.
unfoldable pub parse_int : Text → Option ℤ
unfolding magnitude non_negative negative
parse_int [] = none
parse_int (c ∷ cs) =
    if c == b'-'
    then negative (magnitude cs)
    else if c == b'+'
    then non_negative (magnitude cs)
    else non_negative (magnitude (c ∷ cs))

value-digit :
    (n d : ℕ) (rest : Text) → d < 10 → value n ((b'0' + d) ∷ rest) ≡ value (n * 10 + d) rest
unfolding value
value-digit n d rest h = ground arith

value-digits : (fuel n : ℕ) (rest : Text) → n ≤ fuel → value 0 (digits fuel n rest) ≡ value n rest
unfolding digits
value-digits zero n rest h = ground (arith, value-digit 0 n rest (omega (arith, h)))
value-digits (suc fuel) n rest h = ground (
  arith,
  value-digit 0 n rest,
  value-digits fuel (n / 10) ((b'0' + n % 10) ∷ rest) (omega (arith, h)),
  value-digit (n / 10) (n % 10) rest (omega arith),
)

-- Where the digits start: with a digit.
digits-start :
    (fuel n : ℕ) (rest : Text)
    → (d : ℕ) × (tail : Text) × (digits fuel n rest ≡ (b'0' + d) ∷ tail) × (d < 10)
unfolding digits
digits-start zero n rest = (n % 10, rest, refl, omega arith)
digits-start (suc fuel) n rest = elim (Bool-cases (leb n 9)) [
  | inl small ↦ (n, rest, ground (arith, small), omega (arith, leb→le n 9 small))
  | inr large ↦
      let (d, tail, e, h) = digits-start fuel (n / 10) ((b'0' + n % 10) ∷ rest) in
      (d, tail, ground (arith, large, e), h)
]

-- An int64.
unfoldable pub IsInt64 : ℤ → Type 0
IsInt64 (pos n) = n < 2 ^ 63
IsInt64 (negsuc n) = n < 2 ^ 63

magnitude-digits : (n : ℕ) → magnitude (digits n n []) ≡ some n
unfolding magnitude value
magnitude-digits n =
    let (d, tail, e, small) = digits-start n n [] in
    ap magnitude e ∙ sym (ap (value 0) e) ∙ value-digits n n [] (omega arith)

unsigned-digit :
    (d : ℕ) (tail : Text)
    → d < 10
    → parse_int ((b'0' + d) ∷ tail) ≡ non_negative (magnitude ((b'0' + d) ∷ tail))
unfolding parse_int
unsigned-digit d tail h = ground arith

pub parse_int-format_int : (i : ℤ) → IsInt64 i → parse_int (format_int i) ≡ some i
unfolding format_int IsInt64 non_negative negative parse_int
parse_int-format_int (pos n) h =
    let (d, tail, e, small) = digits-start n n [] in
    ap parse_int e
    ∙ unsigned-digit d tail small
    ∙ ap non_negative (sym (ap magnitude e) ∙ magnitude-digits n)
    ∙ ground (arith, h)
parse_int-format_int (negsuc n) h = ap negative (magnitude-digits (suc n)) ∙ ground (arith, h)

pub format_int_not_empty : (n : ℕ) → is_empty (format_int (pos n)) ≡ false
unfolding format_int
format_int_not_empty n = let (d, tail, e, small) = digits-start n n [] in ap is_empty e

non_negative-IsInt64 : (m : Option ℕ) (i : ℤ) → non_negative m ≡ some i → IsInt64 i
unfolding non_negative IsInt64
non_negative-IsInt64 none (pos n) h = cc
non_negative-IsInt64 none (negsuc n) h = cc
non_negative-IsInt64 (some m) (pos n) h = ground (arith, h)
non_negative-IsInt64 (some m) (negsuc n) h = ground (arith, h)

negative-IsInt64 : (m : Option ℕ) (i : ℤ) → negative m ≡ some i → IsInt64 i
unfolding negative IsInt64
negative-IsInt64 none i h = cc
negative-IsInt64 (some zero) (pos n) h = ground (arith, h)
negative-IsInt64 (some zero) (negsuc n) h = ground (arith, h)
negative-IsInt64 (some (suc m)) (pos n) h = ground (arith, h)
negative-IsInt64 (some (suc m)) (negsuc n) h = ground (arith, h)

pub parse_int-IsInt64 : (t : Text) (i : ℤ) → parse_int t ≡ some i → IsInt64 i
unfolding parse_int
parse_int-IsInt64 [] i h = cc
parse_int-IsInt64 (c ∷ cs) i h = elim (Bool-cases (c == b'-')) [
  | inl y ↦ negative-IsInt64 (magnitude cs) i (rw y at h)
  | inr n ↦ elim (Bool-cases (c == b'+')) [
    | inl y ↦ non_negative-IsInt64 (magnitude cs) i (rw (n, y) at h)
    | inr m ↦ non_negative-IsInt64 (magnitude (c ∷ cs)) i (rw (n, m) at h)
  ]
]
