-- ===== src/Prelude/Strings.antt =====
-- Go strings as the list of their bytes, with what the code uses of the package `strings`.
use Prim.Native.Char.{code}
use Prim.Native.Nat.{ℕ, zero, suc, ◌+◌}
use Prim.Native.String.{String}
use mathlib.Core.Path.{◌≡◌}
use mathlib.Core.Logic.{◌↔◌, inl, inr}
use mathlib.Core.Bool.{Bool, true, false, ◌&&◌, ◌||◌}
use mathlib.Core.Option.{Option, none, some}
use mathlib.Core.List.{List, [], ◌∷◌, ◌++◌, reverse, map}
use native.Mathlib.Omega.{arith}
use srosha.Prelude.Tests.{Bool-cases, Option-cases, ltb, leb, ◌==◌, if◌then◌else◌}

abbrev pub Text : Type 0
Text = List ℕ

-- The bytes of an ASCII literal.
abbrev pub text : String → Text
text String.[] = []
text (String.◌∷◌ c s) = code c ∷ text s

unfoldable pub text_eqb : Text → Text → Bool
text_eqb [] [] = true
text_eqb [] (_ ∷ _) = false
text_eqb (_ ∷ _) [] = false
text_eqb (x ∷ xs) (y ∷ ys) = (x == y) && text_eqb xs ys

pub text_eqb_iff : (s t : Text) → (text_eqb s t ≡ true) ↔ (s ≡ t)
unfolding text_eqb
text_eqb_iff [] [] = ground arith
text_eqb_iff [] (_ ∷ _) = ground arith
text_eqb_iff (_ ∷ _) [] = ground arith
text_eqb_iff (x ∷ xs) (y ∷ ys) = ground (arith, text_eqb_iff xs ys)

abbrev pub is_empty : Text → Bool
is_empty [] = true
is_empty (_ ∷ _) = false

abbrev pub is_digit : ℕ → Bool
is_digit c = leb b'0' c && leb c b'9'

abbrev pub is_lower : ℕ → Bool
is_lower c = leb b'a' c && leb c b'z'

abbrev pub is_upper : ℕ → Bool
is_upper c = leb b'A' c && leb c b'Z'

-- `strings.ToLower` on ASCII.
unfoldable pub to_lower : Text → Text
to_lower = map (λ c. if is_upper c then c + 32 else c)

-- `strings.CutPrefix(s, string(c))` at a prefix of one byte.
unfoldable pub cut_prefix : ℕ → Text → Option Text
cut_prefix c [] = none
cut_prefix c (x ∷ xs) = if x == c then some xs else none

-- `strings.Cut(s, string(c))`: what stands before and after the first `c`.
unfoldable pub cut : ℕ → Text → Option (Text × Text)
cut c [] = none
cut c (x ∷ xs) =
    if x == c
    then some ([], xs)
    else elim (cut c xs) [ none ↦ none | some (before, after) ↦ some (x ∷ before, after) ]

pub cut_inv :
    (c : ℕ) (s before after : Text) → cut c s ≡ some (before, after) → s ≡ before ++ (c ∷ after)
unfolding cut
cut_inv c [] before after h = cc
cut_inv c (x ∷ xs) before after h = elim (Bool-cases (x == c)) [
  | inl same ↦ ground (arith, same, h)
  | inr other ↦ elim (Option-cases (cut c xs)) [
    | inl p ↦ ground (arith, other, p, h)
    | inr ((b, a), p) ↦ ground (arith, other, p, h, cut_inv c xs b a p)
  ]
]

-- `unicode.IsSpace` below 0x80: tab to carriage return, and the space.
abbrev ascii_space : ℕ → Bool
ascii_space c = (leb 9 c && leb c 13) || (c == 32)

-- How many bytes the white space that a text begins with has in UTF-8: U+0085, U+00A0, U+1680,
-- U+2000 to U+200A, U+2028, U+2029, U+202F, U+205F and U+3000 have two or three. 0 if it does
-- not begin with white space.
space_two : ℕ → ℕ → Bool
space_two a b = (a == 0xC2) && ((b == 0x85) || (b == 0xA0))

space_three : ℕ → ℕ → ℕ → Bool
space_three a b c =
    ((a == 0xE1) && (b == 0x9A) && (c == 0x80))
    || ((a == 0xE2)
        && (b == 0x80)
        && ((leb 0x80 c && leb c 0x8A) || (c == 0xA8) || (c == 0xA9) || (c == 0xAF)))
    || ((a == 0xE2) && (b == 0x81) && (c == 0x9F))
    || ((a == 0xE3) && (b == 0x80) && (c == 0x80))

leading_space : Text → ℕ
unfolding space_two space_three
leading_space [] = 0
leading_space (a ∷ []) = if ascii_space a then 1 else 0
leading_space (a ∷ b ∷ []) = if ascii_space a then 1 else if space_two a b then 2 else 0
leading_space (a ∷ b ∷ c ∷ _) =
    if ascii_space a then 1 else if space_two a b then 2 else if space_three a b c then 3 else 0

-- The same read from the end of a text: the list is reversed.
trailing_space : Text → ℕ
unfolding space_two space_three
trailing_space [] = 0
trailing_space (a ∷ []) = if ascii_space a then 1 else 0
trailing_space (a ∷ b ∷ []) = if ascii_space a then 1 else if space_two b a then 2 else 0
trailing_space (a ∷ b ∷ c ∷ _) =
    if ascii_space a then 1 else if space_two b a then 2 else if space_three c b a then 3 else 0

-- Drop white space at the front by the given measure; the number says how many bytes of the
-- present space are still to go.
drop_space : (Text → ℕ) → ℕ → Text → Text
drop_space width k [] = []
drop_space width (suc k) (x ∷ xs) = drop_space width k xs
drop_space width zero (x ∷ xs) = elim (width (x ∷ xs)) [
  | zero ↦ x ∷ xs
  | suc k ↦ drop_space width k xs
]

-- `strings.TrimSpace`.
unfoldable pub trim_space : Text → Text
unfolding drop_space leading_space trailing_space
trim_space s = reverse (drop_space trailing_space 0 (reverse (drop_space leading_space 0 s)))

-- The order of `<=` on strings, byte by byte.
unfoldable pub text_leb : Text → Text → Bool
text_leb [] t = true
text_leb (x ∷ s) [] = false
text_leb (x ∷ s) (y ∷ t) = ltb x y || ((x == y) && text_leb s t)
