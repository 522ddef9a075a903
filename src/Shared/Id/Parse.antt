-- ===== src/Shared/Id/Parse.antt =====
-- What `ParseID` accepts: in ASCII only identifiers of the right shape, beyond ASCII one more.
use srosha.Prelude.{
  ℕ, ◌<◌, ◌≡◌, refl, ap, ◌∙◌, inl, inr, true, ◌&&◌, [], ◌∷◌, ◌++◌, map, arith, Text, length,
  length-append, all, All, Bool-cases, ==_iff, ◌==◌,
}
use srosha.Errs.Result.{ok}
use srosha.Shared.Id.{SharedId, id_length, is_crockford, upper_byte, to_upper, parse_id}

abbrev pub IsAscii : Text → Type 0
IsAscii = All (λ c. c < 128)

to_upper-ascii : (s : Text) → IsAscii s → to_upper s ≡ map upper_byte s
unfolding to_upper
to_upper-ascii [] h = refl
to_upper-ascii (a ∷ []) h = refl
to_upper-ascii (a ∷ b ∷ s) h = ground (arith, to_upper-ascii (b ∷ s))

length-map : (s : Text) → length (map upper_byte s) ≡ length s
length-map [] = refl
length-map (c ∷ s) = omega (arith, length-map s)

-- A byte of the alphabet is ASCII and its own upper case.
crockford_ascii : (c : ℕ) → is_crockford c ≡ true → c < 128
unfolding is_crockford
crockford_ascii c h = ground arith

crockford_upper : (c : ℕ) → is_crockford c ≡ true → upper_byte c ≡ c
unfolding is_crockford
crockford_upper c h = ground arith

all-IsAscii : (s : Text) → all is_crockford s ≡ true → IsAscii s
all-IsAscii [] h = tt
all-IsAscii (c ∷ s) h = ground (arith, crockford_ascii c, all-IsAscii s)

map-upper : (s : Text) → all is_crockford s ≡ true → map upper_byte s ≡ s
map-upper [] h = refl
map-upper (c ∷ s) h = ground (arith, crockford_upper c, map-upper s)

all-append : (s t : Text) → all is_crockford (s ++ t) ≡ (all is_crockford s && all is_crockford t)
all-append [] t = refl
all-append (c ∷ s) t = ground (arith, all-append s t)

parse_id_inv :
    (s : Text) (i : SharedId)
    → parse_id s ≡ ok i
    → (length s ≡ id_length) × (all is_crockford (to_upper s) ≡ true) × (i ≡ to_upper s)
unfolding parse_id
parse_id_inv s i h = elim (Bool-cases (length s == id_length)) [
  | inl n ↦ elim (Bool-cases (all is_crockford (to_upper s))) [
    | inl c ↦ ((==_iff _ _).0 n, c, let e = rw (n, c) at h in cc)
    | inr c ↦ let e = rw (n, c) at h in cc
  ]
  | inr n ↦ let e = rw n at h in cc
]

parse_id_intro :
    (s u : Text)
    → length s ≡ id_length
    → to_upper s ≡ u
    → all is_crockford u ≡ true
    → parse_id s ≡ ok u
unfolding parse_id
parse_id_intro s u n e h = ground arith

to_upper-long_s :
    (s : Text) → IsAscii s → to_upper (s ++ 0xC5 ∷ 0xBF ∷ []) ≡ map upper_byte s ++ b'S' ∷ []
unfolding to_upper
to_upper-long_s [] h = refl
to_upper-long_s (a ∷ []) h = ground arith
to_upper-long_s (a ∷ b ∷ s) h = ground (arith, to_upper-long_s (b ∷ s))

-- The identifier of an accepted ASCII text has 26 bytes, all of them of the alphabet, is the text
-- in upper case, and is accepted again as itself.
pub parse_id-ascii :
    (s : Text) (i : SharedId)
    → IsAscii s
    → parse_id s ≡ ok i
    → (length i ≡ id_length)
      × (all is_crockford i ≡ true)
      × (i ≡ map upper_byte s)
      × (parse_id i ≡ ok i)
parse_id-ascii s i a h =
    let (n, c, e) = parse_id_inv s i h in
    let up : i ≡ map upper_byte s = e ∙ to_upper-ascii s a in
    let long : length i ≡ id_length = ap length up ∙ length-map s ∙ n in
    let good : all is_crockford i ≡ true = rw e c in
    let same : to_upper i ≡ i = to_upper-ascii i (all-IsAscii i good) ∙ map-upper i good in
    (long, good, up, parse_id_intro i i long same good)

-- Twenty-four ASCII bytes that would do as part of an identifier, followed by U+017F, are
-- accepted, and the identifier that is returned has 25 bytes: the length is tested before
-- `ToUpper` shortens the text.
pub parse_id-long_s :
    (s : Text)
    → IsAscii s
    → length s ≡ 24
    → all is_crockford (map upper_byte s) ≡ true
    → let i = map upper_byte s ++ b'S' ∷ [] in
      (parse_id (s ++ 0xC5 ∷ 0xBF ∷ []) ≡ ok i) × (length i ≡ 25)
unfolding is_crockford
parse_id-long_s s a n h =
    let i : Text = map upper_byte s ++ b'S' ∷ [] in
    let good : all is_crockford i ≡ true = rw (all-append (map upper_byte s) (b'S' ∷ []), h) refl in
    (
      parse_id_intro (s ++ 0xC5 ∷ 0xBF ∷ []) i (omega (arith, length-append s (0xC5 ∷ 0xBF ∷ [])))
          (to_upper-long_s s a) good,
      omega (arith, length-append (map upper_byte s) (b'S' ∷ []), length-map s),
    )
