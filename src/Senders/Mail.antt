-- ===== src/Senders/Mail.antt =====
-- Which reply code the text of a failure is judged by.
use srosha.Prelude.{
  ℕ, zero, suc, ◌+◌, ◌-◌, ◌*◌, ◌≡◌, ◌≤◌, ◌<◌, ◌⊎◌, ◌↔◌, inl, inr, refl, sym, subst, ◌∙◌, Bool,
  Bool-cases, true, false, [], ◌∷◌, Text, any, leb, is_digit, ◌&&◌, ◌==◌, arith,
}
use srosha.Errs.{Error, is_permanent_send, send_kind_of, as_send}
use srosha.Senders.Answers.{classify_email, is_boundary, ends_code, code_at, scan_code, reply_code}

-- What a code may stand behind: a blank, a colon, a tab, the end of a line, a quote, a parenthesis.
abbrev pub parts : ℕ → Bool
parts c = any (λ x. c == x) (b' ' ∷ b':' ∷ 9 ∷ 10 ∷ b'"' ∷ b'(' ∷ [])

abbrev pub IsDigit : ℕ → Type 0
IsDigit c = (48 ≤ c) × (c ≤ 57)

abbrev pub IsEnded : Text → Type 0
IsEnded [] = Unit {0}
IsEnded (c ∷ _) = (parts c ≡ true) ⊎ (c ≡ b'-')

-- A text that begins with a number from 200 to 599 in three digits, and nothing that goes on with it.
abbrev pub BeginsWith : ℕ → Text → Type 0
BeginsWith n (a ∷ b ∷ c ∷ rest) =
    IsDigit a
    × IsDigit b
    × IsDigit c
    × (n ≡ (a - 48) * 100 + (b - 48) * 10 + (c - 48))
    × (200 ≤ n)
    × (n ≤ 599)
    × IsEnded rest
BeginsWith n _ = ⊥

-- Such a number at a place of a text, at its begin or behind a byte that may stand before it.
abbrev pub StandsAt : Bool → ℕ → ℕ → Text → Type 0
StandsAt may_begin n zero t = (may_begin ≡ true) × BeginsWith n t
StandsAt may_begin n (suc k) [] = ⊥
StandsAt may_begin n (suc k) (c ∷ t) = StandsAt (parts c) n k t

-- The first such number, or 0 if there is none.
abbrev pub IsFirst : Bool → Text → ℕ → Type 0
IsFirst may_begin t n =
    ((n ≡ 0) × ((m k : ℕ) → ¬ StandsAt may_begin m k t))
    ⊎ ((k : ℕ) × StandsAt may_begin n k t × ((m j : ℕ) → j < k → ¬ StandsAt may_begin m j t))

-- The test of the scan at a place.
abbrev passes : ℕ → ℕ → ℕ → Bool → ℕ → Bool
passes a b c ended v = is_digit a && is_digit b && is_digit c && ended && leb 200 v && leb v 599

passes_iff :
    (a b c v : ℕ) (ended : Bool)
    → (passes a b c ended v ≡ true)
      ↔ (IsDigit a × IsDigit b × IsDigit c × (ended ≡ true) × (200 ≤ v) × (v ≤ 599))
passes_iff a b c v ended = ground arith

ends_code_iff : (t : Text) → (ends_code t ≡ true) ↔ IsEnded t
ends_code_iff [] = ((λ h. tt), λ h. refl)
ends_code_iff (c ∷ t) = ground arith

code_at_cases :
    (t : Text) → ((code_at t ≡ 0) × ((n : ℕ) → ¬ BeginsWith n t)) ⊎ BeginsWith (code_at t) t
unfolding code_at
code_at_cases [] = inl (refl, λ n h. h)
code_at_cases (a ∷ []) = inl (refl, λ n h. h)
code_at_cases (a ∷ b ∷ []) = inl (refl, λ n h. h)
code_at_cases (a ∷ b ∷ c ∷ rest) =
    let v = (a - 48) * 100 + (b - 48) * 10 + (c - 48) in
    elim (Bool-cases (passes a b c (ends_code rest) v)) [
      | inl y ↦
          let (x, y', z, e, lo, hi) = (passes_iff a b c v (ends_code rest)).0 y in
          inr (rw y (x, y', z, refl, lo, hi, (ends_code_iff rest).0 e))
      | inr n ↦ inl (
        rw n refl,
        (λ m (x, y', z, same, lo, hi, e).
            let yes : passes a b c (ends_code rest) v ≡ true =
              (passes_iff a b c v (ends_code rest)).1 (
                x,
                y',
                z,
                (ends_code_iff rest).1 e,
                subst (λ (k : ℕ). 200 ≤ k) same lo,
                subst (λ (k : ℕ). k ≤ 599) same hi,
              ) in
            let bad : true ≡ false = sym yes ∙ n in cc),
      )
    ]

is_boundary-parts : (c : ℕ) → is_boundary c ≡ parts c
is_boundary-parts c = ground arith

begins-above : (n : ℕ) (t : Text) → BeginsWith n t → 200 ≤ n
begins-above n [] h = absurd h
begins-above n (a ∷ []) h = absurd h
begins-above n (a ∷ b ∷ []) h = absurd h
begins-above n (a ∷ b ∷ c ∷ rest) (_, _, _, _, above, _, _) = above

-- A byte at which no code begins is passed over.
passed_over :
    (may_begin : Bool) (c n : ℕ) (t : Text)
    → ((m : ℕ) → ¬ StandsAt may_begin m zero (c ∷ t))
    → IsFirst (parts c) t n
    → IsFirst may_begin (c ∷ t) n
passed_over may_begin c n t here (inl (z, nowhere)) = inl (z, each)
  where
    each : (m k : ℕ) → ¬ StandsAt may_begin m k (c ∷ t)
    each m zero h = here m h
    each m (suc k) h = nowhere m k h
passed_over may_begin c n t here (inr (k, stands, first)) = inr (suc k, stands, each)
  where
    each : (m j : ℕ) → j < suc k → ¬ StandsAt may_begin m j (c ∷ t)
    each m zero l h = here m h
    each m (suc j) l h = first m j (omega (arith, l)) h

scan_code-IsFirst : (may_begin : Bool) (t : Text) → IsFirst may_begin t (scan_code may_begin t)
unfolding scan_code
scan_code-IsFirst may_begin [] = inl (refl, nowhere)
  where
    nowhere : (m k : ℕ) → ¬ StandsAt may_begin m k []
    nowhere m zero h = h.1
    nowhere m (suc k) h = h
scan_code-IsFirst true (c ∷ cs) =
    let behind =
      subst (λ (b : Bool). IsFirst (parts c) cs (scan_code b cs)) (sym (is_boundary-parts c))
        (scan_code-IsFirst (parts c) cs) in
    elim (code_at_cases (c ∷ cs)) [
      | inl (z, bare) ↦ rw z (passed_over true c _ cs (λ m h. bare m h.1) behind)
      | inr b ↦
          let above : (code_at (c ∷ cs) == 0) ≡ false =
            ground (arith, begins-above (code_at (c ∷ cs)) (c ∷ cs) b) in
          rw above (inr (0, (refl, b), λ m j l. absurd (not_below j l)))
    ]
  where
    not_below : (j : ℕ) → j < 0 → ⊥
    not_below j l = omega (arith, l)
scan_code-IsFirst false (c ∷ cs) =
    passed_over false c _ cs (λ m (h, _). let bad : false ≡ true = h in cc)
      (subst (λ (b : Bool). IsFirst (parts c) cs (scan_code b cs)) (sym (is_boundary-parts c))
        (scan_code-IsFirst (parts c) cs))

judged_by :
    (cause : Error) (n : ℕ) → (is_permanent_send (classify_email n cause) ≡ true) ↔ (500 ≤ n)
unfolding classify_email is_permanent_send send_kind_of as_send
judged_by cause n = ground arith

-- The code that a failure of mail is judged by is the first number from 200 to 599 in three digits
-- that stands in its text, at the begin or behind a blank, a colon, a tab, the end of a line, a
-- quote or a parenthesis, and before one of these, a hyphen or the end of the text, and 0 if there
-- is none, whoever wrote it there; and the failure is final exactly if the code is 500 or more.
pub reply_code-IsFirst :
    (t : Text) (cause : Error)
    → IsFirst true t (reply_code t)
      × ((is_permanent_send (classify_email (reply_code t) cause) ≡ true) ↔ (500 ≤ reply_code t))
unfolding reply_code
reply_code-IsFirst t cause = (scan_code-IsFirst true t, judged_by cause (reply_code t))
