-- ===== src/Capacity.antt =====
-- internal/core/usecase/capacity.go: the watch over free space. The texts of its alerts, and the sizes
-- of the stores in them, are left out.
use srosha.Prelude.{
  ℕ, ◌≡◌, refl, ap, sym, ◌∙◌, inl, inr, Bool, Bool-cases, true, false, not, ◌&&◌, List, [], ◌∷◌,
  ◌++◌, leb, ltb, arith, if◌then◌else◌,
}
use srosha.Errs.{app, both, str, internal}
use srosha.Errs.Result.{Result, ok, err}

pub data Alert : Type 0 where
  running_out room_again : Alert

-- The state of the watch, and the alerts that it raised, the first one first.
pub record Watch : Type 0 where
  pub low : Bool
  pub alerts : List Alert

-- `Check`. `free` is what the filesystem answers.
unfoldable pub check : ℕ → Result ℕ → Watch → Result (Unit {0}) × Watch
check floor (err e) w = (err (app internal (both str e)), w)
check floor (ok available) w =
    if ltb available floor && not w.low
    then (ok tt, record { low = true; alerts = w.alerts ++ (running_out ∷ []) })
    else if leb floor available && w.low
    then (ok tt, record { low = false; alerts = w.alerts ++ (room_again ∷ []) })
    else (ok tt, w)

-- Checks, one after the other.
unfoldable pub check_all : ℕ → List (Result ℕ) → Watch → Watch
unfolding check
check_all floor [] w = w
check_all floor (r ∷ rs) w = check_all floor rs (check floor r w).1

-- Whether the space was below the floor, at each reading that was answered.
abbrev pub lows : ℕ → List (Result ℕ) → List Bool
lows floor [] = []
lows floor (err e ∷ rs) = lows floor rs
lows floor (ok n ∷ rs) = ltb n floor ∷ lows floor rs

abbrev pub alert_of : Bool → Alert
alert_of true = running_out
alert_of false = room_again

-- An alert for each change of a value, which is what is to be told.
abbrev pub changes : Bool → List Bool → List Alert
changes was [] = []
changes true (true ∷ bs) = changes true bs
changes true (false ∷ bs) = room_again ∷ changes false bs
changes false (false ∷ bs) = changes false bs
changes false (true ∷ bs) = running_out ∷ changes true bs

append_assoc : (xs ys zs : List Alert) → (xs ++ ys) ++ zs ≡ xs ++ (ys ++ zs)
append_assoc [] ys zs = refl
append_assoc (x ∷ xs) ys zs = ap (λ l. x ∷ l) (append_assoc xs ys zs)

append_nil : (xs : List Alert) → xs ++ [] ≡ xs
append_nil [] = refl
append_nil (x ∷ xs) = ap (λ l. x ∷ l) (append_nil xs)

fell :
    (floor n : ℕ) (alerts : List Alert)
    → ltb n floor ≡ true
    → check floor (ok n) (record { low = false; alerts = alerts })
      ≡ (ok tt, record { low = true; alerts = alerts ++ (running_out ∷ []) })
unfolding check
fell floor n alerts h = ground (arith, h)

above_still :
    (floor n : ℕ) (alerts : List Alert)
    → ltb n floor ≡ false
    → check floor (ok n) (record { low = false; alerts = alerts })
      ≡ (ok tt, record { low = false; alerts = alerts })
unfolding check
above_still floor n alerts h = ground (arith, h)

rose :
    (floor n : ℕ) (alerts : List Alert)
    → ltb n floor ≡ false
    → check floor (ok n) (record { low = true; alerts = alerts })
      ≡ (ok tt, record { low = false; alerts = alerts ++ (room_again ∷ []) })
unfolding check
rose floor n alerts h = ground (arith, h)

below_still :
    (floor n : ℕ) (alerts : List Alert)
    → ltb n floor ≡ true
    → check floor (ok n) (record { low = true; alerts = alerts })
      ≡ (ok tt, record { low = true; alerts = alerts })
unfolding check
below_still floor n alerts h = ground (arith, h)

told :
    (floor : ℕ) (rs : List (Result ℕ)) (low : Bool) (alerts : List Alert)
    → (check_all floor rs (record { low = low; alerts = alerts })).alerts
      ≡ alerts ++ changes low (lows floor rs)
unfolding check_all
told floor [] low alerts = sym (append_nil alerts)
told floor (err e ∷ rs) low alerts = told floor rs low alerts
told floor (ok n ∷ rs) true alerts = elim (Bool-cases (ltb n floor)) [
  | inl below ↦
      ap (λ x. (check_all floor rs x.1).alerts) (below_still floor n alerts below)
      ∙ (told floor rs true alerts
          ∙ ap (λ b. alerts ++ changes true (b ∷ lows floor rs)) (sym below))
  | inr above ↦
      ap (λ x. (check_all floor rs x.1).alerts) (rose floor n alerts above)
      ∙ (told floor rs false (alerts ++ (room_again ∷ []))
          ∙ (append_assoc alerts (room_again ∷ []) (changes false (lows floor rs))
              ∙ ap (λ b. alerts ++ changes true (b ∷ lows floor rs)) (sym above)))
]
told floor (ok n ∷ rs) false alerts = elim (Bool-cases (ltb n floor)) [
  | inl below ↦
      ap (λ x. (check_all floor rs x.1).alerts) (fell floor n alerts below)
      ∙ (told floor rs true (alerts ++ (running_out ∷ []))
          ∙ (append_assoc alerts (running_out ∷ []) (changes true (lows floor rs))
              ∙ ap (λ b. alerts ++ changes false (b ∷ lows floor rs)) (sym below)))
  | inr above ↦
      ap (λ x. (check_all floor rs x.1).alerts) (above_still floor n alerts above)
      ∙ (told floor rs false alerts
          ∙ ap (λ b. alerts ++ changes false (b ∷ lows floor rs)) (sym above))
]

-- Whatever is read and however often a reading fails, the alerts that are raised are exactly one for
-- each crossing of the floor, in order: none is repeated, and none is missed.
pub check_all-changes :
    (floor : ℕ) (rs : List (Result ℕ)) (w : Watch)
    → (check_all floor rs w).alerts ≡ w.alerts ++ changes w.low (lows floor rs)
check_all-changes floor rs w = told floor rs w.low w.alerts
