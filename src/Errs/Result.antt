-- ===== src/Errs/Result.antt =====
-- A Go result `(value, error)` of which one half counts, and the early return on an error.
use srosha.Prelude.{◌≡◌, refl, ◌⊎◌, inl, inr, Bool, true, false}
use srosha.Errs.{Error, nil}

pub data Result {ℓ} (A : Type ℓ) : Type ℓ where
  err : Error → Result A
  ok : A → Result A

infixl 5 ◌>>=◌
abbrev pub ◌>>=◌ {ℓ κ} :
    {V : Type ℓ} {W : Type κ} (step : Result V) (next : V → Result W) → Result W
err failure >>= next = err failure
ok value >>= next = next value

infixl 5 ◌>>◌
-- A check in front of the rest.
abbrev pub ◌>>◌ {κ} : {W : Type κ} (check : Result (Unit {0})) (rest : Result W) → Result W
check >> rest = check >>= (λ passed. rest)

-- `if bad { return e }`.
abbrev pub refuse_if : Bool → Error → Result (Unit {0})
refuse_if true e = err e
refuse_if false e = ok tt

abbrev pub is_ok {ℓ} : {A : Type ℓ} → Result A → Bool
is_ok (ok _) = true
is_ok (err _) = false

-- What a method that changed a value in place returns of it.
abbrev pub changed_to {ℓ} : {A : Type ℓ} → A × Error → Result A
changed_to (a, nil) = ok a
changed_to (a, e) = err e

-- Either there is a value or there is an error, with the equation that says so.
pub Result-cases {ℓ} :
    {V : Type ℓ} (result : Result V)
    → ((failure : Error) × (result ≡ err failure)) ⊎ ((value : V) × (result ≡ ok value))
Result-cases (err failure) = inl (failure, refl)
Result-cases (ok value) = inr (value, refl)

-- What a chain that ends in a value says of its steps.
pub bind_inv {ℓ κ} :
    {V : Type ℓ} {W : Type κ} (step : Result V) (next : V → Result W) {final : W}
    → (step >>= next) ≡ ok final
    → (value : V) × (step ≡ ok value) × (next value ≡ ok final)
bind_inv (err failure) next h = cc
bind_inv (ok value) next h = (value, refl, h)

pub then_inv {ℓ} :
    {B : Type ℓ} (m : Result (Unit {0})) (k : Result B) {b : B}
    → (m >> k) ≡ ok b
    → (m ≡ ok tt) × (k ≡ ok b)
then_inv (ok tt) k h = (refl, h)
then_inv (err e) k h = cc

pub refuse_if_inv : (b : Bool) (e : Error) → refuse_if b e ≡ ok tt → b ≡ false
refuse_if_inv true e h = cc
refuse_if_inv false e h = refl

pub ok_injective {ℓ} : {A : Type ℓ} (a b : A) → ok a ≡ ok b → a ≡ b
ok_injective a b h = cc
