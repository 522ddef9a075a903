-- ===== src/Effect/Inversion.antt =====
-- What a run that answers with a value says of its steps.
use srosha.Prelude.{◌≡◌, refl, ap, [], ◌∷◌, Bool, true, false, if◌then◌else◌}
use srosha.Errs.{Error}
use srosha.Errs.Result.{Result, ok, err}
use srosha.Effect.{
  fine, before, after, Under, Effect, then_do, ◌>>=◌, fail, lift, statement, asked, query,
}

pub bind-Answers :
    {S A B : Type 0} (m : Effect S A) (f : A → Effect S B) (s t : Under S) (b : B)
    → (m >>= f) s ≡ (ok b, t)
    → (a : A) × (u : Under S) × (m s ≡ (ok a, u)) × (f a u ≡ (ok b, t))
bind-Answers {S = S} {A = A} {B = B} m f s t b h = split (m s) refl h
  where
    split :
        (r : Result A × Under S)
        → m s ≡ r
        → then_do r f ≡ (ok b, t)
        → (a : A) × (u : Under S) × (m s ≡ (ok a, u)) × (f a u ≡ (ok b, t))
    split (ok a, u) e h' = (a, u, e, h')
    split (err e', u) e h' = cc

pub lift-Answers :
    {S A : Type 0} (r : Result A) (s t : Under S) (a : A)
    → lift r s ≡ (ok a, t)
    → (r ≡ ok a) × (s ≡ t)
lift-Answers r s t a h = (ap (λ x. x.0) h, ap (λ x. x.1) h)

pub statement-Answers :
    {S A : Type 0} (q : S → Result A × S) (s t : Under S) (a : A)
    → statement q s ≡ (ok a, t)
    → q s.0 ≡ (ok a, t.0)
statement-Answers q (s, []) t a h = cc
statement-Answers q (s, fine ∷ fs) t a h = cc
statement-Answers q (s, before ∷ fs) t a h = cc
statement-Answers q (s, after ∷ fs) t a h = cc

pub query-Answers :
    {S A : Type 0} (q : S → Result A) (s t : Under S) (a : A)
    → query q s ≡ (ok a, t)
    → (q s.0 ≡ ok a) × (s.0 ≡ t.0)
query-Answers q s t a h =
    let e = statement-Answers (asked q) s t a h in (ap (λ x. x.0) e, ap (λ x. x.1) e)

-- The same, one step at a time, for a goal that does not mention the steps.
module _ {S B : Type 0} {P : Type 0} (s t : Under S) (b : B) where
  pub lift-then :
      {A : Type 0} (r : Result A) (f : A → Effect S B)
      → (lift r >>= f) s ≡ (ok b, t)
      → ((a : A) → r ≡ ok a → f a s ≡ (ok b, t) → P)
      → P
  lift-then (ok a) f h next = next a refl h
  lift-then (err e) f h next = cc

  pub run-then :
      {A : Type 0} (m : Effect S A) (f : A → Effect S B)
      → (m >>= f) s ≡ (ok b, t)
      → ((a : A) (u : Under S) → m s ≡ (ok a, u) → f a u ≡ (ok b, t) → P)
      → P
  run-then m f h next = let (a, u, e, h') = bind-Answers m f s t b h in next a u e h'

  pub query-then :
      {A : Type 0} (q : S → Result A) (f : A → Effect S B)
      → (query q >>= f) s ≡ (ok b, t)
      → ((a : A) (u : Under S) → q s.0 ≡ ok a → s.0 ≡ u.0 → f a u ≡ (ok b, t) → P)
      → P
  query-then q f h next =
      let (a, u, e, h') = bind-Answers (query q) f s t b h in
      let (is, same) = query-Answers q s u a e in next a u is same h'

  pub statement-then :
      {A : Type 0} (q : S → Result A × S) (f : A → Effect S B)
      → (statement q >>= f) s ≡ (ok b, t)
      → ((a : A) (u : Under S) → q s.0 ≡ (ok a, u.0) → f a u ≡ (ok b, t) → P)
      → P
  statement-then q f h next =
      let (a, u, e, h') = bind-Answers (statement q) f s t b h in
      next a u (statement-Answers q s u a e) h'

  -- A test of which one side is an error.
  pub if-then :
      (c : Bool) (m : Effect S B) (e : Error)
      → (if c then m else fail e) s ≡ (ok b, t)
      → (c ≡ true → m s ≡ (ok b, t) → P)
      → P
  if-then true m e h next = next refl h
  if-then false m e h next = cc

  pub unless-then :
      (c : Bool) (m : Effect S B) (e : Error)
      → (if c then fail e else m) s ≡ (ok b, t)
      → (c ≡ false → m s ≡ (ok b, t) → P)
      → P
  unless-then true m e h next = cc
  unless-then false m e h next = next refl h
