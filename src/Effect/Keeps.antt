-- ===== src/Effect/Keeps.antt =====
-- What every statement of a piece of code keeps, the code keeps.
use srosha.Prelude.{◌≡◌, refl, sym, ap, subst, ◌∙◌, [], ◌∷◌, Bool, true, false, if◌then◌else◌}
use srosha.Errs.{Error}
use srosha.Errs.Result.{Result, ok, err}
use srosha.Effect.{
  fine, before, after, Under, Effect, then_do, ◌>>=◌, pure, fail, lift, statement, asked, query,
  attempt, committed, atomically,
}

-- The tables before and after are related, however the statements fail.
pub record Keeps {S A : Type 0} (R : S → S → Type 0) (m : Effect S A) : Type 0 where
  pub at : (u : Under S) → R u.0 (m u).1.0

pub write-Keeps :
    {S A : Type 0} {R : S → S → Type 0} (q : S → Result A × S)
    → ((s : S) → R s s)
    → ((s : S) → R s (q s).1)
    → Keeps R (statement q)
write-Keeps {S = S} {R = R} q same h = record { at = each }
  where
    each : (u : Under S) → R u.0 (statement q u).1.0
    each (s, []) = h s
    each (s, fine ∷ fs) = h s
    each (s, before ∷ fs) = same s
    each (s, after ∷ fs) = h s

pub if-Keeps :
    {S A : Type 0} {R : S → S → Type 0} (b : Bool) (m n : Effect S A)
    → Keeps R m
    → Keeps R n
    → Keeps R (if b then m else n)
if-Keeps true m n h k = h
if-Keeps false m n h k = k

pub fail-Keeps :
    {S A : Type 0} {R : S → S → Type 0} (e : Error) → ((s : S) → R s s) → Keeps R (fail {A = A} e)
fail-Keeps e same = record { at = λ u. same u.0 }

module _ {S : Type 0} (R : S → S → Type 0) (same : (s : S) → R s s)
    (join : (s t u : S) → R s t → R t u → R s u) where
  pub bind-Keeps :
      {A B : Type 0} (m : Effect S A) (f : A → Effect S B)
      → Keeps R m
      → ((a : A) → Keeps R (f a))
      → Keeps R (m >>= f)
  bind-Keeps {A = A} m f h k = record { at = λ u. done u (m u) (h.at u) }
    where
      done : (u : Under S) (r : Result A × Under S) → R u.0 r.1.0 → R u.0 (then_do r f).1.0
      done u (ok a, v) e = join u.0 v.0 (f a v).1.0 e ((k a).at v)
      done u (err e, v) h' = h'

  -- The same, where what follows is only reached with an answer that was given.
  pub bind_after-Keeps :
      {A B : Type 0} (m : Effect S A) (f : A → Effect S B)
      → Keeps R m
      → ((a : A) (u v : Under S) → m u ≡ (ok a, v) → Keeps R (f a))
      → Keeps R (m >>= f)
  bind_after-Keeps {A = A} m f h k = record { at = λ u. done u (m u) refl (h.at u) }
    where
      done :
          (u : Under S) (r : Result A × Under S) → m u ≡ r → R u.0 r.1.0 → R u.0 (then_do r f).1.0
      done u (ok a, v) e h' = join u.0 v.0 (f a v).1.0 h' ((k a u v e).at v)
      done u (err e', v) e h' = h'

  pub pure-Keeps : {A : Type 0} (a : A) → Keeps R (pure a)
  pure-Keeps a = record { at = λ u. same u.0 }

  pub lift-Keeps : {A : Type 0} (r : Result A) → Keeps R (lift r)
  lift-Keeps r = record { at = λ u. same u.0 }

  pub statement-Keeps :
      {A : Type 0} (q : S → Result A × S) → ((s : S) → R s (q s).1) → Keeps R (statement q)
  statement-Keeps q h = write-Keeps q same h

  pub query-Keeps : {A : Type 0} (q : S → Result A) → Keeps R (query q)
  query-Keeps q = statement-Keeps (asked q) same

  pub attempt-Keeps : {A : Type 0} (m : Effect S A) → Keeps R m → Keeps R (attempt m)
  attempt-Keeps m h = record { at = λ u. h.at u }

  pub atomically-Keeps : {A : Type 0} (m : Effect S A) → Keeps R m → Keeps R (atomically m)
  atomically-Keeps {A = A} m h = record { at = λ u. done u.0 (m u) (h.at u) }
    where
      done : (s : S) (r : Result A × Under S) → R s r.1.0 → R s (committed s r).1.0
      done s (err e, (_, fs)) h' = same s
      done s (ok a, (t, [])) h' = h'
      done s (ok a, (t, fine ∷ fs)) h' = h'
      done s (ok a, (t, before ∷ fs)) h' = same s
      done s (ok a, (t, after ∷ fs)) h' = h'

-- A first step, and what follows from the tables that it left.
pub onward-Keeps :
    {S A B : Type 0} {P : S → S → Type 0} (m : Effect S A) (f : A → Effect S B)
    → Keeps P m
    → ((a : A) (u v : Under S) → m u ≡ (ok a, v) → P u.0 (f a v).1.0)
    → Keeps P (m >>= f)
onward-Keeps {S = S} {A = A} {P = P} m f h k = record { at = λ u. done u (m u) refl (h.at u) }
  where
    done : (u : Under S) (r : Result A × Under S) → m u ≡ r → P u.0 r.1.0 → P u.0 (then_do r f).1.0
    done u (ok a, v) e h' = k a u v e
    done u (err e', v) e h' = h'

-- Code that only reads.
abbrev pub Still : {S A : Type 0} → Effect S A → Type 0
Still m = Keeps (λ s t. t ≡ s) m

module _ {S : Type 0} where
  pub bind-Still :
      {A B : Type 0} (m : Effect S A) (f : A → Effect S B)
      → Still m
      → ((a : A) → Still (f a))
      → Still (m >>= f)
  bind-Still = bind-Keeps (λ s t. t ≡ s) (λ s. refl) (λ s t u e e'. e' ∙ e)

  pub lift-Still : {A : Type 0} (r : Result A) → Still (lift {S = S} r)
  lift-Still r = record { at = λ u. refl }

  pub query-Still : {A : Type 0} (q : S → Result A) → Still (query q)
  query-Still = query-Keeps (λ s t. t ≡ s) (λ s. refl) (λ s t u e e'. e' ∙ e)

  pub if-Still :
      {A : Type 0} (b : Bool) (m n : Effect S A) → Still m → Still n → Still (if b then m else n)
  if-Still b m n h k = if-Keeps b m n h k

  -- What follows a read is what counts, and what goes before one.
  pub reads-Keeps :
      {A B : Type 0} {P : S → S → Type 0} (m : Effect S A) (f : A → Effect S B)
      → ((s : S) → P s s)
      → Still m
      → ((a : A) → Keeps P (f a))
      → Keeps P (m >>= f)
  reads-Keeps {P = P} m f same h k =
      onward-Keeps m f (record { at = λ u. subst (λ x. P u.0 x) (sym (h.at u)) (same u.0) })
        (λ a u v e.
          let left : v.0 ≡ u.0 = sym (ap (λ x. x.1.0) e) ∙ h.at u in
          subst (λ x. P x (f a v).1.0) left ((k a).at v))

  pub ends-Keeps :
      {A B : Type 0} {P : S → S → Type 0} (m : Effect S A) (f : A → Effect S B)
      → Keeps P m
      → ((a : A) → Still (f a))
      → Keeps P (m >>= f)
  ends-Keeps {P = P} m f h k =
      onward-Keeps m f h
        (λ a u v e. subst (λ x. P u.0 x) (sym ((k a).at v)) (subst (λ x. P u.0 x.1.0) e (h.at u)))
