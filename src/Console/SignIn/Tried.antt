-- ===== src/Console/SignIn/Tried.antt =====
-- Calls of `Verify` for one address, one after the other.
use srosha.Prelude.{
  ◌≡◌, refl, ap, sym, subst, ◌∙◌, Bool, true, false, text_eqb_iff, some, some_injective, any,
  is_some, List, [], ◌∷◌, Text, arith, if◌then◌else◌,
}
use srosha.Errs.Result.{Result, ok, err, is_ok, ok_injective}
use srosha.Effect.{Fault, Under, driver_failure, Effect, then_do, ◌>>=◌, lift, statement}
use srosha.Effect.Inversion.{lift-Answers}
use srosha.Effect.Keeps.{
  Keeps, Still, write-Keeps, bind-Keeps, lift-Keeps, pure-Keeps, lift-Still, query-Still,
}
use srosha.Table.{find_where, found_inv}
use srosha.Shared.Id.{SharedId}
use srosha.Delivery.{Time}
use srosha.User.{User, Mail, normalize_email, ensure_active}
use srosha.LoginCode.{LoginCode, check, spent}
use srosha.Session
use srosha.Session.{Session}
use srosha.Console.{Console}
use srosha.Console.SignIn.{
  has_email, read_by_email, newest, read_newest, is_session, as_spent, spend, create_session,
  check_result, answer, masked, masked_query, verify,
}
use srosha.Console.SignIn.Newest.{stored, stored_if, newest-change}
use srosha.Console.SignIn.Opens.{Opens, verify-Opens, masked-Answers}

-- A first step that only reads, and what follows it.
still_then :
    {A B : Type 0} (G : Console → Type 0) (m : Effect Console A) (f : A → Effect Console B)
    (u : Under Console)
    → Still m
    → G u.0
    → ((a : A) (v : Under Console) → m u ≡ (ok a, v) → G v.0 → G (f a v).1.0)
    → G ((m >>= f) u).1.0
still_then {A = A} G m f u h g next = split (m u) refl
  where
    left : G (m u).1.0
    left = subst G (sym (h.at u)) g

    split : (r : Result A × Under Console) → m u ≡ r → G (then_do r f).1.0
    split (ok a, v) e = next a v e (subst (λ (x : Result A × Under Console). G x.1.0) e left)
    split (err e', v) e = subst (λ (x : Result A × Under Console). G x.1.0) e left

masked_query-Still : {A : Type 0} (q : Console → Result A) → Still (masked_query q)
masked_query-Still q = record { at = λ u. (query-Still q).at u }

check-used :
    (given : Text) (now : Time) (c : LoginCode)
    → is_some c.used_at ≡ true
    → is_some (check given now c).0.used_at ≡ true
unfolding check
check-used given now c h = ground arith

-- One call, with the statements that fail in it.
pub record Try : Type 0 where
  pub checked_at : Time
  pub opened_at : Time
  pub id : SharedId
  pub given : Text
  pub faults : List Fault

-- The tables that calls for one address leave.
unfoldable pub tried : Mail → Text → List Try → Console → Console
unfolding verify
tried mail email [] t = t
tried mail email (x ∷ xs) t =
    tried mail email xs (verify mail x.checked_at x.opened_at x.id email x.given (t, x.faults)).1.0

-- The newest code of a person, found by their address, is marked as used.
pub record IsUsed (address : Text) (person : User) (t : Console) : Type 0 where
  known : find_where (has_email address) t.users ≡ some person
  code : LoginCode
  last_sent : newest person.id t.codes ≡ some code
  used : is_some code.used_at ≡ true

module _ (address : Text) (person : User) where
  abbrev Onward : Console → Console → Type 0
  Onward s t = IsUsed address person s → IsUsed address person t

  Onward-refl : (s : Console) → Onward s s
  Onward-refl s h = h

  Onward-trans : (s t u : Console) → Onward s t → Onward t u → Onward s u
  Onward-trans s t u h k x = k (h x)

  spend-Used : (c : LoginCode) (t : Console) → is_some c.used_at ≡ true → Onward t (spend c t).1
  unfolding spend
  spend-Used c t h u = record {
    known = u.known;
    code = stored c u.code;
    last_sent = newest-change c person.id t.codes ∙ ap (stored_if c) u.last_sent;
    used = ground (arith, h, u.used);
  }

  create_session-Used : (s : Session) (t : Console) → Onward t (create_session s t).1
  unfolding create_session
  create_session-Used s t u = either (any (is_session s.id) t.sessions)
    where
      either :
          (b : Bool)
          → IsUsed address person
              (if◌then◌else◌ {A = Result (Unit {0}) × Console} b
                (err driver_failure, t)
                (ok tt, record t { sessions = s ∷ t.sessions })).1
      either true = u
      either false = record {
        known = u.known;
        code = u.code;
        last_sent = u.last_sent;
        used = u.used;
      }

  answer-Used :
      (checked_at opened_at : Time) (id user_id : SharedId) (given : Text) (c : LoginCode)
      → is_some c.used_at ≡ true
      → Keeps Onward (answer checked_at opened_at id user_id given c)
  unfolding answer
  answer-Used checked_at opened_at id user_id given c h =
      let checked = check given checked_at c in
      bind-Keeps Onward Onward-refl Onward-trans (statement (spend checked.0)) _
        (write-Keeps (spend checked.0) Onward-refl
          (λ t. spend-Used checked.0 t (check-used given checked_at c h)))
        (λ _.
          bind-Keeps Onward Onward-refl Onward-trans (lift (check_result checked.1)) _
            (lift-Keeps Onward Onward-refl Onward-trans (check_result checked.1))
            (λ _.
              bind-Keeps Onward Onward-refl Onward-trans
                (statement (create_session (Session.new id user_id opened_at))) _
                (write-Keeps (create_session (Session.new id user_id opened_at)) Onward-refl
                  (create_session-Used (Session.new id user_id opened_at)))
                (λ _.
                  pure-Keeps Onward Onward-refl Onward-trans (Session.new id user_id opened_at))))

  -- The person and the code that are read for the address.
  read-used :
      (a : Text) (p : User) (c : LoginCode) (u w : Console)
      → a ≡ address
      → IsUsed address person u
      → IsUsed address person w
      → find_where (has_email a) u.users ≡ some p
      → newest p.id w.codes ≡ some c
      → is_some c.used_at ≡ true
  read-used a p c u w here h k found last =
      let who : some p ≡ some person =
        sym found ∙ (ap (λ b. find_where (has_email b) u.users) here ∙ h.known) in
      let which : some c ≡ some k.code =
        sym last
        ∙ (ap (λ (i : User). newest i.id w.codes) (some_injective p person who) ∙ k.last_sent) in
      ap (λ (x : LoginCode). is_some x.used_at) (some_injective c k.code which) ∙ k.used

  verify-Used :
      (mail : Mail) (email : Text) (x : Try) (t : Console)
      → normalize_email mail email ≡ ok address
      → IsUsed address person t
      → IsUsed address person
          (verify mail x.checked_at x.opened_at x.id email x.given (t, x.faults)).1.0
  unfolding verify read_by_email read_newest
  verify-Used mail email x t spelled used =
      let G = λ (y : Console). IsUsed address person y in
      still_then G (lift (normalize_email mail email)) _ (t, x.faults) (lift-Still _) used
        (λ a u e h.
          let here : a ≡ address =
            ok_injective a address (sym (lift-Answers _ _ _ a e).0 ∙ spelled) in
          still_then G (masked_query (read_by_email a)) _ u (masked_query-Still _) h (λ p v e' h'.
            still_then G (lift (masked (ensure_active p))) _ v (lift-Still _) h' (λ _ w e'' k.
              still_then G (masked_query (read_newest p.id)) _ w (masked_query-Still _) k
                (λ c y e''' k'.
                  (answer-Used x.checked_at x.opened_at x.id p.id x.given c (
                      read-used a p c u.0 w.0 here h k
                        (found_inv _ _ p (masked-Answers (read_by_email a) u v p e').0)
                        (found_inv _ _ c (masked-Answers (read_newest p.id) w y c e''').0))).at
                    y k'))))

  pub tried-Used :
      (mail : Mail) (email : Text) (tries : List Try) (t : Console)
      → normalize_email mail email ≡ ok address
      → IsUsed address person t
      → IsUsed address person (tried mail email tries t)
  unfolding tried
  tried-Used mail email [] t spelled h = h
  tried-Used mail email (x ∷ xs) t spelled h =
      tried-Used mail email xs _ spelled (verify-Used mail email x t spelled h)

  -- While it is marked as used, no call for the address opens a session.
  pub used-refused :
      (mail : Mail) (email : Text) (x : Try) (t : Console)
      → normalize_email mail email ≡ ok address
      → IsUsed address person t
      → is_ok (verify mail x.checked_at x.opened_at x.id email x.given (t, x.faults)).0 ≡ false
  used-refused mail email x t spelled h =
      no (verify mail x.checked_at x.opened_at x.id email x.given (t, x.faults)) refl
    where
      no :
          (r : Result Session × Under Console)
          → verify mail x.checked_at x.opened_at x.id email x.given (t, x.faults) ≡ r
          → is_ok r.0 ≡ false
      no (err e, u) e' = refl
      no (ok again, u) e' =
          let p =
            verify-Opens mail x.checked_at x.opened_at x.id email x.given (t, x.faults) u again
              e' in
          let here = ok_injective p.address address (sym p.spelled ∙ spelled) in
          let used = read-used p.address p.person p.code t t here h h p.known p.last_sent in
          let bad : false ≡ true = ap is_some (sym p.in_time.0) ∙ used in cc

-- A session that was opened leaves its code as the newest of its person, marked as used.
pub opened-IsUsed :
    (mail : Mail) (checked_at opened_at : Time) (id : SharedId) (email given : Text)
    (t t' : Console) (s : Session)
    → (o : Opens mail checked_at opened_at id email given t s t') → IsUsed o.address o.person t'
opened-IsUsed mail checked_at opened_at id email given t t' s o = record {
  known = subst (λ us. find_where (has_email o.address) us ≡ some o.person) (sym o.users) o.known;
  code = as_spent (spent checked_at o.code) o.code;
  last_sent =
      subst (λ cs. newest o.person.id cs ≡ some (as_spent (spent checked_at o.code) o.code))
        (sym o.codes)
        (newest-change (spent checked_at o.code) o.person.id t.codes
          ∙ (ap (stored_if (spent checked_at o.code)) o.last_sent
              ∙ rw ((text_eqb_iff o.code.id o.code.id).1 refl) refl));
  used = refl;
}
