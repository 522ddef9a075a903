-- ===== src/Console/SignIn/Opens.antt =====
-- The steps of a call of `Verify` that opens a session.
use srosha.Prelude.{
  ◌≡◌, refl, ap, sym, subst, ◌∙◌, Bool, true, false, some, ◌∷◌, Text, any, arith, if◌then◌else◌,
}
use srosha.Errs.{Error, nil}
use srosha.Errs.Result.{Result, ok, err, ok_injective}
use srosha.Effect.{Under, lift, statement, query, driver_failure}
use srosha.Effect.Inversion.{bind-Answers, lift-Answers, statement-Answers, query-Answers}
use srosha.Table.{find_where, change_where, found_inv}
use srosha.Shared.Id.{SharedId}
use srosha.Delivery.{Time}
use srosha.User.{User, Mail, normalize_email, ensure_active}
use srosha.LoginCode.{LoginCode, check, spent}
use srosha.LoginCode.Once.{IsOpen, check_lem, check-spent}
use srosha.Session
use srosha.Session.{Session}
use srosha.Console.{Console}
use srosha.Console.SignIn.{
  has_email, read_by_email, newest, read_newest, is_code, as_spent, spend, is_session,
  create_session, check_result, answer, masked, masked_query, verify,
}

pub masked-Answers :
    {A : Type 0} (q : Console → Result A) (s t : Under Console) (a : A)
    → masked_query q s ≡ (ok a, t)
    → (q s.0 ≡ ok a) × (s.0 ≡ t.0)
masked-Answers {A = A} q s t a h =
    split (query q s).0 (query q s).1 refl (ap (λ x. x.0) h) (ap (λ x. x.1) h)
  where
    split :
        (r : Result A) (u : Under Console)
        → query q s ≡ (r, u)
        → masked r ≡ ok a
        → u ≡ t
        → (q s.0 ≡ ok a) × (s.0 ≡ t.0)
    split (ok b) u e h' same =
        let (found, kept) = query-Answers q s u b e in
        (found ∙ h', kept ∙ ap (λ (x : Under Console). x.0) same)
    split (err e') u e h' same = cc

check_result_inv : (e : Error) → check_result e ≡ ok tt → e ≡ nil
check_result_inv e h = ground arith

-- A session that was opened, for whom and by which code.
pub record Opens (mail : Mail) (checked_at opened_at : Time) (id : SharedId) (email given : Text)
    (t : Console) (s : Session) (t' : Console) : Type 0 where
  pub address : Text
  pub person : User
  pub code : LoginCode
  pub spelled : normalize_email mail email ≡ ok address
  pub known : find_where (has_email address) t.users ≡ some person
  pub active : person.is_active ≡ true
  pub last_sent : newest person.id t.codes ≡ some code
  pub in_time : IsOpen checked_at code
  pub right : given ≡ code.code
  pub session : s ≡ Session.new id person.id opened_at
  pub fresh : any (is_session id) t.sessions ≡ false
  pub sessions : t'.sessions ≡ s ∷ t.sessions
  pub codes : t'.codes ≡ change_where (is_code code.id) (as_spent (spent checked_at code)) t.codes
  pub users : t'.users ≡ t.users

spend-Answers :
    (c : LoginCode) (s t : Under Console)
    → statement (spend c) s ≡ (ok tt, t)
    → t.0 ≡ record s.0 { codes = change_where (is_code c.id) (as_spent c) s.0.codes }
unfolding spend
spend-Answers c s t h = sym (ap (λ x. x.1) (statement-Answers (spend c) s t tt h))

create-Answers :
    (new : Session) (s t : Under Console)
    → statement (create_session new) s ≡ (ok tt, t)
    → (any (is_session new.id) s.0.sessions ≡ false)
      × (t.0 ≡ record s.0 { sessions = new ∷ s.0.sessions })
unfolding create_session
create-Answers new s t h =
    each (any (is_session new.id) s.0.sessions) refl
      (statement-Answers (create_session new) s t tt h)
  where
    each :
        (b : Bool)
        → any (is_session new.id) s.0.sessions ≡ b
        → ◌≡◌ {A = Result (Unit {0}) × Console}
            (if b
              then (err driver_failure, s.0)
              else (ok tt, record s.0 { sessions = new ∷ s.0.sessions }))
            (ok tt, t.0)
        → (any (is_session new.id) s.0.sessions ≡ false)
          × (t.0 ≡ record s.0 { sessions = new ∷ s.0.sessions })
    each true n e = cc
    each false n e = (n, sym (ap (λ x. x.1) e))

-- What an answer to a code that was read comes to, when it is taken.
answer-Opened :
    (checked_at opened_at : Time) (id user_id : SharedId) (given : Text) (c : LoginCode)
    (s t : Under Console) (opened : Session)
    → answer checked_at opened_at id user_id given c s ≡ (ok opened, t)
    → ((check given checked_at c).1 ≡ nil)
      × (opened ≡ Session.new id user_id opened_at)
      × (any (is_session (Session.new id user_id opened_at).id) s.0.sessions ≡ false)
      × (t.0 ≡ record s.0 {
        sessions = Session.new id user_id opened_at ∷ s.0.sessions;
        codes =
            change_where
              (is_code (check given checked_at c).0.id)
              (as_spent (check given checked_at c).0)
              s.0.codes;
      })
unfolding answer
answer-Opened checked_at opened_at id user_id given c s t opened h =
    let checked = check given checked_at c in
    let made = Session.new id user_id opened_at in
    let (_, s1, h1, k1) = bind-Answers (statement (spend checked.0)) _ s t opened h in
    let (_, s2, h2, k2) = bind-Answers (lift (check_result checked.1)) _ s1 t opened k1 in
    let (_, s3, h3, k3) = bind-Answers (statement (create_session made)) _ s2 t opened k2 in
    let e1 = spend-Answers checked.0 s s1 h1 in
    let (taken, e2) = lift-Answers (check_result checked.1) s1 s2 tt h2 in
    let (fresh, e3) = create-Answers made s2 s3 h3 in
    let here : s2.0 ≡ record s.0 {
      codes = change_where (is_code checked.0.id) (as_spent checked.0) s.0.codes;
    } =
      sym (ap (λ (x : Under Console). x.0) e2) ∙ e1 in
    (
      check_result_inv checked.1 taken,
      ok_injective opened made (sym (ap (λ x. x.0) k3)),
      subst (λ (x : Console). any (is_session made.id) x.sessions ≡ false) here fresh,
      sym (ap (λ (x : Result Session × Under Console). x.1.0) k3)
          ∙ (e3 ∙ ap (λ (x : Console). record x { sessions = made ∷ x.sessions }) here),
    )

-- What each step of a call that answers has found and left.
pub verify-Opens :
    (mail : Mail) (checked_at opened_at : Time) (id : SharedId) (email given : Text)
    (s t : Under Console) (opened : Session)
    → verify mail checked_at opened_at id email given s ≡ (ok opened, t)
    → Opens mail checked_at opened_at id email given s.0 opened t.0
unfolding verify read_by_email read_newest ensure_active Session.new
verify-Opens mail checked_at opened_at id email given s t opened h =
    let (address, s1, h1, k1) = bind-Answers (lift (normalize_email mail email)) _ s t opened h in
    let (spelled, e1) = lift-Answers (normalize_email mail email) s s1 address h1 in
    let (u, s2, h2, k2) = bind-Answers (masked_query (read_by_email address)) _ s1 t opened k1 in
    let (known, e2) = masked-Answers (read_by_email address) s1 s2 u h2 in
    let (_, s3, h3, k3) = bind-Answers (lift (masked (ensure_active u))) _ s2 t opened k2 in
    let (active, e3) = lift-Answers (masked (ensure_active u)) s2 s3 tt h3 in
    let (code, s4, h4, k4) = bind-Answers (masked_query (read_newest u.id)) _ s3 t opened k3 in
    let (last, e4) = masked-Answers (read_newest u.id) s3 s4 code h4 in
    let (accepted, opens, fresh, after) =
      answer-Opened checked_at opened_at id u.id given code s4 t opened k4 in
    let here2 : s.0 ≡ s2.0 = ap (λ (x : Under Console). x.0) e1 ∙ e2 in
    let here3 : s.0 ≡ s3.0 = here2 ∙ ap (λ (x : Under Console). x.0) e3 in
    let here4 : s.0 ≡ s4.0 = here3 ∙ e4 in
    let (is_open, right) = (check_lem given checked_at code).0.0 accepted in
    record {
      address = address;
      person = u;
      code = code;
      spelled = spelled;
      known =
          subst (λ (x : Console). find_where (has_email address) x.users ≡ some u)
            (sym (ap (λ (x : Under Console). x.0) e1)) (found_inv _ _ u known);
      active = ground arith;
      last_sent =
          subst (λ (x : Console). newest u.id x.codes ≡ some code) (sym here3)
            (found_inv _ _ code last);
      in_time = is_open;
      right = right;
      session = opens;
      fresh = subst (λ (x : Console). any (is_session id) x.sessions ≡ false) (sym here4) fresh;
      sessions =
          ap (λ (x : Console). x.sessions) after
          ∙ (ap (λ (x : Console). Session.new id u.id opened_at ∷ x.sessions) (sym here4)
              ∙ ap (λ (x : Session). x ∷ s.0.sessions) (sym opens));
      codes =
          ap (λ (x : Console). x.codes) after
          ∙ (ap
                (λ (x : Console).
                  change_where (is_code (check given checked_at code).0.id)
                    (as_spent (check given checked_at code).0) x.codes)
                (sym here4)
              ∙ ap (λ (x : LoginCode). change_where (is_code x.id) (as_spent x) s.0.codes)
                  (check-spent given checked_at code is_open));
      users = ap (λ (x : Console). x.users) after ∙ ap (λ (x : Console). x.users) (sym here4);
    }
