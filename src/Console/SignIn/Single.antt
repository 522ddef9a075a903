-- ===== src/Console/SignIn/Single.antt =====
-- How often a code opens a session.
use srosha.Prelude.{
  ◌≡◌, refl, ◌∙◌, ◌≢◌, true, false, text_eqb_iff, List, [], ◌∷◌, Text, text_eqb, any, arith,
}
use srosha.Errs.{nil}
use srosha.Errs.Result.{ok, is_ok}
use srosha.Effect.{Under}
use srosha.Table.{change_where, count_where}
use srosha.Shared.Id.{SharedId}
use srosha.Delivery.{Time}
use srosha.User.{Mail}
use srosha.LoginCode.{LoginCode, check, spent}
use srosha.LoginCode.Once.{IsOpen}
use srosha.Session
use srosha.Session.{Session}
use srosha.Console.{Console}
use srosha.Console.SignIn.Opens.{verify-Opens}
use srosha.Console.SignIn.Tried.{Try, tried, tried-Used, used-refused, opened-IsUsed}
use srosha.Console.SignIn.{is_code, as_spent, is_session, create_session, spend, answer, verify}

-- When a code has opened a session, no further call of `Verify` for that address opens one, with
-- whatever answer, at whatever time and whatever statements fail, however many calls of `Verify`
-- for that address come before it, if nothing else changes the tables meanwhile.
pub verify-once :
    (mail : Mail) (checked_at opened_at : Time) (id : SharedId) (email given : Text)
    (s t : Under Console) (opened : Session)
    → verify mail checked_at opened_at id email given s ≡ (ok opened, t)
    → (tries : List Try) (x : Try)
    → is_ok
        (verify mail x.checked_at x.opened_at x.id email x.given
          (tried mail email tries t.0, x.faults)).0
      ≡ false
verify-once mail checked_at opened_at id email given s t opened h tries x =
    let o = verify-Opens mail checked_at opened_at id email given s t opened h in
    used-refused o.address o.person mail email x (tried mail email tries t.0) o.spelled (
      tried-Used o.address o.person mail email tries t.0 o.spelled
        (opened-IsUsed mail checked_at opened_at id email given s.0 t.0 opened o))

count-change :
    (id : SharedId) (c : LoginCode) (rows : List LoginCode)
    → count_where (is_code id) (change_where (is_code id) (as_spent c) rows)
      ≡ count_where (is_code id) rows
unfolding count_where change_where
count-change id c [] = refl
count-change id c (row ∷ rows) = rw (count-change id c rows) (ground arith)

check-right : (now : Time) (c : LoginCode) → IsOpen now c → check c.code now c ≡ (spent now c, nil)
unfolding check
check-right now c o = ground (arith, text_eqb_iff c.code c.code)

-- The tables that an accepted answer leaves.
abbrev answered : Time → Time → SharedId → SharedId → LoginCode → Console → Console
answered now opened_at id user_id c t = record t {
  sessions = Session.new id user_id opened_at ∷ t.sessions;
  codes = change_where (is_code c.id) (as_spent (spent now c)) t.codes;
}

answer-right :
    (now opened_at : Time) (id user_id : SharedId) (c : LoginCode) (t : Console)
    → IsOpen now c
    → count_where (is_code c.id) t.codes ≡ 1
    → any (is_session id) t.sessions ≡ false
    → answer now opened_at id user_id c.code c (t, [])
      ≡ (ok (Session.new id user_id opened_at), (answered now opened_at id user_id c t, []))
unfolding answer spend create_session Session.new
answer-right now opened_at id user_id c t o n f = rw (check-right now c o, n, f) refl

-- Two calls of `Verify` that both read a code before either marks it as used both open a session,
-- if the answer is right and in time and the two identifiers are new: the statement that marks the
-- code does not ask whether it is marked.
pub answer-race :
    (now opened_at now' opened_at' : Time) (id id' user_id : SharedId) (c : LoginCode) (t : Console)
    → IsOpen now c
    → IsOpen now' c
    → count_where (is_code c.id) t.codes ≡ 1
    → any (is_session id) t.sessions ≡ false
    → any (is_session id') t.sessions ≡ false
    → id ≢ id'
    → let (r, u) = answer now opened_at id user_id c.code c (t, []) in
      (is_ok r ≡ true) × (is_ok (answer now' opened_at' id' user_id c.code c u).0 ≡ true)
unfolding Session.new
answer-race now opened_at now' opened_at' id id' user_id c t o o' n f f' d =
    let other : text_eqb id id' ≡ false = ground (arith, text_eqb_iff id id') in
    let first = answer-right now opened_at id user_id c t o n f in
    let second =
      answer-right now' opened_at' id' user_id c (answered now opened_at id user_id c t) o'
        (count-change c.id (spent now c) t.codes ∙ n) (rw (other, f') refl) in
    rw first (refl, rw second refl)
