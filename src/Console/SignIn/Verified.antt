-- ===== src/Console/SignIn/Verified.antt =====
-- What it takes that a session is opened.
use srosha.Prelude.{
  map, text_eqb, ◌∙◌, ℕ, ◌+◌, ◌≡◌, ◌⊎◌, inl, inr, refl, sym, subst, All, true, false, Bool-cases,
  some, List, [], ◌∷◌, Text, text_eqb_iff, any, arith, if◌then◌else◌,
}
use srosha.Errs.Result.{ok}
use srosha.Effect.{Under}
use srosha.Table.{find_where, change_where}
use srosha.Table.Found.{change_where-map, find_where_inv}
use srosha.Shared.Id.{SharedId}
use srosha.Delivery.{Time}
use srosha.User.{User, Mail, normalize_email}
use srosha.LoginCode.{LoginCode}
use srosha.LoginCode.Once.{IsOpen}
use srosha.Session.{Session}
use srosha.Session
use srosha.Console.{Console}
use srosha.Console.SignIn.{has_email, is_code, is_session, verify}
use srosha.Console.SignIn.Opens.{Opens, verify-Opens}
use srosha.Console.SignIn.Newest.{IsLast, newest-IsLast}

-- A code that was answered once more, at a moment.
abbrev pub answered_at : Time → ℕ → LoginCode → LoginCode
answered_at now attempts c = record c { attempts = attempts; used_at = some now }

-- A session that was opened, for whom and by which code.
pub record IsOpened (mail : Mail) (checked_at opened_at : Time) (id : SharedId) (email given : Text)
    (t : Console) (s : Session) (t' : Console) : Type 0 where
  pub address : Text
  pub person : User
  pub code : LoginCode
  pub spelled : normalize_email mail email ≡ ok address
  pub theirs : person.email ≡ address
  pub known : find_where (has_email address) t.users ≡ some person
  pub active : person.is_active ≡ true
  pub last_sent : IsLast person.id t.codes code
  pub in_time : IsOpen checked_at code
  pub right : given ≡ code.code
  pub session : s ≡ Session.new id person.id opened_at
  pub fresh : any (is_session id) t.sessions ≡ false
  pub sessions : t'.sessions ≡ s ∷ t.sessions
  pub codes :
      t'.codes
      ≡ map
          (λ (c : LoginCode).
            if text_eqb c.id code.id then answered_at checked_at (code.attempts + 1) c else c)
          t.codes
  pub used : All (λ (c : LoginCode). c.id ≡ code.id → c.used_at ≡ some checked_at) t'.codes
  pub users : t'.users ≡ t.users

answered-used :
    (id : SharedId) (attempts : ℕ) (now : Time) (rows : List LoginCode)
    → All
        (λ (c : LoginCode). c.id ≡ id → c.used_at ≡ some now)
        (change_where (is_code id) (answered_at now attempts) rows)
unfolding change_where
answered-used id attempts now [] = tt
answered-used id attempts now (row ∷ rows) =
    (each (Bool-cases (is_code id row)), answered-used id attempts now rows)
  where
    each :
        (is_code id row ≡ true) ⊎ (is_code id row ≡ false)
        → let c = if is_code id row then answered_at now attempts row else row in
          c.id ≡ id → c.used_at ≡ some now
    each (inl y) = rw y (λ e. refl)
    each (inr n) = rw n (λ e. ground (arith, n, (text_eqb_iff row.id id).1 e))

-- `Verify` answers with a session only if the address is that of an active person, a code of
-- theirs than which none of theirs is newer is open at the moment of the check, and the given code
-- is that code; then the session is new, it is theirs, and every code with that identifier, and no
-- other, is marked as used at that moment. This holds whatever statements fail.
pub verify-IsOpened :
    (mail : Mail) (checked_at opened_at : Time) (id : SharedId) (email given : Text)
    (s t : Under Console) (opened : Session)
    → verify mail checked_at opened_at id email given s ≡ (ok opened, t)
    → IsOpened mail checked_at opened_at id email given s.0 opened t.0
verify-IsOpened mail checked_at opened_at id email given s t opened h =
    let o = verify-Opens mail checked_at opened_at id email given s t opened h in plain s.0 t.0 o
  where
    plain :
        (x y : Console)
        → Opens mail checked_at opened_at id email given x opened y
        → IsOpened mail checked_at opened_at id email given x opened y
    plain x y o = record {
      address = o.address;
      person = o.person;
      code = o.code;
      spelled = o.spelled;
      theirs =
          (text_eqb_iff o.person.email o.address).0
            (find_where_inv (has_email o.address) x.users o.person o.known);
      known = o.known;
      active = o.active;
      last_sent = newest-IsLast o.person.id x.codes o.code o.last_sent;
      in_time = o.in_time;
      right = o.right;
      session = o.session;
      fresh = o.fresh;
      sessions = o.sessions;
      codes =
          o.codes
          ∙ change_where-map (is_code o.code.id) (answered_at checked_at (o.code.attempts + 1))
              x.codes;
      used =
          subst
            (λ (cs : List LoginCode).
              All (λ (c : LoginCode). c.id ≡ o.code.id → c.used_at ≡ some checked_at) cs)
            (sym o.codes) (answered-used o.code.id (o.code.attempts + 1) checked_at x.codes);
      users = o.users;
    }
