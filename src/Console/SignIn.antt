-- ===== src/Console/SignIn.antt =====
-- internal/core/usecase/signin.go, with the statements of user.go, session.go and logincode.go of
-- internal/adapter/db/postgres.
pub mod Opens
pub mod Newest
pub mod Verified
pub mod Single
pub mod Tried
pub mod Whoami
use srosha.Prelude.{
  ℕ, ◌+◌, ◌*◌, Bool, true, false, not, ◌&&◌, ◌||◌, Option, none, some, List, [], ◌∷◌, Text,
  text_eqb, leb, ltb, any, if◌then◌else◌,
}
use srosha.Errs.{
  Error, nil, app, str, detailed, refused, errors_is, not_found, unauthorized, too_many,
  user_not_found, session_not_found, session_closed, code_not_found, too_many_requests,
}
use srosha.Errs.Result.{Result, ok, err}
use srosha.Effect.{
  Under, Effect, then_do, ◌>>=◌, ◌>>◌, pure, fail, lift, statement, query, attempt, driver_failure,
}
use srosha.Table.{find_where, count_where, change_where, delete_where, or_missing, wrote}
use srosha.Shared.Id.{SharedId}
use srosha.Delivery.{Time}
use srosha.User
use srosha.User.{User, Mail, Role, customer, normalize_email, ensure_active}
use srosha.LoginCode
use srosha.LoginCode.{LoginCode, minute, check}
use srosha.Session
use srosha.Session.{Session, valid, touch}
use srosha.Console.{Console}

abbrev pub max_code_requests : ℕ
max_code_requests = 5

abbrev pub code_request_window : ℕ
code_request_window = 60 * minute

-- What a call draws and is answered: identifiers, moments, a code, and whether the mail was taken.
pub record Draw : Type 0 where
  pub user_id : SharedId
  pub joined_at : Time
  pub now : Time
  pub id : SharedId
  pub code : Result Text
  pub mailed : Result (Unit {0})

-- users: `ReadUserByEmail`, `ReadUserByID`, and `CreateUser` under the table's unique indexes.
abbrev pub has_email : Text → User → Bool
has_email email u = text_eqb u.email email

abbrev pub is_user : SharedId → User → Bool
is_user id u = text_eqb u.id id

unfoldable pub read_by_email : Text → Console → Result User
read_by_email email t =
    or_missing (find_where (has_email email) t.users) (refused not_found user_not_found)

unfoldable pub read_user : SharedId → Console → Result User
read_user id t = or_missing (find_where (is_user id) t.users) (refused not_found user_not_found)

unfoldable pub create_user : User → Console → Result (Unit {0}) × Console
create_user u t =
    if any (λ (v : User). has_email u.email v || is_user u.id v) t.users
    then (err driver_failure, t)
    else (ok tt, record t { users = u ∷ t.users })

-- login_codes. The newest is the first of those that were created last.
abbrev pub is_code_of : SharedId → LoginCode → Bool
is_code_of user_id c = text_eqb c.user_id user_id

abbrev pub later : LoginCode → Option LoginCode → LoginCode
later c none = c
later c (some d) = if leb d.created_at c.created_at then c else d

unfoldable pub newest : SharedId → List LoginCode → Option LoginCode
newest user_id [] = none
newest user_id (c ∷ cs) =
    let rest = newest user_id cs in if is_code_of user_id c then some (later c rest) else rest

unfoldable pub read_newest : SharedId → Console → Result LoginCode
read_newest user_id t = or_missing (newest user_id t.codes) (refused not_found code_not_found)

abbrev pub is_code : SharedId → LoginCode → Bool
is_code id c = text_eqb c.id id

unfoldable pub create_code : LoginCode → Console → Result (Unit {0}) × Console
create_code c t =
    if any (is_code c.id) t.codes
    then (err driver_failure, t)
    else (ok tt, record t { codes = c ∷ t.codes })

abbrev pub as_spent : LoginCode → LoginCode → LoginCode
as_spent c row = record row { attempts = c.attempts; used_at = c.used_at }

unfoldable pub spend : LoginCode → Console → Result (Unit {0}) × Console
spend c t = (
  wrote (count_where (is_code c.id) t.codes) (detailed not_found code_not_found),
  record t { codes = change_where (is_code c.id) (as_spent c) t.codes },
)

unfoldable pub forget : SharedId → Console → Result (Unit {0}) × Console
forget id t = (ok tt, record t { codes = delete_where (is_code id) t.codes })

-- `created_at >= now - window`, in sums.
abbrev pub is_recent : SharedId → Time → LoginCode → Bool
is_recent user_id now c = is_code_of user_id c && leb now (c.created_at + code_request_window)

unfoldable pub count_recent : SharedId → Time → Console → ℕ
count_recent user_id now t = count_where (is_recent user_id now) t.codes

-- sessions.
abbrev pub is_session : SharedId → Session → Bool
is_session id s = text_eqb s.id id

unfoldable pub read_session : SharedId → Console → Result Session
read_session id t =
    or_missing (find_where (is_session id) t.sessions) (refused not_found session_not_found)

unfoldable pub create_session : Session → Console → Result (Unit {0}) × Console
create_session s t =
    if any (is_session s.id) t.sessions
    then (err driver_failure, t)
    else (ok tt, record t { sessions = s ∷ t.sessions })

unfoldable pub touch_session : Session → Console → Result (Unit {0}) × Console
touch_session s t = (
  wrote (count_where (is_session s.id) t.sessions) (detailed not_found session_not_found),
  record t {
    sessions =
        change_where (is_session s.id) (λ row. record row { last_seen_at = s.last_seen_at })
          t.sessions;
  },
)

unfoldable pub delete_session : SharedId → Console → Result (Unit {0}) × Console
delete_session id t = (
  wrote (count_where (is_session id) t.sessions) (detailed not_found session_not_found),
  record t { sessions = delete_where (is_session id) t.sessions },
)

-- `find`: the person behind an address, or the customer that it becomes.
after_read : Mail → Draw → Text → Result User → Effect Console User
unfolding errors_is User.new create_user
after_read mail d address (ok u) = pure u
after_read mail d address (err e) =
    if errors_is e user_not_found
    then (do
      fresh ← lift (User.new mail d.user_id address customer d.joined_at)
      statement (create_user fresh)
      pure fresh)
    else fail e

-- The reply of a read as a value, so that its error can be looked at.
abbrev pub tried : {S A : Type 0} → Effect S A → Effect S (Result A)
tried m u = let (r, v) = m u in (ok r, v)

unfoldable pub find : Mail → Draw → Text → Effect Console User
unfolding after_read read_by_email
find mail d address = do
  read ← tried (query (read_by_email address))
  after_read mail d address read

-- `SendCode`, which is no statement: the mail is handed over, whatever the answer.
abbrev send_code : Text → Text → Effect Console (Unit {0})
send_code email code (t, fs) = (ok tt, (record t { mails = (email, code) ∷ t.mails }, fs))

after_mail : LoginCode → Result (Unit {0}) → Effect Console (Unit {0})
unfolding forget
after_mail made (ok _) = pure tt
after_mail made (err e) = do attempt (statement (forget made.id)); fail e

unfoldable pub send_to : Draw → User → Effect Console (Unit {0})
unfolding count_recent create_code after_mail
send_to d u = do
  n ← query (λ t. ok (count_recent u.id d.now t))
  (if leb max_code_requests n then fail (refused too_many too_many_requests) else (do
    code ← lift d.code
    statement (create_code (LoginCode.new d.id u.id code d.now))
    send_code u.email code
    after_mail (LoginCode.new d.id u.id code d.now) d.mailed))

-- `Request`.
unfoldable pub request : Mail → Draw → Text → Effect Console (Unit {0})
unfolding find send_to
request mail d email = do
  address ← lift (normalize_email mail email)
  u ← find mail d address
  if u.is_active then send_to d u else pure tt

abbrev pub refuse_sign_in : Error
refuse_sign_in = app unauthorized nil

-- An error that becomes the one answer.
abbrev pub masked : {A : Type 0} → Result A → Result A
masked (ok a) = ok a
masked (err e) = err refuse_sign_in

abbrev pub check_result : Error → Result (Unit {0})
check_result nil = ok tt
check_result e = err e

-- `Verify` after it read the code. `opened_at` is the moment at which the session is made.
unfoldable pub answer :
    Time → Time → SharedId → SharedId → Text → LoginCode → Effect Console Session
unfolding spend create_session
answer checked_at opened_at id user_id given stored = do
  let checked = check given checked_at stored
  statement (spend checked.0)
  lift (check_result checked.1)
  statement (create_session (Session.new id user_id opened_at))
  pure (Session.new id user_id opened_at)

-- A read of which every error is the one answer.
abbrev pub masked_query : {A : Type 0} → (Console → Result A) → Effect Console A
masked_query q u = let (r, v) = query q u in (masked r, v)

unfoldable pub verify : Mail → Time → Time → SharedId → Text → Text → Effect Console Session
unfolding answer read_by_email read_newest
verify mail checked_at opened_at id email given = do
  address ← lift (normalize_email mail email)
  u ← masked_query (read_by_email address)
  lift (masked (ensure_active u))
  stored ← masked_query (read_newest u.id)
  answer checked_at opened_at id u.id given stored

-- `Whoami`.
unfoldable pub whoami : Time → SharedId → Effect Console User
unfolding read_session read_user touch_session
whoami now session_id = do
  s ← query (read_session session_id)
  (if valid now s
      then (do
        u ← query (read_user s.user_id)
        lift (ensure_active u)
        statement (touch_session (touch now s))
        pure u)
      else fail (refused unauthorized session_closed))

-- `End`.
unfoldable pub end_session : SharedId → Effect Console (Unit {0})
unfolding delete_session
end_session session_id = statement (delete_session session_id)
