-- ===== src/Console/SignIn/Whoami.antt =====
-- Who a session stands for.
use srosha.Prelude.{◌≡◌, ap, sym, subst, ◌∙◌, true, some}
use srosha.Errs.Result.{Result, ok, ok_injective}
use srosha.Effect.{Under}
use srosha.Effect.Inversion.{lift-then, if-then, query-then, statement-then}
use srosha.Table.{find_where, change_where, found_inv}
use srosha.Prelude.{arith}
use srosha.Shared.Id.{SharedId}
use srosha.Delivery.{Time}
use srosha.User.{User, ensure_active}
use srosha.Session.{Session, valid, touch}
use srosha.Console.{Console}
use srosha.Console.SignIn.{is_user, read_user, is_session, read_session, touch_session, whoami}

-- What a session is found to stand for.
pub record IsSignedIn (now : Time) (id : SharedId) (t : Console) (u : User) (t' : Console)
    : Type 0 where
  pub session : Session
  pub stored : find_where (is_session id) t.sessions ≡ some session
  pub alive : valid now session ≡ true
  pub person : find_where (is_user session.user_id) t.users ≡ some u
  pub active : u.is_active ≡ true
  pub touched : t' ≡ record t {
    sessions =
        change_where (is_session session.id) (λ row. record row { last_seen_at = now }) t.sessions;
  }

is_active_inv : (u : User) → ensure_active u ≡ ok tt → u.is_active ≡ true
unfolding ensure_active
is_active_inv u h = ground arith

-- `Whoami` answers with a person only if the session is stored, within both its deadlines, and is
-- that of a person who is active now; the only change is that the session was seen.
pub whoami-IsSignedIn :
    (now : Time) (id : SharedId) (s t : Under Console) (u : User)
    → whoami now id s ≡ (ok u, t)
    → IsSignedIn now id s.0 u t.0
unfolding whoami read_session read_user touch_session ensure_active touch
whoami-IsSignedIn now id s t u h =
    query-then s t u (read_session id) _ h (λ session s1 stored e1 h1.
      if-then s1 t u (valid now session) _ _ h1 (λ alive h2.
        query-then s1 t u (read_user session.user_id) _ h2 (λ u' s2 person e2 h3.
          lift-then s2 t u (ensure_active u') _ h3 (λ _ active h4.
            statement-then s2 t u (touch_session (touch now session)) _ h4 (λ _ s3 wrote h5.
              let same = ok_injective u' u (ap (λ x. x.0) h5) in
              let here : s1.0 ≡ s.0 = sym e1 in
              record {
                session = session;
                stored = found_inv _ _ session stored;
                alive = alive;
                person =
                    subst (λ (x : Console). find_where (is_user session.user_id) x.users ≡ some u)
                      here (found_inv _ _ u' person ∙ ap some same);
                active = subst (λ (x : User). x.is_active ≡ true) same (is_active_inv u' active);
                touched =
                    sym (ap (λ (x : Result User × Under Console). x.1.0) h5)
                    ∙ (sym (ap (λ x. x.1) wrote)
                        ∙ ap (λ x. (touch_session (touch now session) x).1) (sym e2 ∙ here));
              })))))
