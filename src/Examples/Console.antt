-- ===== src/Examples/Console.antt =====
-- People who sign in and govern, on concrete tables.
use srosha.Prelude.{
  ℕ, ◌≡◌, ◌≢◌, refl, Bool, true, false, none, some, [], ◌∷◌, Text, text, text_eqb, text_eqb_iff,
  trim_space, pos, arith, ◌≤◌,
}
use srosha.Errs.{detailed, forbidden, not_operator, not_super_admin, invalid_input, self_target}
use srosha.Errs.Result.{ok, err, is_ok}
use srosha.Effect.{fine, Under}
use srosha.Table.{find_where, count_where, order_by, filter_where}
use srosha.Notification.{has_passed}
use srosha.Source
use srosha.Source.{Source}
use srosha.User.{User, Mail, Role, customer, admin, super_admin, normalize_email, ensure_active}
use srosha.LoginCode
use srosha.LoginCode.{LoginCode, max_guesses}
use srosha.LoginCode.Once.{accepted, check_all, check_all-new}
use srosha.Session
use srosha.Session.{Session, valid, idle_timeout}
use srosha.Key.{Key}
use srosha.Console.{Console}
use srosha.Console.SignIn.{verify, whoami, answer, newest}
use srosha.Console.SignIn.Verified.{IsOpened, verify-IsOpened}
use srosha.Console.SignIn.Tried.{Try, tried}
use srosha.Console.SignIn.Single.{verify-once, answer-race}
use srosha.Console.SignIn.Whoami.{IsSignedIn, whoami-IsSignedIn}
use srosha.Console.Gate.{Gate}
use srosha.Console.Operators.{set_role, set_person_active}
use srosha.Console.Operators.Governed.{IsGovernedBy, governs-stays}
use srosha.Console.Operators.Refused.{OperatorsRefuse, GovernorsRefuse, Refuses, panel-Refuses}
use srosha.Console.Sources.{is_source}
use srosha.Console.Keys.{issue, revoke, authenticate, no_such_key}
use srosha.Console.Keys.Caller.{IsCaller, authenticate-IsCaller}
use srosha.Console.Keys.Lifecycle.{revoke-authenticate, issue-authenticate}

abbrev mail : Mail
mail = record { parses = λ t. true; to_lower = λ t. t }

abbrev ada : User
ada = record {
  id = text "u1";
  email = text "ada@x";
  role = super_admin;
  is_active = true;
  created_at = 1;
  updated_at = 1;
}

abbrev ben : User
ben = record {
  id = text "u2";
  email = text "ben@x";
  role = customer;
  is_active = true;
  created_at = 2;
  updated_at = 2;
}

abbrev sent : LoginCode
sent = LoginCode.new (text "c1") (text "u1") (text "123456") 100

abbrev shop : Source
shop = record {
  id = text "shop";
  name = text "Shop";
  description = [];
  max_priority = pos 1;
  is_active = true;
  owner_user_id = text "u2";
  approved_at = some 3;
  reviewed_at = some 3;
  review_note = [];
  allow_custom_address = true;
  default_addresses = [];
  created_at = 1;
  updated_at = 3;
}

abbrev tables : Console
tables = record {
  users = ada ∷ (ben ∷ []);
  codes = sent ∷ [];
  sessions = [];
  sources = shop ∷ [];
  keys = [];
  audit = [];
  alerts = [];
  mails = [];
}

abbrev opened : Session
opened = Session.new (text "s1") (text "u1") 300

verified : Under Console
unfolding verify
verified = (verify mail 200 300 (text "s1") (text "ada@x") (text "123456") (tables, [])).1

verified_is :
    verify mail 200 300 (text "s1") (text "ada@x") (text "123456") (tables, [])
    ≡ (ok opened, verified)
unfolding verified normalize_email trim_space find_where text_eqb ensure_active newest LoginCode.new
    count_where LoginCode.check
verified_is = refl

verify-IsOpened_example :
    IsOpened mail 200 300 (text "s1") (text "ada@x") (text "123456") tables opened verified.0
verify-IsOpened_example =
    verify-IsOpened mail 200 300 (text "s1") (text "ada@x") (text "123456") (tables, []) verified
      opened verified_is

abbrev wrong_try : Try
wrong_try = record {
  checked_at = 205;
  opened_at = 305;
  id = text "s3";
  given = text "654321";
  faults = [];
}

abbrev right_try : Try
right_try = record {
  checked_at = 210;
  opened_at = 310;
  id = text "s2";
  given = text "123456";
  faults = fine ∷ [];
}

verify-once_example :
    is_ok
      (verify mail 210 310
        (text "s2")
        (text "ada@x")
        (text "123456")
        (tried mail (text "ada@x") (wrong_try ∷ (right_try ∷ [])) verified.0, fine ∷ [])).0
    ≡ false
verify-once_example =
    verify-once mail 200 300 (text "s1") (text "ada@x") (text "123456") (tables, []) verified opened
      verified_is (wrong_try ∷ (right_try ∷ [])) right_try

answer-race_example :
    let (r, u) = answer 200 300 (text "s1") (text "u1") sent.code sent (tables, []) in
    (is_ok r ≡ true) × (is_ok (answer 210 310 (text "s2") (text "u1") sent.code sent u).0 ≡ true)
unfolding LoginCode.new count_where text_eqb
answer-race_example =
    answer-race 200 300 210 310 (text "s1") (text "s2") (text "u1") sent tables
      (refl, omega arith, omega arith) (refl, omega arith, omega arith) refl refl refl
      (λ e. let same : false ≡ true = (text_eqb_iff (text "s1") (text "s2")).1 e in cc)

seen : Under Console
unfolding whoami
seen = (whoami 400 (text "s1") verified).1

whoami-IsSignedIn_example : IsSignedIn 400 (text "s1") verified.0 ada seen.0
unfolding seen verified normalize_email trim_space find_where text_eqb ensure_active newest
    LoginCode.new count_where LoginCode.check Session.new valid Session.touch
whoami-IsSignedIn_example = whoami-IsSignedIn 400 (text "s1") verified seen ada refl

abbrev gate : Gate
gate = record { alerting = true; id = text "a1"; at = 500 }

governs-stays_example :
    IsGovernedBy (text "u1") (set_role gate 500 (some ada) (text "u2") admin [] (tables, [])).1.0
    × IsGovernedBy
        (text "u1")
        (set_person_active gate 500 (some ada) (text "u2") false [] (tables, [])).1.0
unfolding text_eqb
governs-stays_example = governs-stays gate 500 ada (text "u2") admin false [] (tables, []) refl

panel-Refuses_example :
    OperatorsRefuse none (detailed forbidden not_operator)
    × GovernorsRefuse none (detailed forbidden not_operator)
    × (ben.role ≢ admin
        → ben.role ≢ super_admin
        → OperatorsRefuse (some ben) (detailed forbidden not_operator)
          × GovernorsRefuse (some ben) (detailed forbidden not_operator))
    × (ben.role ≡ admin → GovernorsRefuse (some ben) (detailed forbidden not_super_admin))
    × (ben.role ≡ super_admin
        → (g : Gate) (now : ℕ) (role : Role) (on : Bool) (note : Text)
        → Refuses (detailed invalid_input self_target) (set_role g now (some ben) ben.id role note)
          × Refuses
              (detailed invalid_input self_target)
              (set_person_active g now (some ben) ben.id on note))
panel-Refuses_example = panel-Refuses ben

check_all-new_example :
    let done =
      check_all
        ((text "000000", 110) ∷ ((text "123456", 120) ∷ []))
        (LoginCode.new (text "c1") (text "u1") (text "123456") 100) in
    (accepted done.1 ≤ 1) × (done.0.attempts ≤ 1)
check_all-new_example =
    check_all-new (text "c1") (text "u1") (text "123456") 100
      ((text "000000", 110) ∷ ((text "123456", 120) ∷ []))

keyed : Under Console
unfolding issue
keyed =
    (issue gate (ok (text "key", text "hash")) (text "k1") 600 ben (text "shop") (text "ci")
      (tables, [])).1

abbrev made : Key
made = record {
  id = text "k1";
  source_id = text "shop";
  label = text "ci";
  created_at = 600;
  last_used_at = none;
  expires_at = none;
  revoked_at = none;
}

issue-authenticate_example :
    (src : Source) × (find_where (is_source (text "shop")) tables.sources ≡ some src)
    × (src.owner_user_id ≡ text "u2")
    × (src.is_active ≡ true
        → authenticate 700 (text "hash") (keyed.0, []) ≡ (ok (src, text "k1"), (keyed.0, [])))
unfolding keyed find_where text_eqb
issue-authenticate_example =
    issue-authenticate gate (text "hash") (text "key") (text "k1") 600 ben (text "shop") (text "ci")
      (tables, []) keyed made 700 refl refl

authenticate-IsCaller_example :
    IsCaller 700 (text "hash") keyed.0 shop (text "k1") × (keyed.0 ≡ keyed.0)
unfolding keyed authenticate find_where text_eqb has_passed Source.ensure_active
authenticate-IsCaller_example =
    authenticate-IsCaller 700 (text "hash") (keyed.0, []) (keyed.0, []) shop (text "k1") refl

abbrev gate2 : Gate
gate2 = record { alerting = false; id = text "a2"; at = 800 }

unkeyed : Under Console
unfolding revoke
unkeyed = (revoke gate2 800 ben (text "shop") (text "k1") keyed).1

revoke-authenticate_example :
    authenticate 900 (text "hash") (unkeyed.0, []) ≡ (err no_such_key, (unkeyed.0, []))
unfolding unkeyed keyed find_where text_eqb order_by filter_where count_where
revoke-authenticate_example =
    revoke-authenticate gate2 800 ben (text "shop") (text "k1") keyed unkeyed 900 (text "hash") refl
      ((λ e. refl), tt)
