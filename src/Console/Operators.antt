-- ===== src/Console/Operators.antt =====
-- internal/core/usecase/operator.go, operator_people.go and operator_read.go: what an operator may do
-- about sources and people, and sees of them.
pub mod Reads
pub mod Governed
pub mod Refused
use srosha.Prelude.{
  ℕ, ◌+◌, ◌-◌, Bool, true, false, not, ◌&&◌, ◌||◌, Option, none, some, List, [], ◌∷◌, ◌++◌, Text,
  text, text_eqb, any, length, leb, ltb, is_empty, trim_space, if◌then◌else◌,
}
use srosha.Errs.{
  Error, nil, app, str, refused, detailed, forbidden, invalid_input, not_found, not_operator,
  not_super_admin, self_target,
}
use srosha.Errs.Result.{Result, ok, err, changed_to, refuse_if}
use srosha.Effect.{Effect, ◌>>=◌, ◌>>◌, pure, lift, statement, query}
use srosha.Table.{filter_where, count_where, change_where, order_by, limited, wrote}
use srosha.Shared.Id.{SharedId}
use srosha.Delivery.{Time}
use srosha.Source.{Source, approve, refuse, suspend, restore}
use srosha.User.{User, Role, is_operator, is_super_admin, change_role}
use srosha.Console.{Console, AuditEntry}
use srosha.Console.SignIn.{is_user, read_user}
use srosha.Console.Gate.{Gate, Act, do_act}
use srosha.Console.Sources.{source_kind, read_source, update_review, list_for_review, list_all}

abbrev pub max_operator_note_len : ℕ
max_operator_note_len = 500

abbrev pub act_source_approve : Text
act_source_approve = text "source.approve"

abbrev pub act_source_refuse : Text
act_source_refuse = text "source.refuse"

abbrev pub act_source_suspend : Text
act_source_suspend = text "source.suspend"

abbrev pub act_source_restore : Text
act_source_restore = text "source.restore"

abbrev pub act_user_role : Text
act_user_role = text "user.role"

abbrev pub act_user_deactivate : Text
act_user_deactivate = text "user.deactivate"

abbrev pub act_user_activate : Text
act_user_activate = text "user.activate"

abbrev pub source_decision_verbs : List Text
source_decision_verbs =
    act_source_approve ∷ (act_source_refuse ∷ (act_source_suspend ∷ (act_source_restore ∷ [])))

-- `truncate`, of rows that were read with one more than the limit.
unfoldable pub truncate : {A : Type 0} → ℕ → List A → List A × Bool
truncate limit rows = if ltb limit (length rows) then (limited limit rows, true) else (rows, false)

-- `mayOperate` and `mayGovernPeople`.
unfoldable pub may_operate : Option User → Result (Unit {0})
may_operate none = err (detailed forbidden not_operator)
may_operate (some u) = if is_operator u.role then ok tt else err (detailed forbidden not_operator)

unfoldable pub may_govern : Option User → Result (Unit {0})
unfolding may_operate
may_govern none = err (detailed forbidden not_operator)
may_govern (some u) =
    if is_operator u.role
    then if is_super_admin u.role then ok tt else err (detailed forbidden not_super_admin)
    else err (detailed forbidden not_operator)

unfoldable pub for_decision : Option User → Text → Effect Console Source
unfolding may_operate read_source
for_decision actor id = do lift (may_operate actor); query (read_source id)

unfoldable pub decided : Gate → Option User → Text → Text → Source → Effect Console (Unit {0})
unfolding do_act update_review
decided g actor verb note s =
    do_act g actor
      (record { verb = verb; target_type = source_kind; target_id = s.id; note = note })
      (statement (update_review s))

-- `Approve`.
unfoldable pub approve_source : Gate → Time → Option User → Text → Effect Console (Unit {0})
unfolding for_decision approve decided
approve_source g now actor id = do
  s ← for_decision actor id
  approved ← lift (changed_to (approve now s))
  decided g actor act_source_approve [] approved

-- `Refuse`.
unfoldable pub refuse_source : Gate → Time → Option User → Text → Text → Effect Console (Unit {0})
unfolding for_decision refuse decided
refuse_source g now actor id note = do
  s ← for_decision actor id
  declined ← lift (changed_to (refuse note now s))
  decided g actor act_source_refuse declined.review_note declined

abbrev pub check_note : Text → Result (Unit {0})
check_note note =
    refuse_if (ltb max_operator_note_len (length (trim_space note))) (app invalid_input str)

-- `Suspend`.
unfoldable pub suspend_source : Gate → Time → Option User → Text → Text → Effect Console (Unit {0})
unfolding for_decision suspend decided
suspend_source g now actor id note = do
  s ← for_decision actor id
  lift (check_note note)
  suspended ← lift (changed_to (suspend now s))
  decided g actor act_source_suspend (trim_space note) suspended

-- `Restore`.
unfoldable pub restore_source : Gate → Time → Option User → Text → Effect Console (Unit {0})
unfolding for_decision restore decided
restore_source g now actor id = do
  s ← for_decision actor id
  restored ← lift (changed_to (restore now s))
  decided g actor act_source_restore [] restored

-- users: `UpdateRole` and `SetActive`.
unfoldable pub update_role : User → Console → Result (Unit {0}) × Console
update_role u t = (
  wrote (count_where (is_user u.id) t.users) (app not_found str),
  record t {
    users =
        change_where (is_user u.id) (λ row. record row { role = u.role; updated_at = u.updated_at })
          t.users;
  },
)

unfoldable pub set_active : User → Console → Result (Unit {0}) × Console
set_active u t = (
  wrote (count_where (is_user u.id) t.users) (app not_found str),
  record t {
    users =
        change_where (is_user u.id)
          (λ row. record row { is_active = u.is_active; updated_at = u.updated_at }) t.users;
  },
)

-- `if id == actor.ID`.
unfoldable pub not_self : Option User → SharedId → Result (Unit {0})
not_self none id = ok tt
not_self (some u) id = refuse_if (text_eqb id u.id) (detailed invalid_input self_target)

abbrev pub user_kind : Text
user_kind = text "user"

-- The checks of `SetRole` and `SetPersonActive`, and the person that is meant.
unfoldable pub for_person : Option User → SharedId → Text → Effect Console User
unfolding may_govern not_self read_user
for_person actor id note = do
  lift (may_govern actor)
  lift (not_self actor id)
  target ← query (read_user id)
  lift (check_note note)
  pure target

-- `SetRole`.
unfoldable pub set_role :
    Gate → Time → Option User → SharedId → Role → Text → Effect Console (Unit {0})
unfolding for_person change_role do_act update_role
set_role g now actor id role note = do
  target ← for_person actor id note
  changed ← lift (changed_to (change_role role now target))
  do_act g actor
      (record {
        verb = act_user_role;
        target_type = user_kind;
        target_id = changed.id;
        note = trim_space note;
      })
      (statement (update_role changed))

-- `SetPersonActive`.
unfoldable pub set_person_active :
    Gate → Time → Option User → SharedId → Bool → Text → Effect Console (Unit {0})
unfolding for_person do_act set_active
set_person_active g now actor id on note = do
  target ← for_person actor id note
  do_act g actor
      (record {
        verb = if on then act_user_activate else act_user_deactivate;
        target_type = user_kind;
        target_id = target.id;
        note = trim_space note;
      })
      (statement (set_active (record target { is_active = on; updated_at = now })))
