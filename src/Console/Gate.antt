-- ===== src/Console/Gate.antt =====
-- internal/core/usecase/gate.go, with `Record` of internal/adapter/db/postgres/audit.go: the way that
-- every change of a person goes.
pub mod Kept
use srosha.Prelude.{
  Bool, true, false, Option, none, some, List, [], ◌∷◌, Text, text_eqb, any, if◌then◌else◌,
}
use srosha.Errs.{nil, app, internal}
use srosha.Errs.Result.{Result, ok, err}
use srosha.Effect.{Effect, ◌>>=◌, ◌>>◌, pure, fail, statement, driver_failure}
use srosha.Shared.Id.{SharedId}
use srosha.Delivery.{Time}
use srosha.User.{User}
use srosha.Console.{Console, AuditEntry}

pub record Act : Type 0 where
  pub verb : Text
  pub target_type : Text
  pub target_id : Text
  pub note : Text

-- Whether there is an `Alerter`, and what a call draws.
pub record Gate : Type 0 where
  pub alerting : Bool
  pub id : SharedId
  pub at : Time

abbrev pub entry_of : Gate → User → Act → AuditEntry
entry_of g actor act = record {
  id = g.id;
  at = g.at;
  actor_id = actor.id;
  actor_email = actor.email;
  verb = act.verb;
  target_type = act.target_type;
  target_id = act.target_id;
  note = act.note;
}

unfoldable pub record_audit : AuditEntry → Console → Result (Unit {0}) × Console
record_audit e t =
    if any (λ (x : AuditEntry). text_eqb x.id e.id) t.audit
    then (err driver_failure, t)
    else (ok tt, record t { audit = e ∷ t.audit })

-- `tell`, which is no statement, and is not answered.
abbrev pub tell : Gate → AuditEntry → Effect Console (Unit {0})
tell g e (t, fs) = (ok tt, (if g.alerting then record t { alerts = e ∷ t.alerts } else t, fs))

-- `Do`.
unfoldable pub do_act :
    Gate → Option User → Act → Effect Console (Unit {0}) → Effect Console (Unit {0})
unfolding record_audit
do_act g none act change = fail (app internal nil)
do_act g (some actor) act change = do
  statement (record_audit (entry_of g actor act))
  change
  tell g (entry_of g actor act)
