-- ===== src/Submit.antt =====
-- internal/core/usecase/submit.go, with the services it calls: accepting a request to send. A
-- request runs against the tables; `others` is what other requests commit between the check of
-- the idempotency key and the transaction. Log lines are left out.
pub mod Stored
pub mod Retry
use srosha.Prelude.{
  ℕ, Bool, true, false, not, ◌&&◌, ◌||◌, Option, none, some, List, [], ◌∷◌, ◌++◌, map, Text,
  text_eqb, is_empty, if◌then◌else◌,
}
use srosha.Errs.{
  Error, nil, detailed, errors_is, too_many, rate_limited, duplicate_entry, duplicate_key,
}
use srosha.Errs.Result.{Result, ok, err, ◌>>=◌, ◌>>◌, refuse_if}
use srosha.Effect.{Fault, fine, before, after, driver_failure}
use srosha.Shared.Id.{SharedId}
use srosha.Shared.Channel.{Channel}
use srosha.Shared.Priority.{Priority}
use srosha.Shared.Recipient.{Recipient}
use srosha.Delivery.{Delivery, Time}
use srosha.Delivery.Opening.{SenderNames, IdFunc, new_set}
use srosha.Notification
use srosha.Notification.{Notification, Origin, Request, Metadata, was_downgraded}
use srosha.Source.{Source, ensure_active}
use srosha.Source.Routes.{Route, resolve_routes}
use srosha.Credential.{Credential, pick}

pub record Command : Type 0 where
  pub source_id : Text
  pub idempotency_key : Text
  pub title : Text
  pub body : Text
  pub priority : Priority
  pub expire_at : Option Time
  pub metadata : Metadata
  pub routes : List Route
  pub senders : SenderNames

pub record Answer : Type 0 where
  pub id : SharedId
  pub effective_priority : Priority
  pub downgraded : Bool
  pub duplicate : Bool

-- `shared.DispatchEvent`.
pub record DispatchEvent : Type 0 where
  pub delivery_id : SharedId
  pub source_id : Text
  pub channel : Channel
  pub priority : Priority

-- The tables, and the events that were handed to the broker, which may lose them.
pub record Tables : Type 0 where
  pub messages : List Notification
  pub deliveries : List Delivery
  pub events : List DispatchEvent

-- What the request meets: the limiter's verdict, the row of the source, its credentials, whether
-- each statement fails, the beginning and the commit of the transaction among them, and what
-- others commit meanwhile.
pub record Meeting : Type 0 where
  pub is_mail : Text → Bool
  pub allowed : Result Bool
  pub source : Result Source
  pub credentials : Channel → Result (List Credential)
  pub first_read : Result (Unit {0})
  pub begin : Result (Unit {0})
  pub write_message : Result (Unit {0})
  pub write_deliveries : Result (Unit {0})
  pub commit : Fault
  pub second_read : Result (Unit {0})
  pub new_id : SharedId
  pub ids : IdFunc
  pub now : Time
  pub others : Tables → Tables

-- `source.Service.Admit` and `Load`.
unfoldable pub admit : Meeting → Result Source
admit m = do
  allowed ← m.allowed
  refuse_if (not allowed) (detailed too_many rate_limited)
  s ← m.source
  ensure_active s
  ok s

-- The message of a source with a key: the statement of `ReadByIdempotencyKey`. An empty key is
-- stored as NULL, which no key equals.
abbrev has_key : Text → Text → Notification → Bool
has_key source_id key n =
    not (is_empty key) && (text_eqb n.source_id source_id && text_eqb n.idempotency_key key)

unfoldable pub with_key : Text → Text → List Notification → Option Notification
with_key source_id key [] = none
with_key source_id key (n ∷ ns) =
    if has_key source_id key n then some n else with_key source_id key ns

unfoldable pub duplicate_of : Notification → Answer
duplicate_of n = record {
  id = n.id;
  effective_priority = n.effective_priority;
  downgraded = was_downgraded n;
  duplicate = true;
}

unfoldable pub accepted : Notification → Answer
accepted n = record {
  id = n.id;
  effective_priority = n.effective_priority;
  downgraded = was_downgraded n;
  duplicate = false;
}

abbrev pub answered : Option Notification → Option Answer
answered none = none
answered (some n) = some (duplicate_of n)

-- The check before anything is built.
looked_up : Meeting → Command → Tables → Result (Option Answer)
unfolding with_key
looked_up m cmd t =
    if is_empty cmd.idempotency_key
    then ok none
    else m.first_read >> ok (answered (with_key cmd.source_id cmd.idempotency_key t.messages))

unfoldable pub check_senders : Meeting → SenderNames → Result (Unit {0})
check_senders m [] = ok tt
check_senders m ((c, name) ∷ rest) =
    if is_empty name
    then check_senders m rest
    else do creds ← m.credentials c; _ ← pick creds name; check_senders m rest

unfoldable pub origin : Source → Origin
origin s = record { id = s.id; name = s.name; max_priority = s.max_priority }

unfoldable pub request : Command → Request
request cmd = record {
  idempotency_key = cmd.idempotency_key;
  title = cmd.title;
  body = cmd.body;
  priority = cmd.priority;
  expire_at = cmd.expire_at;
  metadata = cmd.metadata;
}

abbrev pub is_taken : Notification → List Notification → Bool
is_taken n ns = elim (with_key n.source_id n.idempotency_key ns) [ none ↦ false | some _ ↦ true ]

-- What is in the transaction: `notification.Service.Create` and `delivery.Service.Create`. The
-- insert takes a conflict on the key as no row written.
unfoldable pub written :
    Meeting
    → Command
    → Source
    → List Recipient
    → List Notification
    → Result (Notification × List Delivery)
written m cmd s rs ns = do
  n ← Notification.new m.new_id (origin s) (request cmd) m.now
  m.write_message
  refuse_if (is_taken n ns) (detailed duplicate_entry duplicate_key)
  ds ← new_set m.is_mail n.id rs cmd.senders (some m.ids) m.now
  m.write_deliveries
  ok (n, ds)

abbrev pub second_answer : Option Notification → Error → Result Answer
second_answer none cause = err cause
second_answer (some n) cause = ok (duplicate_of n)

-- `raced`: an error of the second read is the original error.
unfoldable pub raced : Meeting → Command → List Notification → Error → Result Answer
raced m cmd ns cause = elim m.second_read [
  | err e ↦ err cause
  | ok _ ↦ second_answer (with_key cmd.source_id cmd.idempotency_key ns) cause
]

unfoldable pub event : Notification → Delivery → DispatchEvent
event n d = record {
  delivery_id = d.id;
  source_id = n.source_id;
  channel = d.recipient.channel;
  priority = n.effective_priority;
}

-- The end of a transaction whose statements succeeded: a commit that fails, before it took effect
-- or after, is an error that is no duplicate, and nothing is published.
unfoldable pub ended : Notification → List Delivery → Tables → Fault → Result Answer × Tables
unfolding accepted event
ended n ds t before = (err driver_failure, t)
ended n ds t after =
    (err driver_failure, record t { messages = n ∷ t.messages; deliveries = ds ++ t.deliveries })
ended n ds t fine = (
  ok (accepted n),
  record {
    messages = n ∷ t.messages;
    deliveries = ds ++ t.deliveries;
    events = map (event n) ds ++ t.events;
  },
)

-- What `Submit` makes of `Atomically`: the transaction ends, or it rolls back and leaves what the
-- others committed.
committed :
    Meeting → Command → Tables → Result (Notification × List Delivery) → Result Answer × Tables
unfolding raced ended
committed m cmd t (err e) =
    if errors_is e duplicate_key then (raced m cmd t.messages e, t) else (err e, t)
committed m cmd t (ok (n, ds)) = ended n ds t m.commit

to_be_sent : Meeting → Command → Tables → Source → Result (List Recipient) → Result Answer × Tables
unfolding committed
to_be_sent m cmd t s (err e) = (err e, t)
to_be_sent m cmd t s (ok rs) =
    committed m cmd (m.others t) (m.begin >> written m cmd s rs (m.others t).messages)

resolved : Meeting → Command → Source → Result (List Recipient)
unfolding check_senders
resolved m cmd s = do rs ← resolve_routes m.is_mail s cmd.routes; check_senders m cmd.senders; ok rs

after_look : Meeting → Command → Tables → Source → Result (Option Answer) → Result Answer × Tables
unfolding to_be_sent resolved
after_look m cmd t s (err e) = (err e, t)
after_look m cmd t s (ok (some answer)) = (ok answer, t)
after_look m cmd t s (ok none) = to_be_sent m cmd t s (resolved m cmd s)

after_admit : Meeting → Command → Tables → Result Source → Result Answer × Tables
unfolding after_look looked_up
after_admit m cmd t (err e) = (err e, t)
after_admit m cmd t (ok s) = after_look m cmd t s (looked_up m cmd t)

unfoldable pub submit : Meeting → Command → Tables → Result Answer × Tables
unfolding after_admit admit
submit m cmd t = after_admit m cmd t (admit m)
