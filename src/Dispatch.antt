-- ===== src/Dispatch.antt =====
-- internal/core/usecase/dispatch.go with the services it calls (delivery/tracker.go, webhook/
-- service.go): sending one delivery and writing down what happened. A worker is a program: a tree
-- of calls of its environment, so that several workers can be interleaved between any two calls.
-- Log lines are left out.
pub mod Program
pub mod World
pub mod Settled
pub mod Rely
pub mod Recorded
pub mod Acked
pub mod Discipline
pub mod Budget
pub mod Once
use srosha.Prelude.{
  ℕ, ◌+◌, ◌-◌, Bool, true, false, not, ◌||◌, ◌&&◌, Option, none, some, List, [], ◌∷◌, Text, text,
  all, ltb, leb, if◌then◌else◌,
}
use srosha.Errs.{
  Error, nil, is_nil, errors_is, is_type, invalid_input, invalid_transition, already_settled,
  delivery_not_found, notification_not_found, SendKind, transient, permanent, unreachable,
  send_kind_of,
}
use srosha.Errs.Result.{Result, ok, err}
use srosha.Shared.Id.{SharedId}
use srosha.Shared.Channel.{name}
use srosha.Delivery.{
  Time, Delivery, FailureReason, Detail, no_detail, said, error_text, is_settled, mark_sent,
  mark_failed,
}
use srosha.Notification.{Notification, is_expired}
use srosha.Webhook.{Webhook, record_failure}
use Program.{
  Op, read_clock, draw_id, read_delivery, list_deliveries, claim_stale, claim_announcement, release,
  update_delivery, read_notification, find_sender, send_message, read_webhook, notify,
  webhook_success, webhook_failure, webhook_deactivate, Reply, SenderRef, Message, Outcome, Batch,
  Prog, ret, call, do_op, ◌>>=◌, ◌>>◌,
}

pub record Config : Type 0 where
  pub max_webhook_failures : ℕ
  pub max_attempts : ℕ
  pub after : ℕ
  pub give_up : ℕ
  pub lease : ℕ
  pub batch : ℕ

abbrev pub as_error : Result (Unit {0}) → Error
as_error (ok _) = nil
as_error (err e) = e

-- `if err := …; err != nil { return err }` in front of a write.
abbrev pub unless_failed : Error → Prog Error → Prog Error
unless_failed nil next = next
unless_failed e next = ret e

unfoldable pub write : Delivery → Prog Error
write d = do r ← do_op (update_delivery d); ret (as_error r)

-- `Tracker.RecordSent` and `Tracker.RecordFailure`.
unfoldable pub record_sent : Delivery → Text → ℕ → Prog Error
unfolding mark_sent write
record_sent d provider_message_id attempts = do
  now ← do_op read_clock
  let marked = mark_sent provider_message_id attempts now d
  unless_failed marked.1 (write marked.0)

unfoldable pub record_failed : Delivery → FailureReason → Detail → ℕ → Prog Error
unfolding mark_failed write
record_failed d reason detail attempts = do
  now ← do_op read_clock
  let marked = mark_failed reason detail attempts now d
  unless_failed marked.1 (write marked.0)

-- `settled`.
unfoldable pub settled : Error → Error
unfolding errors_is
settled e = if errors_is e invalid_transition || errors_is e already_settled then nil else e

-- `webhook.Service.RecordFailure`: counts in storage, judges on the copy that it holds.
unfoldable pub after_count : Config → Webhook → Result ℕ → Prog (Unit {0})
unfolding record_failure
after_count cfg w (err e) = ret tt
after_count cfg w (ok count) = do
  now ← do_op read_clock
  let judged = record_failure count cfg.max_webhook_failures now w
  if w.is_active && not judged.is_active
      then (do _ ← do_op (webhook_deactivate w.id now); ret tt)
      else ret tt

unfoldable pub record_webhook_failure : Config → Webhook → Prog (Unit {0})
unfolding after_count
record_webhook_failure cfg w = do
  counted ← do_op (webhook_failure w.id w.updated_at)
  after_count cfg w counted

-- `webhook.Service.RecordSuccess`; its error is only logged.
unfoldable pub record_webhook_success : Webhook → Prog (Unit {0})
record_webhook_success w = do now ← do_op read_clock; _ ← do_op (webhook_success w.id now); ret tt

unfoldable pub outcome : Delivery → Outcome
outcome d = record {
  delivery_id = d.id;
  channel = d.recipient.channel;
  address = d.recipient.address;
  status = d.status;
  reason = d.failure_reason;
  provider_message_id = d.provider_message_id;
  settled_at = d.updated_at;
}

unfoldable pub results : List Delivery → List Outcome
unfolding outcome
results [] = []
results (d ∷ ds) = outcome d ∷ results ds

abbrev pub after_told : Config → Webhook → Result (Unit {0}) → Prog (Unit {0})
after_told cfg w (ok _) = record_webhook_success w
after_told cfg w (err e) = record_webhook_failure cfg w

-- What `announce` does once the announcement is its own.
unfoldable pub tell : Config → Notification → Webhook → List Delivery → Prog (Unit {0})
unfolding results
tell cfg n w ds = do
  id ← do_op draw_id
  now ← do_op read_clock
  told ←
      do_op
        (notify w (record { id = id; notification_id = n.id; sent_at = now; results = results ds }))
  after_told cfg w told

abbrev pub active_webhook : Result (Option Webhook) → Option Webhook
active_webhook (err e) = none
active_webhook (ok none) = none
active_webhook (ok (some w)) = if w.is_active then some w else none

abbrev pub is_mine : Result Bool → Bool
is_mine (err e) = false
is_mine (ok b) = b

unfoldable pub announce_to :
    Config → Notification → List Delivery → Option Webhook → Prog (Unit {0})
announce_to cfg n ds none = ret tt
announce_to cfg n ds (some w) = do
  now ← do_op read_clock
  mine ← do_op (claim_announcement n.id now)
  if is_mine mine then tell cfg n w ds else ret tt

unfoldable pub announce_finished : Config → Notification → List Delivery → Prog (Unit {0})
announce_finished cfg n ds = do
  found ← do_op (read_webhook n.source_id)
  announce_to cfg n ds (active_webhook found)

abbrev pub after_list : Config → Notification → Result (List Delivery) → Prog (Unit {0})
after_list cfg n (err e) = ret tt
after_list cfg n (ok ds) =
    if all (λ (d : Delivery). is_settled d.status) ds then announce_finished cfg n ds else ret tt

unfoldable pub announce_message : Config → Notification → Prog (Unit {0})
announce_message cfg n = do listed ← do_op (list_deliveries n.id); after_list cfg n listed

unfoldable pub announce : Config → Option Notification → Prog (Unit {0})
unfolding announce_message
announce cfg none = ret tt
announce cfg (some n) = announce_message cfg n

-- The end of `deliver` and of `fail`: an outcome that is recorded, by us or by another, is
-- announced.
unfoldable pub finish : Config → Option Notification → Error → Prog Error
unfolding announce settled
finish cfg n e = if is_nil (settled e) then (do _ ← announce cfg n; ret nil) else ret (settled e)

unfoldable pub fail : Config → Delivery → Option Notification → FailureReason → Detail → Prog Error
unfolding record_failed finish
fail cfg d n reason detail = do e ← record_failed d reason detail (d.attempts + 1); finish cfg n e

unfoldable pub send_failed : Config → Delivery → Notification → Error → Bool → SendKind → Prog Error
unfolding fail
send_failed cfg d n e last_chance unreachable =
    fail cfg d (some n) FailureReason.not_reachable (error_text e)
send_failed cfg d n e last_chance permanent =
    fail cfg d (some n) FailureReason.permanent (error_text e)
send_failed cfg d n e last_chance transient =
    if last_chance
    then fail cfg d (some n) FailureReason.max_attempts (error_text e)
    else (do _ ← do_op (release d.id); ret e)

after_send : Config → Delivery → Notification → Bool → Result Text → Prog Error
unfolding send_failed record_sent finish send_kind_of
after_send cfg d n last_chance (err e) = send_failed cfg d n e last_chance (send_kind_of e)
after_send cfg d n last_chance (ok provider_id) = do
  e ← record_sent d provider_id (d.attempts + 1)
  finish cfg (some n) e

unfoldable pub message_of : Delivery → Notification → Message
message_of d n = record {
  delivery_id = d.id;
  recipient = d.recipient;
  title = n.title;
  body = n.body;
  metadata = n.metadata;
}

unfoldable pub send : Config → Delivery → Notification → Bool → SenderRef → Prog Error
unfolding after_send message_of
send cfg d n last_chance sender = do
  sent ← do_op (send_message sender (message_of d n))
  after_send cfg d n last_chance sent

abbrev pub sender_of : Notification → Delivery → SenderRef
sender_of n d = record {
  source_id = n.source_id;
  channel = d.recipient.channel;
  sender_name = d.sender_name;
}

-- A refusal of the lookup that is the configuration's reads the same on every attempt.
after_lookup : Config → Delivery → Notification → Bool → Result (Unit {0}) → Prog Error
unfolding send fail is_type
after_lookup cfg d n last_chance (ok _) = send cfg d n last_chance (sender_of n d)
after_lookup cfg d n last_chance (err e) =
    if is_type e invalid_input
    then fail cfg d (some n) FailureReason.no_sender (error_text e)
    else ret e

unfoldable pub deliver_in_time : Config → Delivery → Notification → Bool → Prog Error
unfolding after_lookup
deliver_in_time cfg d n last_chance = do
  found ← do_op (find_sender (sender_of n d))
  after_lookup cfg d n last_chance found

unfoldable pub deliver_message : Config → Delivery → Notification → Bool → Prog Error
unfolding deliver_in_time fail is_expired
deliver_message cfg d n last_chance = do
  now ← do_op read_clock
  if is_expired n now
      then fail cfg d (some n) FailureReason.expired no_detail
      else deliver_in_time cfg d n last_chance

after_message : Config → Delivery → Bool → Result Notification → Prog Error
unfolding deliver_message fail errors_is
after_message cfg d last_chance (ok n) = deliver_message cfg d n last_chance
after_message cfg d last_chance (err e) =
    if errors_is e notification_not_found
    then fail cfg d none FailureReason.permanent (said (text "message is gone"))
    else ret e

unfoldable pub deliver : Config → Delivery → Bool → Prog Error
unfolding after_message
deliver cfg d last_chance = do
  found ← do_op (read_notification d.notification_id)
  after_message cfg d last_chance found

after_read : Config → ℕ → Result Delivery → Prog Error
unfolding deliver errors_is
after_read cfg attempt (err e) = if errors_is e delivery_not_found then ret nil else ret e
after_read cfg attempt (ok d) =
    if is_settled d.status then ret nil else deliver cfg d (leb cfg.max_attempts attempt)

-- `Handle`: `nil` tells the broker that it is done with the event, an error asks for it again.
unfoldable pub handle : Config → SharedId → ℕ → Prog Error
unfolding after_read
handle cfg id attempt = do found ← do_op (read_delivery id); after_read cfg attempt found

-- The loop of `Recover`, whose errors are only logged.
unfoldable pub recover_each : Config → Time → List Delivery → Prog Error
unfolding deliver
recover_each cfg now [] = ret nil
recover_each cfg now (d ∷ ds) = do
  _ ← deliver cfg d (leb (d.updated_at + cfg.give_up) now)
  recover_each cfg now ds

abbrev pub after_claim : Config → Result (List Delivery) → Prog Error
after_claim cfg (err e) = ret e
after_claim cfg (ok ds) = do now ← do_op read_clock; recover_each cfg now ds

unfoldable pub recover : Config → Prog Error
recover cfg = do stale ← do_op (claim_stale cfg.after cfg.lease cfg.batch); after_claim cfg stale
