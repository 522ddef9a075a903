-- ===== src/Dispatch/World.antt =====
-- What the environment does on each call: the tables of the database, and the outside. A statement
-- may fail, before it took effect or after, so that its reply is lost (postgres.go, `failed`).
-- Clocks, identifiers, providers and callbacks answer as they like; the messages handed to a
-- provider and the batches posted to a callback are kept, the newest first.
use srosha.Prelude.{
  ℕ, zero, suc, ◌+◌, ◌≢◌, false, Option, none, some, List, [], ◌∷◌, Text, text_eqb, if◌then◌else◌,
}
pub use srosha.Effect.{Fault, fine, before, after, driver_failure}
use srosha.Errs.{Error, nil, refused, not_found, notification_not_found, webhook_not_found}
use srosha.Errs.Result.{Result, ok, err}
use srosha.Shared.Id.{SharedId}
use srosha.Delivery.{Time}
use srosha.Notification.{Notification}
use srosha.Webhook.{Webhook}
use srosha.Store
use srosha.Store.{Row}
use srosha.Dispatch.Program.{
  Op, read_clock, draw_id, read_delivery, list_deliveries, claim_stale, claim_announcement, release,
  update_delivery, read_notification, find_sender, send_message, read_webhook, notify,
  webhook_success, webhook_failure, webhook_deactivate, Reply, SenderRef, Message, Batch, Prog, ret,
  call,
}

pub record World : Type 0 where
  pub rows : List Row
  pub messages : List Notification
  pub webhooks : List Webhook
  pub sends : List (SenderRef × Message)
  pub notices : List Batch

-- What the environment chooses at one call; of its fields a call reads those that concern it.
pub record Answer : Type 0 where
  pub fault : Fault
  pub clock : Time
  pub id : SharedId
  pub found : Result (Unit {0})
  pub sent : Result Text
  pub told : Result (Unit {0})

-- An error that is returned is not `nil`.
abbrev pub IsSane : Answer → Type 0
IsSane a = (a.found ≢ err nil) × (a.sent ≢ err nil)

-- A statement under the fault that the environment chose.
abbrev pub under {ℓ} : {A : Type ℓ} → Fault → World → Result A × World → Result A × World
under fine w (r, w') = (r, w')
under before w (r, w') = (err driver_failure, w)
under after w (r, w') = (err driver_failure, w')

abbrev write_rows {ℓ} : {A : Type ℓ} → World → A × List Row → A × World
write_rows w (r, rows) = (r, record w { rows = rows })

-- `ReadByID` of notification.go.
unfoldable pub find_message : SharedId → List Notification → Result Notification
unfolding text_eqb
find_message id [] = err (refused not_found notification_not_found)
find_message id (n ∷ ns) = if text_eqb n.id id then ok n else find_message id ns

-- `ReadBySourceID` of webhook.go: one source has at most one.
find_webhook : Text → List Webhook → Option Webhook
unfolding text_eqb
find_webhook source_id [] = none
find_webhook source_id (h ∷ hs) =
    if text_eqb h.source_id source_id then some h else find_webhook source_id hs

-- The statements of queries/webhook.sql, each on the row with that identifier.
update_webhook : SharedId → (Webhook → Webhook) → List Webhook → List Webhook
unfolding text_eqb
update_webhook id f [] = []
update_webhook id f (h ∷ hs) = (if text_eqb h.id id then f h else h) ∷ update_webhook id f hs

failures_of : SharedId → List Webhook → Result ℕ
unfolding text_eqb
failures_of id [] = err (refused not_found webhook_not_found)
failures_of id (h ∷ hs) = if text_eqb h.id id then ok h.consecutive_failures else failures_of id hs

written_to : SharedId → List Webhook → Result (Unit {0})
unfolding failures_of
written_to id hs = elim (failures_of id hs) [ ok n ↦ ok tt | err e ↦ err e ]

-- `RecordWebhookSuccess`, `RecordWebhookFailure` and `SetWebhookActive` with false.
record_webhook_success : SharedId → Time → World → Result (Unit {0}) × World
unfolding update_webhook written_to
record_webhook_success id now w = (
  written_to id w.webhooks,
  record w {
    webhooks =
        update_webhook id (λ h. record h { consecutive_failures = 0; updated_at = now }) w.webhooks;
  },
)

record_webhook_failure : SharedId → Time → World → Result ℕ × World
unfolding update_webhook failures_of
record_webhook_failure id now w =
    let counted =
      update_webhook id
        (λ h. record h { consecutive_failures = h.consecutive_failures + 1; updated_at = now })
        w.webhooks in
    (failures_of id counted, record w { webhooks = counted })

abbrev switched_off : Time → Webhook → Webhook
switched_off now h = if h.is_active then record h { is_active = false; updated_at = now } else h

deactivate_webhook : SharedId → Time → World → Result (Unit {0}) × World
unfolding update_webhook
deactivate_webhook id now w =
    (ok tt, record w { webhooks = update_webhook id (switched_off now) w.webhooks })

unfoldable pub exec : (o : Op) → Answer → World → Reply o × World
unfolding record_webhook_success record_webhook_failure deactivate_webhook find_message find_webhook
exec read_clock a w = (a.clock, w)
exec draw_id a w = (a.id, w)
exec (read_delivery id) a w = under a.fault w (Store.read_by_id id w.rows, w)
exec (list_deliveries nid) a w = under a.fault w (Store.list_by_notification nid w.rows, w)
exec (release id) a w = under a.fault w (ok tt, record w { rows = Store.release id w.rows })
exec (read_notification id) a w = under a.fault w (find_message id w.messages, w)
exec (claim_stale older lease limit) a w =
    under a.fault w (write_rows w (Store.claim_stale a.clock older lease limit w.rows))
exec (claim_announcement nid now) a w =
    let (mine, rows) = Store.claim_announcement nid now w.rows in
    under a.fault w (ok mine, record w { rows = rows })
exec (update_delivery d) a w = under a.fault w (write_rows w (Store.update d w.rows))
exec (find_sender s) a w = (a.found, w)
exec (send_message s m) a w = (a.sent, record w { sends = (s, m) ∷ w.sends })
exec (read_webhook source_id) a w = under a.fault w (ok (find_webhook source_id w.webhooks), w)
exec (notify h b) a w = (a.told, record w { notices = b ∷ w.notices })
exec (webhook_success id now) a w = under a.fault w (record_webhook_success id now w)
exec (webhook_failure id now) a w = under a.fault w (record_webhook_failure id now w)
exec (webhook_deactivate id now) a w = under a.fault w (deactivate_webhook id now w)

-- One worker among others: the environment's answers in their order, and what the others did to
-- the world before each of its calls.
unfoldable pub run :
    {A : Type 0} → Prog A → (ℕ → Answer) → (ℕ → World → World) → ℕ → World → A × World
unfolding exec
run (ret x) answers others i w = (x, w)
run (call o k) answers others i w =
    let done = exec o (answers i) (others i w) in run (k done.0) answers others (i + 1) done.1

-- Many workers, of which any may be the next to make its call.
pub record Turn : Type 0 where
  pub worker : ℕ
  pub answer : Answer

abbrev pub Pool : Type 0
Pool = List (Prog Error)

-- One call of a program.
unfoldable pub step_at : Prog Error → Answer → World → Prog Error × World
unfolding exec
step_at (ret e) a w = (ret e, w)
step_at (call o k) a w = let done = exec o a w in (k done.0, done.1)

-- The i-th worker makes its next call.
unfoldable pub take_turn : ℕ → Answer → Pool → World → Pool × World
unfolding step_at
take_turn i a [] w = ([], w)
take_turn zero a (p ∷ ps) w = let (p', w') = step_at p a w in (p' ∷ ps, w')
take_turn (suc i) a (p ∷ ps) w = let (ps', w') = take_turn i a ps w in (p ∷ ps', w')

unfoldable pub take_turns : List Turn → Pool → World → Pool × World
unfolding take_turn
take_turns [] pool w = (pool, w)
take_turns (t ∷ turns) pool w =
    let (pool', w') = take_turn t.worker t.answer pool w in take_turns turns pool' w'
