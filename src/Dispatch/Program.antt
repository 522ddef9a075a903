-- ===== src/Dispatch/Program.antt =====
-- The calls that a dispatcher's worker makes, and programs over them.
use srosha.Prelude.{ℕ, Bool, Option, List, Text}
use srosha.Errs.Result.{Result}
use srosha.Shared.Id.{SharedId}
use srosha.Shared.Channel.{Channel}
use srosha.Shared.Recipient.{Recipient}
use srosha.Delivery.{Time, Delivery, Status, FailureReason}
use srosha.Notification.{Notification, Metadata}
use srosha.Webhook.{Webhook}

-- The sender that `SenderRegistry.For` hands back, by what it was asked for.
pub record SenderRef : Type 0 where
  pub source_id : Text
  pub channel : Channel
  pub sender_name : Text

-- `shared.Message`.
pub record Message : Type 0 where
  pub delivery_id : SharedId
  pub recipient : Recipient
  pub title : Text
  pub body : Text
  pub metadata : Metadata

-- `webhook.Result` and `webhook.Batch`.
pub record Outcome : Type 0 where
  pub delivery_id : SharedId
  pub channel : Channel
  pub address : Text
  pub status : Status
  pub reason : FailureReason
  pub provider_message_id : Text
  pub settled_at : Time

pub record Batch : Type 0 where
  pub id : SharedId
  pub notification_id : SharedId
  pub sent_at : Time
  pub results : List Outcome

pub data Op : Type 0 where
  read_clock draw_id : Op
  read_delivery list_deliveries release read_notification : SharedId → Op
  claim_stale : ℕ → ℕ → ℕ → Op
  claim_announcement webhook_failure webhook_success webhook_deactivate : SharedId → Time → Op
  update_delivery : Delivery → Op
  find_sender : SenderRef → Op
  send_message : SenderRef → Message → Op
  read_webhook : Text → Op
  notify : Webhook → Batch → Op

abbrev pub Reply : Op → Type 0
Reply read_clock = Time
Reply draw_id = SharedId
Reply (read_delivery id) = Result Delivery
Reply (list_deliveries nid) = Result (List Delivery)
Reply (release id) = Result (Unit {0})
Reply (read_notification id) = Result Notification
Reply (webhook_failure id now) = Result ℕ
Reply (claim_stale after lease limit) = Result (List Delivery)
Reply (claim_announcement nid now) = Result Bool
Reply (webhook_success id now) = Result (Unit {0})
Reply (webhook_deactivate id now) = Result (Unit {0})
Reply (update_delivery d) = Result (Unit {0})
Reply (find_sender s) = Result (Unit {0})
Reply (send_message s m) = Result Text
Reply (read_webhook source_id) = Result (Option Webhook)
Reply (notify w b) = Result (Unit {0})

-- A program makes a call and goes on with its reply, or is done.
pub data Prog (A : Type 0) : Type 0 where
  ret : A → Prog A
  call : (o : Op) → (Reply o → Prog A) → Prog A

abbrev pub do_op : (o : Op) → Prog (Reply o)
do_op o = call o ret

infixl 5 ◌>>=◌ ◌>>◌
abbrev pub ◌>>=◌ : {A B : Type 0} → Prog A → (A → Prog B) → Prog B
ret a >>= f = f a
call o k >>= f = call o (λ r. k r >>= f)

abbrev pub ◌>>◌ : {A B : Type 0} → Prog A → Prog B → Prog B
p >> q = p >>= λ _. q
