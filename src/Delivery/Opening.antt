-- ===== src/Delivery/Opening.antt =====
-- `NewSet` (internal/core/domain/delivery/entity.go): one delivery for each recipient of a message.
pub mod Outcome
use srosha.Prelude.{
  ℕ, suc, ◌+◌, Bool, true, false, Option, none, some, List, [], ◌∷◌, Text, any, is_empty,
  if◌then◌else◌, ◌==◌,
}
use srosha.Errs.{
  detailed, refused, internal, invalid_input, missing_notification, missing_id_func, invalid_id,
  no_recipients, duplicate_recipient, nil,
}
use srosha.Errs.Result.{Result, ok, err, ◌>>=◌, ◌>>◌, refuse_if}
use srosha.Shared.Id.{SharedId, is_zero}
use srosha.Shared.Channel.{Channel, channel_eqb}
use srosha.Shared.Recipient.{Recipient, validate, recipient_eqb}
use srosha.Delivery.{Time, pending, no_failure, no_detail, Delivery}

-- `map[shared.Channel]string`; a key that is absent reads as the empty text.
abbrev pub SenderNames : Type 0
SenderNames = List (Channel × Text)

unfoldable pub sender_for : SenderNames → Channel → Text
sender_for [] c = []
sender_for ((d, name) ∷ m) c = if channel_eqb d c then name else sender_for m c

-- A generator of identifiers: the n-th call from now gives `ids n`.
abbrev pub IdFunc : Type 0
IdFunc = ℕ → SharedId

unfoldable pub opened : SharedId → SenderNames → Time → Recipient → SharedId → Delivery
unfolding sender_for
opened notification_id senders now r id = record {
  id = id;
  notification_id = notification_id;
  recipient = r;
  sender_name = sender_for senders r.channel;
  status = pending;
  attempts = 0;
  last_error = no_detail;
  failure_reason = no_failure;
  provider_message_id = [];
  notified_at = none;
  updated_at = now;
}

module _ (is_mail : Text → Bool) (notification_id : SharedId) (senders : SenderNames) (now : Time)
    (ids : IdFunc) where
  -- The loop: `seen` holds the recipients so far, `k` counts the identifiers that were drawn.
  unfoldable pub open_each : List Recipient → ℕ → List Recipient → Result (List Delivery)
  unfolding opened
  open_each seen k [] = ok []
  open_each seen k (r ∷ rs) = do
    validate is_mail r
    refuse_if (any (recipient_eqb r) seen) (detailed invalid_input duplicate_recipient)
    refuse_if (is_zero (ids k)) (refused internal invalid_id)
    rest ← open_each (r ∷ seen) (k + 1) rs
    ok (opened notification_id senders now r (ids k) ∷ rest)

abbrev pub no_one : List Recipient → Bool
no_one [] = true
no_one (_ ∷ _) = false

unfoldable pub new_set :
    (Text → Bool)
    → SharedId
    → List Recipient
    → SenderNames
    → Option IdFunc
    → Time
    → Result (List Delivery)
unfolding open_each
new_set is_mail notification_id recipients senders none now = do
  refuse_if (is_zero notification_id) (refused internal missing_notification)
  err (refused internal missing_id_func)
new_set is_mail notification_id recipients senders (some ids) now = do
  refuse_if (is_zero notification_id) (refused internal missing_notification)
  refuse_if (now == 0) (refused internal invalid_id)
  refuse_if (no_one recipients) (refused invalid_input no_recipients)
  open_each is_mail notification_id senders now ids [] 0 recipients
