-- ===== src/Examples/Entities.antt =====
-- The entities: internal/core/shared and internal/core/domain on concrete values.
use srosha.Prelude.{
  ℕ, ◌+◌, ◌≡◌, refl, ◌≢◌, ◌↔◌, ◌⊎◌, inl, inr, Bool, true, false, not, Option, none, some, List, [],
  ◌∷◌, ◌++◌, map, arith, Text, text, text_eqb, length, all, All, is_empty, ◌≤ℤ◌, pos, negsuc,
}
use srosha.Errs.{nil}
use srosha.Errs.Result.{ok}
use srosha.Shared.Channel
use srosha.Shared.Channel.{Channel, telegram, email, parse_channel}
use srosha.Shared.Priority
use srosha.Shared.Priority.{clamp, priority_name, parse_priority}
use srosha.Shared.Cursor.{Cursor}
use srosha.Shared.Id.{SharedId, upper_byte, parse_id}
use srosha.Shared.Id.Parse.{IsAscii, parse_id-long_s}
use srosha.Shared.Recipient.{Recipient, validate}
use srosha.Delivery.{Delivery, FailureReason, no_detail, no_failure, pending, is_settled}
use srosha.Delivery.Lifecycle.{
  Mark, as_sent, as_failed, mark, mark_lem, mark-IsCoherent, IsCoherent, SameMessage, is_named,
}
use srosha.Delivery.Opening.{new_set}
use srosha.Delivery.Opening.Outcome.{Distinct, opened_all, new_set_sound}
use srosha.Notification
use srosha.Notification.{Notification, Origin, Request}
use srosha.Notification.Accepted.{IsAccepted, new-IsAccepted}
use srosha.Webhook.{Net, UrlPolicy, validate_url}
use srosha.Webhook.Policy.{IsAllowed, validate_url-IsAllowed}
use srosha.Source
use srosha.Source.{Source, is_reachable, ensure_active}
use srosha.Source.Review.{
  Review, queued, active, to_approve, to_suspend, review, decide, next, Follows, decide-next, Event,
  decided, configured, happen_all, registered-ensure_active,
}
use srosha.Source.Routes.{Route}

-- `mail.ParseAddress`, as far as these examples need it.
abbrev any_mail : Text → Bool
any_mail s = not (is_empty s)

abbrev message_id : SharedId
message_id = text "01J9Z0000000000000000MSG01"

abbrev ids : ℕ → SharedId
ids k = text "01J9Z00000000000000000DEL" ++ (b'A' + k) ∷ []

abbrev ann : Recipient
ann = record { channel = email; address = text "ann@example.org" }

abbrev bob : Recipient
bob = record { channel = telegram; address = text "123456789" }

abbrev open_delivery : Delivery
open_delivery = record {
  id = text "01J9Z00000000000000000DELA";
  notification_id = message_id;
  recipient = ann;
  sender_name = [];
  status = pending;
  attempts = 0;
  last_error = no_detail;
  failure_reason = no_failure;
  provider_message_id = [];
  notified_at = none;
  updated_at = 5;
}

new_set_sound_example :
    let ds = opened_all message_id [] 5 ids 0 (ann ∷ bob ∷ []) in
    (ds ≡ ds)
    × ((ann ∷ bob ∷ []) ≢ [])
    × Distinct (ann ∷ bob ∷ [])
    × All (λ r. validate any_mail r ≡ ok tt) (ann ∷ bob ∷ [])
unfolding new_set validate Channel.validate_address srosha.Shared.Recipient.recipient_eqb
new_set_sound_example =
    new_set_sound any_mail message_id [] 5 ids (ann ∷ bob ∷ [])
      (opened_all message_id [] 5 ids 0 (ann ∷ bob ∷ [])) refl

mark_lem_example :
    (((mark (as_sent (text "m-1") 1 9) open_delivery).1 ≡ nil)
      × (open_delivery.status ≡ pending)
      × (is_named (as_sent (text "m-1") 1 9) ≡ true)
      × (is_settled (mark (as_sent (text "m-1") 1 9) open_delivery).0.status ≡ true)
      × SameMessage open_delivery (mark (as_sent (text "m-1") 1 9) open_delivery).0)
    ⊎ (((mark (as_sent (text "m-1") 1 9) open_delivery).1 ≢ nil)
        × ((mark (as_sent (text "m-1") 1 9) open_delivery).0 ≡ open_delivery)
        × ((open_delivery.status ≢ pending) ⊎ (is_named (as_sent (text "m-1") 1 9) ≡ false)))
mark_lem_example = mark_lem (as_sent (text "m-1") 1 9) open_delivery

mark-IsCoherent_example :
    IsCoherent (mark (as_failed FailureReason.expired no_detail 1 9) open_delivery).0
mark-IsCoherent_example =
    mark-IsCoherent (as_failed FailureReason.expired no_detail 1 9) open_delivery
      (inl (refl, refl, refl))

-- The first mark of these is accepted and the second comes too late.
abbrev too_late : List Mark
too_late = as_failed FailureReason.expired no_detail 1 10 ∷ []

abbrev shop : Origin
shop = record { id = text "shop"; name = text "Shop"; max_priority = pos 1 }

abbrev urgent : Request
urgent = record {
  idempotency_key = text "k";
  title = [];
  body = text "hello";
  priority = pos 2;
  expire_at = some 90;
  metadata = [];
}

new-IsAccepted_example : IsAccepted shop urgent 5 (Notification.built message_id shop urgent 5)
unfolding Notification.new Priority.valid
new-IsAccepted_example =
    new-IsAccepted message_id shop urgent 5 (Notification.built message_id shop urgent 5) refl

-- A registered source, and one that was let out.
abbrev registered : Source
registered = record {
  id = text "shop";
  name = text "Shop";
  description = [];
  max_priority = pos 0;
  is_active = false;
  owner_user_id = text "01J9Z000000000000000OWNER1";
  approved_at = none;
  reviewed_at = none;
  review_note = [];
  allow_custom_address = false;
  default_addresses = (telegram, text "42") ∷ [];
  created_at = 5;
  updated_at = 5;
}

decide-next_example :
    Follows
      (next to_approve (is_reachable registered) queued)
      registered
      (decide to_approve 7 registered)
decide-next_example = decide-next to_approve 7 registered queued refl

-- Let out, reconfigured, stopped.
abbrev history : List Event
history =
    decided to_approve 7
    ∷ configured (text "Shop 2") [] ((telegram, text "43") ∷ []) 8
    ∷ decided to_suspend 9
    ∷ []

registered-ensure_active_example :
    (r : Review) × (review (happen_all any_mail history registered) ≡ some r)
    × ((ensure_active (happen_all any_mail history registered) ≡ ok tt) ↔ (r ≡ active))
unfolding Source.new srosha.Prelude.trim_space Channel.validate_address
registered-ensure_active_example =
    registered-ensure_active any_mail (text "shop") (text "01J9Z000000000000000OWNER1")
      (text "Shop") ((telegram, text "42") ∷ []) 5 registered history refl

abbrev by_default : List Route
by_default = record { channel = telegram; address = [] } ∷ []

abbrev lower_id : Text
lower_id = text "01j9z0000000000000000msg01"

parse_id-long_s_example :
    let s = text "01j9z00000000000000mess1" in
    let i = map upper_byte s ++ b'S' ∷ [] in
    (parse_id (s ++ 0xC5 ∷ 0xBF ∷ []) ≡ ok i) × (length i ≡ 25)
unfolding parse_id
parse_id-long_s_example = parse_id-long_s (text "01j9z00000000000000mess1") ascii refl refl
  where
    ascii : IsAscii (text "01j9z00000000000000mess1")
    ascii = ground arith

abbrev too_many_rows : Cursor
too_many_rows = record { limit = pos 5000; after = none }

-- A parser that knows one address, and a host name that is no address of the network.
abbrev known_net : Net
known_net = record {
  parse_url = λ s. some (record {
    scheme = text "https";
    host = text "shop.example.org";
    hostname = text "shop.example.org";
    has_user = false;
  });
  parse_addr = λ s. none;
}

abbrev strict : UrlPolicy
strict = record { allow_insecure = false; allow_private = false }

validate_url-IsAllowed_example :
    (validate_url known_net (text "https://shop.example.org/done") strict ≡ ok tt)
    ↔ IsAllowed known_net strict (text "https://shop.example.org/done")
validate_url-IsAllowed_example =
    validate_url-IsAllowed known_net strict (text "https://shop.example.org/done")
