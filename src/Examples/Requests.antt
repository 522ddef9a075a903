-- ===== src/Examples/Requests.antt =====
-- A request to send (internal/core/usecase/submit.go), and the choice of its identity.
use srosha.Prelude.{◌+◌, ◌≡◌, refl, true, false, none, some, [], ◌∷◌, ◌++◌, text, pos}
use srosha.Errs.Result.{ok}
use srosha.Effect.{fine}
use srosha.Shared.Channel.{telegram}
use srosha.Source.{Source, ensure_active}
use srosha.Credential.{Credential, pick}
use srosha.Credential.Choice.{IsChoice, pick-IsChoice}
use srosha.Submit.{Command, Answer, Tables, Meeting, submit}
use srosha.Submit.Retry.{resubmit}
use srosha.Submit.Stored.{IsHandled, UniqueKeys, submit-IsHandled, submit-UniqueKeys}

abbrev bot : Credential
bot = record {
  id = text "01J9Z0000000000000000CRED1";
  source_id = text "shop";
  channel = telegram;
  name = text "news";
  created_at = 1;
  updated_at = 1;
  is_default = true;
  is_active = true;
}

pick-IsChoice_example : IsChoice (bot ∷ []) (text "news") bot
unfolding pick
pick-IsChoice_example = pick-IsChoice (bot ∷ []) (text "news") bot refl

abbrev shop : Source
shop = record {
  id = text "shop";
  name = text "Shop";
  description = [];
  max_priority = pos 1;
  is_active = true;
  owner_user_id = text "01J9Z000000000000000OWNER1";
  approved_at = some 3;
  reviewed_at = some 3;
  review_note = [];
  allow_custom_address = false;
  default_addresses = (telegram, text "42") ∷ [];
  created_at = 1;
  updated_at = 3;
}

abbrev news : Command
news = record {
  source_id = text "shop";
  idempotency_key = text "k-1";
  title = [];
  body = text "hello";
  priority = pos 2;
  expire_at = none;
  metadata = [];
  routes = record { channel = telegram; address = [] } ∷ [];
  senders = (telegram, text "news") ∷ [];
}

abbrev meeting : Meeting
meeting = record {
  is_mail = λ s. false;
  allowed = ok true;
  source = ok shop;
  credentials = λ c. ok (bot ∷ []);
  first_read = ok tt;
  begin = ok tt;
  write_message = ok tt;
  write_deliveries = ok tt;
  commit = fine;
  second_read = ok tt;
  new_id = text "01J9Z0000000000000000MSG01";
  ids = λ k. text "01J9Z00000000000000000DEL" ++ (b'A' + k) ∷ [];
  now = 5;
  others = λ t. t;
}

abbrev empty : Tables
empty = record { messages = []; deliveries = []; events = [] }

-- The second time, the answer is that of the first.
abbrev once : Tables
once = (submit meeting news empty).1

submit-IsHandled_example : IsHandled meeting news empty (submit meeting news empty)
submit-IsHandled_example = submit-IsHandled meeting news empty

submit-UniqueKeys_example : UniqueKeys (submit meeting news empty).1.messages
submit-UniqueKeys_example = submit-UniqueKeys meeting news empty tt tt

abbrev first_answer : Answer
first_answer = record {
  id = text "01J9Z0000000000000000MSG01";
  effective_priority = pos 1;
  downgraded = true;
  duplicate = false;
}

resubmit_example : submit meeting news once ≡ (ok (record first_answer { duplicate = true }), once)
unfolding submit srosha.Submit.admit ensure_active srosha.Source.Routes.resolve_routes
    srosha.Shared.Channel.channel_eqb srosha.Shared.Recipient.validate
    srosha.Shared.Channel.validate_address pick srosha.Submit.written srosha.Notification.new
    srosha.Submit.origin srosha.Submit.request srosha.Shared.Priority.valid
    srosha.Delivery.Opening.new_set srosha.Submit.accepted srosha.Shared.Priority.clamp
    srosha.Notification.was_downgraded
resubmit_example =
    resubmit meeting meeting news empty shop shop first_answer refl refl refl first refl refl
  where
    first : (submit meeting news empty).0 ≡ ok first_answer
    first = refl
