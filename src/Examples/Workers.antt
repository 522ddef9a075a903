-- ===== src/Examples/Workers.antt =====
-- The dispatcher (internal/core/usecase/dispatch.go) on a table of one delivery.
use srosha.Prelude.{
  ℕ, zero, suc, ◌≡◌, refl, ◌≢◌, ◌⊎◌, true, none, List, [], ◌∷◌, map, text, leb, pos,
}
use srosha.Errs.{nil}
use srosha.Errs.Result.{ok}
use srosha.Shared.Id.{SharedId}
use srosha.Shared.Channel.{telegram}
use srosha.Delivery.{no_detail, no_failure, pending}
use srosha.Notification.{Notification}
use srosha.Webhook.{Webhook}
use srosha.Store.{Row}
use srosha.Store.Rows.{KeptAll, KeptAll-refl}
use srosha.Dispatch.{Config, handle}
use srosha.Dispatch.World.{World, fine, Answer, IsSane, run, Turn, take_turns}
use srosha.Dispatch.Rely.{IsResolved}
use srosha.Dispatch.Settled.{take_turns-KeptAll}
use srosha.Dispatch.Acked.{run-handle}
use srosha.Dispatch.Once.{Job, handling, recovering, job_of, take_turns-told}
use srosha.Dispatch.Budget.{told}

abbrev config : Config
config = record {
  max_webhook_failures = 3;
  max_attempts = 5;
  after = 60;
  give_up = 900;
  lease = 120;
  batch = 10;
}

abbrev message_id : SharedId
message_id = text "01J9Z0000000000000000MSG01"

abbrev delivery_id : SharedId
delivery_id = text "01J9Z00000000000000000DELA"

abbrev waiting : Row
waiting = record {
  delivery = record {
    id = delivery_id;
    notification_id = message_id;
    recipient = record { channel = telegram; address = text "42" };
    sender_name = [];
    status = pending;
    attempts = 0;
    last_error = no_detail;
    failure_reason = no_failure;
    provider_message_id = [];
    notified_at = none;
    updated_at = 5;
  };
  claimed_at = none;
}

abbrev hello : Notification
hello = record {
  id = message_id;
  source_id = text "shop";
  idempotency_key = [];
  source_name = text "Shop";
  title = [];
  body = text "hello";
  requested_priority = pos 1;
  effective_priority = pos 1;
  expire_at = none;
  created_at = 5;
  metadata = [];
}

abbrev hook : Webhook
hook = record {
  id = text "01J9Z00000000000000000HOOK";
  source_id = text "shop";
  callback_url = text "https://shop.example.org/done";
  created_at = 1;
  updated_at = 1;
  is_active = true;
  consecutive_failures = 0;
}

abbrev start : World
start = record {
  rows = waiting ∷ [];
  messages = hello ∷ [];
  webhooks = hook ∷ [];
  sends = [];
  notices = [];
}

abbrev well : Answer
well = record {
  fault = fine;
  clock = 1000;
  id = text "01J9Z0000000000000000BATCH";
  found = ok tt;
  sent = ok (text "m-1");
  told = ok tt;
}

abbrev by : ℕ → Turn
by i = record { worker = i; answer = well }

-- Two workers take turns on one event, and a third recovers.
abbrev jobs : List Job
jobs = handling config delivery_id 1 ∷ handling config delivery_id 2 ∷ recovering config ∷ []

abbrev rounds : ℕ → List Turn
rounds zero = []
rounds (suc n) = by 0 ∷ by 1 ∷ by 2 ∷ rounds n

abbrev turns : List Turn
turns = rounds 15

-- They do call the callback, once.
told_once : told message_id (take_turns turns (map job_of jobs) start).1.notices ≡ 1
unfolding take_turns handle srosha.Dispatch.recover srosha.Store.claim_stale
    srosha.Dispatch.recover_each srosha.Store.read_by_id srosha.Store.update
    srosha.Store.list_by_notification srosha.Dispatch.announce_finished srosha.Dispatch.announce_to
    srosha.Store.claim_announcement srosha.Dispatch.tell srosha.Dispatch.record_webhook_success
told_once = refl

take_turns-KeptAll_example : KeptAll start.rows (take_turns turns (map job_of jobs) start).1.rows
take_turns-KeptAll_example = take_turns-KeptAll turns (map job_of jobs) start

take_turns-told_example :
    leb (told message_id (take_turns turns (map job_of jobs) start).1.notices) 1 ≡ true
take_turns-told_example = take_turns-told turns jobs start message_id refl

abbrev untouched : ℕ → World → World
untouched j w = w

run-handle_example :
    let done = run (handle config delivery_id 1) (λ j. well) untouched 0 start in
    (done.0 ≢ nil) ⊎ IsResolved delivery_id done.1
run-handle_example = run-handle config delivery_id 1 (λ j. well) untouched start sane kept
  where
    sane : (j : ℕ) → IsSane well
    sane j = ((λ e. cc), (λ e. cc))

    kept : (j : ℕ) (w : World) → KeptAll w.rows (untouched j w).rows
    kept j w = KeptAll-refl w.rows
