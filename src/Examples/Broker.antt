-- ===== src/Examples/Broker.antt =====
-- The consumer of events, on a message whose delivery is to be tried again.
use srosha.Prelude.{◌≡◌, refl, ◌*◌, none, some, text, pos}
use srosha.Errs.{app, internal, nil}
use srosha.Errs.Result.{ok}
use srosha.Shared.Channel.{telegram}
use srosha.Broker.{
  ConsumerConfig, Consumer, Msg, Reply, new_consumer, delays_for, handle, nak, second,
}
use srosha.Broker.Replies.{Fits, handle-Fits}
use srosha.Submit.{DispatchEvent}

abbrev config : ConsumerConfig
config = record {
  stream = text "NOTIFY";
  root = text "notify";
  max_attempts = pos 3;
  ack_wait = pos 30;
  max_in_flight = pos 8;
}

abbrev consumer : Consumer
consumer = record { delays = delays_for 3 }

abbrev first_event : DispatchEvent
first_event = record {
  delivery_id = text "d1";
  source_id = text "s1";
  channel = telegram;
  priority = pos 0;
}

abbrev ninth : Msg
ninth = record { num_delivered = some 9; payload = text "{}" }

consumer_made : new_consumer none config ≡ ok consumer
unfolding new_consumer delays_for
consumer_made = refl

handle_test :
    handle (λ t. some first_event) (λ id attempt. app internal nil) consumer ninth
    ≡ some (nak (120 * second))
unfolding handle delays_for
handle_test = refl

handle-Fits_example :
    (r : Reply) × (handle (λ t. some first_event) (λ id attempt. app internal nil) consumer ninth
      ≡ some r)
    × Fits (λ t. some first_event) (λ id attempt. app internal nil) ninth r
handle-Fits_example =
    handle-Fits (λ t. some first_event) (λ id attempt. app internal nil) none config consumer ninth
      consumer_made
