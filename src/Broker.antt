-- ===== src/Broker.antt =====
-- internal/adapter/mq/nats: the consumer of dispatch events (consumer.go), and the subjects that they
-- are published on (subjects.go, stream.go). The client of the broker and the decoder of JSON are
-- given.
pub mod Replies
use srosha.Prelude.{
  ℕ, zero, suc, ◌-◌, ◌*◌, Bool, true, false, not, ◌||◌, Option, none, some, List, [], ◌∷◌, ◌++◌,
  Text, text, any, length, is_empty, to_lower, leb, ltb, ◌==◌, if◌then◌else◌, ℤ, pos, negsuc, ltb_ℤ,
}
use srosha.Errs.{
  Error, app, both, nil, str, internal, unavailable, unknown_channel, detailed, is_nil,
}
use srosha.Errs.Result.{Result, ok, err, ◌>>◌, refuse_if}
use srosha.Table.{limited}
use srosha.Shared.Id.{SharedId, is_zero}
use srosha.Shared.Channel.{name, valid}
use srosha.Shared.Priority.{priority_name}
use srosha.Submit.{DispatchEvent}

abbrev pub second : ℕ
second = 1_000_000_000

-- `backoff`.
abbrev pub backoff : List ℕ
backoff = 5 * second ∷ (30 * second ∷ (120 * second ∷ (600 * second ∷ [])))

-- `delaysFor`.
unfoldable pub delays_for : ℕ → List ℕ
unfolding limited
delays_for max_attempts =
    if leb (length backoff) max_attempts then backoff else limited max_attempts backoff

-- `Subjects` is its root; `NewSubjects`.
abbrev pub is_reserved : ℕ → Bool
is_reserved c = (c == b'.') || (c == b'>') || (c == b'*') || (c == b' ') || (c == 9)

unfoldable pub new_subjects : Text → Result Text
new_subjects root = do
  refuse_if (is_empty root) (app internal nil)
  refuse_if (any is_reserved root) (app internal str)
  ok root

-- `Wildcard`, and `join` at the two tokens of an event.
abbrev pub wildcard : Text → Text
wildcard root = root ++ (text "." ++ text ">")

abbrev pub join : Text → Text → Text → Text
join root first last = root ++ (text "." ++ (first ++ (text "." ++ last)))

-- `ForDispatch`.
abbrev subject_at : Text → DispatchEvent → Option Text → Result Text
unfolding to_lower
subject_at root e none = err (app internal str)
subject_at root e (some priority) = ok (join root (name e.channel) (to_lower priority))

unfoldable pub for_dispatch : Text → DispatchEvent → Result Text
unfolding subject_at priority_name name
for_dispatch root e = do
  refuse_if (is_empty root) (app internal nil)
  refuse_if (not (valid e.channel)) (detailed internal unknown_channel)
  subject_at root e (priority_name e.priority)

-- `ConsumerConfig`, with the name and the root of the stream.
pub record ConsumerConfig : Type 0 where
  pub stream : Text
  pub root : Text
  pub max_attempts : ℤ
  pub ack_wait : ℤ
  pub max_in_flight : ℤ

-- What `handle` reads of a `Consumer`: how long to wait after each failure.
pub record Consumer : Type 0 where
  pub delays : List ℕ

abbrev pub magnitude_of : ℤ → ℕ
magnitude_of (pos n) = n
magnitude_of (negsuc n) = 0

-- `NewConsumer`, at what the broker answers.
unfoldable pub new_consumer : Option Error → ConsumerConfig → Result Consumer
unfolding delays_for
new_consumer refusal cfg = do
  refuse_if (is_empty cfg.stream || is_empty cfg.root) (app internal nil)
  refuse_if (not (ltb_ℤ (pos 0) cfg.max_attempts)) (app internal nil)
  refuse_if (not (ltb_ℤ (pos 0) cfg.ack_wait)) (app internal nil)
  refuse_if (not (ltb_ℤ (pos 0) cfg.max_in_flight)) (app internal nil)
  created refusal
  ok (record { delays = delays_for (magnitude_of cfg.max_attempts) })
  where
    created : Option Error → Result (Unit {0})
    created none = ok tt
    created (some e) = err (app unavailable (both str e))

unfoldable pub element : ℕ → List ℕ → Option ℕ
element n [] = none
element zero (x ∷ xs) = some x
element (suc n) (x ∷ xs) = element n xs

-- `delay`; an index out of range, which panics, is `none`. `between` is its two tests.
unfoldable pub between : ℕ → ℕ → ℕ
between longest attempt =
    let raised = if ltb attempt 1 then 1 else attempt in
    if ltb longest raised then longest else raised

unfoldable pub delay : List ℕ → ℕ → Option ℕ
unfolding element between
delay delays attempt =
    let bounded = between (length delays) attempt in
    if bounded == 0 then none else element (bounded - 1) delays

-- A message of the broker: how often it was delivered, if it has metadata, and its data.
pub record Msg : Type 0 where
  pub num_delivered : Option ℕ
  pub payload : Text

-- What the broker is told of a message.
pub data Reply : Type 0 where
  ack term : Reply
  nak : ℕ → Reply

-- `decode` of codec.go.
abbrev pub read_event : Option DispatchEvent → Option DispatchEvent
read_event none = none
read_event (some e) = if is_zero e.delivery_id then none else some e

abbrev pub naked : Option ℕ → Option Reply
naked none = none
naked (some d) = some (nak d)

-- The decoder, and `Dispatcher.Handle`.
module _ (unmarshal : Text → Option DispatchEvent) (dispatch : SharedId → ℕ → Error) where
  abbrev pub reply_to : List ℕ → ℕ → Option DispatchEvent → Option Reply
  unfolding delay
  reply_to delays attempt none = some term
  reply_to delays attempt (some e) =
      if is_nil (dispatch e.delivery_id attempt) then some ack else naked (delay delays attempt)

  -- `handle`; `none` is a panic.
  unfoldable pub handle : Consumer → Msg → Option Reply
  unfolding reply_to
  handle c msg = elim msg.num_delivered [
    | none ↦ some term
    | some attempt ↦ reply_to c.delays attempt (read_event (unmarshal msg.payload))
  ]
